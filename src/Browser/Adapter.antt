-- ===== src/Browser/Adapter.antt =====
-- `BrowserAdapter` of extension/src/core/browser/types.ts: the calls of the browser, whose state is
-- explicit. A call that rejects is `none` or `false`; of `getNode`, `none` is the null of an unknown
-- id, and an error of another kind is not modelled.
use pontis.Base.{ℕ, String, Bool, Option, List}
use pontis.Protocol.{NodeType}
use pontis.Browser.{BrowserNode}

pub record NewNode : Type 0 where
  pub title : String
  pub url : Option String
  pub index : Option ℕ

pub record NodeChanges : Type 0 where
  pub title : Option String
  pub url : Option String

pub record Adapter (Browser : Type 0) : Type 0 where
  pub get_node : Browser → String → Option BrowserNode
  pub get_children : Browser → String → Option (List BrowserNode)
  pub create : String → NewNode → Browser → Option BrowserNode × Browser
  pub update : String → NodeChanges → Browser → Bool × Browser
  pub move : String → String → Option ℕ → Browser → Bool × Browser
  pub remove_bookmark : String → Browser → Bool × Browser
  pub remove_subtree : String → Browser → Bool × Browser

unfoldable pub remove_by_type :
    {Browser : Type 0} → Adapter Browser → String → NodeType → Browser → Bool × Browser
remove_by_type adapter id NodeType.folder browser = adapter.remove_subtree id browser
remove_by_type adapter id NodeType.bookmark browser = adapter.remove_bookmark id browser
