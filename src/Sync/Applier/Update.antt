-- ===== src/Sync/Applier/Update.antt =====
-- `applyUpdateField` of extension/src/core/sync/remoteChangeApplier.ts.
use Prim.Native.String
use pontis.Base.{ℕ, String, Bool, true, false, Option, none, some, ◌==◌, if◌then◌else◌}
use pontis.Base.Table.{pair_key}
use pontis.Browser.Adapter.{Adapter, NodeChanges}
use pontis.Protocol.{OpType, ChangeWire}
use pontis.Store.{LocalNodeRecord, ExpectedMutationRecord, PontisDb, Level, is_text}
use pontis.Sync.Events.Outbox.{put_local}
use pontis.Sync.Applied.{Local, Applied}
use pontis.Sync.Applier.Commit.{note, advance_to, commit, expectation_of, expect}

-- The message of `UnmappedProjectionError`, with a revision printed as `decimal`.
abbrev pub unmapped_message : (ℕ → String) → String → String → ℕ → String
unmapped_message decimal kind target revision = String.◌++◌ "unmapped " (
    String.◌++◌ kind
      (String.◌++◌ " \"" (String.◌++◌ target (String.◌++◌ "\" at revision " (decimal revision)))))

-- The value of one field: a title, or a url.
pub data FieldTarget : Type 0 where
  title url : String → FieldTarget

abbrev pub changes_of : FieldTarget → NodeChanges
changes_of (FieldTarget.title s) = record { title = some s; url = none }
changes_of (FieldTarget.url s) = record { title = none; url = some s }

abbrev pub is_at_target : FieldTarget → LocalNodeRecord → Bool
is_at_target (FieldTarget.title s) m = m.title == s
is_at_target (FieldTarget.url s) m = is_text m.url s

abbrev pub with_target : FieldTarget → LocalNodeRecord → LocalNodeRecord
with_target (FieldTarget.title s) m = record m { title = s }
with_target (FieldTarget.url s) m = record m { url = some s }

abbrev pub kind_of : FieldTarget → OpType
kind_of (FieldTarget.title s) = OpType.update_title
kind_of (FieldTarget.url s) = OpType.update_url

unfoldable pub update_expectation :
    String → ChangeWire → FieldTarget → LocalNodeRecord → PontisDb → ExpectedMutationRecord
update_expectation binding_id change target m db =
    record (expectation_of binding_id change (kind_of target) (some m.browser_id) db) {
      title = (changes_of target).title;
      url = (changes_of target).url;
    }

module _ {Browser : Type 0} (adapter : Adapter Browser) (decimal : ℕ → String) where
  -- The mirror row that `m?.browserId` accepts; there is none, and the change cannot be applied.
  unfoldable pub unmapped_node : String → ChangeWire → String → Local Browser → Applied Browser
  unmapped_node message change target l =
      Applied.unmapped (unmapped_message decimal "node" target change.revision)
        (record l { db = note Level.error message l.db })

  unfoldable pub confirm_update :
      String
      → ChangeWire
      → FieldTarget
      → LocalNodeRecord
      → Bool × Browser
      → PontisDb
      → Applied Browser
  unfolding commit
  confirm_update binding_id change target m (true, browser) db = Applied.done (record {
    browser = browser;
    db = commit binding_id change.revision (put_local (with_target target m)) db;
  })
  confirm_update binding_id change target m (false, browser) db =
      Applied.thrown (record { browser = browser; db = db })

  unfoldable pub update_node :
      String → ChangeWire → FieldTarget → LocalNodeRecord → Local Browser → Applied Browser
  unfolding confirm_update expect update_expectation expectation_of advance_to
  update_node binding_id change target m l =
      if is_at_target target m
      then Applied.done (record l { db = advance_to binding_id change.revision l.db })
      else confirm_update binding_id change target m
          (adapter.update m.browser_id (changes_of target) l.browser)
          (expect (update_expectation binding_id change target m l.db) l.db)

  unfoldable pub update_field :
      String → ChangeWire → FieldTarget → Option LocalNodeRecord → Local Browser → Applied Browser
  unfolding update_node unmapped_node
  update_field binding_id change target none l =
      unmapped_node "更新目标未映射，该绑定需要恢复" change change.node_id l
  update_field binding_id change target (some m) l =
      if m.browser_id == ""
      then unmapped_node "更新目标未映射，该绑定需要恢复" change change.node_id l
      else update_node binding_id change target m l
