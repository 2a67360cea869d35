-- ===== src/Browser/Snapshot.antt =====
-- extension/src/core/sync/browserSnapshot.ts: the subtree under a browser node, read at one moment.
pub mod Ends
use pontis.Base.{ℕ, zero, suc, ◌+◌, String, Option, none, some, List, [], ◌∷◌}
use pontis.Browser.{BrowserNode}
use pontis.Browser.Adapter.{Adapter}

-- `BrowserSnapshotNode[]`: a node, its children, and the nodes after it.
pub data Snapshots : Type 0 where
  nothing : Snapshots
  node : BrowserNode → Snapshots → Snapshots → Snapshots

pub record BrowserSnapshot : Type 0 where
  pub root : BrowserNode
  pub children : Snapshots

-- A computation returns, throws, or never ends (its fuel ran out).
pub data Outcome (A : Type 0) : Type 0 where
  done : A → Outcome A
  thrown endless : Outcome A

abbrev pub and_then : {A B : Type 0} → Outcome A → (A → Outcome B) → Outcome B
and_then (Outcome.done a) f = f a
and_then Outcome.thrown f = Outcome.thrown
and_then Outcome.endless f = Outcome.endless

abbrev pub answer : {A : Type 0} → Option A → Outcome A
answer none = Outcome.thrown
answer (some a) = Outcome.done a

abbrev pub under_root : BrowserNode → Snapshots → Outcome BrowserSnapshot
under_root root kids = Outcome.done (record { root = root; children = kids })

abbrev pub size : Snapshots → ℕ
size Snapshots.nothing = 0
size (Snapshots.node n kids rest) = suc (size kids + size rest)

module _ {Browser : Type 0} (adapter : Adapter Browser) (browser : Browser) where
  -- `walk` on a list of siblings; the first argument bounds the depth below them.
  unfoldable pub walk : ℕ → List BrowserNode → Outcome Snapshots
  walk depth [] = Outcome.done Snapshots.nothing
  walk zero (n ∷ ns) = Outcome.endless
  walk (suc depth) (n ∷ ns) = and_then (answer (adapter.get_children browser n.id)) λ children.
      and_then (walk depth children)
        λ kids. and_then (walk (suc depth) ns) λ rest. Outcome.done (Snapshots.node n kids rest)

  unfoldable pub snapshot_browser_tree : ℕ → String → Outcome BrowserSnapshot
  unfolding walk
  snapshot_browser_tree depth root_id = and_then (answer (adapter.get_node browser root_id)) λ root.
      and_then (answer (adapter.get_children browser root.id))
        λ children. and_then (walk depth children) (under_root root)
