-- ===== src/Sync/Verify/Repair.antt =====
-- `repairLevel` of extension/src/core/sync/verifyReplica.ts: what the browser says and the mirror
-- does not is queued.
pub mod Queued
use pontis.Base.{
  ℕ, zero, suc, ◌+◌, String, Bool, true, false, ◌&&◌, ◌||◌, Option, none, some, List, [], ◌∷◌, ◌==◌,
  any, find, nat_eq, if◌then◌else◌,
}
use pontis.Base.Table
use pontis.Base.Table.{string_key, pair_key}
use pontis.Browser.{BrowserNode}
use pontis.Browser.Adapter.{Adapter}
use pontis.Browser.Snapshot.{
  Snapshots, BrowserSnapshot, Outcome, and_then, answer, snapshot_browser_tree,
}
use pontis.Protocol.{OpType, ParentRefWire, node_ref, root_ref}
use pontis.Store.{
  BindingMode, BindingMount, BindingRecord, LocalNodeRecord, PendingType, PendingOpRecord, PontisDb,
  Level, binding_key, truthy, same_text, is_text, is_unsettled_op,
}
use pontis.Store.Subtree.{rows_of}
use pontis.Store.Diagnostics.{log_diagnostic}
use pontis.Sync.Tree.{or_empty}
use pontis.Sync.Events.Scope.{mirror_of}
use pontis.Sync.Events.Outbox.{OpRow, op_on, queue, queue_one, put_local}
use pontis.Sync.Applied.{Local}
use pontis.Sync.Verify.{is_quiescent}
use pontis.Sync.Verify.Report.{VerifyReport}
use pontis.Sync.Verify.Scan.{differs_in_parent, must_get_binding, verify_scan}

abbrev pub is_partial : BindingMode → Bool
is_partial BindingMode.partial = true
is_partial BindingMode.full = false

-- `parent?.canonicalId`
abbrev pub row_ref : Option LocalNodeRecord → Option ParentRefWire
row_ref none = none
row_ref (some m) = ref_of m.canonical_id
  where
    ref_of : Option String → Option ParentRefWire
    ref_of none = none
    ref_of (some id) = if id == "" then none else some (node_ref id)

abbrev pub ref_under : PontisDb → BindingRecord → String → Option ParentRefWire
ref_under db b parent =
    if is_partial b.mount.mode && is_text b.mount.folder_browser_id parent
    then some (root_ref b.mount.root_key)
    else row_ref (mirror_of db b.id parent)

unfoldable pub canonical_parent_ref :
    PontisDb → String → Option String → Outcome (Option ParentRefWire)
canonical_parent_ref db binding_id none = Outcome.done none
canonical_parent_ref db binding_id (some parent) =
    and_then (must_get_binding db binding_id) λ b. Outcome.done (ref_under db b parent)

abbrev pub has_canonical : LocalNodeRecord → Bool
has_canonical m = truthy m.canonical_id

-- The rows after the node in a list of siblings: the first one that is mapped.
unfoldable pub first_mapped : List LocalNodeRecord → Snapshots → Option String
first_mapped mirrors Snapshots.nothing = none
first_mapped mirrors (Snapshots.node n kids rest) =
    let later = first_mapped mirrors rest in
    elim (find (λ (m : LocalNodeRecord). m.browser_id == n.id) mirrors) [
      | none ↦ later
      | some m ↦ if has_canonical m then m.canonical_id else later
    ]

-- `none`: `findIndex` is -1, and the loop begins at 0.
unfoldable pub after_node : String → Snapshots → Option Snapshots
after_node id Snapshots.nothing = none
after_node id (Snapshots.node n kids rest) =
    let later = after_node id rest in if n.id == id then some rest else later

abbrev pub or_all : Snapshots → Option Snapshots → Snapshots
or_all all none = all
or_all all (some rest) = rest

unfoldable pub next_mapped_sibling : Snapshots → String → List LocalNodeRecord → Option String
unfolding first_mapped after_node
next_mapped_sibling children id mirrors =
    first_mapped mirrors (or_all children (after_node id children))

abbrev pub retitle_op : BrowserNode → String → OpRow
retitle_op n id = record (op_on (PendingType.op OpType.update_title) id) { title = some n.title }

abbrev pub readdress_op : BrowserNode → String → OpRow
readdress_op n id = record (op_on (PendingType.op OpType.update_url) id) {
  url = some (or_empty n.url);
}

abbrev pub move_op : String → ParentRefWire → Option String → OpRow
move_op id parent before = record (op_on (PendingType.op OpType.move) id) {
  parent = some parent;
  before_id = before;
}

module _ (uuid : ℕ → String) (binding_id : String) where
  -- `enqueueOp`, if a test holds.
  abbrev pub enqueue_if : Bool → OpRow → PontisDb → PontisDb
  enqueue_if true row db = queue_one uuid binding_id row db
  enqueue_if false row db = db

  -- A parent that is not mapped queues nothing.
  abbrev pub enqueue_move : String → Option String → Option ParentRefWire → PontisDb → PontisDb
  enqueue_move id before none db = db
  enqueue_move id before (some parent) db = queue_one uuid binding_id (move_op id parent before) db

  abbrev pub repair_parent :
      Bool → BrowserNode → String → Option String → PontisDb → Outcome PontisDb
  repair_parent false n id before db = Outcome.done db
  repair_parent true n id before db =
      and_then (canonical_parent_ref db binding_id n.parent_id)
        λ parent. Outcome.done (enqueue_move id before parent db)

  abbrev pub repair_fields : BrowserNode → LocalNodeRecord → String → PontisDb → PontisDb
  repair_fields n m id db =
      enqueue_if (if same_text n.url m.url then false else true) (readdress_op n id)
        (enqueue_if (if n.title == m.title then false else true) (retitle_op n id) db)

  abbrev pub repair_mapped :
      Snapshots → List LocalNodeRecord → BrowserNode → LocalNodeRecord → PontisDb → Outcome PontisDb
  repair_mapped siblings mirrors n m db =
      if has_canonical m
      then repair_parent (differs_in_parent m.parent_browser_id n.parent_id) n
          (or_empty m.canonical_id) (next_mapped_sibling siblings n.id mirrors)
          (repair_fields n m (or_empty m.canonical_id) db)
      else Outcome.done db

  abbrev pub repair_row :
      Snapshots
      → List LocalNodeRecord
      → BrowserNode
      → Option LocalNodeRecord
      → PontisDb
      → Outcome PontisDb
  repair_row siblings mirrors n none db = Outcome.done db
  repair_row siblings mirrors n (some m) db = repair_mapped siblings mirrors n m db

  -- The rest of a list of siblings; the rows are those that were read at the start.
  unfoldable pub repair_from :
      Snapshots → List LocalNodeRecord → Snapshots → PontisDb → Outcome PontisDb
  unfolding queue_one canonical_parent_ref next_mapped_sibling
  repair_from siblings mirrors Snapshots.nothing db = Outcome.done db
  repair_from siblings mirrors (Snapshots.node n kids rest) db =
      and_then
        (repair_row siblings mirrors n
          (find (λ (m : LocalNodeRecord). m.browser_id == n.id) mirrors) db)
        λ d. and_then (repair_from kids mirrors kids d) λ d'. repair_from siblings mirrors rest d'

  unfoldable pub repair_level : Snapshots → List LocalNodeRecord → PontisDb → Outcome PontisDb
  unfolding repair_from
  repair_level children mirrors db = repair_from children mirrors children db
