-- ===== src/Sync/Verify/Upload.antt =====
-- `uploadNode` of extension/src/core/sync/verifyReplica.ts: nodes that only the browser has are queued
-- as creates, one level at a time.
pub mod Queued
use pontis.Base.{
  ℕ, zero, suc, ◌+◌, String, Bool, true, false, ◌&&◌, ◌||◌, Option, none, some, List, [], ◌∷◌, ◌==◌,
  any, find, nat_eq, if◌then◌else◌,
}
use pontis.Base.Table
use pontis.Base.Table.{string_key, pair_key}
use pontis.Browser.{BrowserNode}
use pontis.Browser.Adapter.{Adapter}
use pontis.Browser.Snapshot.{
  Snapshots, BrowserSnapshot, Outcome, and_then, answer, snapshot_browser_tree,
}
use pontis.Protocol.{OpType, ParentRefWire, node_ref, root_ref}
use pontis.Store.{
  BindingMode, BindingMount, BindingRecord, LocalNodeRecord, PendingType, PendingOpRecord, PontisDb,
  Level, binding_key, truthy, same_text, is_text, is_unsettled_op,
}
use pontis.Store.Subtree.{rows_of}
use pontis.Store.Diagnostics.{log_diagnostic}
use pontis.Sync.Tree.{or_empty}
use pontis.Sync.Events.Scope.{mirror_of}
use pontis.Sync.Events.Outbox.{OpRow, op_on, queue, queue_one, put_local}
use pontis.Sync.Applied.{Local}
use pontis.Sync.Verify.{is_quiescent}
use pontis.Sync.Verify.Repair.{has_canonical, is_partial, canonical_parent_ref, repair_level}
use pontis.Sync.Verify.Report.{VerifyReport}
use pontis.Sync.Verify.Scan.{differs_in_parent, must_get_binding, verify_scan}

-- `url || undefined`, and `url || null`
abbrev pub present_url : String → Option String
present_url url = if url == "" then none else some url

abbrev pub create_op : BrowserNode → ParentRefWire → String → OpRow
create_op n parent id = record (op_on (PendingType.op OpType.create) id) {
  node_type = some n.type;
  title = some n.title;
  url = present_url (or_empty n.url);
  parent = some parent;
  browser_id = some n.id;
}

-- The provisional row of an upload.
abbrev pub uploaded_row : String → BrowserNode → LocalNodeRecord
uploaded_row binding_id n = record {
  binding_id = binding_id;
  browser_id = n.id;
  canonical_id = none;
  type = n.type;
  title = n.title;
  url = present_url (or_empty n.url);
  parent_browser_id = none;
  position = none;
}

abbrev pub is_there : {A : Type 0} → Option A → Bool
is_there none = false
is_there (some a) = true

module _ (uuid : ℕ → String) (binding_id : String) where
  unfoldable pub should_skip_upload : PontisDb → String → Bool
  should_skip_upload db id =
      row_mapped (mirror_of db binding_id id)
      || (any
            (λ (o : PendingOpRecord).
              o.binding_id == binding_id && (is_text o.browser_id id && is_unsettled_op o))
            db.pending_ops
          || is_there (mirror_of db binding_id id))
    where
      row_mapped : Option LocalNodeRecord → Bool
      row_mapped none = false
      row_mapped (some m) = has_canonical m

  -- The op id is drawn before the transaction, and the node id in it.
  unfoldable pub enqueue_create : BrowserNode → ParentRefWire → PontisDb → PontisDb
  unfolding queue
  enqueue_create n parent db = elim (Table.get binding_key binding_id db.bindings) [
    | none ↦ record db { drawn = db.drawn + 1 }
    | some b ↦
        let queued = queue uuid b (create_op n parent (uuid (db.drawn + 1))) db in
        let drawn : PontisDb = record queued { drawn = queued.drawn + 1 } in
        if n.id == "" then drawn else put_local (uploaded_row binding_id n) drawn
  ]

  abbrev pub upload_under : BrowserNode → Option ParentRefWire → PontisDb → Outcome (ℕ × PontisDb)
  upload_under n none db = Outcome.done (0, db)
  upload_under n (some parent) db = Outcome.done (1, enqueue_create n parent db)

  -- `uploadNode` on each of a list, with the sum of the answers.
  unfoldable pub upload_nodes : Snapshots → PontisDb → Outcome (ℕ × PontisDb)
  unfolding should_skip_upload canonical_parent_ref enqueue_create
  upload_nodes Snapshots.nothing db = Outcome.done (0, db)
  upload_nodes (Snapshots.node n kids rest) db =
      and_then
        (elim (should_skip_upload db n.id) [
          | true ↦ upload_nodes kids db
          | false ↦
              and_then (canonical_parent_ref db binding_id n.parent_id)
                λ parent. upload_under n parent db
        ])
        λ r. and_then (upload_nodes rest r.1) λ r'. Outcome.done (r.0 + r'.0, r'.1)
