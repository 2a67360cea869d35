-- ===== src/Sync/Coordinator/Inbox.antt =====
-- The response half of a round of syncCoordinator.ts: the results and changes that are persisted in
-- one transaction, the inbox that is applied next, and the operations that are settled.
pub mod Settling
pub mod Persisting
use pontis.Base.{
  ℕ, ◌+◌, max, String, Bool, true, false, not, ◌&&◌, Option, none, some, List, [], ◌∷◌, ◌==◌, keep,
  ltb, leb, nat_eq, if◌then◌else◌,
}
use Prim.Native.String
use pontis.Base.Table
use pontis.Base.Table.{string_key}
use pontis.Base.Sort
use pontis.Protocol.{ChangeWire, OperationResultWire, SyncResponseWire}
use pontis.Store.{
  BindingState, BindingRecord, PendingStatus, PendingOpRecord, OpResult, PontisDb,
  RemoteChangeRecord, binding_key, op_key, change_key, is_resolved,
}
use pontis.Sync.Events.Outbox.{put_binding}
use pontis.Sync.Coordinator.Request.{with_status}

unfoldable pub resolved_by : OperationResultWire → PendingOpRecord → PendingOpRecord
resolved_by r o = record o {
  status = PendingStatus.resolved;
  result = some (record {
    status = r.status;
    reason = r.reason;
    result_revision = r.result_revision;
    settle_after_revision = r.settle_after_revision;
  });
}

unfoldable pub record_result : OperationResultWire → List PendingOpRecord → List PendingOpRecord
unfolding resolved_by
record_result r ops = elim (Table.get op_key r.op_id ops) [
  | none ↦ ops
  | some o ↦ Table.put op_key (resolved_by r o) ops
]

unfoldable pub record_results :
    List OperationResultWire → List PendingOpRecord → List PendingOpRecord
unfolding record_result
record_results [] ops = ops
record_results (r ∷ rs) ops = record_results rs (record_result r ops)

abbrev pub halted : BindingRecord → String → String → BindingRecord
halted b code message = record b {
  state = BindingState.needs_recovery;
  recovery = some (record { code = code; message = message });
}

-- `p.result?.settleAfterRevision ?? 0`
abbrev pub settle_after : Option OpResult → ℕ
settle_after none = 0
settle_after (some r) = r.settle_after_revision

abbrev pub is_due : ℕ → PendingOpRecord → Bool
is_due applied p = leb (settle_after p.result) applied && not p.keep_resolved

-- The loop over the resolved rows.
unfoldable pub settle_all : ℕ → List PendingOpRecord → List PendingOpRecord → List PendingOpRecord
settle_all applied [] ops = ops
settle_all applied (p ∷ ps) ops =
    settle_all applied ps (if is_due applied p then Table.delete op_key p.op_id ops else ops)

abbrev pub settle_for : Option BindingRecord → String → PontisDb → PontisDb
settle_for none binding_id db = db
settle_for (some b) binding_id db = record db {
  pending_ops =
      settle_all b.applied_revision (with_status is_resolved binding_id db.pending_ops)
        db.pending_ops;
}

unfoldable pub settle_pending : String → PontisDb → PontisDb
unfolding settle_all
settle_pending binding_id db =
    settle_for (Table.get binding_key binding_id db.bindings) binding_id db

-- The host prints a revision as `decimal`.
module _ (decimal : ℕ → String) where
  unfoldable pub inbox_id : String → ℕ → String
  inbox_id binding_id revision = String.◌++◌ binding_id (String.◌++◌ ":" (decimal revision))

  unfoldable pub inbox_row : String → ChangeWire → RemoteChangeRecord
  unfolding inbox_id
  inbox_row binding_id c = record {
    id = inbox_id binding_id c.revision;
    binding_id = binding_id;
    revision = c.revision;
    type = c.type;
    node_id = c.node_id;
    payload = c.payload;
  }

  unfoldable pub record_changes :
      String → List ChangeWire → List RemoteChangeRecord → List RemoteChangeRecord
  unfolding inbox_row
  record_changes binding_id [] rows = rows
  record_changes binding_id (c ∷ cs) rows =
      record_changes binding_id cs (Table.put change_key (inbox_row binding_id c) rows)

  abbrev pub persist_for : Option BindingRecord → String → SyncResponseWire → PontisDb → PontisDb
  persist_for none binding_id resp db = db
  persist_for (some current) binding_id resp db =
      if nat_eq current.epoch resp.epoch
      then put_binding
          (record current {
            received_revision = max current.received_revision resp.through_revision;
          })
          (record db {
            pending_ops = record_results resp.operation_results db.pending_ops;
            remote_changes = record_changes binding_id resp.changes db.remote_changes;
          })
      else put_binding (halted current "EPOCH_MISMATCH" "epoch changed mid-sync") db

  -- The transaction after an answer.
  unfoldable pub persist_response : String → SyncResponseWire → PontisDb → PontisDb
  unfolding record_results record_changes
  persist_response binding_id resp db =
      persist_for (Table.get binding_key binding_id db.bindings) binding_id resp db

abbrev pub revision_after : RemoteChangeRecord → RemoteChangeRecord → Bool
revision_after x y = ltb y.revision x.revision

-- The rows above a revision, in the order of their revisions.
unfoldable pub inbox_above : String → ℕ → List RemoteChangeRecord → List RemoteChangeRecord
inbox_above binding_id applied rows =
    Sort.sort revision_after
      (keep (λ (r : RemoteChangeRecord). r.binding_id == binding_id && ltb applied r.revision) rows)

abbrev pub as_change : RemoteChangeRecord → ChangeWire
as_change r = record {
  revision = r.revision;
  type = r.type;
  node_id = r.node_id;
  payload = r.payload;
}
