-- ===== src/Tests/Rounds.antt =====
-- A round of the coordinator at the sample replica, with a server that answers or that is away.
use pontis.Base.{◌↔◌, ℕ, ◌≤◌, String, ◌≡◌, refl, true, false, none, some, [], ◌∷◌, ◌==◌, any, All}
use pontis.Base.Table
use pontis.Base.Table.{string_key}
use pontis.Base.Sort.{IsSorted}
use pontis.Protocol.{
  OpStatus, OperationResultWire, SyncRequestWire, SyncResponseWire, OperationWire,
}
use pontis.Transport.{Answer}
use pontis.Store.{
  is_unsettled_op, BindingRecord, PendingOpRecord, PendingStatus, PontisDb, binding_key, op_key,
  lock_key,
}
use pontis.Store.Locks.{acquire_run_lock, lock_row}
use pontis.Sync.Coordinator.{Applied, Applier, Run}
use pontis.Sync.Coordinator.Request.{build_request, can_run}
use pontis.Sync.Coordinator.Request.Carried.{
  InFlight, wire_after, build_request-InFlight, build_request-IsSorted, build_request_carries,
}
use pontis.Sync.Coordinator.Inbox.{persist_response, settle_pending}
use pontis.Sync.Coordinator.Inbox.Settling.{settle_pending-get}
use pontis.Sync.Coordinator.Inbox.Persisting.{
  IsAnswered, persist_response-get, persist_response_watermarks,
}
use pontis.Sync.Coordinator.Binding.{sync_binding}
use pontis.Sync.Coordinator.Binding.Keeping.{LeavesLocks}
use pontis.Sync.Coordinator.Binding.Released.{sync_binding-free}
use pontis.Sync.Verify.{is_quiescent}
use pontis.Sync.Verify.Quiet.{IsSettled, IsApplied, is_quiescent_iff}
use pontis.Tests.Fixture.{unary, replica, binding, sent_op}

distinct : Table.HasDistinctKeys op_key replica.pending_ops
unfolding Table.get
distinct = (refl, tt)

build_request-InFlight_example :
    All (InFlight (build_request binding replica).1) (build_request binding replica).0.operations
build_request-InFlight_example = build_request-InFlight binding replica distinct

build_request-IsSorted_example : IsSorted wire_after (build_request binding replica).0.operations
build_request-IsSorted_example = build_request-IsSorted binding replica

build_request_carries_example :
    any (λ (w : OperationWire). w.op_id == "") (build_request binding replica).0.operations ≡ true
unfolding Table.get is_unsettled_op
build_request_carries_example = build_request_carries binding replica "" sent_op distinct refl

abbrev result : OperationResultWire
result = record {
  op_id = "";
  client_seq = 1;
  status = OpStatus.applied;
  reason = "";
  result_revision = 8;
  settle_after_revision = 8;
}

abbrev response : ℕ → SyncResponseWire
response epoch = record {
  protocol_version = 1;
  epoch = epoch;
  journal_floor_revision = 0;
  from_revision = 7;
  through_revision = 8;
  server_revision = 8;
  has_more = false;
  operation_results = result ∷ [];
  changes = [];
}

persist_response-get_example :
    (o' : PendingOpRecord) × (Table.get op_key ""
        (persist_response unary "b" (response 1) replica).pending_ops
      ≡ some o')
    × IsAnswered (some result) sent_op o'
unfolding Table.get
persist_response-get_example =
    persist_response-get unary replica binding (response 1) "" sent_op refl refl refl

persist_response_watermarks_example :
    (b' : BindingRecord) × (Table.get binding_key "b"
        (persist_response unary "b" (response 1) replica).bindings
      ≡ some b')
    × (7 ≤ b'.received_revision)
    × (b'.applied_revision ≡ 7)
    × (b'.client_seq ≡ 1)
unfolding Table.get
persist_response_watermarks_example =
    persist_response_watermarks unary replica binding (response 1) refl

-- Answered, and released from revision 7 on.
abbrev settled_op : PendingOpRecord
settled_op = record sent_op {
  status = PendingStatus.resolved;
  result = some (record {
    status = OpStatus.noop;
    reason = "";
    result_revision = 7;
    settle_after_revision = 7;
  });
}

abbrev answered_replica : PontisDb
answered_replica = record replica { pending_ops = settled_op ∷ [] }

answered_distinct : Table.HasDistinctKeys op_key answered_replica.pending_ops
unfolding Table.get
answered_distinct = (refl, tt)

settle_pending-get_example :
    Table.get op_key "" (settle_pending "b" answered_replica).pending_ops ≡ none
unfolding Table.get
settle_pending-get_example =
    settle_pending-get answered_replica binding "" settled_op answered_distinct refl refl

abbrev offline : String → SyncRequestWire → ℕ → Answer SyncResponseWire × ℕ
offline id req s = (Answer.broken "offline", s)

abbrev idle : Applier
idle = record { recover = λ id db. Applied.done db; apply_change = λ id c db. Applied.done db }

idle-LeavesLocks : LeavesLocks idle
idle-LeavesLocks = record { recover = λ id db. refl; apply_change = λ id c db. refl }

abbrev start : Run ℕ
start = record { server = 0; db = replica }

sync_binding-free_example :
    Table.get lock_key "b" (sync_binding offline none idle unary unary 10 "b" start).1.db.run_locks
    ≡ none
unfolding Table.get Table.put acquire_run_lock can_run unary
sync_binding-free_example =
    sync_binding-free offline none idle unary unary 10 idle-LeavesLocks "b" "a" start binding
      (lock_row "b" "a" 100 ∷ []) refl refl refl

is_quiescent_iff_example : (is_quiescent answered_replica "b" ≡ true) ↔ (
    (binding.applied_revision ≡ binding.received_revision)
    × All (IsSettled "b") answered_replica.pending_ops
    × All (IsApplied "b" binding.applied_revision) answered_replica.remote_changes)
unfolding Table.get
is_quiescent_iff_example = is_quiescent_iff answered_replica "b" binding refl
