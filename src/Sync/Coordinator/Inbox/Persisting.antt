-- ===== src/Sync/Coordinator/Inbox/Persisting.antt =====
-- The transaction of syncCoordinator.ts that persists a response.
use pontis.Base.{
  ap, Option-cases, Bool-cases, inl, inr, ◌∙◌, ℕ, ◌≤◌, max, String, ◌≡◌, refl, Option, none, some,
  List, [], ◌∷◌, ◌==◌, nat_eq, if◌then◌else◌, arith, eq_iff, eq_refl,
}
use pontis.Base.Table
use pontis.Base.Table.{string_key}
use pontis.Protocol.{OperationResultWire, SyncResponseWire}
use pontis.Store.{
  first_of_two, BindingRecord, PendingOpRecord, PendingStatus, PontisDb, binding_key, op_key,
}
use pontis.Sync.Coordinator.Request.{to_wire}
use pontis.Sync.Coordinator.Inbox.{
  resolved_by, record_result, record_results, persist_response, halted,
}

-- The last answer for an operation, if there is one.
abbrev pub answer_for : String → List OperationResultWire → Option OperationResultWire
answer_for i [] = none
answer_for i (r ∷ rs) = first_of_two (answer_for i rs) (if r.op_id == i then some r else none)

abbrev answered : Option OperationResultWire → PendingOpRecord → PendingOpRecord
answered none o = o
answered (some r) o = resolved_by r o

get-record_result :
    (r : OperationResultWire) (ops : List PendingOpRecord) (i : String) (o : PendingOpRecord)
    → Table.get op_key i ops ≡ some o
    → Table.get op_key i (record_result r ops)
      ≡ (if r.op_id == i then some (resolved_by r o) else some o)
unfolding record_result
get-record_result r ops i o e = elim (Option-cases (Table.get op_key r.op_id ops)) [
  | inl f ↦ rw (record_result, f) (ground (arith, eq_iff r.op_id i))
  | inr (p, f) ↦
      let named : p.op_id ≡ r.op_id = Table.key_get op_key r.op_id ops f in
      rw (record_result, f, Table.get-put) (ground (arith, eq_iff r.op_id i))
]

last_answer :
    (a : Option OperationResultWire) (r : OperationResultWire) (o : PendingOpRecord)
    → answered a (resolved_by r o) ≡ answered (first_of_two a (some r)) o
unfolding resolved_by
last_answer none r o = refl
last_answer (some s) r o = refl

no_answer :
    (a : Option OperationResultWire) (o : PendingOpRecord)
    → answered a o ≡ answered (first_of_two a none) o
no_answer none o = refl
no_answer (some s) o = refl

get-record_results :
    (rs : List OperationResultWire) (ops : List PendingOpRecord) (i : String) (o : PendingOpRecord)
    → Table.get op_key i ops ≡ some o
    → Table.get op_key i (record_results rs ops) ≡ some (answered (answer_for i rs) o)
unfolding record_results
get-record_results [] ops i o e = e
get-record_results (r ∷ rs) ops i o e = elim (Bool-cases (r.op_id == i)) [
  | inl f ↦
      let step : Table.get op_key i (record_result r ops) ≡ some (resolved_by r o) =
        ground (arith, get-record_result r ops i o e) in
      get-record_results rs (record_result r ops) i (resolved_by r o) step
      ∙ ap some (rw f (last_answer (answer_for i rs) r o))
  | inr f ↦
      let step : Table.get op_key i (record_result r ops) ≡ some o =
        ground (arith, get-record_result r ops i o e) in
      get-record_results rs (record_result r ops) i o step
      ∙ ap some (rw f (no_answer (answer_for i rs) o))
]

-- The row of an operation after its answer: it is resolved with what the answer says, and all else
-- is as it was.
abbrev pub IsAnswered : Option OperationResultWire → PendingOpRecord → PendingOpRecord → Type 0
IsAnswered none o o' = o' ≡ o
IsAnswered (some r) o o' =
    (o'.status ≡ PendingStatus.resolved)
    × (o'.result
        ≡ some (record {
          status = r.status;
          reason = r.reason;
          result_revision = r.result_revision;
          settle_after_revision = r.settle_after_revision;
        }))
    × (record o' { status = o.status; result = o.result } ≡ o)
    × (to_wire o' ≡ to_wire o)

answered-IsAnswered :
    (a : Option OperationResultWire) (o : PendingOpRecord) → IsAnswered a o (answered a o)
unfolding resolved_by to_wire
answered-IsAnswered none o = refl
answered-IsAnswered (some r) o = (refl, refl, refl, refl)

-- For a stored binding, a response of its own epoch loses no operation: one that it answers is
-- resolved with the status, reason and revisions of its last answer, and all else of it stays, what
-- is sent of it included; every other operation is as it was.
pub persist_response-get :
    (decimal : ℕ → String) (db : PontisDb) (b : BindingRecord) (resp : SyncResponseWire)
    (i : String) (o : PendingOpRecord)
    → Table.get binding_key b.id db.bindings ≡ some b
    → resp.epoch ≡ b.epoch
    → Table.get op_key i db.pending_ops ≡ some o
    → (o' : PendingOpRecord) × (Table.get op_key i
          (persist_response decimal b.id resp db).pending_ops
        ≡ some o')
      × IsAnswered (answer_for i resp.operation_results) o o'
unfolding persist_response
persist_response-get decimal db b resp i o e f g = (
  answered (answer_for i resp.operation_results) o,
  rw (e, f) (ground (arith, get-record_results resp.operation_results db.pending_ops i o g)),
  answered-IsAnswered (answer_for i resp.operation_results) o,
)

-- For a stored binding, persisting a response keeps the binding: its received revision does not go
-- back, and its applied revision and sequence number stay.
pub persist_response_watermarks :
    (decimal : ℕ → String) (db : PontisDb) (b : BindingRecord) (resp : SyncResponseWire)
    → Table.get binding_key b.id db.bindings ≡ some b
    → (b' : BindingRecord) × (Table.get binding_key b.id
          (persist_response decimal b.id resp db).bindings
        ≡ some b')
      × (b.received_revision ≤ b'.received_revision)
      × (b'.applied_revision ≡ b.applied_revision)
      × (b'.client_seq ≡ b.client_seq)
unfolding persist_response
persist_response_watermarks decimal db b resp e = elim (Bool-cases (nat_eq b.epoch resp.epoch)) [
  | inl f ↦ (
    record b { received_revision = max b.received_revision resp.through_revision },
    rw (persist_response, e, f, Table.get-put) (ground (arith, eq_refl b.id)),
    omega arith,
    refl,
    refl,
  )
  | inr f ↦ (
    halted b "EPOCH_MISMATCH" "epoch changed mid-sync",
    rw (persist_response, e, f, Table.get-put) (ground (arith, eq_refl b.id)),
    omega arith,
    refl,
    refl,
  )
]
