-- ===== src/Sync/Coordinator/Request.antt =====
-- The request half of a round of syncCoordinator.ts: when a round may run, and which operations it
-- carries.

pub mod Carried
use pontis.Base.{
  ℕ, String, Bool, true, false, ◌&&◌, ◌||◌, Option, none, some, List, [], ◌∷◌, ◌++◌, ◌==◌, keep,
  map, ltb, if◌then◌else◌,
}
use pontis.Base.Table
use pontis.Base.Table.{string_key}
use pontis.Base.Sort
use pontis.Protocol.{
  OpType, OperationWire, SyncRequestWire, sync_protocol_version, max_changes_per_round,
}
use pontis.Store.{
  BindingState, BindingRecord, PendingStatus, PendingType, PendingOpRecord, PontisDb, ReconPhase,
  ReconSessionRecord, binding_key, op_key, active_recon_session,
}
use pontis.Sync.Events.Outbox.{is_queued, is_in_flight, put_op}

abbrev pub is_driving : Option ReconSessionRecord → Bool
is_driving none = false
is_driving (some s) = applies s.phase
  where
    applies : ReconPhase → Bool
    applies ReconPhase.apply = true
    applies ReconPhase.verify = true
    applies _ = false

abbrev pub runs_in : BindingState → Bool → Bool
runs_in BindingState.active driving = true
runs_in BindingState.initializing driving = driving
runs_in BindingState.resyncing driving = driving
runs_in _ driving = false

unfoldable pub can_run : PontisDb → BindingRecord → Bool
can_run db b = runs_in b.state (is_driving (active_recon_session db b.id))

-- The rows of a binding in one status.
unfoldable pub with_status :
    (PendingStatus → Bool) → String → List PendingOpRecord → List PendingOpRecord
with_status status binding_id =
    keep (λ (o : PendingOpRecord). o.binding_id == binding_id && status o.status)

abbrev pub seq_after : PendingOpRecord → PendingOpRecord → Bool
seq_after x y = ltb y.client_seq x.client_seq

abbrev pub is_sync_op : PendingOpRecord → Bool
is_sync_op o = is_op o.type
  where
    is_op : PendingType → Bool
    is_op (PendingType.op t) = true
    is_op PendingType.transfer = false

-- Queued and in flight, in the order of their sequence numbers, without the transfers.
unfoldable pub outstanding : String → List PendingOpRecord → List PendingOpRecord
unfolding with_status
outstanding binding_id ops = keep is_sync_op (
    Sort.sort seq_after
      (with_status is_queued binding_id ops ++ with_status is_in_flight binding_id ops))

-- The type of a row that is not a transfer; `is_sync_op` has left no other.
abbrev pub op_type : PendingType → OpType
op_type (PendingType.op t) = t
op_type PendingType.transfer = OpType.create

unfoldable pub to_wire : PendingOpRecord → OperationWire
to_wire p = record {
  op_id = p.op_id;
  client_seq = p.client_seq;
  base_revision = p.base_revision;
  type = op_type p.type;
  node_id = p.node_id;
  node_type = p.node_type;
  title = p.title;
  url = p.url;
  parent = p.parent;
  before_id = p.before_id;
}

abbrev pub sent : PendingOpRecord → PendingOpRecord
sent o = record o { status = PendingStatus.in_flight }

-- `pendingOps.update(opId, { status: 'IN_FLIGHT' })`: nothing on a missing key.
unfoldable pub mark_one : String → List PendingOpRecord → List PendingOpRecord
mark_one op_id ops = elim (Table.get op_key op_id ops) [
  | none ↦ ops
  | some o ↦ Table.put op_key (sent o) ops
]

unfoldable pub mark_in_flight : List String → List PendingOpRecord → List PendingOpRecord
unfolding mark_one
mark_in_flight [] ops = ops
mark_in_flight (i ∷ ids) ops = mark_in_flight ids (mark_one i ops)

abbrev pub op_id_of : PendingOpRecord → String
op_id_of o = o.op_id

-- Of a binding that is there.
unfoldable pub build_request : BindingRecord → PontisDb → SyncRequestWire × PontisDb
unfolding outstanding mark_in_flight to_wire
build_request b db =
    let ops = outstanding b.id db.pending_ops in
    (
      record {
        protocol_version = sync_protocol_version;
        epoch = b.epoch;
        applied_revision = b.applied_revision;
        received_revision = b.received_revision;
        operations = map to_wire ops;
        max_changes = max_changes_per_round;
      },
      record db { pending_ops = mark_in_flight (map op_id_of ops) db.pending_ops },
    )
