-- ===== src/Protocol.antt =====
-- extension/src/core/protocol/types.ts: the wire types of the sync protocol and the narrowing
-- helpers of a change's payload. A field that may be absent is an `Option`.
use pontis.Base.{ℕ, String, Bool, Option, none, some, List, [], ◌∷◌}

pub data OpType : Type 0 where
  create update_title update_url move delete : OpType

pub data NodeType : Type 0 where
  folder bookmark : NodeType

pub data ParentKind : Type 0 where
  node root : ParentKind

pub record ParentRefWire : Type 0 where
  pub type : ParentKind
  pub id : Option String
  pub key : Option String

-- `{ type: 'node', id }` and `{ type: 'root', key }`
abbrev pub node_ref : String → ParentRefWire
node_ref i = record { type = ParentKind.node; id = some i; key = none }

abbrev pub root_ref : String → ParentRefWire
root_ref k = record { type = ParentKind.root; id = none; key = some k }

pub record OperationWire : Type 0 where
  pub op_id : String
  pub client_seq : ℕ
  pub base_revision : ℕ
  pub type : OpType
  pub node_id : String
  pub node_type : Option NodeType
  pub title : Option String
  pub url : Option String
  pub parent : Option ParentRefWire
  pub before_id : Option String

pub data OpStatus : Type 0 where
  applied rebased noop conflict rejected recovered : OpStatus

pub record OperationResultWire : Type 0 where
  pub op_id : String
  pub client_seq : ℕ
  pub status : OpStatus
  pub reason : String
  pub result_revision : ℕ
  pub settle_after_revision : ℕ

pub record CreatePayloadWire : Type 0 where
  pub type : NodeType
  pub title : String
  pub url : String
  pub parent : ParentRefWire
  pub position : ℕ

pub record UpdateTitlePayloadWire : Type 0 where
  pub title : String

pub record UpdateUrlPayloadWire : Type 0 where
  pub url : String

pub record MovePayloadWire : Type 0 where
  pub parent : ParentRefWire
  pub position : ℕ

pub record DeletePayloadWire : Type 0 where
  pub count : ℕ

-- The union is told apart by which fields an object has.
pub data ChangePayload : Type 0 where
  created : CreatePayloadWire → ChangePayload
  retitled : UpdateTitlePayloadWire → ChangePayload
  readdressed : UpdateUrlPayloadWire → ChangePayload
  moved : MovePayloadWire → ChangePayload
  deleted : DeletePayloadWire → ChangePayload

-- The narrowing helpers: the one shape that passes the `in` tests of each.
abbrev pub as_create_payload : ChangePayload → Option CreatePayloadWire
as_create_payload (created p) = some p
as_create_payload _ = none

abbrev pub as_update_title_payload : ChangePayload → Option UpdateTitlePayloadWire
as_update_title_payload (retitled p) = some p
as_update_title_payload _ = none

abbrev pub as_update_url_payload : ChangePayload → Option UpdateUrlPayloadWire
as_update_url_payload (readdressed p) = some p
as_update_url_payload _ = none

abbrev pub as_move_payload : ChangePayload → Option MovePayloadWire
as_move_payload (moved p) = some p
as_move_payload _ = none

abbrev pub as_delete_payload : ChangePayload → Option DeletePayloadWire
as_delete_payload (deleted p) = some p
as_delete_payload _ = none

pub record ChangeWire : Type 0 where
  pub revision : ℕ
  pub type : OpType
  pub node_id : String
  pub payload : ChangePayload

pub record SyncRequestWire : Type 0 where
  pub protocol_version : ℕ
  pub epoch : ℕ
  pub applied_revision : ℕ
  pub received_revision : ℕ
  pub operations : List OperationWire
  pub max_changes : ℕ

pub record SyncResponseWire : Type 0 where
  pub protocol_version : ℕ
  pub epoch : ℕ
  pub journal_floor_revision : ℕ
  pub from_revision : ℕ
  pub through_revision : ℕ
  pub server_revision : ℕ
  pub has_more : Bool
  pub operation_results : List OperationResultWire
  pub changes : List ChangeWire

pub record NodeMappingWire : Type 0 where
  pub source_node_id : String
  pub target_node_id : String

pub record TransferRequestWire : Type 0 where
  pub transfer_id : String
  pub source_space_id : String
  pub target_space_id : String
  pub node_id : String
  pub target_parent : ParentRefWire

pub record TransferResponseWire : Type 0 where
  pub transfer_id : String
  pub source_revision : ℕ
  pub target_revision : ℕ
  pub mapping : List NodeMappingWire

pub record SnapshotNodeWire : Type 0 where
  pub id : String
  pub type : NodeType
  pub title : String
  pub url : Option String
  pub parent : ParentRefWire
  pub position : ℕ

abbrev pub sync_protocol_version : ℕ
sync_protocol_version = 1

abbrev pub max_changes_per_round : ℕ
max_changes_per_round = 500

-- The reconciliation lifecycle, as far as a local session record carries it.
pub data ReconciliationPhase : Type 0 where
  collecting snapshot_ready server_ready planned committed : ReconciliationPhase

pub record IssuePayload : Type 0 where
  pub source_ref : String
  pub type : Option String
  pub title : Option String
  pub url : Option String
  pub candidates : List String

pub record ReconciliationIssueWire : Type 0 where
  pub id : String
  pub type : String
  pub payload : IssuePayload
  pub default_choice : String
  pub selected_choice : Option String

abbrev pub sync_protocol_error_codes : List String
sync_protocol_error_codes =
    "EPOCH_MISMATCH" ∷ "HISTORY_EXPIRED" ∷ "OPERATION_HISTORY_EXPIRED" ∷ "BINDING_NOT_ACTIVE"
    ∷ "RECONCILIATION_IN_PROGRESS" ∷ "SYNC_PROTOCOL_UNSUPPORTED" ∷ "OP_ID_REUSED"
    ∷ "CLIENT_SEQ_REGRESSED" ∷ "INVALID_WATERMARK" ∷ []
