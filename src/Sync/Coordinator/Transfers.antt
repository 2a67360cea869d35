-- ===== src/Sync/Coordinator/Transfers.antt =====
-- Transfers of syncCoordinator.ts: queued intents go to their own endpoint, and an acknowledged one
-- moves the mirror rows of its subtree to the target binding.
use pontis.Base.{
  ℕ, String, Bool, true, not, ◌&&◌, Option, none, some, List, [], ◌∷◌, ◌==◌, keep, find, ltb, leb,
  nat_eq, if◌then◌else◌,
}
use pontis.Base.Table
use pontis.Base.Table.{string_key, pair_key}
use pontis.Base.Collection
use pontis.Protocol.{
  OpStatus, NodeMappingWire, ParentRefWire, TransferRequestWire, TransferResponseWire,
}
use pontis.Transport.{ApiError, Answer}
use pontis.Store.{
  BindingRecord, LocalNodeRecord, PendingStatus, PendingOpRecord, PontisDb, Level, binding_key,
  local_key, op_key,
}
use pontis.Store.Diagnostics.{log_diagnostic}
use pontis.Store.Subtree.{collect_subtree}
use pontis.Sync.Tree.{or_empty}
use pontis.Sync.Events.Outbox.{is_queued, put_op}
use pontis.Sync.Coordinator.Request.{is_sync_op, with_status}

abbrev pub source_of : NodeMappingWire → String
source_of m = m.source_node_id

-- `new Map(resp.mapping.map(…))`: of two entries the later one stays.
unfoldable pub mapping_of : List NodeMappingWire → List NodeMappingWire → List NodeMappingWire
mapping_of acc [] = acc
mapping_of acc (m ∷ ms) = mapping_of (Collection.set source_of m acc) ms

abbrev pub target_id : Option NodeMappingWire → Option String
target_id none = none
target_id (some m) = some m.target_node_id

-- `m.canonicalId == null ? null : (mapping.get(m.canonicalId) ?? null)`
abbrev pub mapped_id : List NodeMappingWire → Option String → Option String
mapped_id mapping none = none
mapped_id mapping (some id) = target_id (Collection.get source_of id mapping)

-- `a ?? b`
abbrev pub or_else : Option String → Option String → Option String
or_else (some s) o = some s
or_else none o = o

abbrev pub binding_id_of : Option BindingRecord → String → String
binding_id_of none id = id
binding_id_of (some b) id = b.id

-- The rows that the subtree has at the target; a row that the answer does not map has none.
unfoldable pub target_mirrors :
    PendingOpRecord
    → String
    → Option BindingRecord
    → List NodeMappingWire
    → List LocalNodeRecord
    → List LocalNodeRecord
target_mirrors op root target mapping [] = []
target_mirrors op root target mapping (m ∷ ms) =
    let rest = target_mirrors op root target mapping ms in
    elim (mapped_id mapping m.canonical_id) [
      | none ↦ rest
      | some id ↦
          record m {
            binding_id = binding_id_of target m.binding_id;
            canonical_id = some id;
            parent_browser_id =
                if m.browser_id == root
                then or_else op.browser_parent_id m.parent_browser_id
                else m.parent_browser_id;
            position = none;
          }
          ∷ rest
    ]

-- `bulkDelete` of the rows under their keys in a binding.
unfoldable pub drop_rows :
    String → List LocalNodeRecord → List LocalNodeRecord → List LocalNodeRecord
drop_rows binding_id [] rows = rows
drop_rows binding_id (m ∷ ms) rows =
    drop_rows binding_id ms (Table.delete local_key (binding_id, m.browser_id) rows)

unfoldable pub put_rows : List LocalNodeRecord → List LocalNodeRecord → List LocalNodeRecord
put_rows [] rows = rows
put_rows (m ∷ ms) rows = put_rows ms (Table.put local_key m rows)

abbrev pub put_if :
    Option BindingRecord → List LocalNodeRecord → List LocalNodeRecord → List LocalNodeRecord
put_if none ms rows = rows
put_if (some b) ms rows = put_rows ms rows

-- The subtree of the moved node is known: one transaction, and a note.
unfoldable pub rebuild :
    PendingOpRecord → String → TransferResponseWire → List LocalNodeRecord → PontisDb → PontisDb
unfolding target_mirrors drop_rows put_rows mapping_of
rebuild op root resp subtree db =
    let target =
      find (λ (b : BindingRecord). b.space_id == or_empty op.target_space_id) db.bindings in
    let moved = target_mirrors op root target (mapping_of [] resp.mapping) subtree in
    log_diagnostic Level.info "coordinator" "跨空间搬运已确认，映射已重建" (record db {
      local_nodes = put_if target moved (drop_rows op.binding_id subtree db.local_nodes);
      pending_ops = Table.delete op_key op.op_id db.pending_ops;
    })

abbrev pub rebuild_with :
    PendingOpRecord
    → String
    → TransferResponseWire
    → PontisDb
    → Option (List LocalNodeRecord)
    → Option PontisDb
rebuild_with op root resp db none = none
rebuild_with op root resp db (some subtree) = some (rebuild op root resp subtree db)

-- `!sourceBinding || !op.browserId`
abbrev pub commit_for :
    ℕ
    → Option BindingRecord
    → Option String
    → PendingOpRecord
    → TransferResponseWire
    → PontisDb
    → Option PontisDb
commit_for fuel (some b) (some root) op resp db =
    if root == ""
    then some db
    else rebuild_with op root resp db (collect_subtree fuel db.local_nodes op.binding_id root)
commit_for fuel _ _ op resp db = some db

-- `none`: the fuel of `collect_subtree` ran out.
unfoldable pub commit_transfer_ack :
    ℕ → PendingOpRecord → TransferResponseWire → PontisDb → Option PontisDb
unfolding rebuild
commit_transfer_ack fuel op resp db =
    commit_for fuel (Table.get binding_key op.binding_id db.bindings) op.browser_id op resp db

-- A 4xx other than 429: the server will never take it.
unfoldable pub is_permanent : ApiError → Bool
is_permanent e = leb 400 e.status && (ltb e.status 500 && not (nat_eq e.status 429))

-- `Number.MAX_SAFE_INTEGER`
abbrev pub max_safe_integer : ℕ
max_safe_integer = 9007199254740991

unfoldable pub rejected_transfer : ApiError → PendingOpRecord → PendingOpRecord
rejected_transfer e o = record o {
  status = PendingStatus.resolved;
  keep_resolved = true;
  result = some (record {
    status = OpStatus.conflict;
    reason = e.code;
    result_revision = 0;
    settle_after_revision = max_safe_integer;
  });
}

-- `pendingOps.update(op.opId, …)`
unfoldable pub reject_transfer : ApiError → String → PontisDb → PontisDb
unfolding rejected_transfer
reject_transfer e op_id db = elim (Table.get op_key op_id db.pending_ops) [
  | none ↦ db
  | some o ↦ put_op (rejected_transfer e o) db
]

module _ {Server : Type 0}
    (create_transfer : TransferRequestWire → Server → Answer TransferResponseWire × Server)
    (fuel : ℕ) where
  unfoldable pub settle_transfer :
      PendingOpRecord → Answer TransferResponseWire → PontisDb → Option PontisDb
  unfolding commit_transfer_ack is_permanent reject_transfer
  settle_transfer op (Answer.ok resp) db = commit_transfer_ack fuel op resp db
  settle_transfer op (Answer.refused e) db =
      if is_permanent e
      then some
          (log_diagnostic Level.error "coordinator" "跨空间搬运被服务端拒绝" (reject_transfer e op.op_id db))
      else some (log_diagnostic Level.warn "coordinator" "跨空间搬运上传失败，稍后重试" db)
  settle_transfer op (Answer.broken text) db =
      some (log_diagnostic Level.warn "coordinator" "跨空间搬运上传失败，稍后重试" db)

  -- A row without a target, or whose binding is gone, is left.
  abbrev pub request_for :
      PendingOpRecord
      → Option BindingRecord
      → Option String
      → Option ParentRefWire
      → Option TransferRequestWire
  request_for op (some source) (some space) (some parent) =
      if space == ""
      then none
      else some (record {
        transfer_id = op.op_id;
        source_space_id = source.space_id;
        target_space_id = space;
        node_id = op.node_id;
        target_parent = parent;
      })
  request_for op _ _ _ = none

  unfoldable pub process_each :
      List PendingOpRecord → Server → PontisDb → Option (Server × PontisDb)
  unfolding settle_transfer
  process_each [] server db = some (server, db)
  process_each (op ∷ ops) server db =
      elim (request_for op (Table.get binding_key op.binding_id db.bindings) op.target_space_id
        op.target_parent) [
          | none ↦ process_each ops server db
          | some req ↦ elim (settle_transfer op (create_transfer req server).0 db) [
            | none ↦ none
            | some db' ↦ process_each ops (create_transfer req server).1 db'
          ]
        ]

  unfoldable pub process_transfers : String → Server → PontisDb → Option (Server × PontisDb)
  unfolding process_each with_status
  process_transfers binding_id server db =
      process_each
        (keep (λ (o : PendingOpRecord). not (is_sync_op o))
          (with_status is_queued binding_id db.pending_ops))
        server db
