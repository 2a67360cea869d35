-- ===== src/Sync/Events/Outbox.antt =====
-- How eventProcessor.ts writes to the outbox. A transaction re-reads its binding, and does nothing
-- if the row is gone. The uuids are the host's: `uuid k` is the one that is drawn k-th.
use pontis.Base.{
  ℕ, ◌+◌, String, Bool, true, false, ◌&&◌, Option, none, some, List, [], ◌∷◌, ◌==◌, find,
}
use pontis.Base.Table
use pontis.Base.Table.{string_key, pair_key}
use pontis.Protocol.{OpType, NodeType, ParentRefWire}
use pontis.Store.{
  BindingRecord, LocalNodeRecord, PendingStatus, PendingType, PendingOpRecord, PontisDb,
  binding_key, local_key, op_key, is_text,
}

-- One operation to queue.
pub record OpRow : Type 0 where
  pub type : PendingType
  pub node_id : String
  pub node_type : Option NodeType
  pub title : Option String
  pub url : Option String
  pub parent : Option ParentRefWire
  pub before_id : Option String
  pub browser_id : Option String
  pub browser_parent_id : Option String
  pub target_space_id : Option String
  pub target_parent : Option ParentRefWire

-- An operation on a canonical node, with no other field.
abbrev pub op_on : PendingType → String → OpRow
op_on t id = record {
  type = t;
  node_id = id;
  node_type = none;
  title = none;
  url = none;
  parent = none;
  before_id = none;
  browser_id = none;
  browser_parent_id = none;
  target_space_id = none;
  target_parent = none;
}

-- The row that is added, under the binding's next sequence number.
unfoldable pub queued_op : String → BindingRecord → ℕ → OpRow → PendingOpRecord
queued_op op_id b now row = record {
  op_id = op_id;
  binding_id = b.id;
  client_seq = b.client_seq + 1;
  base_revision = b.applied_revision;
  status = PendingStatus.queued;
  type = row.type;
  node_id = row.node_id;
  node_type = row.node_type;
  title = row.title;
  url = row.url;
  parent = row.parent;
  before_id = row.before_id;
  browser_id = row.browser_id;
  browser_parent_id = row.browser_parent_id;
  target_space_id = row.target_space_id;
  target_parent = row.target_parent;
  keep_resolved = false;
  result = none;
  created_at = now;
}

abbrev pub put_local : LocalNodeRecord → PontisDb → PontisDb
put_local row db = record db { local_nodes = Table.put local_key row db.local_nodes }

abbrev pub put_op : PendingOpRecord → PontisDb → PontisDb
put_op o db = record db { pending_ops = Table.put op_key o db.pending_ops }

abbrev pub delete_op : String → PontisDb → PontisDb
delete_op id db = record db { pending_ops = Table.delete op_key id db.pending_ops }

abbrev pub put_binding : BindingRecord → PontisDb → PontisDb
put_binding b db = record db { bindings = Table.put binding_key b db.bindings }

abbrev pub is_queued : PendingStatus → Bool
is_queued PendingStatus.queued = true
is_queued _ = false

abbrev pub is_in_flight : PendingStatus → Bool
is_in_flight PendingStatus.in_flight = true
is_in_flight _ = false

abbrev pub is_create : PendingType → Bool
is_create (PendingType.op OpType.create) = true
is_create _ = false

-- The create that carries a browser node, in one outbox state.
unfoldable pub find_create :
    PontisDb → String → String → (PendingStatus → Bool) → Option PendingOpRecord
find_create db binding_id browser_id status =
    find
      (λ (o : PendingOpRecord).
        status o.status
        && (o.binding_id == binding_id && (is_text o.browser_id browser_id && is_create o.type)))
      db.pending_ops

module _ (uuid : ℕ → String) where
  -- `b.clientSeq += 1; pendingOps.add({ opId: uuidv7(), … }); bindings.put(b)`. A drawn id is fresh,
  -- so that `add` is `put`.
  unfoldable pub queue : BindingRecord → OpRow → PontisDb → PontisDb
  unfolding queued_op
  queue b row db =
      put_binding (record b { client_seq = b.client_seq + 1 })
        (record (put_op (queued_op (uuid db.drawn) b db.now row) db) { drawn = db.drawn + 1 })

  -- One operation in a transaction.
  unfoldable pub queue_one : String → OpRow → PontisDb → PontisDb
  unfolding queue
  queue_one binding_id row db = elim (Table.get binding_key binding_id db.bindings) [
    | none ↦ db
    | some b ↦ queue b row db
  ]

  -- Several in one transaction: each takes the next sequence number.
  unfoldable pub queue_all : String → List OpRow → PontisDb → PontisDb
  unfolding queue_one
  queue_all binding_id [] db = db
  queue_all binding_id (row ∷ rows) db = queue_all binding_id rows (queue_one binding_id row db)

  -- The transaction writes to the mirror too, unless the binding's row is gone.
  unfoldable pub queue_with : String → List OpRow → (PontisDb → PontisDb) → PontisDb → PontisDb
  unfolding queue_all
  queue_with binding_id rows write_mirror db = elim (Table.get binding_key binding_id db.bindings) [
    | none ↦ db
    | some b ↦ write_mirror (queue_all binding_id rows db)
  ]
