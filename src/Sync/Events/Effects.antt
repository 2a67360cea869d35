-- ===== src/Sync/Events/Effects.antt =====
-- What a browser event may do to the replica, as a relation: the specification that the handlers of
-- eventProcessor.ts refine, and what every such change keeps of the outbox.
pub mod Order
pub mod Keeps
use pontis.Base.{
  ℕ, ◌+◌, ◌≤◌, String, ◌≡◌, refl, ◌≢◌, none, some, List, ◌==◌, arith, eq_iff, eq_refl,
  if◌then◌else◌, Option, ◌⊎◌, Bool-cases, inl, inr, true, false,
}
use pontis.Base.Table
use pontis.Base.Table.{string_key}
use pontis.Store.{
  BindingRecord, LocalNodeRecord, ExpectedMutationRecord, DiagnosticEvent, PendingStatus,
  PendingOpRecord, PontisDb, binding_key, op_key,
}
use pontis.Sync.Events.Outbox.{OpRow, put_op, delete_op, put_binding, queue, queued_op}

abbrev pub op_of : PontisDb → String → Option PendingOpRecord
op_of db i = Table.get op_key i db.pending_ops

abbrev pub binding_of : PontisDb → String → Option BindingRecord
binding_of db i = Table.get binding_key i db.bindings

-- The same operation, still unsent.
pub record SameIntent (o o' : PendingOpRecord) : Type 0 where
  pub op_id : o'.op_id ≡ o.op_id
  pub binding_id : o'.binding_id ≡ o.binding_id
  pub client_seq : o'.client_seq ≡ o.client_seq
  pub was_queued : o.status ≡ PendingStatus.queued
  pub is_queued : o'.status ≡ PendingStatus.queued

-- The same binding, its watermarks and its sequence number.
pub record SameCursor (b b' : BindingRecord) : Type 0 where
  pub id : b'.id ≡ b.id
  pub epoch : b'.epoch ≡ b.epoch
  pub applied : b'.applied_revision ≡ b.applied_revision
  pub received : b'.received_revision ≡ b.received_revision
  pub client_seq : b'.client_seq ≡ b.client_seq

pub data Effect (uuid : ℕ → String) : PontisDb → PontisDb → Type 0 where
  stay : (db : PontisDb) → Effect uuid db db
  mirror :
      (db : PontisDb) (rows : List LocalNodeRecord)
      → Effect uuid db (record db { local_nodes = rows })
  expect :
      (db : PontisDb) (rows : List ExpectedMutationRecord)
      → Effect uuid db (record db { expected_mutations = rows })
  note :
      (db : PontisDb) (rows : List DiagnosticEvent) (next : ℕ)
      → Effect uuid db (record db { diagnostics = rows; next_diagnostic = next })
  draw : (db : PontisDb) → Effect uuid db (record db { drawn = db.drawn + 1 })
  restate :
      (db : PontisDb) (b b' : BindingRecord)
      → binding_of db b.id ≡ some b
      → SameCursor b b'
      → Effect uuid db (put_binding b' db)
  enqueue :
      (db : PontisDb) (b : BindingRecord) (row : OpRow)
      → binding_of db b.id ≡ some b
      → Effect uuid db (queue uuid b row db)
  revise :
      (db : PontisDb) (o o' : PendingOpRecord)
      → op_of db o.op_id ≡ some o
      → SameIntent o o'
      → Effect uuid db (put_op o' db)
  retract :
      (db : PontisDb) (o : PendingOpRecord)
      → op_of db o.op_id ≡ some o
      → o.status ≡ PendingStatus.queued
      → Effect uuid db (delete_op o.op_id db)
  next : {s t u : PontisDb} → Effect uuid s t → Effect uuid t u → Effect uuid s u

-- The outbox is in order: op ids are keys, the ids still to be drawn are unused, and each binding
-- numbers its operations by distinct sequence numbers, none above its own.
pub record IsOrdered (uuid : ℕ → String) (db : PontisDb) : Type 0 where
  pub distinct : Table.HasDistinctKeys op_key db.pending_ops
  pub unused : (k : ℕ) → db.drawn ≤ k → op_of db (uuid k) ≡ none
  pub numbered :
      (i : String) (b : BindingRecord) (j : String) (o : PendingOpRecord)
      → binding_of db i ≡ some b
      → op_of db j ≡ some o
      → o.binding_id ≡ i
      → o.client_seq ≤ b.client_seq
  pub unique :
      (i j : String) (o p : PendingOpRecord)
      → op_of db i ≡ some o
      → op_of db j ≡ some p
      → o.binding_id ≡ p.binding_id
      → o.client_seq ≡ p.client_seq
      → i ≡ j

-- The host's ids do not repeat.
abbrev pub IsFresh : (ℕ → String) → Type 0
IsFresh uuid = (j k : ℕ) → uuid j ≡ uuid k → j ≡ k
