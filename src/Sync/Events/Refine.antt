-- ===== src/Sync/Events/Refine.antt =====
-- The handlers of eventProcessor.ts do nothing but the effects of a browser event.
pub mod Created
pub mod Changed
pub mod Moved
pub mod Removed
use pontis.Base.{
  ℕ, ◌+◌, String, ◌≡◌, refl, Bool, true, false, Option, none, some, List, [], ◌∷◌, arith, eq_iff,
  if◌then◌else◌, Option-cases, Bool-cases, inl, inr, ap, ◌∙◌,
}
use pontis.Base.Table
use pontis.Base.Table.{string_key}
use pontis.Browser.{BrowserNode, BrowserEvent}
use pontis.Protocol.{OpType, ParentRefWire}
use pontis.Store.{
  BindingMode, BindingState, BindingRecord, LocalNodeRecord, PendingStatus, PendingOpRecord,
  PontisDb, Level, binding_key, local_key, op_key,
}
use pontis.Store.Diagnostics.{log_diagnostic}
use pontis.Sync.Events.Scope.{next_mapped}
use pontis.Sync.Events.Outbox.{
  OpRow, put_local, put_op, delete_op, put_binding, is_queued, find_create, queue, queue_one,
  queue_all, queue_with,
}
use pontis.Sync.Events.Echo.{
  EventDisposition, Handled, warn, Expectation, consume, put_local_if_new,
}
use pontis.Sync.Events.Effects.{Effect, SameIntent, SameCursor, IsOrdered, binding_of, op_of}

module _ (uuid : ℕ → String) where
  abbrev pub Does : PontisDb → PontisDb → Type 0
  Does = Effect uuid

  pub warn-Effect : (message : String) (db : PontisDb) → Does db (warn message db)
  unfolding log_diagnostic
  warn-Effect message db = Effect.note db _ _

  pub consume-Effect : (gone : List Expectation) (db : PontisDb) → Does db (consume gone db)
  unfolding consume
  consume-Effect gone db = Effect.expect db _

  pub put_local-Effect : (row : LocalNodeRecord) (db : PontisDb) → Does db (put_local row db)
  put_local-Effect row db = Effect.mirror db _

  pub put_local_if_new-Effect :
      (row : LocalNodeRecord) (old : Option LocalNodeRecord) (db : PontisDb)
      → Does db (put_local_if_new row old db)
  put_local_if_new-Effect row none db = put_local-Effect row db
  put_local_if_new-Effect row (some old) db = Effect.stay db

  pub queue_one-Effect :
      (i : String) (row : OpRow) (db : PontisDb) → Does db (queue_one uuid i row db)
  unfolding queue_one
  queue_one-Effect i row db = by_binding (Table.get binding_key i db.bindings) refl
    where
      by_binding :
          (o : Option BindingRecord)
          → Table.get binding_key i db.bindings ≡ o
          → Does db (elim o [ none ↦ db | some b ↦ queue uuid b row db ])
      by_binding none e = Effect.stay db
      by_binding (some b) e =
          let same : b.id ≡ i = Table.key_get binding_key i db.bindings e in
          Effect.enqueue db b row (ap (λ j. Table.get binding_key j db.bindings) same ∙ e)

  queue_all-Effect :
      (i : String) (rows : List OpRow) (db : PontisDb) → Does db (queue_all uuid i rows db)
  unfolding queue_all
  queue_all-Effect i [] db = Effect.stay db
  queue_all-Effect i (row ∷ rows) db =
      Effect.next (queue_one-Effect i row db) (queue_all-Effect i rows (queue_one uuid i row db))

  pub queue_with-Effect :
      (i : String) (rows : List OpRow) (write_mirror : PontisDb → PontisDb) (db : PontisDb)
      → ((d : PontisDb) → Does d (write_mirror d))
      → Does db (queue_with uuid i rows write_mirror db)
  unfolding queue_with
  queue_with-Effect i rows write_mirror db w = by_binding (Table.get binding_key i db.bindings)
    where
      by_binding :
          (o : Option BindingRecord)
          → Does db (elim o [ none ↦ db | some b ↦ write_mirror (queue_all uuid i rows db) ])
      by_binding none = Effect.stay db
      by_binding (some b) = Effect.next (queue_all-Effect i rows db) (w (queue_all uuid i rows db))

  -- The create that is found unsent in the outbox is the row under its id.
  pub find_create_lem :
      (db : PontisDb) (b i : String) {o : PendingOpRecord}
      → IsOrdered uuid db
      → find_create db b i is_queued ≡ some o
      → (op_of db o.op_id ≡ some o) × (o.status ≡ PendingStatus.queued)
  unfolding find_create
  find_create_lem db b i {o} h e =
      let (at, passes) = Table.find-get op_key _ db.pending_ops h.distinct e in
      (at, ground (arith, passes))
