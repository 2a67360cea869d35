-- ===== src/Sync/Events/Effects/Keeps.antt =====
-- What every effect of a browser event leaves alone: operations that were sent, and the watermarks.
use pontis.Base.{
  ℕ, ◌+◌, ◌≤◌, String, ◌≡◌, refl, ◌≢◌, some, ◌==◌, arith, eq_iff, ◌∙◌, ◌==◌, Bool-cases, inl, inr,
}
use pontis.Base.Table
use pontis.Base.Table.{string_key}
use pontis.Store.{BindingRecord, PendingStatus, PendingOpRecord, PontisDb}
use pontis.Sync.Events.Outbox.{put_binding, queue, queued_op}
use pontis.Sync.Events.Effects.{op_of, binding_of, Effect, IsOrdered, IsFresh}
use pontis.Sync.Events.Effects.Order.{Effect-IsOrdered}

module _ (uuid : ℕ → String) (fresh : IsFresh uuid) where
  -- An operation that was sent once stays as it is.
  pub Effect-frozen :
      {s t : PontisDb} (i : String) (o : PendingOpRecord)
      → Effect uuid s t
      → IsOrdered uuid s
      → op_of s i ≡ some o
      → o.status ≢ PendingStatus.queued
      → op_of t i ≡ some o
  unfolding queue queued_op
  Effect-frozen i o (Effect.stay db) h e q = e
  Effect-frozen i o (Effect.mirror db rows) h e q = e
  Effect-frozen i o (Effect.expect db rows) h e q = e
  Effect-frozen i o (Effect.note db rows n) h e q = e
  Effect-frozen i o (Effect.draw db) h e q = e
  Effect-frozen i o (Effect.restate db b b' f c) h e q = e
  Effect-frozen i o (Effect.enqueue db b row f) h e q =
      rw Table.get-put (ground (arith, h.unused db.drawn (omega arith), eq_iff (uuid db.drawn) i))
  Effect-frozen i o (Effect.revise db p p' f c) h e q =
      rw Table.get-put (ground (arith, eq_iff p'.op_id i, c.op_id, c.was_queued))
  Effect-frozen i o (Effect.retract db p f was) h e q =
      rw Table.get-delete (ground (arith, eq_iff p.op_id i, was))
  Effect-frozen i o (Effect.next a b) h e q =
      Effect-frozen i o b (Effect-IsOrdered uuid fresh a h) (Effect-frozen i o a h e q) q

-- What an event leaves of a binding: its watermarks; its sequence number does not fall.
pub record Advances (b b' : BindingRecord) : Type 0 where
  pub epoch : b'.epoch ≡ b.epoch
  pub applied : b'.applied_revision ≡ b.applied_revision
  pub received : b'.received_revision ≡ b.received_revision
  pub client_seq : b.client_seq ≤ b'.client_seq

Advances-refl : (b : BindingRecord) → Advances b b
Advances-refl b = record { epoch = refl; applied = refl; received = refl; client_seq = omega arith }

Advances-trans : {a b c : BindingRecord} → Advances a b → Advances b c → Advances a c
Advances-trans h k = record {
  epoch = k.epoch ∙ h.epoch;
  applied = k.applied ∙ h.applied;
  received = k.received ∙ h.received;
  client_seq = omega arith;
}

abbrev Kept : PontisDb → String → BindingRecord → Type 0
Kept t i b = (b' : BindingRecord) × (binding_of t i ≡ some b') × Advances b b'

put_binding-Kept :
    (db : PontisDb) (b b' : BindingRecord) (i : String) (x : BindingRecord)
    → binding_of db b.id ≡ some b
    → b'.id ≡ b.id
    → Advances b b'
    → binding_of db i ≡ some x
    → Kept (put_binding b' db) i x
put_binding-Kept db b b' i x e same adv f = elim (Bool-cases (b'.id == i)) [
  | inl here ↦
      let is : b ≡ x = ground (arith, eq_iff b'.id i) in
      (b', rw Table.get-put (rw here), rw is at adv)
  | inr there ↦ (x, rw Table.get-put (rw there f), Advances-refl x)
]

module _ (uuid : ℕ → String) where
  -- No binding disappears, no watermark or epoch moves, and no sequence number falls.
  pub Effect-Advances :
      {s t : PontisDb} (i : String) (x : BindingRecord)
      → Effect uuid s t
      → binding_of s i ≡ some x
      → (b' : BindingRecord) × (binding_of t i ≡ some b') × Advances x b'
  unfolding queue
  Effect-Advances i x (Effect.stay db) e = (x, e, Advances-refl x)
  Effect-Advances i x (Effect.mirror db rows) e = (x, e, Advances-refl x)
  Effect-Advances i x (Effect.expect db rows) e = (x, e, Advances-refl x)
  Effect-Advances i x (Effect.note db rows n) e = (x, e, Advances-refl x)
  Effect-Advances i x (Effect.draw db) e = (x, e, Advances-refl x)
  Effect-Advances i x (Effect.restate db b b' f c) e =
      put_binding-Kept db b b' i x f c.id
        (record {
          epoch = c.epoch;
          applied = c.applied;
          received = c.received;
          client_seq = omega (arith, c.client_seq);
        })
        e
  Effect-Advances i x (Effect.enqueue db b row f) e =
      put_binding-Kept db b (record b { client_seq = b.client_seq + 1 }) i x f refl
        (record { epoch = refl; applied = refl; received = refl; client_seq = omega arith }) e
  Effect-Advances i x (Effect.revise db p p' f c) e = (x, e, Advances-refl x)
  Effect-Advances i x (Effect.retract db p f was) e = (x, e, Advances-refl x)
  Effect-Advances i x (Effect.next a c) e =
      let (y, at, first) = Effect-Advances i x a e in
      let (z, then_at, second) = Effect-Advances i y c at in
      (z, then_at, Advances-trans first second)
