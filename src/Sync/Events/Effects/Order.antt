-- ===== src/Sync/Events/Effects/Order.antt =====
-- Every effect of a browser event keeps the outbox in order.
use pontis.Base.{
  ℕ, ◌+◌, String, ◌≡◌, none, some, ◌==◌, arith, eq_iff, eq_refl, if◌then◌else◌, ◌⊎◌, inl, inr,
}
use pontis.Base.Table
use pontis.Base.Table.{string_key}
use pontis.Store.{BindingRecord, PendingOpRecord, PontisDb, binding_key, op_key}
use pontis.Sync.Events.Outbox.{OpRow, put_op, delete_op, put_binding, queue, queued_op}
use pontis.Sync.Events.Effects.{
  op_of, binding_of, SameIntent, SameCursor, Effect, IsOrdered, IsFresh,
}

op_of-delete_op :
    (db : PontisDb) (i j : String) {o : PendingOpRecord}
    → op_of (delete_op i db) j ≡ some o
    → op_of db j ≡ some o
op_of-delete_op db i j {o} e =
    let f : (if i == j then none else op_of db j) ≡ some o =
      rw (← Table.get-delete op_key j i db.pending_ops) e in
    ground arith

op_of-put_op :
    (db : PontisDb) (o : PendingOpRecord) (j : String) {x : PendingOpRecord}
    → op_of (put_op o db) j ≡ some x
    → ((o.op_id ≡ j) × (o ≡ x)) ⊎ (op_of db j ≡ some x)
op_of-put_op db o j {x} e =
    let f : (if o.op_id == j then some o else op_of db j) ≡ some x =
      rw (← Table.get-put op_key j o db.pending_ops) e in
    ground (arith, eq_iff o.op_id j)

module _ (uuid : ℕ → String) where
  restate-IsOrdered :
      (db : PontisDb) (b b' : BindingRecord)
      → binding_of db b.id ≡ some b
      → SameCursor b b'
      → IsOrdered uuid db
      → IsOrdered uuid (put_binding b' db)
  restate-IsOrdered db b b' e c h = record {
    distinct = h.distinct;
    unused = h.unused;
    numbered = λ i x j o. rw Table.get-put (
        ground (arith, h.numbered i x j o, h.numbered i b j o, c.client_seq, c.id, eq_iff b'.id i));
    unique = h.unique;
  }

  retract-IsOrdered :
      (db : PontisDb) (i : String) → IsOrdered uuid db → IsOrdered uuid (delete_op i db)
  retract-IsOrdered db i h = record {
    distinct = Table.delete-HasDistinctKeys op_key i db.pending_ops h.distinct;
    unused = λ k le. rw Table.get-delete (ground (arith, h.unused k le));
    numbered = λ j b k o e f. h.numbered j b k o e (op_of-delete_op db i k f);
    unique = λ j k o p e f. h.unique j k o p (op_of-delete_op db i j e) (op_of-delete_op db i k f);
  }

  revise-IsOrdered :
      (db : PontisDb) (o o' : PendingOpRecord)
      → op_of db o.op_id ≡ some o
      → SameIntent o o'
      → IsOrdered uuid db
      → IsOrdered uuid (put_op o' db)
  revise-IsOrdered db o o' e c h = record {
    distinct = Table.put-HasDistinctKeys op_key o' db.pending_ops h.distinct;
    unused =
        λ k le. rw Table.get-put (ground (arith, h.unused k le, c.op_id, eq_iff o'.op_id (uuid k)));
    numbered = λ i b j x f g same. elim (op_of-put_op db o' j g) [
      | inl (_, is) ↦ ground (arith, is, h.numbered i b o.op_id o f e, c.binding_id, c.client_seq)
      | inr old ↦ h.numbered i b j x f old same
    ];
    unique = λ i j x y f g same seq. elim (op_of-put_op db o' i f) [
      | inl (ki, ix) ↦ elim (op_of-put_op db o' j g) [
        | inl (kj, iy) ↦ cc
        | inr old ↦
            cc (
              h.unique o.op_id j o y e old (cc (ix, c.binding_id)) (cc (ix, c.client_seq)),
              c.op_id,
            )
      ]
      | inr oldi ↦ elim (op_of-put_op db o' j g) [
        | inl (kj, iy) ↦
            cc (
              h.unique i o.op_id x o oldi e (cc (iy, c.binding_id)) (cc (iy, c.client_seq)),
              c.op_id,
            )
        | inr old ↦ h.unique i j x y oldi old same seq
      ]
    ];
  }

pub binding_of-put_binding :
    (db : PontisDb) (b : BindingRecord) (i : String) {y : BindingRecord}
    → binding_of (put_binding b db) i ≡ some y
    → ((b.id ≡ i) × (b ≡ y)) ⊎ (binding_of db i ≡ some y)
binding_of-put_binding db b i {y} e =
    let f : (if b.id == i then some b else binding_of db i) ≡ some y =
      rw (← Table.get-put binding_key i b db.bindings) e in
    ground (arith, eq_iff b.id i)

pub binding_of-put_binding_self :
    (db : PontisDb) (b : BindingRecord) → binding_of (put_binding b db) b.id ≡ some b
binding_of-put_binding_self db b = rw Table.get-put (rw (eq_refl b.id))

module _ (uuid : ℕ → String) (fresh : IsFresh uuid) where
  enqueue-IsOrdered :
      (db : PontisDb) (b : BindingRecord) (row : OpRow)
      → binding_of db b.id ≡ some b
      → IsOrdered uuid db
      → IsOrdered uuid (queue uuid b row db)
  unfolding queue
  enqueue-IsOrdered db b row e h = record {
    distinct = Table.put-HasDistinctKeys op_key n db.pending_ops h.distinct;
    unused = λ k le. rw Table.get-put (
        ground
          (arith, h.unused k (omega arith), fresh db.drawn k, eq_iff (uuid db.drawn) (uuid k)));
    numbered = λ i y j x f g same. elim (op_of-put_op db n j g) [
      | inl (_, is) ↦ elim (binding_of-put_binding db b' i f) [
        | inl (_, now) ↦ ground (arith, is, now)
        | inr old ↦
            let at : binding_of (put_binding b' db) b.id ≡ some b' =
              binding_of-put_binding_self db b' in
            ground (arith, is, at)
      ]
      | inr before ↦ elim (binding_of-put_binding db b' i f) [
        | inl (at, now) ↦ ground (arith, now, h.numbered b.id b j x e before)
        | inr old ↦ h.numbered i y j x old before same
      ]
    ];
    unique = λ i j x y f g same seq. elim (op_of-put_op db n i f) [
      | inl (ki, ix) ↦ elim (op_of-put_op db n j g) [
        | inl (kj, iy) ↦ cc
        | inr old ↦ ground (arith, ix, h.numbered b.id b j y e old)
      ]
      | inr oldi ↦ elim (op_of-put_op db n j g) [
        | inl (kj, iy) ↦ ground (arith, iy, h.numbered b.id b i x e oldi)
        | inr old ↦ h.unique i j x y oldi old same seq
      ]
    ];
  }
    where
      n : PendingOpRecord
      n = queued_op (uuid db.drawn) b db.now row

      b' : BindingRecord
      b' = record b { client_seq = b.client_seq + 1 }

  -- Every effect leaves the outbox in order.
  pub Effect-IsOrdered : {s t : PontisDb} → Effect uuid s t → IsOrdered uuid s → IsOrdered uuid t
  Effect-IsOrdered (Effect.stay db) h = h
  Effect-IsOrdered (Effect.mirror db rows) h = record {
    distinct = h.distinct;
    unused = h.unused;
    numbered = h.numbered;
    unique = h.unique;
  }
  Effect-IsOrdered (Effect.expect db rows) h = record {
    distinct = h.distinct;
    unused = h.unused;
    numbered = h.numbered;
    unique = h.unique;
  }
  Effect-IsOrdered (Effect.note db rows n) h = record {
    distinct = h.distinct;
    unused = h.unused;
    numbered = h.numbered;
    unique = h.unique;
  }
  Effect-IsOrdered (Effect.draw db) h = record {
    distinct = h.distinct;
    unused = λ k le. h.unused k (omega arith);
    numbered = h.numbered;
    unique = h.unique;
  }
  Effect-IsOrdered (Effect.restate db b b' e c) h = restate-IsOrdered uuid db b b' e c h
  Effect-IsOrdered (Effect.enqueue db b row e) h = enqueue-IsOrdered db b row e h
  Effect-IsOrdered (Effect.revise db o o' e c) h = revise-IsOrdered uuid db o o' e c h
  Effect-IsOrdered (Effect.retract db o e q) h = retract-IsOrdered uuid db o.op_id h
  Effect-IsOrdered (Effect.next a b) h = Effect-IsOrdered b (Effect-IsOrdered a h)
