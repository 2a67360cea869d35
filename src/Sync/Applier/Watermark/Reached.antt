-- ===== src/Sync/Applier/Watermark/Reached.antt =====
-- `applyChange` of remoteChangeApplier.ts and the applied revision.
use pontis.Base.{ℕ, ◌+◌, ◌<◌, String, ◌≡◌, Option, none, some, nat_eq, arith, Bool-cases, inl, inr}
use pontis.Base.Table
use pontis.Base.Table.{string_key}
use pontis.Browser.Adapter.{Adapter}
use pontis.Protocol.{
  OpType, ChangeWire, as_create_payload, as_update_title_payload, as_update_url_payload,
  as_move_payload, as_delete_payload,
}
use pontis.Store.{BindingRecord, PontisDb, binding_key, find_mirror_by_canonical}
use pontis.Sync.Applied.{Local, Applied}
use pontis.Sync.Applier.{checked, apply_typed, apply_change}
use pontis.Sync.Applier.Commit.Keeping.{Confined, Aside, Aside-refl, Reaches}
use pontis.Sync.Applier.Update.{FieldTarget}
use pontis.Sync.Applier.Watermark.Fields.{update_field-Ends}
use pontis.Sync.Applier.Watermark.Moves.{apply_move-Ends}
use pontis.Sync.Applier.Watermark.Deletes.{apply_delete-Ends}
use pontis.Sync.Applier.Watermark.Creates.{apply_create-Ends}
use pontis.Sync.Applier.Watermark.{Ended}

-- How a change ends for a binding: applied in its turn, or with no binding changed.
abbrev pub InOrder :
    {Browser : Type 0} → BindingRecord → ChangeWire → PontisDb → Applied Browser → Type 0
InOrder b c start (Applied.done l) =
    (c.revision ≡ b.applied_revision + 1) × Reaches b.id c.revision b l.db × Confined start l.db
InOrder b c start (Applied.thrown l) = Aside start l.db
InOrder b c start (Applied.endless l) = Aside start l.db
InOrder b c start (Applied.unmapped message l) = Aside start l.db

module _ {Browser : Type 0} (adapter : Adapter Browser) (decimal : ℕ → String) (fuel : ℕ) where
  checked-Ends :
      {P : Type 0} (b : BindingRecord) (c : ChangeWire) (o : Option P) (apply : P → Applied Browser)
      (l : Local Browser)
      → ((p : P) → Ended b c.revision l.db (apply p))
      → Ended b c.revision l.db (checked adapter decimal fuel o apply l)
  checked-Ends b c none apply l h = Aside-refl l.db
  checked-Ends b c (some p) apply l h = h p

  apply_typed-Ends :
      (t : OpType) (b : BindingRecord) (c : ChangeWire) (l : Local Browser)
      → Table.get binding_key b.id l.db.bindings ≡ some b
      → b.applied_revision < c.revision
      → Ended b c.revision l.db (apply_typed adapter decimal fuel t b c l)
  unfolding apply_typed
  apply_typed-Ends OpType.create b c l e lt =
      checked-Ends b c (as_create_payload c.payload) _ l
        (λ p. apply_create-Ends adapter decimal fuel b c l.db e lt p l (Aside-refl l.db))
  apply_typed-Ends OpType.update_title b c l e lt =
      checked-Ends b c (as_update_title_payload c.payload) _ l (λ p.
        update_field-Ends adapter decimal b c l.db e lt (FieldTarget.title p.title)
          (find_mirror_by_canonical l.db b.id c.node_id) l (Aside-refl l.db))
  apply_typed-Ends OpType.update_url b c l e lt =
      checked-Ends b c (as_update_url_payload c.payload) _ l (λ p.
        update_field-Ends adapter decimal b c l.db e lt (FieldTarget.url p.url)
          (find_mirror_by_canonical l.db b.id c.node_id) l (Aside-refl l.db))
  apply_typed-Ends OpType.move b c l e lt = checked-Ends b c (as_move_payload c.payload) _ l (λ p.
      apply_move-Ends adapter decimal b c l.db e lt p (find_mirror_by_canonical l.db b.id c.node_id)
        l (Aside-refl l.db))
  apply_typed-Ends OpType.delete b c l e lt =
      checked-Ends b c (as_delete_payload c.payload) _ l (λ p.
        apply_delete-Ends adapter fuel b c l.db e lt (find_mirror_by_canonical l.db b.id c.node_id)
          l (Aside-refl l.db))

  for_next :
      (b : BindingRecord) (c : ChangeWire) (l : Local Browser)
      → Table.get binding_key b.id l.db.bindings ≡ some b
      → c.revision ≡ b.applied_revision + 1
      → (r : Applied Browser) → Ended b c.revision l.db r
      → InOrder b c l.db r
  for_next b c l e next (Applied.done l') h = (next, h.0, h.1)
  for_next b c l e next (Applied.thrown l') h = h
  for_next b c l e next (Applied.endless l') h = h
  for_next b c l e next (Applied.unmapped message l') h = h

  -- For a binding that is stored, `applyChange` returns only on the revision after the applied one,
  -- and then the binding has reached it with its other fields kept. If it throws, or meets a lost
  -- mapping, no binding is changed. Either way the outbox, the run locks, the inbox and the
  -- reconciliation sessions are as they were.
  pub apply_change-InOrder :
      (b : BindingRecord) (c : ChangeWire) (l : Local Browser)
      → Table.get binding_key b.id l.db.bindings ≡ some b
      → InOrder b c l.db (apply_change adapter decimal fuel b.id c l)
  unfolding apply_change
  apply_change-InOrder b c l e = elim (Bool-cases (nat_eq c.revision (b.applied_revision + 1))) [
    | inl t ↦
        let next : c.revision ≡ b.applied_revision + 1 = ground arith in
        let ahead : b.applied_revision < c.revision = ground arith in
        rw e (
          rw t (
            for_next b c l e next (apply_typed adapter decimal fuel c.type b c l)
              (apply_typed-Ends c.type b c l e ahead)))
    | inr f ↦ rw e (rw f (Aside-refl l.db))
  ]
