-- ===== src/Sync/Verify/Quiet.antt =====
-- What it is for a binding to be quiescent, as verifyReplica.ts decides it.
use pontis.Base.{
  ℕ, ◌≤◌, ◌≢◌, ◌⊎◌, eq_iff, String, ◌≡◌, refl, ◌↔◌, Bool, true, false, some, List, [], ◌∷◌, keep,
  length, arith, All,
}
use pontis.Base.Table
use pontis.Base.Table.{string_key}
use pontis.Store.{
  BindingRecord, PendingOpRecord, PendingStatus, PontisDb, RemoteChangeRecord, binding_key,
  is_unsettled_op,
}
use pontis.Sync.Verify.{is_unsent_for, is_unapplied_for, is_quiescent}

-- The server has answered for the operation, if it is of the binding.
abbrev pub IsSettled : String → PendingOpRecord → Type 0
IsSettled id o = (o.binding_id ≢ id) ⊎ (o.status ≡ PendingStatus.resolved)

-- The change is not above the applied revision, if it is of the binding.
abbrev pub IsApplied : String → ℕ → RemoteChangeRecord → Type 0
IsApplied id applied r = (r.binding_id ≢ id) ⊎ (r.revision ≤ applied)

is_unsent_for_iff :
    (id : String) (o : PendingOpRecord) → (is_unsent_for id o ≡ false) ↔ IsSettled id o
unfolding is_unsettled_op
is_unsent_for_iff id o = ground (arith, eq_iff o.binding_id id)

is_unapplied_for_iff :
    (id : String) (applied : ℕ) (r : RemoteChangeRecord)
    → (is_unapplied_for id applied r ≡ false) ↔ IsApplied id applied r
is_unapplied_for_iff id applied r = ground (arith, eq_iff r.binding_id id)

-- No element passes a test exactly if each has the property that the test refutes.
length-keep_zero :
    {A : Type 0} (p : A → Bool) (P : A → Type 0) (xs : List A)
    → ((x : A) → (p x ≡ false) ↔ P x)
    → (length (keep p xs) ≡ 0) ↔ All P xs
length-keep_zero p P [] f = (λ e. tt, λ h. refl)
length-keep_zero p P (x ∷ xs) f = ground (arith, f x, length-keep_zero p P xs f)

-- A stored binding is quiescent exactly if its watermarks agree, each operation of it is resolved,
-- and no change of it in the inbox is above the applied revision.
pub is_quiescent_iff :
    (db : PontisDb) (id : String) (b : BindingRecord)
    → Table.get binding_key id db.bindings ≡ some b
    → (is_quiescent db id ≡ true) ↔ (
        (b.applied_revision ≡ b.received_revision)
        × All (IsSettled id) db.pending_ops
        × All (IsApplied id b.applied_revision) db.remote_changes)
unfolding is_quiescent
is_quiescent_iff db id b e = rw e (
    ground (
      arith,
      length-keep_zero (is_unsent_for id) (IsSettled id) db.pending_ops (is_unsent_for_iff id),
      length-keep_zero (is_unapplied_for id b.applied_revision) (IsApplied id b.applied_revision)
          db.remote_changes (is_unapplied_for_iff id b.applied_revision),
    ))
