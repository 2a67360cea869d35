-- ===== src/Tests/Stores.antt =====
-- The store: two tokens and one run lock.
use pontis.Base.{
  ℕ, ◌≤◌, String, ◌≡◌, refl, ◌↔◌, Bool, true, ◌==◌, some, List, [], ◌∷◌, length, if◌then◌else◌,
  arith, eq_iff, sym, Bool-cases, inl, inr,
}
use mathlib.Core.Path.{subst}
use pontis.Base.Table
use pontis.Store.{LocalNodeRecord}
use pontis.Store.Subtree.{rows_of, children_of, collect_subtree}
use pontis.Store.Subtree.Reach.{has_id, Below, weigh, IsWeight}
use pontis.Store.Subtree.Collected.{rows_at, collect_subtree_iff}
use pontis.Tests.Fixture.{bookmark_row}
use pontis.Store.Locks.{acquire_run_lock, release_run_lock, lock_row}
use pontis.Store.Locks.Exclusion.{Rounds, Step, Reach, mutual_exclusion, acquire-release}

abbrev taken : Rounds
taken = record { locks = lock_row "b" "t1" 5 ∷ []; now = 5; inside = ("t1", 5) ∷ [] }

one_inside : Reach "b" (record { locks = []; now = 5; inside = [] }) taken
unfolding acquire_run_lock Table.get Table.put
one_inside = Reach.next Reach.here (Step.enter _ "t1" "t1" taken.locks refl refl)

mutual_exclusion_example : length taken.inside ≤ 1
mutual_exclusion_example = mutual_exclusion "b" [] 5 taken one_inside

acquire-release_example :
    (acquire_run_lock (release_run_lock taken.locks "b" "t1") "b" "t2" 6).0 ≡ some "t2"
unfolding acquire_run_lock Table.get Table.put
acquire-release_example = acquire-release "b" [] taken.locks "t1" "t1" "t2" 5 6 refl

-- A folder and a bookmark in it, and how heavy each node is.
abbrev folder_row : LocalNodeRecord
folder_row = record bookmark_row { browser_id = "f"; canonical_id = some "cf" }

abbrev mirror : List LocalNodeRecord
mirror = folder_row ∷ record bookmark_row { parent_browser_id = some "f" } ∷ []

abbrev heavy : String → ℕ
heavy i = if "root" == i then 3 else if "f" == i then 2 else 1

true_false : ◌≡◌ {A = Bool} ("f" == "root") true → ⊥
true_false e = cc

heavy-IsWeight : IsWeight (rows_of "b" mirror) heavy
unfolding weigh children_of rows_of
heavy-IsWeight i = elim (Bool-cases ("root" == i)) [
  | inl e ↦ elim (Bool-cases ("f" == i)) [
    | inl f ↦
        let same : "root" ≡ i = (eq_iff "root" i).0 e in
        let both : ◌≡◌ {A = Bool} ("f" == "root") true =
          subst (λ k. ("f" == k) ≡ true) (sym same) f in
        absurd (true_false both)
    | inr f ↦ rw e (rw f (omega arith))
  ]
  | inr e ↦ elim (Bool-cases ("f" == i)) [
    | inl f ↦ rw e (rw f (omega arith))
    | inr f ↦ rw e (rw f (omega arith))
  ]
]

root_weight : weigh heavy (rows_at "f" (rows_of "b" mirror)) ≤ 2
unfolding weigh rows_of
root_weight = omega arith

collect_subtree_iff_example :
    (out : List LocalNodeRecord) × (collect_subtree 2 mirror "b" "f" ≡ some out)
    × ((i : String) → (has_id i out ≡ true) ↔ Below (rows_of "b" mirror) "f" i)
collect_subtree_iff_example = collect_subtree_iff heavy 2 mirror "b" "f" heavy-IsWeight root_weight
