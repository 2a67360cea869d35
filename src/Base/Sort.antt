-- ===== src/Base/Sort.antt =====
-- `Array.prototype.sort` with a comparator: stable, so that it is the insertion sort. The comparator
-- is given as the test `gt a b`, "a must stand after b".
use mathlib.Core.Path.{◌≡◌}
use mathlib.Core.Bool.{Bool, true, false}
use mathlib.Core.Logic.{inl, inr}
use mathlib.Core.List.{List, [], ◌∷◌, Perm}
use mathlib.Core.List.Perm
use native.Mathlib.Omega.{arith}
use pontis.Base.Tests.{Bool-cases, if◌then◌else◌}
use pontis.Base.Lists.{All, All-keep, keep}

module _ {A : Type 0} (gt : A → A → Bool) where
  unfoldable pub insert : A → List A → List A
  insert a [] = a ∷ []
  insert a (x ∷ xs) = if gt a x then x ∷ insert a xs else a ∷ x ∷ xs

  unfoldable pub sort : List A → List A
  unfolding insert
  sort [] = []
  sort (x ∷ xs) = insert x (sort xs)

module _ {A : Type 0} (gt : A → A → Bool) where
  -- No element must stand after one that follows it.
  abbrev pub IsSorted : List A → Type 0
  IsSorted [] = Unit
  IsSorted (x ∷ xs) = All (λ y. gt x y ≡ false) xs × IsSorted xs

  pub insert-perm : (a : A) (xs : List A) → Perm (insert gt a xs) (a ∷ xs)
  unfolding insert
  insert-perm a [] = Perm.refl (a ∷ [])
  insert-perm a (x ∷ xs) = elim (Bool-cases (gt a x)) [
    | inl e ↦ rw e (Perm.trans (Perm.cons x (insert-perm a xs)) (Perm.swap a x xs))
    | inr e ↦ rw e (Perm.refl (a ∷ x ∷ xs))
  ]

  pub sort-perm : (xs : List A) → Perm (sort gt xs) xs
  unfolding sort
  sort-perm [] = Perm.refl []
  sort-perm (x ∷ xs) = Perm.trans (insert-perm x (sort gt xs)) (Perm.cons x (sort-perm xs))

-- What `sort` asks of a comparator.
pub record IsComparator {A : Type 0} (gt : A → A → Bool) : Type 0 where
  pub asym : (a b : A) → gt a b ≡ true → gt b a ≡ false
  pub trans : (a b c : A) → gt a b ≡ false → gt b c ≡ false → gt a c ≡ false

module _ {A : Type 0} (gt : A → A → Bool) (c : IsComparator gt) where
  insert-All : (P : A → Type 0) (a : A) (xs : List A) → P a → All P xs → All P (insert gt a xs)
  unfolding insert
  insert-All P a [] p h = (p, tt)
  insert-All P a (x ∷ xs) p h = ground (arith, insert-All P a xs p)

  below_trans :
      (a x : A) (xs : List A)
      → gt a x ≡ false
      → All (λ y. gt x y ≡ false) xs
      → All (λ y. gt a y ≡ false) xs
  below_trans a x [] e h = tt
  below_trans a x (y ∷ ys) e h = (c.trans a x y e h.0, below_trans a x ys e h.1)

  insert-IsSorted : (a : A) (xs : List A) → IsSorted gt xs → IsSorted gt (insert gt a xs)
  unfolding insert
  insert-IsSorted a [] h = (tt, tt)
  insert-IsSorted a (x ∷ xs) h = elim (Bool-cases (gt a x)) [
    | inl e ↦
        rw e (insert-All (λ y. gt x y ≡ false) a xs (c.asym a x e) h.0, insert-IsSorted a xs h.1)
    | inr e ↦ rw e ((e, below_trans a x xs e h.0), h)
  ]

  pub sort-IsSorted : (xs : List A) → IsSorted gt (sort gt xs)
  unfolding sort
  sort-IsSorted [] = tt
  sort-IsSorted (x ∷ xs) = insert-IsSorted x (sort gt xs) (sort-IsSorted xs)

module _ {A : Type 0} (gt : A → A → Bool) where
  insert-keeps_All {ℓ} :
      (P : A → Type ℓ) (a : A) (xs : List A) → P a → All P xs → All P (insert gt a xs)
  unfolding insert
  insert-keeps_All P a [] p h = (p, tt)
  insert-keeps_All P a (x ∷ xs) p h = ground (arith, insert-keeps_All P a xs p)

  pub sort-All {ℓ} : (P : A → Type ℓ) (xs : List A) → All P xs → All P (sort gt xs)
  unfolding sort
  sort-All P [] h = tt
  sort-All P (x ∷ xs) (p, h) = insert-keeps_All P x (sort gt xs) p (sort-All P xs h)

  -- A sorted list stays sorted when elements are left out.
  pub keep-IsSorted : (q : A → Bool) (xs : List A) → IsSorted gt xs → IsSorted gt (keep q xs)
  keep-IsSorted q [] h = tt
  keep-IsSorted q (x ∷ xs) (p, h) =
      ground (arith, keep-IsSorted q xs h, All-keep (λ y. gt x y ≡ false) q xs p)
