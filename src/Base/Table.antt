-- ===== src/Base/Table.antt =====
-- An IndexedDB object store: rows in the order of their primary keys. `put` replaces the row of the
-- same key, and `delete` of a missing key does nothing. The laws hold of any list of rows.
use Prim.Native.Nat.{ℕ}
use Prim.Native.String.{String}
use mathlib.Core.Path.{◌≡◌, refl}
use mathlib.Core.Bool.{Bool, true, ◌&&◌, ◌||◌}
use mathlib.Core.Logic.{◌↔◌}
use mathlib.Core.List.{List, [], ◌∷◌}
use mathlib.Core.Option.{Option, none, some}
use native.Mathlib.Omega.{arith}
use text.Mathlib.Text.{◌==◌}
use text.Mathlib.TextEquality.{eq_iff}
use pontis.Base.Tests.{before, ltb, nat_eq, if◌then◌else◌}
use pontis.Base.Lists.{All, find}

-- What an index needs of its keys: equality, and an order for the rows.
pub record Key (K : Type 0) : Type 0 where
  pub same : K → K → Bool
  pub same_iff : (a b : K) → (same a b ≡ true) ↔ (a ≡ b)
  pub earlier : K → K → Bool

instance abbrev pub string_key : Key String
string_key = record { same = ◌==◌; same_iff = eq_iff; earlier = before }

pub number_same_iff : (a b : ℕ) → (nat_eq a b ≡ true) ↔ (a ≡ b)
number_same_iff a b = ground arith

instance abbrev pub number_key : Key ℕ
number_key = record { same = nat_eq; same_iff = number_same_iff; earlier = ltb }

unfoldable pub pair_same : String × String → String × String → Bool
pair_same a b = a.0 == b.0 && a.1 == b.1

pub pair_same_iff : (a b : String × String) → (pair_same a b ≡ true) ↔ (a ≡ b)
unfolding pair_same
pair_same_iff a b = ground (arith, eq_iff a.0 b.0, eq_iff a.1 b.1)

-- A compound key `[a+b]`.
instance abbrev pub pair_key : Key (String × String)
pair_key = record {
  same = pair_same;
  same_iff = pair_same_iff;
  earlier = λ a b. before a.0 b.0 || (a.0 == b.0 && before a.1 b.1);
}

module _ {K Row : Type 0} ⦃k : Key K⦄ (key : Row → K) where
  unfoldable pub get : K → List Row → Option Row
  get i [] = none
  get i (r ∷ rs) = if k.same (key r) i then some r else get i rs

  unfoldable pub delete : K → List Row → List Row
  delete i [] = []
  delete i (x ∷ xs) = let rest = delete i xs in if k.same (key x) i then rest else x ∷ rest

  -- A row whose key is not there goes before the first later key.
  unfoldable pub insert : Row → List Row → List Row
  insert r [] = r ∷ []
  insert r (x ∷ xs) = if k.earlier (key r) (key x) then r ∷ x ∷ xs else x ∷ insert r xs

  unfoldable pub put : Row → List Row → List Row
  unfolding insert delete
  put r t = insert r (delete (key r) t)

  pub get-delete :
      (i j : K) (t : List Row) → get i (delete j t) ≡ (if k.same j i then none else get i t)
  unfolding get delete
  get-delete i j [] = ground arith
  get-delete i j (x ∷ xs) =
      ground (arith, get-delete i j xs, k.same_iff (key x) j, k.same_iff (key x) i, k.same_iff j i)

  pub get-All {ℓ} :
      (P : Row → Type ℓ) (i : K) (t : List Row) {r : Row} → get i t ≡ some r → All P t → P r
  unfolding get
  get-All P i [] e h = cc
  get-All P i (x ∷ xs) {r} e h = ground (arith, get-All P i xs {r = r})

  pub key_get : (i : K) (t : List Row) {r : Row} → get i t ≡ some r → key r ≡ i
  unfolding get
  key_get i [] e = cc
  key_get i (x ∷ xs) {r} e = ground (arith, key_get i xs {r = r}, k.same_iff (key x) i)

  get-insert :
      (i : K) (r : Row) (t : List Row)
      → get (key r) t ≡ none
      → get i (insert r t) ≡ (if k.same (key r) i then some r else get i t)
  unfolding get insert
  get-insert i r [] h = refl
  get-insert i r (x ∷ xs) h = ground (
    arith,
    get-insert i r xs,
    k.same_iff (key x) (key r),
    k.same_iff (key x) i,
    k.same_iff (key r) i,
  )

  get-delete_self : (i : K) (t : List Row) → get i (delete i t) ≡ none
  get-delete_self i t = rw get-delete (rw ((k.same_iff i i).1 refl))

  pub get-put :
      (i : K) (r : Row) (t : List Row)
      → get i (put r t) ≡ (if k.same (key r) i then some r else get i t)
  unfolding put
  get-put i r t =
      rw (get-insert i r (delete (key r) t) (get-delete_self (key r) t))
        (rw get-delete (ground arith))

  pub delete-All {ℓ} : (P : Row → Type ℓ) (i : K) (t : List Row) → All P t → All P (delete i t)
  unfolding delete
  delete-All P i [] h = tt
  delete-All P i (x ∷ xs) h = ground (arith, delete-All P i xs)

  insert-All {ℓ} : (P : Row → Type ℓ) (r : Row) (t : List Row) → P r → All P t → All P (insert r t)
  unfolding insert
  insert-All P r [] p h = (p, tt)
  insert-All P r (x ∷ xs) p h = ground (arith, insert-All P r xs p)

  pub put-All {ℓ} : (P : Row → Type ℓ) (r : Row) (t : List Row) → P r → All P t → All P (put r t)
  unfolding put
  put-All P r t p h = insert-All P r (delete (key r) t) p (delete-All P (key r) t h)

  -- A primary key: no two rows share it.
  abbrev pub HasDistinctKeys : List Row → Type 0
  HasDistinctKeys [] = Unit
  HasDistinctKeys (r ∷ rs) = (get (key r) rs ≡ none) × HasDistinctKeys rs

  pub delete-HasDistinctKeys :
      (i : K) (t : List Row) → HasDistinctKeys t → HasDistinctKeys (delete i t)
  unfolding delete
  delete-HasDistinctKeys i [] h = tt
  delete-HasDistinctKeys i (x ∷ xs) h =
      ground (arith, delete-HasDistinctKeys i xs, get-delete (key x) i xs)

  insert-HasDistinctKeys :
      (r : Row) (t : List Row)
      → get (key r) t ≡ none
      → HasDistinctKeys t
      → HasDistinctKeys (insert r t)
  unfolding insert get
  insert-HasDistinctKeys r [] e h = (refl, tt)
  insert-HasDistinctKeys r (x ∷ xs) e h = ground (
    arith,
    insert-HasDistinctKeys r xs,
    get-insert (key x) r xs,
    k.same_iff (key x) (key r),
    k.same_iff (key r) (key x),
  )

  pub put-HasDistinctKeys : (r : Row) (t : List Row) → HasDistinctKeys t → HasDistinctKeys (put r t)
  unfolding put
  put-HasDistinctKeys r t h =
      insert-HasDistinctKeys r (delete (key r) t) (get-delete_self (key r) t)
        (delete-HasDistinctKeys (key r) t h)

  -- A row that a scan of the table finds is the row of its key, and passes the test.
  pub find-get :
      (p : Row → Bool) (t : List Row) {r : Row}
      → HasDistinctKeys t
      → find p t ≡ some r
      → (get (key r) t ≡ some r) × (p r ≡ true)
  unfolding get
  find-get p [] h e = cc
  find-get p (x ∷ xs) {r} h e = ground (
    arith,
    find-get p xs {r = r} h.1,
    k.same_iff (key x) (key r),
    (k.same_iff (key x) (key x)).1 refl,
  )
