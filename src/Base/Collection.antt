-- ===== src/Base/Collection.antt =====
-- A JavaScript `Map` whose entries carry their own key: entries in the order of insertion. `set` of
-- a key that is present keeps its place.
use Prim.Native.String.{String}
use mathlib.Core.Path.{◌≡◌, refl}
use mathlib.Core.Bool.{Bool, true, false}
use mathlib.Core.List.{List, [], ◌∷◌, ◌++◌}
use mathlib.Core.Option.{Option, none, some}
use native.Mathlib.Omega.{arith}
use text.Mathlib.Text.{◌==◌}
use text.Mathlib.TextEquality.{eq_iff}
use pontis.Base.Tests.{if◌then◌else◌}

-- `set.has(i)` of a `Set` of texts.
unfoldable pub contains : String → List String → Bool
contains i [] = false
contains i (j ∷ js) = if j == i then true else contains i js

pub contains-append :
    (i : String) (xs ys : List String)
    → contains i (xs ++ ys) ≡ (if contains i xs then true else contains i ys)
unfolding contains
contains-append i [] ys = refl
contains-append i (x ∷ xs) ys = ground (arith, contains-append i xs ys)

module _ {V : Type 0} (key : V → String) where
  unfoldable pub get : String → List V → Option V
  get i [] = none
  get i (v ∷ vs) = if key v == i then some v else get i vs

  unfoldable pub has : String → List V → Bool
  has i [] = false
  has i (v ∷ vs) = if key v == i then true else has i vs

  unfoldable pub set : V → List V → List V
  set v [] = v ∷ []
  set v (x ∷ xs) = if key x == key v then v ∷ xs else x ∷ set v xs

  unfoldable pub delete : String → List V → List V
  delete i [] = []
  delete i (x ∷ xs) = let rest = delete i xs in if key x == i then rest else x ∷ rest

  -- `for (const id of ids) map.delete(id)`
  unfoldable pub delete_all : List String → List V → List V
  delete_all [] vs = vs
  delete_all (i ∷ ids) vs = delete_all ids (delete i vs)

  pub get-delete :
      (i j : String) (vs : List V) → get i (delete j vs) ≡ (if j == i then none else get i vs)
  unfolding get delete
  get-delete i j [] = ground arith
  get-delete i j (x ∷ xs) =
      ground (arith, get-delete i j xs, eq_iff (key x) j, eq_iff (key x) i, eq_iff j i)

  pub get-delete_all :
      (i : String) (ids : List String) (vs : List V)
      → get i (delete_all ids vs) ≡ (if contains i ids then none else get i vs)
  unfolding delete_all contains
  get-delete_all i [] vs = refl
  get-delete_all i (j ∷ ids) vs =
      ground (arith, get-delete_all i ids (delete j vs), get-delete i j vs)

  pub get-set :
      (i : String) (v : V) (vs : List V)
      → get i (set v vs) ≡ (if key v == i then some v else get i vs)
  unfolding get set
  get-set i v [] = refl
  get-set i v (x ∷ xs) =
      ground (arith, get-set i v xs, eq_iff (key x) (key v), eq_iff (key x) i, eq_iff (key v) i)

  -- No key stands twice.
  abbrev pub HasDistinctKeys : List V → Type 0
  HasDistinctKeys [] = Unit
  HasDistinctKeys (v ∷ vs) = (has (key v) vs ≡ false) × HasDistinctKeys vs

  pub key_get : (i : String) (vs : List V) {v : V} → get i vs ≡ some v → key v ≡ i
  unfolding get
  key_get i [] e = cc
  key_get i (x ∷ xs) {v} e = ground (arith, key_get i xs {v = v}, eq_iff (key x) i)
