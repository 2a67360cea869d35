-- ===== src/Wire/Validate/Accepted.antt =====
-- validate.ts: which bodies pass.
use pontis.Base.{
  String, ◌≡◌, refl, ◌↔◌, Bool, true, Option, none, some, if◌then◌else◌, arith, Bool-cases, inl,
  inr,
}
use pontis.Wire.Json.{Json, Items, is_object}
use pontis.Wire.Validate.{
  Check, and_also, require_array, require_number, require_bool, require_string, each_item,
  require_each,
}

-- The shapes of a value that may be missing.
module _ {Number : Type 0} (is_finite : Number → Bool) where
  abbrev pub IsNumber : Option (Json Number) → Type 0
  IsNumber (some (Json.number n)) = is_finite n ≡ true
  IsNumber v = ⊥

module _ {Number : Type 0} where
  abbrev pub IsText : Option (Json Number) → Type 0
  IsText (some (Json.text s)) = Unit
  IsText v = ⊥

  abbrev pub IsTruth : Option (Json Number) → Type 0
  IsTruth (some (Json.bool b)) = Unit
  IsTruth v = ⊥

  abbrev pub EachItem : (Json Number → Type 0) → Items Number → Type 0
  EachItem P Items.nil = Unit
  EachItem P (Items.item x xs) = P x × EachItem P xs

  abbrev pub IsArrayOf : (Json Number → Type 0) → Option (Json Number) → Type 0
  IsArrayOf P (some (Json.array xs)) = EachItem P xs
  IsArrayOf P v = ⊥

  abbrev pub Anything : Json Number → Type 0
  Anything v = Unit

  -- An object or an array, as `typeof value === 'object'` has it.
  abbrev pub IsObject : Json Number → Type 0
  IsObject v = is_object v ≡ true

pub both_iff : (a b : Check) → (and_also a b ≡ Check.fine) ↔ ((a ≡ Check.fine) × (b ≡ Check.fine))
both_iff Check.fine b = ground arith
both_iff (Check.refused m) b = (λ e. cc, λ h. h.0)

refused_not : {m : String} → Check.refused m ≡ Check.fine → ⊥
refused_not e = cc

module _ {Number : Type 0} (is_finite : Number → Bool)
    (stringify : Option (Json Number) → String) where
  pub require_number_iff :
      (v : Option (Json Number)) (name : String)
      → (require_number is_finite stringify v name ≡ Check.fine) ↔ IsNumber is_finite v
  require_number_iff none name = (λ e. refused_not e, λ h. absurd h)
  require_number_iff (some Json.null) name = (λ e. refused_not e, λ h. absurd h)
  require_number_iff (some (Json.bool b)) name = (λ e. refused_not e, λ h. absurd h)
  require_number_iff (some (Json.number n)) name = elim (Bool-cases (is_finite n)) [
    | inl t ↦ rw t (λ e. refl, λ h. refl)
    | inr f ↦ rw f (λ e. absurd (refused_not e), λ h. cc)
  ]
  require_number_iff (some (Json.text s)) name = (λ e. refused_not e, λ h. absurd h)
  require_number_iff (some (Json.array xs)) name = (λ e. refused_not e, λ h. absurd h)
  require_number_iff (some (Json.object fs)) name = (λ e. refused_not e, λ h. absurd h)

  pub require_string_iff :
      (v : Option (Json Number)) (name : String)
      → (require_string is_finite stringify v name ≡ Check.fine) ↔ IsText v
  require_string_iff none name = (λ e. refused_not e, λ h. absurd h)
  require_string_iff (some Json.null) name = (λ e. refused_not e, λ h. absurd h)
  require_string_iff (some (Json.bool b)) name = (λ e. refused_not e, λ h. absurd h)
  require_string_iff (some (Json.number n)) name = (λ e. refused_not e, λ h. absurd h)
  require_string_iff (some (Json.text s)) name = (λ e. tt, λ h. refl)
  require_string_iff (some (Json.array xs)) name = (λ e. refused_not e, λ h. absurd h)
  require_string_iff (some (Json.object fs)) name = (λ e. refused_not e, λ h. absurd h)

  pub require_bool_iff :
      (v : Option (Json Number)) → (require_bool is_finite stringify v ≡ Check.fine) ↔ IsTruth v
  require_bool_iff none = (λ e. refused_not e, λ h. absurd h)
  require_bool_iff (some Json.null) = (λ e. refused_not e, λ h. absurd h)
  require_bool_iff (some (Json.bool b)) = (λ e. tt, λ h. refl)
  require_bool_iff (some (Json.number n)) = (λ e. refused_not e, λ h. absurd h)
  require_bool_iff (some (Json.text s)) = (λ e. refused_not e, λ h. absurd h)
  require_bool_iff (some (Json.array xs)) = (λ e. refused_not e, λ h. absurd h)
  require_bool_iff (some (Json.object fs)) = (λ e. refused_not e, λ h. absurd h)

  every_thing : (xs : Items Number) → EachItem Anything xs
  every_thing Items.nil = tt
  every_thing (Items.item x xs) = (tt, every_thing xs)

  pub require_array_iff :
      (v : Option (Json Number)) (name : String)
      → (require_array is_finite stringify v name ≡ Check.fine) ↔ IsArrayOf Anything v
  require_array_iff none name = (λ e. refused_not e, λ h. absurd h)
  require_array_iff (some Json.null) name = (λ e. refused_not e, λ h. absurd h)
  require_array_iff (some (Json.bool b)) name = (λ e. refused_not e, λ h. absurd h)
  require_array_iff (some (Json.number n)) name = (λ e. refused_not e, λ h. absurd h)
  require_array_iff (some (Json.text s)) name = (λ e. refused_not e, λ h. absurd h)
  require_array_iff (some (Json.array xs)) name = (λ e. every_thing xs, λ h. refl)
  require_array_iff (some (Json.object fs)) name = (λ e. refused_not e, λ h. absurd h)

  each_iff :
      (f : Json Number → Check) (P : Json Number → Type 0) (xs : Items Number)
      → ((x : Json Number) → (f x ≡ Check.fine) ↔ P x)
      → (each_item is_finite stringify f xs ≡ Check.fine) ↔ EachItem P xs
  each_iff f P Items.nil h = (λ e. tt, λ h. refl)
  each_iff f P (Items.item x xs) h =
      let later = each_iff f P xs h in
      let both = both_iff (f x) (each_item is_finite stringify f xs) in
      (λ e. ((h x).0 (both.0 e).0, later.0 (both.0 e).1), λ k. both.1 ((h x).1 k.0, later.1 k.1))

  pub require_each_iff :
      (f : Json Number → Check) (P : Json Number → Type 0) (v : Option (Json Number))
      (name : String)
      → ((x : Json Number) → (f x ≡ Check.fine) ↔ P x)
      → (require_each is_finite stringify v name f ≡ Check.fine) ↔ IsArrayOf P v
  require_each_iff f P none name h = (λ e. refused_not e, λ h. absurd h)
  require_each_iff f P (some Json.null) name h = (λ e. refused_not e, λ h. absurd h)
  require_each_iff f P (some (Json.bool b)) name h = (λ e. refused_not e, λ h. absurd h)
  require_each_iff f P (some (Json.number n)) name h = (λ e. refused_not e, λ h. absurd h)
  require_each_iff f P (some (Json.text s)) name h = (λ e. refused_not e, λ h. absurd h)
  require_each_iff f P (some (Json.array xs)) name h = each_iff f P xs h
  require_each_iff f P (some (Json.object fs)) name h = (λ e. refused_not e, λ h. absurd h)

  pub guard_iff :
      (message : String) (j : Json Number) (c : Check)
      → ((if is_object j then c else Check.refused message) ≡ Check.fine)
        ↔ (IsObject j × (c ≡ Check.fine))
  guard_iff message j c = elim (Bool-cases (is_object j)) [
    | inl t ↦ rw t (λ e. (refl, e), λ h. h.1)
    | inr f ↦ rw f (λ e. absurd (refused_not e), λ h. cc)
  ]
