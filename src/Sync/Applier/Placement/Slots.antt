-- ===== src/Sync/Applier/Placement/Slots.antt =====
-- The slots of `browserIndexForPosition` of remoteChangeApplier.ts: how many of them are below the
-- one at an index.
use pontis.Base.{
  ap, ◌∙◌, ℕ, zero, suc, ◌+◌, ◌≤◌, ◌<◌, String, ◌≡◌, refl, Bool, true, false, Option, none, some,
  List, [], ◌∷◌, ◌==◌, if◌then◌else◌, ltb, eq_iff, arith, All,
}
use pontis.Base.Sort
use pontis.Base.Sort.{IsComparator, IsSorted}
use pontis.Base.Table.{pair_key}
use pontis.Browser.{BrowserNode}
use pontis.Store.{LocalNodeRecord, PontisDb}
use pontis.Sync.Events.Scope.{mirror_of}
use pontis.Sync.Applier.Placement.{mapped_position, mapped_slots, nth, slot_after, without_moved}

-- How many elements pass a test.
abbrev pub count : {A : Type 0} → (A → Bool) → List A → ℕ
count p [] = 0
count p (x ∷ xs) = (if p x then 1 else 0) + count p xs

module _ {A : Type 0} (gt : A → A → Bool) (p : A → Bool) where
  count-insert : (a : A) (xs : List A) → count p (Sort.insert gt a xs) ≡ count p (a ∷ xs)
  unfolding Sort.insert
  count-insert a [] = refl
  count-insert a (x ∷ xs) = ground (arith, count-insert a xs)

  pub count-sort : (xs : List A) → count p (Sort.sort gt xs) ≡ count p xs
  unfolding Sort.sort
  count-sort [] = refl
  count-sort (x ∷ xs) =
      count-insert x (Sort.sort gt xs) ∙ ap (λ k. (if p x then 1 else 0) + k) (count-sort xs)

-- The test that a slot is below a position.
abbrev pub is_below : ℕ → String × ℕ → Bool
is_below q t = ltb t.1 q

abbrev AtLeast : ℕ → List (String × ℕ) → Type 0
AtLeast q = All (λ t. q ≤ t.1)

none_below : (q : ℕ) (ts : List (String × ℕ)) → AtLeast q ts → count (is_below q) ts ≡ 0
none_below q [] h = refl
none_below q (t ∷ ts) h = ground (arith, none_below q ts h.1)

AtLeast-nth :
    (q k : ℕ) (ts : List (String × ℕ)) (t : String × ℕ) → AtLeast q ts → nth k ts ≡ some t → q ≤ t.1
AtLeast-nth q k [] t h e = cc
AtLeast-nth q zero (s ∷ ts) t h e = ground (arith, h.0)
AtLeast-nth q (suc k) (s ∷ ts) t h e = AtLeast-nth q k ts t h.1 e

after_AtLeast :
    (x : String × ℕ) (ts : List (String × ℕ))
    → All (λ y. slot_after x y ≡ false) ts
    → AtLeast x.1 ts
after_AtLeast x [] h = tt
after_AtLeast x (t ∷ ts) h = (ground (arith, h.0), after_AtLeast x ts h.1)

-- Below the slot at an index of a sorted list are at most as many slots as the index says, and more
-- than that are not above it.
pub nth_rank :
    (k : ℕ) (ts : List (String × ℕ)) (t : String × ℕ)
    → IsSorted slot_after ts
    → nth k ts ≡ some t
    → (count (is_below t.1) ts ≤ k) × (k < count (is_below (suc t.1)) ts)
nth_rank k [] t h e = cc
nth_rank zero (x ∷ ts) t h e =
    let below = none_below x.1 ts (after_AtLeast x ts h.0) in ground arith
nth_rank (suc k) (x ∷ ts) t h e =
    let least = AtLeast-nth x.1 k ts t (after_AtLeast x ts h.0) e in
    let rank = nth_rank k ts t h.1 e in ground (arith, rank.0, rank.1)

pub nth-none : (k : ℕ) (ts : List (String × ℕ)) → nth k ts ≡ none → count (λ t. true) ts ≤ k
nth-none k [] e = omega arith
nth-none zero (x ∷ ts) e = cc
nth-none (suc k) (x ∷ ts) e = omega (arith, nth-none k ts e)

pub slot_after-IsComparator : IsComparator slot_after
slot_after-IsComparator = record { asym = λ a b h. ground arith; trans = λ a b c h k. ground arith }

-- The position of a sibling: that of its mirror row, if the row has a canonical id.
abbrev pub placed : Option LocalNodeRecord → Option ℕ
placed none = none
placed (some m) = elim m.canonical_id [
  | none ↦ none
  | some id ↦ if id == "" then none else m.position
]

pub placed-eq-mapped_position : (o : Option LocalNodeRecord) → placed o ≡ mapped_position o
placed-eq-mapped_position none = refl
placed-eq-mapped_position (some m) = ground arith

-- A test of the position, which a sibling without one does not pass.
abbrev pub passes : (ℕ → Bool) → Option ℕ → Bool
passes p none = false
passes p (some q) = p q

pub count-mapped_slots :
    (p : ℕ → Bool) (db : PontisDb) (binding_id : String) (cs : List BrowserNode)
    → count (λ t. p t.1) (mapped_slots db binding_id cs)
      ≡ count (λ (c : BrowserNode). passes p (placed (mirror_of db binding_id c.id))) cs
unfolding mapped_slots
count-mapped_slots p db binding_id [] = refl
count-mapped_slots p db binding_id (c ∷ cs) = ground (
  arith,
  placed-eq-mapped_position (mirror_of db binding_id c.id),
  count-mapped_slots p db binding_id cs,
)

-- The children other than the moved one.
abbrev pub others : Option String → List BrowserNode → List BrowserNode
others none cs = cs
others (some id) [] = []
others (some id) (c ∷ cs) = let rest = others (some id) cs in if c.id == id then rest else c ∷ rest

pub without_moved-eq-others :
    (moved : Option String) (cs : List BrowserNode) → without_moved moved cs ≡ others moved cs
without_moved-eq-others none [] = refl
without_moved-eq-others none (c ∷ cs) = ap (λ ds. c ∷ ds) (without_moved-eq-others none cs)
without_moved-eq-others (some id) [] = refl
without_moved-eq-others (some id) (c ∷ cs) =
    ground (arith, eq_iff id c.id, eq_iff c.id id, without_moved-eq-others (some id) cs)
