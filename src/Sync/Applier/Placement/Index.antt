-- ===== src/Sync/Applier/Placement/Index.antt =====
-- `browserIndexForPosition` of remoteChangeApplier.ts: where its index lies.
use pontis.Base.{
  ℕ, zero, suc, ◌≤◌, String, ◌≡◌, refl, Option, none, some, List, [], ◌∷◌, ◌==◌, length, arith, ltb,
  ap, ◌∙◌, ◌<◌, ◌⊎◌, Bool, true, eq_iff, eq_refl, All, Bool-cases, Option-cases, inl, inr,
}
use pontis.Base.Sort
use pontis.Base.Table.{pair_key}
use pontis.Browser.{BrowserNode}
use pontis.Store.{PontisDb}
use pontis.Sync.Events.Scope.{mirror_of}
use pontis.Sync.Applier.Placement.{
  mapped_position, mapped_slots, nth, index_or_end, slot_after, slot_of, browser_index_for_position,
}
use pontis.Sync.Applier.Placement.Slots.{
  count, count-sort, count-mapped_slots, placed, placed-eq-mapped_position, passes, others,
  nth_rank, nth-none, slot_after-IsComparator, without_moved-eq-others,
}

index_or_end_le : (id : String) (cs : List BrowserNode) → index_or_end id cs ≤ length cs
unfolding index_or_end
index_or_end_le id [] = omega arith
index_or_end_le id (c ∷ cs) = ground (arith, index_or_end_le id cs)

-- A node of the list is at its index.
abbrev pub Stands : List BrowserNode → String → Type 0
Stands cs id = (n : BrowserNode) × (nth (index_or_end id cs) cs ≡ some n) × (n.id ≡ id)

first_placed : (c : BrowserNode) (cs : List BrowserNode) → Stands (c ∷ cs) c.id
unfolding index_or_end
first_placed c cs = rw (eq_refl c.id) (c, refl, refl)

later_placed :
    (c : BrowserNode) (cs : List BrowserNode) (id : String) → Stands cs id → Stands (c ∷ cs) id
unfolding index_or_end
later_placed c cs id (n, at, same) = elim (Bool-cases (c.id == id)) [
  | inl e ↦ rw e (c, refl, (eq_iff c.id id).0 e)
  | inr e ↦ rw e (n, at, same)
]

-- A slot is of a node of the list, at the position of its mirror row.
abbrev IsSlot : PontisDb → String → List BrowserNode → String × ℕ → Type 0
IsSlot db binding_id cs t = Stands cs t.0 × (placed (mirror_of db binding_id t.0) ≡ some t.1)

IsSlot-later :
    (db : PontisDb) (binding_id : String) (c : BrowserNode) (cs : List BrowserNode)
    (slots : List (String × ℕ))
    → All (IsSlot db binding_id cs) slots
    → All (IsSlot db binding_id (c ∷ cs)) slots
IsSlot-later db binding_id c cs [] h = tt
IsSlot-later db binding_id c cs (t ∷ slots) ((stands, at), hs) =
    ((later_placed c cs t.0 stands, at), IsSlot-later db binding_id c cs slots hs)

mapped_slots-IsSlot :
    (db : PontisDb) (binding_id : String) (cs : List BrowserNode)
    → All (IsSlot db binding_id cs) (mapped_slots db binding_id cs)
unfolding mapped_slots
mapped_slots-IsSlot db binding_id [] = tt
mapped_slots-IsSlot db binding_id (c ∷ cs) =
    slot (mapped_position (mirror_of db binding_id c.id))
      (placed-eq-mapped_position (mirror_of db binding_id c.id))
      (IsSlot-later db binding_id c cs (mapped_slots db binding_id cs)
        (mapped_slots-IsSlot db binding_id cs))
  where
    slot :
        (o : Option ℕ)
        → placed (mirror_of db binding_id c.id) ≡ o
        → All (IsSlot db binding_id (c ∷ cs)) (mapped_slots db binding_id cs)
        → All (IsSlot db binding_id (c ∷ cs)) (elim o [
          | none ↦ mapped_slots db binding_id cs
          | some p ↦ (c.id, p) ∷ mapped_slots db binding_id cs
        ])
    slot none e h = h
    slot (some p) e h = ((first_placed c cs, e), h)

nth-All :
    (P : String × ℕ → Type 0) (i : ℕ) (slots : List (String × ℕ)) {t : String × ℕ}
    → All P slots
    → nth i slots ≡ some t
    → P t
nth-All P i [] h e = cc
nth-All P zero (s ∷ slots) (p, h) e = ground arith
nth-All P (suc i) (s ∷ slots) (p, h) e = nth-All P i slots h e

-- How many siblings have a position in the mirror.
abbrev pub all_placed : PontisDb → String → List BrowserNode → ℕ
all_placed db binding_id =
    count λ (c : BrowserNode). passes (λ p. true) (placed (mirror_of db binding_id c.id))

-- How many of them are below a position.
abbrev pub placed_below : PontisDb → String → ℕ → List BrowserNode → ℕ
placed_below db binding_id q =
    count λ (c : BrowserNode). passes (λ p. ltb p q) (placed (mirror_of db binding_id c.id))

-- At the index is the sibling whose place in the order of positions is the wanted one: at most so
-- many are below its position, and more are not above it.
abbrev pub IsRanked : PontisDb → String → List BrowserNode → ℕ → ℕ → Type 0
IsRanked db binding_id siblings position index =
    (n : BrowserNode) × (q : ℕ) × (nth index siblings ≡ some n)
    × (placed (mirror_of db binding_id n.id) ≡ some q)
    × (placed_below db binding_id q siblings ≤ position)
    × (position < placed_below db binding_id (suc q) siblings)

-- The index is the end, as no more siblings than wanted have a position, or that of the ranked one.
abbrev pub IsIndex : PontisDb → String → List BrowserNode → ℕ → ℕ → Type 0
IsIndex db binding_id siblings position index =
    (index ≤ length siblings)
    × (((all_placed db binding_id siblings ≤ position) × (index ≡ length siblings))
        ⊎ IsRanked db binding_id siblings position index)

sorted_slots : PontisDb → String → List BrowserNode → List (String × ℕ)
sorted_slots db binding_id rest = Sort.sort slot_after (mapped_slots db binding_id rest)

-- In the sorted slots are as many that pass a test as there are siblings whose position passes it.
count-sorted_slots :
    (p : ℕ → Bool) (db : PontisDb) (binding_id : String) (rest : List BrowserNode)
    → count (λ t. p t.1) (sorted_slots db binding_id rest)
      ≡ count (λ (c : BrowserNode). passes p (placed (mirror_of db binding_id c.id))) rest
unfolding sorted_slots
count-sorted_slots p db binding_id rest =
    count-sort slot_after (λ t. p t.1) (mapped_slots db binding_id rest)
    ∙ count-mapped_slots p db binding_id rest

slot_of-IsIndex :
    (db : PontisDb) (binding_id : String) (rest : List BrowserNode) (position : ℕ)
    → IsIndex db binding_id rest position
        (slot_of rest (nth position (sorted_slots db binding_id rest)))
unfolding sorted_slots
slot_of-IsIndex db binding_id rest position =
    let slots = Sort.sort slot_after (mapped_slots db binding_id rest) in
    elim (Option-cases (nth position slots)) [
      | inl e ↦
          let few = nth-none position slots e in
          let same = count-sorted_slots (λ p. true) db binding_id rest in
          rw e (omega arith, inl (omega arith, refl))
      | inr (t, e) ↦
          let found =
            nth-All (IsSlot db binding_id rest) position slots
              (Sort.sort-All slot_after (IsSlot db binding_id rest)
                (mapped_slots db binding_id rest) (mapped_slots-IsSlot db binding_id rest))
              e in
          let rank =
            nth_rank position slots t
              (Sort.sort-IsSorted slot_after slot_after-IsComparator
                (mapped_slots db binding_id rest))
              e in
          let same = count-sorted_slots (λ p. ltb p t.1) db binding_id rest in
          let next = count-sorted_slots (λ p. ltb p (suc t.1)) db binding_id rest in
          let at : placed (mirror_of db binding_id found.0.0.id) ≡ some t.1 =
            ap (λ i. placed (mirror_of db binding_id i)) found.0.2 ∙ found.1 in
          rw e (
            index_or_end_le t.0 rest,
            inr (found.0.0, t.1, found.0.1, at, omega arith, omega arith),
          )
    ]

-- The index that the browser is asked for lies among the children other than the moved one. It is
-- the end if the mirror has a position for no more of these than the wanted position; or it is that
-- of a child with a position in the mirror, such that the positions of at most the wanted number of
-- these children are below its own, and those of more are not above it.
pub browser_index_for_position_lem :
    (db : PontisDb) (binding_id : String) (children : List BrowserNode) (position : ℕ)
    (moved : Option String)
    → IsIndex db binding_id
        (others moved children)
        position
        (browser_index_for_position db binding_id children position moved)
unfolding browser_index_for_position sorted_slots
browser_index_for_position_lem db binding_id children position moved =
    rw (without_moved-eq-others moved children)
      (slot_of-IsIndex db binding_id (others moved children) position)
