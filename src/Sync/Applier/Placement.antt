-- ===== src/Sync/Applier/Placement.antt =====
-- Sibling order in extension/src/core/sync/remoteChangeApplier.ts: where a node goes among its
-- siblings, and the positions of the mirror rows.
pub mod Slots
pub mod Index
pub mod Ranks
use pontis.Base.{
  ℕ, zero, suc, String, Bool, true, false, not, Option, none, some, List, [], ◌∷◌, ◌==◌, keep,
  length, ltb, nat_eq, if◌then◌else◌,
}
use pontis.Base.Table.{pair_key}
use pontis.Base.Sort
use pontis.Browser.{BrowserNode}
use pontis.Store.{LocalNodeRecord, PontisDb, truthy, is_text}
use pontis.Sync.Events.Scope.{mirror_of}
use pontis.Sync.Events.Outbox.{put_local}

-- The position of a mapped child, if it has one.
abbrev pub mapped_position : Option LocalNodeRecord → Option ℕ
mapped_position none = none
mapped_position (some m) = if truthy m.canonical_id then m.position else none

-- The mapped children with their positions.
unfoldable pub mapped_slots : PontisDb → String → List BrowserNode → List (String × ℕ)
mapped_slots db binding_id [] = []
mapped_slots db binding_id (c ∷ cs) =
    let rest = mapped_slots db binding_id cs in
    elim (mapped_position (mirror_of db binding_id c.id)) [
      | none ↦ rest
      | some p ↦ (c.id, p) ∷ rest
    ]

-- `xs[i]`
abbrev pub nth : {A : Type 0} → ℕ → List A → Option A
nth i [] = none
nth zero (x ∷ xs) = some x
nth (suc i) (x ∷ xs) = nth i xs

-- `nodes.findIndex((c) => c.id === id)`, and the length instead of -1.
unfoldable pub index_or_end : String → List BrowserNode → ℕ
index_or_end id [] = 0
index_or_end id (c ∷ cs) = if c.id == id then 0 else suc (index_or_end id cs)

abbrev pub slot_of : List BrowserNode → Option (String × ℕ) → ℕ
slot_of rest none = length rest
slot_of rest (some target) = index_or_end target.0 rest

abbrev pub slot_after : String × ℕ → String × ℕ → Bool
slot_after a b = ltb b.1 a.1

abbrev pub without_moved : Option String → List BrowserNode → List BrowserNode
without_moved moved = keep (λ (c : BrowserNode). not (is_text moved c.id))

-- `browserIndexForPosition`, on the children that the browser answers with.
unfoldable pub browser_index_for_position :
    PontisDb → String → List BrowserNode → ℕ → Option String → ℕ
unfolding mapped_slots index_or_end
browser_index_for_position db binding_id children position moved =
    let rest = without_moved moved children in
    slot_of rest (nth position (Sort.sort slot_after (mapped_slots db binding_id rest)))

abbrev pub is_at : Option ℕ → ℕ → Bool
is_at none rank = false
is_at (some p) rank = nat_eq p rank

abbrev pub ranked : LocalNodeRecord → ℕ → PontisDb → PontisDb
ranked m rank db =
    if is_at m.position rank then db else put_local (record m { position = some rank }) db

-- The loop of `writeMirrorPositions` from a rank on.
unfoldable pub write_ranks : String → ℕ → List BrowserNode → PontisDb → PontisDb
write_ranks binding_id rank [] db = db
write_ranks binding_id rank (c ∷ cs) db = elim (mirror_of db binding_id c.id) [
  | none ↦ write_ranks binding_id rank cs db
  | some m ↦ elim (truthy m.canonical_id) [
    | true ↦ write_ranks binding_id (suc rank) cs (ranked m rank db)
    | false ↦ write_ranks binding_id rank cs db
  ]
]

unfoldable pub write_mirror_positions : String → List BrowserNode → PontisDb → PontisDb
unfolding write_ranks
write_mirror_positions binding_id children db = write_ranks binding_id 0 children db

abbrev pub is_mapped : Option LocalNodeRecord → Bool
is_mapped none = false
is_mapped (some m) = truthy m.canonical_id

-- The loop of `mappedRank`.
unfoldable pub rank_from : PontisDb → String → String → ℕ → List BrowserNode → Option ℕ
rank_from db binding_id id rank [] = none
rank_from db binding_id id rank (c ∷ cs) =
    let rest =
      rank_from db binding_id id
        (if is_mapped (mirror_of db binding_id c.id) then suc rank else rank) cs in
    if c.id == id then some rank else rest
