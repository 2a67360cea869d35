-- ===== src/Sync/Applier/Placement/Ranks.antt =====
-- `writeMirrorPositions` and `mappedRank` of remoteChangeApplier.ts, side by side.
use pontis.Base.{
  ◌⊎◌, ℕ, suc, String, ◌≡◌, ◌≢◌, refl, ◌∙◌, sym, ap, true, false, Option, none, some, List, [], ◌∷◌,
  ◌==◌, if◌then◌else◌, arith, eq_iff, All, Bool-cases, Option-cases, inl, inr,
}
use pontis.Base.Table
use pontis.Base.Table.{pair_key, pair_same_iff}
use pontis.Browser.{BrowserNode}
use pontis.Store.{LocalNodeRecord, PontisDb, local_key, truthy}
use pontis.Sync.Events.Scope.{mirror_of}
use pontis.Sync.Events.Outbox.{put_local}
use pontis.Sync.Applier.Placement.{
  is_at, ranked, write_ranks, write_mirror_positions, is_mapped, rank_from,
}

-- The siblings have different ids.
abbrev pub AreDistinct : List BrowserNode → Type 0
AreDistinct [] = Unit
AreDistinct (c ∷ cs) = All (λ d. d.id ≢ c.id) cs × AreDistinct cs

mirror_of-put_local :
    (m : LocalNodeRecord) (db : PontisDb) (b id : String)
    → mirror_of (put_local m db) b id
      ≡ (if Table.pair_same (local_key m) (b, id) then some m else mirror_of db b id)
mirror_of-put_local m db b id = Table.get-put local_key (b, id) m db.local_nodes

mirror_of_key :
    (db : PontisDb) (b id : String) {m : LocalNodeRecord}
    → mirror_of db b id ≡ some m
    → local_key m ≡ (b, id)
mirror_of_key db b id e = Table.key_get local_key (b, id) db.local_nodes e

ranked_other :
    (b id own : String) (m : LocalNodeRecord) (rank : ℕ) (db : PontisDb)
    → local_key m ≡ (b, own)
    → own ≢ id
    → mirror_of (ranked m rank db) b id ≡ mirror_of db b id
ranked_other b id own m rank db k ne =
    let apart : Table.pair_same (local_key m) (b, id) ≡ false =
      ground (arith, pair_same_iff (local_key m) (b, id)) in
    elim (Bool-cases (is_at m.position rank)) [
      | inl e ↦ rw e refl
      | inr e ↦ rw (e, mirror_of-put_local (record m { position = some rank }) db b id, apart) refl
    ]

at_rank : (o : Option ℕ) (rank : ℕ) → is_at o rank ≡ true → o ≡ some rank
at_rank none rank e = cc
at_rank (some p) rank e = ground arith

ranked_own :
    (b id : String) (m : LocalNodeRecord) (rank : ℕ) (db : PontisDb)
    → mirror_of db b id ≡ some m
    → mirror_of (ranked m rank db) b id ≡ some (record m { position = some rank })
ranked_own b id m rank db e =
    let same : Table.pair_same (local_key m) (b, id) ≡ true =
      (pair_same_iff (local_key m) (b, id)).1 (mirror_of_key db b id e) in
    elim (Bool-cases (is_at m.position rank)) [
      | inl at ↦ rw at (e ∙ ap (λ p. some (record m { position = p })) (at_rank m.position rank at))
      | inr at ↦ rw (at, mirror_of-put_local (record m { position = some rank }) db b id, same) refl
    ]

-- A child with no mapped row is passed over.
mapped_cases :
    (o : Option LocalNodeRecord)
    → (is_mapped o ≡ false)
      ⊎ ((m : LocalNodeRecord) × (o ≡ some m) × (truthy m.canonical_id ≡ true))
mapped_cases none = inl refl
mapped_cases (some m) = elim (Bool-cases (truthy m.canonical_id)) [
  | inl t ↦ inr (m, refl, t)
  | inr f ↦ inl f
]

module _ (b : String) (rank : ℕ) (c : BrowserNode) (cs : List BrowserNode) (db : PontisDb) where
  write_unmapped :
      is_mapped (mirror_of db b c.id) ≡ false
      → write_ranks b rank (c ∷ cs) db ≡ write_ranks b rank cs db
  unfolding write_ranks
  write_unmapped e = elim (Option-cases (mirror_of db b c.id)) [
    | inl k ↦ rw (write_ranks, k) refl
    | inr (m, k) ↦
        let f : truthy m.canonical_id ≡ false = sym (ap is_mapped k) ∙ e in
        rw (write_ranks, k, f) refl
  ]

  write_mapped :
      (m : LocalNodeRecord)
      → mirror_of db b c.id ≡ some m
      → truthy m.canonical_id ≡ true
      → write_ranks b rank (c ∷ cs) db ≡ write_ranks b (suc rank) cs (ranked m rank db)
  unfolding write_ranks
  write_mapped m k t = rw (write_ranks, k, t) refl

-- A row of no child stays.
write_ranks_other :
    (b id : String) (rank : ℕ) (cs : List BrowserNode) (db : PontisDb)
    → All (λ d. d.id ≢ id) cs
    → mirror_of (write_ranks b rank cs db) b id ≡ mirror_of db b id
unfolding write_ranks
write_ranks_other b id rank [] db h = refl
write_ranks_other b id rank (c ∷ cs) db (ne, h) = elim (mapped_cases (mirror_of db b c.id)) [
  | inl u ↦ rw (write_unmapped b rank c cs db u) (write_ranks_other b id rank cs db h)
  | inr (m, e, t) ↦ rw (write_mapped b rank c cs db m e t) (
      write_ranks_other b id (suc rank) cs (ranked m rank db) h
      ∙ ranked_other b id c.id m rank db (mirror_of_key db b c.id e) ne)
]

-- A rank depends on the rows of the children only.
rank_from_same :
    (b id : String) (rank : ℕ) (cs : List BrowserNode) (s t : PontisDb)
    → All (λ d. mirror_of t b d.id ≡ mirror_of s b d.id) cs
    → rank_from t b id rank cs ≡ rank_from s b id rank cs
unfolding rank_from
rank_from_same b id rank [] s t h = refl
rank_from_same b id rank (c ∷ cs) s t (e, h) = rw e (
    rw (rank_from_same b id (if is_mapped (mirror_of s b c.id) then suc rank else rank) cs s t h)
      refl)

ranked_others :
    (b own : String) (m : LocalNodeRecord) (rank : ℕ) (db : PontisDb) (cs : List BrowserNode)
    → local_key m ≡ (b, own)
    → All (λ d. d.id ≢ own) cs
    → All (λ d. mirror_of (ranked m rank db) b d.id ≡ mirror_of db b d.id) cs
ranked_others b own m rank db [] k h = tt
ranked_others b own m rank db (d ∷ cs) k (ne, h) =
    (ranked_other b d.id own m rank db k (λ e. ne (sym e)), ranked_others b own m rank db cs k h)

abbrev pub HasRank : String → String → LocalNodeRecord → ℕ → PontisDb → Type 0
HasRank b id m rank db = mirror_of db b id ≡ some (record m { position = some rank })

module _ (b id : String) (rank : ℕ) (c : BrowserNode) (cs : List BrowserNode) (db : PontisDb) where
  rank_here : c.id == id ≡ true → rank_from db b id rank (c ∷ cs) ≡ some rank
  unfolding rank_from
  rank_here e = rw (rank_from, e) refl

  rank_later :
      c.id == id ≡ false
      → rank_from db b id rank (c ∷ cs)
        ≡ rank_from db b id (if is_mapped (mirror_of db b c.id) then suc rank else rank) cs
  unfolding rank_from
  rank_later e = rw (rank_from, e) refl

write_ranks_own :
    (b : String) (rank : ℕ) (c : BrowserNode) (cs : List BrowserNode) (db : PontisDb)
    (m : LocalNodeRecord)
    → All (λ d. d.id ≢ c.id) cs
    → mirror_of db b c.id ≡ some m
    → truthy m.canonical_id ≡ true
    → HasRank b c.id m rank (write_ranks b rank (c ∷ cs) db)
write_ranks_own b rank c cs db m apart e t = rw (write_mapped b rank c cs db m e t) (
    write_ranks_other b c.id (suc rank) cs (ranked m rank db) apart ∙ ranked_own b c.id m rank db e)

write_ranks_rank :
    (b id : String) (rank : ℕ) (cs : List BrowserNode) (db : PontisDb) (m : LocalNodeRecord) (r : ℕ)
    → AreDistinct cs
    → mirror_of db b id ≡ some m
    → truthy m.canonical_id ≡ true
    → rank_from db b id rank cs ≡ some r
    → HasRank b id m r (write_ranks b rank cs db)
unfolding rank_from
write_ranks_rank b id rank [] db m r h e t k = cc
write_ranks_rank b id rank (c ∷ cs) db m r (apart, h) e t k = elim (Bool-cases (c.id == id)) [
  | inl here ↦
      let same : c.id ≡ id = (eq_iff c.id id).0 here in
      let at : some rank ≡ some r = sym (rank_here b id rank c cs db here) ∙ k in
      let own : mirror_of db b c.id ≡ some m = ap (mirror_of db b) same ∙ e in
      let result : HasRank b c.id m rank (write_ranks b rank (c ∷ cs) db) =
        write_ranks_own b rank c cs db m apart own t in
      ap (mirror_of (write_ranks b rank (c ∷ cs) db) b) (sym same)
      ∙ result
      ∙ ap (λ p. some (record m { position = p })) at
  | inr there ↦
      let later = sym (rank_later b id rank c cs db there) ∙ k in
      elim (mapped_cases (mirror_of db b c.id)) [
        | inl u ↦
            let k' : rank_from db b id rank cs ≡ some r =
              ap (λ t. rank_from db b id (if t then suc rank else rank) cs) (sym u) ∙ later in
            rw (write_unmapped b rank c cs db u) (write_ranks_rank b id rank cs db m r h e t k')
        | inr (n, f, t') ↦
            let mapped : is_mapped (mirror_of db b c.id) ≡ true = ap is_mapped f ∙ t' in
            let key : local_key n ≡ (b, c.id) = mirror_of_key db b c.id f in
            let k' : rank_from (ranked n rank db) b id (suc rank) cs ≡ some r =
              rank_from_same b id (suc rank) cs db (ranked n rank db)
                (ranked_others b c.id n rank db cs key apart)
              ∙ ap (λ t. rank_from db b id (if t then suc rank else rank) cs) (sym mapped)
              ∙ later in
            let ne : c.id ≢ id = ground (arith, eq_iff c.id id) in
            rw (write_mapped b rank c cs db n f t') (
              write_ranks_rank b id (suc rank) cs (ranked n rank db) m r h
                (ranked_other b id c.id n rank db key ne ∙ e) t k')
      ]
]

-- Among children of different ids, take one whose row is mapped. After `writeMirrorPositions` its
-- row is as before, with the rank as its position that `mappedRank` computes for it.
pub write_mirror_positions_rank :
    (db : PontisDb) (b id : String) (cs : List BrowserNode) (m : LocalNodeRecord) (r : ℕ)
    → AreDistinct cs
    → mirror_of db b id ≡ some m
    → truthy m.canonical_id ≡ true
    → rank_from db b id 0 cs ≡ some r
    → HasRank b id m r (write_mirror_positions b cs db)
unfolding write_mirror_positions
write_mirror_positions_rank db b id cs m r h e t k = write_ranks_rank b id 0 cs db m r h e t k
