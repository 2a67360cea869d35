-- ===== src/Sync/Applier/Commit/Keeping.antt =====
-- What the writes of remoteChangeApplier.ts leave alone.
use pontis.Base.{
  leb, suc, ℕ, ◌<◌, String, ◌≡◌, refl, ◌∙◌, Bool, true, false, Option, none, some, List, [], ◌∷◌,
  ltb, arith, eq_refl, Bool-cases, inl, inr,
}
use pontis.Base.Table
use pontis.Base.Table.{string_key, pair_key}
use pontis.Browser.{BrowserNode}
use pontis.Store.{
  BindingRecord, LocalNodeRecord, ExpectedMutationRecord, PontisDb, Level, binding_key, truthy,
}
use pontis.Store.Diagnostics.{log_diagnostic}
use pontis.Sync.Events.Scope.{mirror_of}
use pontis.Sync.Events.Outbox.{put_local, put_binding}
use pontis.Sync.Applier.Placement.{is_at, ranked, write_ranks, write_mirror_positions}
use pontis.Sync.Applier.Commit.{
  expect, put_expectation, forget, commit_for, note, advance_applied, advance_to, commit, Order,
  order_get, write_if, write_each, write_order, present,
}

-- The tables that an applied change has no business with.
pub record Confined (db db' : PontisDb) : Type 0 where
  pub pending_ops : db'.pending_ops ≡ db.pending_ops
  pub run_locks : db'.run_locks ≡ db.run_locks
  pub remote_changes : db'.remote_changes ≡ db.remote_changes
  pub recon_sessions : db'.recon_sessions ≡ db.recon_sessions

pub Confined-refl : (db : PontisDb) → Confined db db
Confined-refl db = record {
  pending_ops = refl;
  run_locks = refl;
  remote_changes = refl;
  recon_sessions = refl;
}

pub Confined-trans : {s t u : PontisDb} → Confined s t → Confined t u → Confined s u
Confined-trans h k = record {
  pending_ops = k.pending_ops ∙ h.pending_ops;
  run_locks = k.run_locks ∙ h.run_locks;
  remote_changes = k.remote_changes ∙ h.remote_changes;
  recon_sessions = k.recon_sessions ∙ h.recon_sessions;
}

-- A write that touches the mirror, the expectations and the diagnostics only.
pub record Aside (db db' : PontisDb) : Type 0 where
  pub bindings : db'.bindings ≡ db.bindings
  pub confined : Confined db db'

pub Aside-refl : (db : PontisDb) → Aside db db
Aside-refl db = record { bindings = refl; confined = Confined-refl db }

pub Aside-trans : {s t u : PontisDb} → Aside s t → Aside t u → Aside s u
Aside-trans h k = record {
  bindings = k.bindings ∙ h.bindings;
  confined = Confined-trans h.confined k.confined;
}

pub put_local-Aside : (m : LocalNodeRecord) (db : PontisDb) → Aside db (put_local m db)
put_local-Aside m db = record {
  bindings = refl;
  confined = record {
    pending_ops = refl;
    run_locks = refl;
    remote_changes = refl;
    recon_sessions = refl;
  };
}

ranked-Aside : (m : LocalNodeRecord) (rank : ℕ) (db : PontisDb) → Aside db (ranked m rank db)
ranked-Aside m rank db = elim (Bool-cases (is_at m.position rank)) [
  | inl e ↦ rw e (Aside-refl db)
  | inr e ↦ rw e (put_local-Aside (record m { position = some rank }) db)
]

write_ranks-Aside :
    (id : String) (rank : ℕ) (cs : List BrowserNode) (db : PontisDb)
    → Aside db (write_ranks id rank cs db)
unfolding write_ranks
write_ranks-Aside id rank [] db = Aside-refl db
write_ranks-Aside id rank (c ∷ cs) db =
    child (λ r d. write_ranks-Aside id r cs d) (mirror_of db id c.id)
  where
    mapped :
        ((r : ℕ) (d : PontisDb) → Aside d (write_ranks id r cs d))
        → (m : LocalNodeRecord) (t : Bool)
        → Aside db (elim t [
          | true ↦ write_ranks id (suc rank) cs (ranked m rank db)
          | false ↦ write_ranks id rank cs db
        ])
    mapped rest m true = Aside-trans (ranked-Aside m rank db) (rest (suc rank) (ranked m rank db))
    mapped rest m false = rest rank db

    child :
        ((r : ℕ) (d : PontisDb) → Aside d (write_ranks id r cs d))
        → (o : Option LocalNodeRecord)
        → Aside db (elim o [
          | none ↦ write_ranks id rank cs db
          | some m ↦ elim (truthy m.canonical_id) [
            | true ↦ write_ranks id (suc rank) cs (ranked m rank db)
            | false ↦ write_ranks id rank cs db
          ]
        ])
    child rest none = rest rank db
    child rest (some m) = mapped rest m (truthy m.canonical_id)

write_if-Aside :
    (id : String) (o : Option (List BrowserNode)) (db : PontisDb) → Aside db (write_if id o db)
unfolding write_mirror_positions
write_if-Aside id none db = Aside-refl db
write_if-Aside id (some cs) db = write_ranks-Aside id 0 cs db

write_each-Aside :
    (order : Order) (id : String) (ids : List String) (db : PontisDb)
    → Aside db (write_each order id ids db)
unfolding write_each
write_each-Aside order id [] db = Aside-refl db
write_each-Aside order id (i ∷ ids) db =
    Aside-trans (write_if-Aside id (order_get i order) db)
      (write_each-Aside order id ids (write_if id (order_get i order) db))

pub write_order-Aside :
    (order : Order) (id : String) (ids : List (Option String)) (db : PontisDb)
    → Aside db (write_order order id ids db)
unfolding write_order
write_order-Aside order id ids db = write_each-Aside order id (present ids) db

pub note-Aside : (l : Level) (message : String) (db : PontisDb) → Aside db (note l message db)
unfolding log_diagnostic
note-Aside l message db = record {
  bindings = refl;
  confined = record {
    pending_ops = refl;
    run_locks = refl;
    remote_changes = refl;
    recon_sessions = refl;
  };
}

pub expect-Aside : (e : ExpectedMutationRecord) (db : PontisDb) → Aside db (expect e db)
unfolding expect
expect-Aside e db = record {
  bindings = refl;
  confined = record {
    pending_ops = refl;
    run_locks = refl;
    remote_changes = refl;
    recon_sessions = refl;
  };
}

pub put_expectation-Aside :
    (e : ExpectedMutationRecord) (db : PontisDb) → Aside db (put_expectation e db)
unfolding put_expectation
put_expectation-Aside e db = record {
  bindings = refl;
  confined = record {
    pending_ops = refl;
    run_locks = refl;
    remote_changes = refl;
    recon_sessions = refl;
  };
}

pub forget-Aside : (i : ℕ) (db : PontisDb) → Aside db (forget i db)
unfolding forget
forget-Aside i db = record {
  bindings = refl;
  confined = record {
    pending_ops = refl;
    run_locks = refl;
    remote_changes = refl;
    recon_sessions = refl;
  };
}

pub mirror-Aside :
    (rows : List LocalNodeRecord) (db : PontisDb) → Aside db (record db { local_nodes = rows })
mirror-Aside rows db = record {
  bindings = refl;
  confined = record {
    pending_ops = refl;
    run_locks = refl;
    remote_changes = refl;
    recon_sessions = refl;
  };
}

pub advance_applied-Confined :
    (b : BindingRecord) (revision : ℕ) (db : PontisDb) → Confined db (advance_applied b revision db)
unfolding advance_applied
advance_applied-Confined b revision db = elim (Bool-cases (ltb b.applied_revision revision)) [
  | inl e ↦ rw e (record {
    pending_ops = refl;
    run_locks = refl;
    remote_changes = refl;
    recon_sessions = refl;
  })
  | inr e ↦ rw e (Confined-refl db)
]

-- The confirming transaction of writes that stay aside.
pub commit-Confined :
    (id : String) (revision : ℕ) (write : PontisDb → PontisDb) (db : PontisDb)
    → ((d : PontisDb) → Aside d (write d))
    → Confined db (commit id revision write db)
unfolding commit
commit-Confined id revision write db aside = for_binding (Table.get binding_key id db.bindings)
  where
    for_binding : (o : Option BindingRecord) → Confined db (commit_for o revision write db)
    for_binding none = Confined-refl db
    for_binding (some b) =
        Confined-trans (aside db).confined (advance_applied-Confined b revision (write db))

pub advance_to-Confined :
    (id : String) (revision : ℕ) (db : PontisDb) → Confined db (advance_to id revision db)
unfolding advance_to
advance_to-Confined id revision db = record {
  pending_ops = ground arith;
  run_locks = ground arith;
  remote_changes = ground arith;
  recon_sessions = ground arith;
}

-- The binding's row with a revision reached.
abbrev pub Reaches : String → ℕ → BindingRecord → PontisDb → Type 0
Reaches id revision b db =
    Table.get binding_key id db.bindings ≡ some (record b { applied_revision = revision })

put-Reaches :
    (b : BindingRecord) (revision : ℕ) (db : PontisDb)
    → Reaches b.id revision b (put_binding (record b { applied_revision = revision }) db)
put-Reaches b revision db = rw Table.get-put (rw (eq_refl b.id) refl)

pub advance_applied-Reaches :
    (b : BindingRecord) (revision : ℕ) (db : PontisDb)
    → b.applied_revision < revision
    → Reaches b.id revision b (advance_applied b revision db)
unfolding advance_applied
advance_applied-Reaches b revision db lt =
    let later : ltb b.applied_revision revision ≡ true = ground arith in
    rw later (put-Reaches b revision db)

pub commit-Reaches :
    (revision : ℕ) (write : PontisDb → PontisDb) (db : PontisDb) (b : BindingRecord)
    → Table.get binding_key b.id db.bindings ≡ some b
    → b.applied_revision < revision
    → Reaches b.id revision b (commit b.id revision write db)
unfolding commit
commit-Reaches revision write db b e lt = rw e (advance_applied-Reaches b revision (write db) lt)

pub advance_to-Reaches :
    (revision : ℕ) (db : PontisDb) (b : BindingRecord)
    → Table.get binding_key b.id db.bindings ≡ some b
    → b.applied_revision < revision
    → Reaches b.id revision b (advance_to b.id revision db)
unfolding advance_to
advance_to-Reaches revision db b e lt =
    let later : leb revision b.applied_revision ≡ false = ground arith in
    rw e (rw later (put-Reaches b revision db))
