-- ===== src/Sync/Applier/Recovery/Untouched.antt =====
-- `recover` of remoteChangeApplier.ts: the browser, and the tables beside the mirror.
use pontis.Base.{
  String, ◌≡◌, refl, ◌∙◌, Bool, true, false, Option, none, some, List, [], ◌∷◌, ◌==◌, keep,
  Bool-cases, inl, inr,
}
use pontis.Base.Table
use pontis.Base.Table.{string_key}
use pontis.Browser.{BrowserNode}
use pontis.Browser.Adapter.{Adapter}
use pontis.Store.{
  BindingRecord, LocalNodeRecord, ExpectedMutationRecord, PontisDb, Level, binding_key, truthy,
  find_mirror_by_canonical,
}
use pontis.Sync.Events.Outbox.{put_local}
use pontis.Sync.Coordinator.Transfers.{or_else}
use pontis.Sync.Applied.{Local, Applied, local_of}
use pontis.Sync.Applier.Commit.{forget, Order, read_order, write_order}
use pontis.Sync.Applier.Commit.Keeping.{
  Confined, Confined-refl, Confined-trans, Aside, Aside-refl, Aside-trans, put_local-Aside,
  write_order-Aside, note-Aside, forget-Aside, commit-Confined,
}
use pontis.Sync.Applier.Recovery.{
  put_resolved, resolved_row, parent_id_of, row_parent, reordered, confirm_resolved,
  resolved_ordered, commit_resolved, candidates, adopted_row, adopt_candidate, provisional_under,
  children_if, recover_create, is_satisfied, probed, recover_mapped, is_creation, recover_one,
  recover_each, recover,
}

abbrev pub IsUntouched : {Browser : Type 0} → Local Browser → Local Browser → Type 0
IsUntouched l l' = (l'.browser ≡ l.browser) × Confined l.db l'.db

put_resolved-Aside :
    (e : ExpectedMutationRecord) (n : Option BrowserNode) (m : Option LocalNodeRecord)
    (db : PontisDb)
    → Aside db (put_resolved e n m db)
put_resolved-Aside e n none db = Aside-refl db
put_resolved-Aside e n (some m) db = put_local-Aside (resolved_row e n m) db

module _ {Browser : Type 0} (adapter : Adapter Browser) (i : String) where
  confirm_resolved-Confined :
      (e : ExpectedMutationRecord) (n : Option BrowserNode) (m : Option LocalNodeRecord)
      (parents : List (Option String)) (order : Order) (db : PontisDb)
      → Confined db (confirm_resolved adapter i e n m parents order db)
  unfolding confirm_resolved
  confirm_resolved-Confined e n m parents order db =
      commit-Confined i e.revision
        (λ d. write_order order i parents (put_resolved e n m (forget e.id d))) db
        (λ d. Aside-trans (forget-Aside e.id d) (
          Aside-trans (put_resolved-Aside e n m (forget e.id d))
            (write_order-Aside order i parents (put_resolved e n m (forget e.id d)))))

  commit_resolved-IsUntouched :
      (e : ExpectedMutationRecord) (n : Option BrowserNode) (l : Local Browser)
      → IsUntouched l (local_of (commit_resolved adapter i e n l))
  unfolding commit_resolved
  commit_resolved-IsUntouched e n l = of_order (read_order adapter l.browser parents)
    where
      m : Option LocalNodeRecord
      m = find_mirror_by_canonical l.db i e.canonical_id

      parents : List (Option String)
      parents =
          reordered adapter e
            (or_else (parent_id_of n) (or_else e.parent_browser_id (row_parent m))) m

      of_order :
          (o : Option Order)
          → IsUntouched l (local_of (resolved_ordered adapter i e n m parents o l))
      of_order none = (refl, Confined-refl l.db)
      of_order (some order) = (refl, confirm_resolved-Confined e n m parents order l.db)

  adopt_candidate-Confined :
      (e : ExpectedMutationRecord) (ns : List BrowserNode) (db : PontisDb)
      → Confined db (adopt_candidate adapter i e ns db)
  unfolding adopt_candidate
  adopt_candidate-Confined e [] db = (note-Aside Level.warn "未落定的新建预期需要对账" db).confined
  adopt_candidate-Confined e (n ∷ []) db =
      commit-Confined i e.revision (λ d. put_local (adopted_row adapter i e n) (forget e.id d)) db
        (λ d.
          Aside-trans (forget-Aside e.id d)
            (put_local-Aside (adopted_row adapter i e n) (forget e.id d)))
  adopt_candidate-Confined e (n ∷ n' ∷ ns) db = (note-Aside Level.warn "未落定的新建预期需要对账" db).confined

  recover_create-IsUntouched :
      (e : ExpectedMutationRecord) (t : Bool) (l : Local Browser)
      → IsUntouched l (local_of (recover_create adapter i e t l))
  recover_create-IsUntouched e true l = commit_resolved-IsUntouched e none l
  recover_create-IsUntouched e false l =
      of_children (children_if adapter l.browser e.parent_browser_id)
    where
      of_children :
          (o : Option (List BrowserNode))
          → IsUntouched l (local_of (provisional_under adapter i e o l))
      of_children none = (refl, Confined-refl l.db)
      of_children (some children) =
          (refl, adopt_candidate-Confined e (candidates adapter l.db i e children) l.db)

  recover_mapped-IsUntouched :
      (e : ExpectedMutationRecord) (m : Option LocalNodeRecord) (l : Local Browser)
      → IsUntouched l (local_of (recover_mapped adapter i e m l))
  recover_mapped-IsUntouched e none l =
      (refl, (note-Aside Level.error "恢复：预期没有可校验的映射，需要恢复" l.db).confined)
  recover_mapped-IsUntouched e (some m) l = elim (Bool-cases (m.browser_id == "")) [
    | inl t ↦ rw t (refl, (note-Aside Level.error "恢复：预期没有可校验的映射，需要恢复" l.db).confined)
    | inr f ↦ rw f (of_node (adapter.get_node l.browser m.browser_id))
  ]
    where
      of_answer :
          (n : Option BrowserNode) (o : Option Bool)
          → IsUntouched l (local_of (probed adapter i e n o l))
      of_answer n none = (refl, Confined-refl l.db)
      of_answer n (some true) = commit_resolved-IsUntouched e n l
      of_answer n (some false) = (refl, (note-Aside Level.info "恢复：预期未达成，将重新应用" l.db).confined)

      of_node :
          (n : Option BrowserNode)
          → IsUntouched l (local_of (probed adapter i e n (is_satisfied adapter e.kind l i e n) l))
      of_node n = of_answer n (is_satisfied adapter e.kind l i e n)

  recover_one-IsUntouched :
      (e : ExpectedMutationRecord) (l : Local Browser)
      → IsUntouched l (local_of (recover_one adapter i e l))
  unfolding recover_one
  recover_one-IsUntouched e l = elim (Bool-cases (is_creation adapter e.kind)) [
    | inl t ↦ rw t (recover_create-IsUntouched e (truthy e.browser_id) l)
    | inr f ↦ rw f (recover_mapped-IsUntouched e (find_mirror_by_canonical l.db i e.canonical_id) l)
  ]

  IsUntouched-trans : (k l m : Local Browser) → IsUntouched k l → IsUntouched l m → IsUntouched k m
  IsUntouched-trans k l m (b, h) (c, g) = (c ∙ b, Confined-trans h g)

  recover_each-IsUntouched :
      (es : List ExpectedMutationRecord) (l : Local Browser)
      → IsUntouched l (local_of (recover_each adapter i es l))
  unfolding recover_each
  recover_each-IsUntouched [] l = (refl, Confined-refl l.db)
  recover_each-IsUntouched (e ∷ es) l =
      of_binding (λ l'. recover_each-IsUntouched es l') (Table.get binding_key i l.db.bindings)
    where
      of_one :
          ((l' : Local Browser) → IsUntouched l' (local_of (recover_each adapter i es l')))
          → (r : Applied Browser) → IsUntouched l (local_of r)
          → IsUntouched l (
              local_of (elim r [
                | Applied.done l' ↦ recover_each adapter i es l'
                | Applied.thrown l' ↦ Applied.thrown l'
                | Applied.endless l' ↦ Applied.endless l'
                | Applied.unmapped message l' ↦ Applied.unmapped message l'
              ]))
      of_one rest (Applied.done l') h = IsUntouched-trans l l' _ h (rest l')
      of_one rest (Applied.thrown l') h = h
      of_one rest (Applied.endless l') h = h
      of_one rest (Applied.unmapped message l') h = h

      of_binding :
          ((l' : Local Browser) → IsUntouched l' (local_of (recover_each adapter i es l')))
          → (o : Option BindingRecord)
          → IsUntouched l (
              local_of (elim o [
                | none ↦ Applied.done l
                | some b ↦ elim (recover_one adapter i e l) [
                  | Applied.done l' ↦ recover_each adapter i es l'
                  | Applied.thrown l' ↦ Applied.thrown l'
                  | Applied.endless l' ↦ Applied.endless l'
                  | Applied.unmapped message l' ↦ Applied.unmapped message l'
                ]
              ]))
      of_binding rest none = (refl, Confined-refl l.db)
      of_binding rest (some b) =
          of_one rest (recover_one adapter i e l) (recover_one-IsUntouched e l)

  -- However `recover` ends, the browser is as it was, and so are the outbox, the run locks, the
  -- inbox and the reconciliation sessions.
  pub recover-IsUntouched : (l : Local Browser) → IsUntouched l (local_of (recover adapter i l))
  unfolding recover
  recover-IsUntouched l =
      recover_each-IsUntouched
        (keep (λ (e : ExpectedMutationRecord). e.binding_id == i) l.db.expected_mutations) l
