-- ===== src/Sync/Verify/Quiesce/Terminates.antt =====
-- verifyReplica.ts and integrity.ts: the end of a repair and of a check.
use pontis.Base.{
  ℕ, zero, suc, String, Bool, true, false, ◌&&◌, Option, none, some, List, ◌==◌, find, length,
  nat_eq, if◌then◌else◌, Bool-cases, inl, inr,
}
use pontis.Base.Table
use pontis.Base.Table.{string_key, pair_key}
use pontis.Browser.{BrowserNode}
use pontis.Browser.Adapter.{Adapter}
use pontis.Browser.Snapshot.{Snapshots, Outcome, and_then, snapshot_browser_tree}
use pontis.Browser.Snapshot.Ends.{
  Ends, IsTree, and_then-Ends, answer-Ends, snapshot_browser_tree-Ends,
}
use pontis.Protocol.{ParentRefWire}
use pontis.Store.{BindingRecord, LocalNodeRecord, PontisDb, binding_key}
use pontis.Store.Subtree.{rows_of}
use pontis.Sync.Tree.{or_empty}
use pontis.Sync.Applied.{Local}
use pontis.Sync.Verify.{is_quiescent}
use pontis.Sync.Verify.Report.{VerifyReport}
use pontis.Sync.Verify.Scan.{differs_in_parent, must_get_binding, verify_scan}
use pontis.Sync.Verify.Verdict.{verify_scan-Ends}
use pontis.Sync.Verify.Repair.{
  has_canonical, is_partial, canonical_parent_ref, next_mapped_sibling, repair_parent,
  repair_fields, repair_row, repair_from, repair_level,
}
use pontis.Sync.Verify.Upload.{should_skip_upload, upload_under, upload_nodes}
use pontis.Sync.Verify.Quiesce.{
  uploaded, upload_for, upload_pass_all, quiesce_loop, max_quiesce_rounds, repair_for,
  verify_and_repair,
}
use pontis.Sync.Verify.Integrity.{
  has_serious, is_lost, missing_mirrors, classified, integrity_check,
}

canonical_parent_ref-Ends :
    (db : PontisDb) (i : String) (parent : Option String) → Ends (canonical_parent_ref db i parent)
unfolding canonical_parent_ref
canonical_parent_ref-Ends db i none = tt
canonical_parent_ref-Ends db i (some parent) =
    and_then-Ends (must_get_binding db i) _ (answer-Ends (Table.get binding_key i db.bindings))
      (λ b. tt)

module _ (uuid : ℕ → String) (i : String) where
  repair_row-Ends :
      (siblings : Snapshots) (mirrors : List LocalNodeRecord) (n : BrowserNode)
      (o : Option LocalNodeRecord) (db : PontisDb)
      → Ends (repair_row uuid i siblings mirrors n o db)
  repair_row-Ends siblings mirrors n none db = tt
  repair_row-Ends siblings mirrors n (some m) db = elim (Bool-cases (has_canonical m)) [
    | inl t ↦ rw t (of_parent (differs_in_parent m.parent_browser_id n.parent_id))
    | inr f ↦ rw f tt
  ]
    where
      fixed : PontisDb
      fixed = repair_fields uuid i n m (or_empty m.canonical_id) db

      of_parent :
          (t : Bool)
          → Ends (
              repair_parent uuid i t n
                (or_empty m.canonical_id)
                (next_mapped_sibling siblings n.id mirrors)
                fixed)
      of_parent false = tt
      of_parent true =
          and_then-Ends (canonical_parent_ref fixed i n.parent_id) _
            (canonical_parent_ref-Ends fixed i n.parent_id) (λ parent. tt)

  repair_from-Ends :
      (siblings : Snapshots) (mirrors : List LocalNodeRecord) (q : Snapshots) (db : PontisDb)
      → Ends (repair_from uuid i siblings mirrors q db)
  unfolding repair_from
  repair_from-Ends siblings mirrors Snapshots.nothing db = tt
  repair_from-Ends siblings mirrors (Snapshots.node n kids rest) db =
      let row = find (λ (m : LocalNodeRecord). m.browser_id == n.id) mirrors in
      and_then-Ends (repair_row uuid i siblings mirrors n row db) _
        (repair_row-Ends siblings mirrors n row db)
        (λ d.
          and_then-Ends (repair_from uuid i kids mirrors kids d) _
            (repair_from-Ends kids mirrors kids d)
            (λ d'. repair_from-Ends siblings mirrors rest d'))

  upload_nodes-Ends : (q : Snapshots) (db : PontisDb) → Ends (upload_nodes uuid i q db)
  unfolding upload_nodes
  upload_nodes-Ends Snapshots.nothing db = tt
  upload_nodes-Ends (Snapshots.node n kids rest) db =
      and_then-Ends _ _ (one (upload_nodes-Ends kids db) (should_skip_upload uuid i db n.id)) (λ r.
        and_then-Ends (upload_nodes uuid i rest r.1) _ (upload_nodes-Ends rest r.1) (λ r'. tt))
    where
      under : (o : Option ParentRefWire) → Ends (upload_under uuid i n o db)
      under none = tt
      under (some parent) = tt

      one :
          Ends (upload_nodes uuid i kids db)
          → (t : Bool)
          → Ends (elim t [
            | true ↦ upload_nodes uuid i kids db
            | false ↦
                and_then
                  (canonical_parent_ref db i n.parent_id)
                  λ parent. upload_under uuid i n parent db
          ])
      one below true = below
      one below false =
          and_then-Ends (canonical_parent_ref db i n.parent_id) _
            (canonical_parent_ref-Ends db i n.parent_id) under

module _ {Browser : Type 0} (adapter : Adapter Browser) (uuid : ℕ → String)
    (locale_after : String → String → Bool) (depth : ℕ)
    (sync : String → Local Browser → Outcome (Local Browser)) (weight : Browser → String → ℕ)
    (trees : (browser : Browser) → IsTree adapter browser (weight browser) depth)
    (rounds_end : (i : String) (l : Local Browser) → Ends (sync i l)) where
  snapshot-Ends :
      (browser : Browser) (root : String) → Ends (snapshot_browser_tree adapter browser depth root)
  snapshot-Ends browser root =
      snapshot_browser_tree-Ends adapter browser (weight browser) depth (trees browser) root

  upload_pass_all-Ends :
      (i : String) (l : Local Browser) → Ends (upload_pass_all adapter uuid depth sync i l)
  unfolding upload_pass_all
  upload_pass_all-Ends i l = of_binding (Table.get binding_key i l.db.bindings)
    where
      of_folder :
          (b : BindingRecord) (o : Option String) → Ends (uploaded adapter uuid depth sync b.id o l)
      of_folder b none = tt
      of_folder b (some folder) = elim (Bool-cases (folder == "")) [
        | inl t ↦ rw t tt
        | inr f ↦ rw f (
            and_then-Ends (snapshot_browser_tree adapter l.browser depth folder) _
              (snapshot-Ends l.browser folder)
              (λ snap.
                and_then-Ends (upload_nodes uuid b.id snap.children l.db) _
                  (upload_nodes-Ends uuid b.id snap.children l.db) (λ r. tt)))
      ]

      of_binding : (o : Option BindingRecord) → Ends (upload_for adapter uuid depth sync o l)
      of_binding none = tt
      of_binding (some b) = elim (Bool-cases (is_partial b.mount.mode)) [
        | inl t ↦ rw t (of_folder b b.mount.folder_browser_id)
        | inr f ↦ rw f tt
      ]

  quiesce_loop-Ends :
      (rounds : ℕ) (i : String) (l : Local Browser)
      → Ends (quiesce_loop adapter uuid depth sync rounds i l)
  unfolding quiesce_loop
  quiesce_loop-Ends zero i l = tt
  quiesce_loop-Ends (suc rounds) i l = and_then-Ends (sync i l) _ (rounds_end i l) (λ l'.
      and_then-Ends (upload_pass_all adapter uuid depth sync i l') _ (upload_pass_all-Ends i l')
        (λ r.
          again (λ l''. quiesce_loop-Ends rounds i l'') r (nat_eq r.0 0 && is_quiescent r.1.db i)))
    where
      again :
          ((l'' : Local Browser) → Ends (quiesce_loop adapter uuid depth sync rounds i l''))
          → (r : ℕ × Local Browser) (t : Bool)
          → Ends (elim t [
            | true ↦ Outcome.done r.1
            | false ↦ quiesce_loop adapter uuid depth sync rounds i r.1
          ])
      again rest r true = tt
      again rest r false = rest r.1

  pub verify_and_repair-Ends :
      (i : String) (l : Local Browser)
      → Ends (verify_and_repair adapter uuid depth sync locale_after i l)
  unfolding verify_and_repair repair_level
  verify_and_repair-Ends i l =
      and_then-Ends (must_get_binding l.db i) _
        (answer-Ends (Table.get binding_key i l.db.bindings))
        (λ b.
          and_then-Ends (repair_for adapter uuid depth sync b b.mount.folder_browser_id l) _
            (of_folder b b.mount.folder_browser_id)
            (λ l'.
              and_then-Ends (verify_scan adapter locale_after depth l'.browser l'.db i) _
                (verify_scan-Ends adapter locale_after l'.browser (weight l'.browser) depth
                  (trees l'.browser) l'.db i)
                (λ report. tt)))
    where
      of_folder :
          (b : BindingRecord) (o : Option String) → Ends (repair_for adapter uuid depth sync b o l)
      of_folder b none = tt
      of_folder b (some folder) =
          elim (Bool-cases (is_partial b.mount.mode && (if folder == "" then false else true))) [
            | inl t ↦ rw t (
                and_then-Ends (snapshot_browser_tree adapter l.browser depth folder) _
                  (snapshot-Ends l.browser folder)
                  (λ snap.
                    and_then-Ends
                      (repair_level uuid b.id snap.children (rows_of b.id l.db.local_nodes) l.db) _
                      (repair_from-Ends uuid b.id snap.children (rows_of b.id l.db.local_nodes)
                        snap.children l.db)
                      (λ d.
                        and_then-Ends
                          (upload_pass_all adapter uuid depth sync b.id (record l { db = d })) _
                          (upload_pass_all-Ends b.id (record l { db = d }))
                          (λ r. quiesce_loop-Ends max_quiesce_rounds b.id r.1))))
            | inr f ↦ rw f tt
          ]

  -- If each call of `syncBinding` ends, and if in every state the nodes of the browser form a tree
  -- no deeper than the depth that is allowed, then `integrityCheck` ends, its repair and its 64
  -- rounds included.
  pub integrity_check-Ends :
      (i : String) (l : Local Browser)
      → Ends (integrity_check adapter uuid locale_after depth sync i l)
  unfolding integrity_check
  integrity_check-Ends i l =
      and_then-Ends (verify_scan adapter locale_after depth l.browser l.db i) _
        (verify_scan-Ends adapter locale_after l.browser (weight l.browser) depth (trees l.browser)
          l.db i)
        of_report
    where
      of_report :
          (pre : VerifyReport) → Ends (classified adapter uuid locale_after depth sync i pre l)
      of_report pre = elim (Bool-cases (has_serious pre)) [
        | inr f ↦ rw f tt
        | inl t ↦
            elim (Bool-cases
              (is_lost (missing_mirrors pre) (length (rows_of i l.db.local_nodes)))) [
                | inl lost ↦ rw t (rw lost tt)
                | inr few ↦ rw t (
                    rw few (
                      and_then-Ends (verify_and_repair adapter uuid depth sync locale_after i l) _
                        (verify_and_repair-Ends i l) (λ r. tt)))
              ]
      ]
