-- ===== src/Sync/Verify/Advisory.antt =====
-- `orderDrift` of verifyReplica.ts: the kinds of its problems.
use pontis.Base.{String, ◌≡◌, refl, ◌∙◌, Bool, false, Option, none, some, List, ◌++◌, any}
use pontis.Base.Table.{string_key, pair_key}
use pontis.Browser.Snapshot.{Snapshots, BrowserSnapshot}
use pontis.Protocol.{ParentRefWire, node_ref, root_ref}
use pontis.Store.{BindingRecord, LocalNodeRecord, PontisDb}
use pontis.Sync.Tree.{canonical_children, CanonicalTree}
use pontis.Sync.Verify.Report.{VerifyProblem}
use pontis.Sync.Verify.Drift.{
  first_difference, known_browser_ids, shown_ids, drift_problem, level_drift, folders_drift,
  folder_id, order_drift, mapped_rows, replay_inbox,
}
use pontis.Sync.Verify.Scan.{is_serious}
use pontis.Sync.Verify.Faithful.{any-append}

both_advisory :
    (xs ys : List VerifyProblem)
    → any is_serious xs ≡ false
    → any is_serious ys ≡ false
    → any is_serious (xs ++ ys) ≡ false
both_advisory xs ys e f = any-append xs ys ∙ rw e f

module _ (locale_after : String → String → Bool) where
  level_advisory :
      (tree : CanonicalTree) (mapped : List LocalNodeRecord) (id : String) (q : Snapshots)
      (parent : ParentRefWire)
      → any is_serious (level_drift locale_after tree mapped id q parent) ≡ false
  unfolding level_drift
  level_advisory tree mapped id q parent = of_problem (
      first_difference (known_browser_ids mapped (canonical_children locale_after tree parent)) (
        shown_ids mapped (known_browser_ids mapped (canonical_children locale_after tree parent))
          q))
    where
      of_problem : (o : Option (String × String)) → any is_serious (drift_problem id o) ≡ false
      of_problem none = refl
      of_problem (some d) = refl

  folders_advisory :
      (tree : CanonicalTree) (mapped : List LocalNodeRecord) (q : Snapshots)
      → any is_serious (folders_drift locale_after tree mapped q) ≡ false
  unfolding folders_drift
  folders_advisory tree mapped Snapshots.nothing = refl
  folders_advisory tree mapped (Snapshots.node n kids rest) =
      of_folder (folders_advisory tree mapped kids) (folders_advisory tree mapped rest)
        (folder_id mapped n)
    where
      of_folder :
          any is_serious (folders_drift locale_after tree mapped kids) ≡ false
          → any is_serious (folders_drift locale_after tree mapped rest) ≡ false
          → (o : Option String)
          → any is_serious (elim o [
            | none ↦ folders_drift locale_after tree mapped rest
            | some id ↦
                level_drift locale_after tree mapped n.id kids (node_ref id)
                ++ (folders_drift locale_after tree mapped kids
                    ++ folders_drift locale_after tree mapped rest)
          ])
            ≡ false
      of_folder below later none = later
      of_folder below later (some id) =
          both_advisory (level_drift locale_after tree mapped n.id kids (node_ref id)) _
            (level_advisory tree mapped n.id kids (node_ref id))
            (both_advisory (folders_drift locale_after tree mapped kids)
              (folders_drift locale_after tree mapped rest) below later)

  pub order_advisory :
      (db : PontisDb) (b : BindingRecord) (snap : BrowserSnapshot)
      → any is_serious (order_drift locale_after db b snap) ≡ false
  unfolding order_drift
  order_advisory db b snap =
      let tree = replay_inbox b.id db in
      let mapped = mapped_rows b.id db in
      both_advisory
        (level_drift locale_after tree mapped snap.root.id snap.children
          (root_ref b.mount.root_key))
        (folders_drift locale_after tree mapped snap.children)
        (level_advisory tree mapped snap.root.id snap.children (root_ref b.mount.root_key))
        (folders_advisory tree mapped snap.children)
