-- ===== src/Sync/Verify/Verdict.antt =====
-- `verifyScan` of verifyReplica.ts: when its report is ok.
use pontis.Base.{
  ℕ, String, ◌≡◌, refl, ◌↔◌, Bool, true, not, Option, none, some, ◌++◌, any, All, arith,
}
use pontis.Base.Table
use pontis.Base.Table.{string_key, pair_key}
use pontis.Browser.Adapter.{Adapter}
use pontis.Browser.Snapshot.{
  snapshot_browser_tree, Outcome, and_then, answer, BrowserSnapshot, size,
}
use pontis.Store.{binding_key, BindingRecord, PontisDb}
use pontis.Store.Subtree.{rows_of}
use pontis.Sync.Verify.Report.{VerifyReport}
use pontis.Sync.Verify.Drift.{order_drift}
use pontis.Sync.Verify.Scan.{scan_nodes, orphans, is_serious, compared}
use pontis.Sync.Verify.Scan.{mount_root_id, verify_scan, id_or_throw, mount_root, first_root}
use pontis.Store.{BindingMode}
use pontis.Browser.Snapshot.Ends.{
  Ends, IsTree, and_then-Ends, answer-Ends, snapshot_browser_tree-Ends,
}
use pontis.Sync.Verify.Advisory.{order_advisory}
use pontis.Sync.Verify.Faithful.{IsMirrored, Each, IsLive, any-append, orphans_iff, nodes_iff}

-- What is compared: every node below the mount root is mirrored, and every row of the binding is live.
abbrev pub IsFaithful :
    {Browser : Type 0}
    → Adapter Browser
    → Browser
    → PontisDb
    → String
    → String
    → BrowserSnapshot
    → Type 0
IsFaithful adapter browser db binding_id root_id snap =
    Each (IsMirrored db binding_id) snap.children
    × All (IsLive adapter browser root_id) (rows_of binding_id db.local_nodes)

module _ {Browser : Type 0} (adapter : Adapter Browser) (locale_after : String → String → Bool)
    (depth : ℕ) (browser : Browser) (db : PontisDb) where
  compared_iff :
      (b : BindingRecord) (root_id : String) (snap : BrowserSnapshot)
      → ((compared adapter locale_after depth browser db b root_id snap).ok ≡ true)
        ↔ IsFaithful adapter browser db b.id root_id snap
  unfolding scan_nodes
  compared_iff b root_id snap =
      let nodes = nodes_iff (size snap.children) db b.id snap.children (omega arith) in
      let rows = orphans_iff adapter browser root_id (rows_of b.id db.local_nodes) in
      let advisory = order_advisory locale_after db b snap in
      let inner =
        any-append (orphans adapter browser root_id (rows_of b.id db.local_nodes))
          (order_drift locale_after db b snap) in
      let outer = any-append (scan_nodes db b.id snap.children) (
        orphans adapter browser root_id (rows_of b.id db.local_nodes)
        ++ order_drift locale_after db b snap) in
      rw outer (rw inner (rw advisory (ground (arith, nodes, rows))))

  -- The binding, the mount root and the tree that are read, and whether the two sides agree.
  abbrev pub Compared : String → Bool → Type 0
  Compared binding_id is_ok =
      (b : BindingRecord) × (root_id : String) × (snap : BrowserSnapshot) × (Table.get binding_key
          binding_id db.bindings
        ≡ some b)
      × (mount_root_id b ≡ Outcome.done root_id)
      × (snapshot_browser_tree adapter browser depth root_id ≡ Outcome.done snap)
      × ((is_ok ≡ true) ↔ IsFaithful adapter browser db b.id root_id snap)

  abbrev pub Scanned : String → Outcome VerifyReport → Type 0
  Scanned binding_id (Outcome.done report) =
      (report.ok ≡ not (any is_serious report.problems)) × Compared binding_id report.ok
  Scanned binding_id Outcome.thrown = Unit
  Scanned binding_id Outcome.endless = Unit

  pub verify_scan-Scanned :
      (binding_id : String)
      → Scanned binding_id (verify_scan adapter locale_after depth browser db binding_id)
  unfolding verify_scan
  verify_scan-Scanned binding_id = of_binding (Table.get binding_key binding_id db.bindings) refl
    where
      of_snapshot :
          (b : BindingRecord) (root_id : String)
          → Table.get binding_key binding_id db.bindings ≡ some b
          → mount_root_id b ≡ Outcome.done root_id
          → (o : Outcome BrowserSnapshot) → snapshot_browser_tree adapter browser depth root_id ≡ o
          → Scanned binding_id (
              and_then o λ snap.
                Outcome.done (compared adapter locale_after depth browser db b root_id snap))
      of_snapshot b root_id e f (Outcome.done snap) g =
          (refl, (b, root_id, snap, e, f, g, compared_iff b root_id snap))
      of_snapshot b root_id e f Outcome.thrown g = tt
      of_snapshot b root_id e f Outcome.endless g = tt

      of_root :
          (b : BindingRecord)
          → Table.get binding_key binding_id db.bindings ≡ some b
          → (o : Outcome String) → mount_root_id b ≡ o
          → Scanned binding_id (
              and_then o λ root_id.
                and_then (snapshot_browser_tree adapter browser depth root_id) λ snap.
                  Outcome.done (compared adapter locale_after depth browser db b root_id snap))
      of_root b e (Outcome.done root_id) f =
          of_snapshot b root_id e f (snapshot_browser_tree adapter browser depth root_id) refl
      of_root b e Outcome.thrown f = tt
      of_root b e Outcome.endless f = tt

      of_binding :
          (o : Option BindingRecord)
          → Table.get binding_key binding_id db.bindings ≡ o
          → Scanned binding_id (
              and_then (answer o) λ b. and_then (mount_root_id b) λ root_id.
                and_then (snapshot_browser_tree adapter browser depth root_id) λ snap.
                  Outcome.done (compared adapter locale_after depth browser db b root_id snap))
      of_binding none e = tt
      of_binding (some b) e = of_root b e (mount_root_id b) refl

module _ {Browser : Type 0} (adapter : Adapter Browser) (locale_after : String → String → Bool)
    (browser : Browser) (weight : String → ℕ) (depth : ℕ)
    (tree : IsTree adapter browser weight depth) (db : PontisDb) where
  id_or_throw-Ends : (o : Option String) → Ends (id_or_throw o)
  id_or_throw-Ends none = tt
  id_or_throw-Ends (some id) = ground arith

  mount_root_id-Ends : (b : BindingRecord) → Ends (mount_root_id b)
  mount_root_id-Ends b = of_mode b.mount.mode
    where
      of_mode : (mode : BindingMode) → Ends (mount_root mode b.mount)
      of_mode BindingMode.partial = id_or_throw-Ends b.mount.folder_browser_id
      of_mode BindingMode.full = id_or_throw-Ends (first_root b.mount.roots)

  pub verify_scan-Ends :
      (binding_id : String) → Ends (verify_scan adapter locale_after depth browser db binding_id)
  unfolding verify_scan
  verify_scan-Ends binding_id =
      and_then-Ends (answer (Table.get binding_key binding_id db.bindings)) _
        (answer-Ends (Table.get binding_key binding_id db.bindings))
        (λ b. and_then-Ends (mount_root_id b) _ (mount_root_id-Ends b) (λ root_id.
          and_then-Ends (snapshot_browser_tree adapter browser depth root_id) _
            (snapshot_browser_tree-Ends adapter browser weight depth tree root_id) (λ snap. tt)))

  -- On a browser whose nodes form a tree no deeper than the depth that is allowed, `verifyScan`
  -- ends. If it returns a report, then the report is ok exactly if every node below the mount root
  -- has a mapped row with its title, its url and, where both are known, its parent, and if every
  -- row of the binding is without a browser id, of the mount root, or of a node that the browser
  -- has. A drift of the order alone does not count.
  pub verify_scan_ok :
      (binding_id : String)
      → Ends (verify_scan adapter locale_after depth browser db binding_id)
        × Scanned adapter locale_after depth browser db binding_id
            (verify_scan adapter locale_after depth browser db binding_id)
  verify_scan_ok binding_id = (
    verify_scan-Ends binding_id,
    verify_scan-Scanned adapter locale_after depth browser db binding_id,
  )
