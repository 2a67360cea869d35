-- ===== src/Sync/Applier/Watermark/Deletes.antt =====
-- `applyDelete` of remoteChangeApplier.ts and the applied revision.
use pontis.Base.{
  ℕ, ◌<◌, ◌≡◌, ◌∙◌, ap, Bool, true, false, Option, none, some, List, ◌==◌, Bool-cases, inl, inr,
}
use pontis.Base.Table
use pontis.Base.Table.{string_key}
use pontis.Browser.{BrowserNode}
use pontis.Browser.Adapter.{Adapter, remove_by_type}
use pontis.Protocol.{ChangeWire}
use pontis.Store.{BindingRecord, LocalNodeRecord, ExpectedMutationRecord, PontisDb, binding_key}
use pontis.Store.Subtree.{collect_subtree}
use pontis.Sync.Coordinator.Transfers.{drop_rows}
use pontis.Sync.Applied.{Local, Applied}
use pontis.Sync.Applier.Commit.{commit, expect, forget}
use pontis.Sync.Applier.Commit.Keeping.{
  Confined-trans, Aside, Aside-refl, Aside-trans, expect-Aside, forget-Aside, mirror-Aside,
  advance_applied-Confined, advance_applied-Reaches,
}
use pontis.Sync.Applier.Delete.{dropped, confirm_delete, delete_answered, delete_live, apply_delete}
use pontis.Sync.Applier.Watermark.{Ended, advanced}

module _ {Browser : Type 0} (adapter : Adapter Browser) (fuel : ℕ) (b : BindingRecord)
    (c : ChangeWire) (start : PontisDb)
    (stored : Table.get binding_key b.id start.bindings ≡ some b)
    (ahead : b.applied_revision < c.revision) where
  abbrev Ends : Applied Browser → Type 0
  Ends = Ended b c.revision start

  confirm_delete-Ends :
      (m : LocalNodeRecord) (write : PontisDb → PontisDb) (l : Local Browser)
      → ((d : PontisDb) → Aside d (write d))
      → Aside start l.db
      → Ends (confirm_delete adapter fuel b.id c.revision m write l)
  unfolding confirm_delete commit
  confirm_delete-Ends m write l w h =
      rw (confirm_delete, ap (Table.get binding_key b.id) h.bindings ∙ stored)
        (gone (collect_subtree fuel (write l.db).local_nodes b.id m.browser_id))
    where
      kept : List LocalNodeRecord → List LocalNodeRecord
      kept rows = drop_rows b.id rows (write l.db).local_nodes

      removed : List LocalNodeRecord → PontisDb
      removed rows = record (write l.db) { local_nodes = kept rows }

      gone :
          (o : Option (List LocalNodeRecord))
          → Ends (dropped adapter fuel b.id b c.revision o (record l { db = write l.db }))
      gone none = Aside-trans h (w l.db)
      gone (some rows) = (
        advance_applied-Reaches b c.revision (removed rows) ahead,
        Confined-trans
            (Aside-trans (Aside-trans h (w l.db)) (mirror-Aside (kept rows) (write l.db))).confined
            (advance_applied-Confined b c.revision (removed rows)),
      )

  pub apply_delete-Ends :
      (o : Option LocalNodeRecord) (l : Local Browser)
      → Aside start l.db
      → Ends (apply_delete adapter fuel b.id c o l)
  unfolding apply_delete
  apply_delete-Ends none l h = advanced b c start stored ahead l.db h
  apply_delete-Ends (some m) l h = elim (Bool-cases (m.browser_id == "")) [
    | inl e ↦ rw (apply_delete, e) (advanced b c start stored ahead l.db h)
    | inr e ↦ rw (apply_delete, e) (live (adapter.get_node l.browser m.browser_id))
  ]
    where
      answered :
          (n : BrowserNode) (r : Bool × Browser) (e : ExpectedMutationRecord)
          → Ends (delete_answered adapter fuel b.id c m l.db.next_expectation r (expect e l.db))
      answered n (false, browser) e = Aside-trans h (expect-Aside e l.db)
      answered n (true, browser) e =
          confirm_delete-Ends m (forget l.db.next_expectation) _
            (forget-Aside l.db.next_expectation) (Aside-trans h (expect-Aside e l.db))

      live : (o : Option BrowserNode) → Ends (delete_live adapter fuel b.id c m o l)
      live none = confirm_delete-Ends m (λ d. d) l Aside-refl h
      live (some n) = answered n (remove_by_type adapter n.id n.type l.browser) _
