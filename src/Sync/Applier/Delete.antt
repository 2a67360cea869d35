-- ===== src/Sync/Applier/Delete.antt =====
-- `applyDelete` of extension/src/core/sync/remoteChangeApplier.ts.
use pontis.Base.{ℕ, String, Bool, true, false, Option, none, some, List, ◌==◌, if◌then◌else◌}
use pontis.Base.Table
use pontis.Base.Table.{string_key, pair_key}
use pontis.Browser.{BrowserNode}
use pontis.Browser.Adapter.{Adapter, remove_by_type}
use pontis.Protocol.{OpType, ChangeWire}
use pontis.Store.{BindingRecord, LocalNodeRecord, PontisDb, binding_key}
use pontis.Store.Subtree.{collect_subtree}
use pontis.Sync.Coordinator.Transfers.{drop_rows}
use pontis.Sync.Applied.{Local, Applied}
use pontis.Sync.Applier.Commit.{advance_to, advance_applied, expectation_of, expect, forget}

module _ {Browser : Type 0} (adapter : Adapter Browser) (fuel : ℕ) where
  abbrev pub dropped :
      String → BindingRecord → ℕ → Option (List LocalNodeRecord) → Local Browser → Applied Browser
  dropped binding_id b revision none l = Applied.endless l
  dropped binding_id b revision (some subtree) l = Applied.done (record l {
    db =
        advance_applied b revision
          (record (l.db) { local_nodes = drop_rows binding_id subtree l.db.local_nodes });
  })

  -- The transaction: the rows of the subtree go, and the revision is reached.
  abbrev pub confirm_for :
      Option BindingRecord
      → String
      → ℕ
      → LocalNodeRecord
      → (PontisDb → PontisDb)
      → Local Browser
      → Applied Browser
  confirm_for none binding_id revision m write l = Applied.done l
  confirm_for (some b) binding_id revision m write l =
      dropped binding_id b revision
        (collect_subtree fuel (write l.db).local_nodes binding_id m.browser_id)
        (record l { db = write l.db })

  unfoldable pub confirm_delete :
      String → ℕ → LocalNodeRecord → (PontisDb → PontisDb) → Local Browser → Applied Browser
  unfolding advance_applied drop_rows collect_subtree
  confirm_delete binding_id revision m write l =
      confirm_for (Table.get binding_key binding_id l.db.bindings) binding_id revision m write l

  abbrev pub delete_answered :
      String → ChangeWire → LocalNodeRecord → ℕ → Bool × Browser → PontisDb → Applied Browser
  delete_answered binding_id change m e (false, browser) db =
      Applied.thrown (record { browser = browser; db = db })
  delete_answered binding_id change m e (true, browser) db =
      confirm_delete binding_id change.revision m (forget e) (record { browser = browser; db = db })

  abbrev pub delete_live :
      String → ChangeWire → LocalNodeRecord → Option BrowserNode → Local Browser → Applied Browser
  delete_live binding_id change m none l = confirm_delete binding_id change.revision m (λ db. db) l
  delete_live binding_id change m (some live) l =
      delete_answered binding_id change m l.db.next_expectation
        (remove_by_type adapter live.id live.type l.browser)
        (expect (expectation_of binding_id change OpType.delete (some m.browser_id) l.db) l.db)

  unfoldable pub apply_delete :
      String → ChangeWire → Option LocalNodeRecord → Local Browser → Applied Browser
  unfolding confirm_delete remove_by_type expect expectation_of forget advance_to
  apply_delete binding_id change none l =
      Applied.done (record l { db = advance_to binding_id change.revision l.db })
  apply_delete binding_id change (some m) l =
      if m.browser_id == ""
      then Applied.done (record l { db = advance_to binding_id change.revision l.db })
      else delete_live binding_id change m (adapter.get_node l.browser m.browser_id) l
