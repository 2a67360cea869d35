-- ===== src/Sync/Applier/Watermark/Fields.antt =====
-- `applyUpdateField` of remoteChangeApplier.ts and the applied revision.
use pontis.Base.{
  ℕ, ◌<◌, String, ◌≡◌, Bool, true, false, Option, none, some, ◌==◌, Bool-cases, inl, inr,
}
use pontis.Base.Table
use pontis.Base.Table.{string_key}
use pontis.Browser.Adapter.{Adapter}
use pontis.Protocol.{ChangeWire}
use pontis.Store.{BindingRecord, LocalNodeRecord, PontisDb, Level, binding_key}
use pontis.Sync.Applied.{Local, Applied}
use pontis.Sync.Events.Outbox.{put_local}
use pontis.Sync.Applier.Commit.Keeping.{
  Aside, Aside-trans, put_local-Aside, note-Aside, expect-Aside,
}
use pontis.Sync.Applier.Update.{
  FieldTarget, unmapped_node, confirm_update, update_node, update_field, is_at_target, with_target,
}
use pontis.Sync.Applier.Watermark.{Ended, committed, advanced}

module _ {Browser : Type 0} (adapter : Adapter Browser) (decimal : ℕ → String) (b : BindingRecord)
    (c : ChangeWire) (start : PontisDb)
    (stored : Table.get binding_key b.id start.bindings ≡ some b)
    (ahead : b.applied_revision < c.revision) where
  abbrev Ends : Applied Browser → Type 0
  Ends = Ended b c.revision start

  pub unmapped-Ends :
      (message target : String) (l : Local Browser)
      → Aside start l.db
      → Ends (unmapped_node adapter decimal message c target l)
  unfolding unmapped_node
  unmapped-Ends message target l h = Aside-trans h (note-Aside Level.error message l.db)

  confirm_update-Ends :
      (t : FieldTarget) (m : LocalNodeRecord) (r : Bool × Browser) (db : PontisDb)
      → Aside start db
      → Ends (confirm_update adapter decimal b.id c t m r db)
  unfolding confirm_update
  confirm_update-Ends t m (true, browser) db h =
      committed b c start stored ahead (put_local (with_target t m)) db
        (put_local-Aside (with_target t m)) h
  confirm_update-Ends t m (false, browser) db h = h

  update_node-Ends :
      (t : FieldTarget) (m : LocalNodeRecord) (l : Local Browser)
      → Aside start l.db
      → Ends (update_node adapter decimal b.id c t m l)
  unfolding update_node
  update_node-Ends t m l h = elim (Bool-cases (is_at_target t m)) [
    | inl e ↦ rw (update_node, e) (advanced b c start stored ahead l.db h)
    | inr e ↦
        rw (update_node, e) (confirm_update-Ends t m _ _ (Aside-trans h (expect-Aside _ l.db)))
  ]

  pub update_field-Ends :
      (t : FieldTarget) (o : Option LocalNodeRecord) (l : Local Browser)
      → Aside start l.db
      → Ends (update_field adapter decimal b.id c t o l)
  unfolding update_field
  update_field-Ends t none l h = unmapped-Ends _ c.node_id l h
  update_field-Ends t (some m) l h = elim (Bool-cases (m.browser_id == "")) [
    | inl e ↦ rw (update_field, e) (unmapped-Ends _ c.node_id l h)
    | inr e ↦ rw (update_field, e) (update_node-Ends t m l h)
  ]
