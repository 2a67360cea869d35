-- ===== src/Sync/Applier/Watermark.antt =====
-- The applied revision in remoteChangeApplier.ts, by how a change ends.
pub mod Fields
pub mod Moves
pub mod Creates
pub mod Deletes
pub mod Reached
use pontis.Base.{
  ℕ, ◌+◌, ◌<◌, String, ◌≡◌, refl, ◌∙◌, ap, Bool, true, false, Option, none, some, List, [], ◌∷◌,
  nat_eq, ◌==◌, if◌then◌else◌, arith, Bool-cases, Option-cases, inl, inr,
}
use mathlib.Core.Path.{subst}
use pontis.Base.Table
use pontis.Base.Table.{string_key}
use pontis.Browser.{BrowserNode}
use pontis.Browser.Adapter.{Adapter, remove_by_type}
use pontis.Protocol.{
  OpType, ChangeWire, CreatePayloadWire, MovePayloadWire, UpdateTitlePayloadWire,
  UpdateUrlPayloadWire, DeletePayloadWire, as_create_payload, as_update_title_payload,
  as_update_url_payload, as_move_payload, as_delete_payload,
}
use pontis.Store.{
  BindingRecord, LocalNodeRecord, ExpectedMutationRecord, PontisDb, Level, binding_key,
  find_mirror_by_canonical,
}
use pontis.Store.Subtree.{collect_subtree}
use pontis.Sync.Applied.{Local, Applied, local_of}
use pontis.Sync.Applier.{create_in, apply_create, checked, apply_typed, apply_for, apply_change}
use pontis.Sync.Applier.Parents.{ParentResolution, resolve_parent}
use pontis.Sync.Applier.Commit.{
  note, advance_applied, advance_to, commit, expect, forget, Order, read_order,
}
use pontis.Sync.Applier.Commit.Keeping.{
  Confined, Confined-refl, Confined-trans, Aside, Aside-refl, Aside-trans, put_local-Aside,
  write_order-Aside, note-Aside, expect-Aside, put_expectation-Aside, forget-Aside, mirror-Aside,
  commit-Confined, advance_to-Confined, Reaches, commit-Reaches, advance_to-Reaches,
}
use pontis.Sync.Applier.Create.{
  adoptable, adopt, confirm_create, order_read, answered, placed, create_node, adopt_or_create,
  create_missing, purged, known_node, create_under, created_row,
}
use pontis.Sync.Applier.Update.{
  FieldTarget, unmapped_node, confirm_update, update_node, update_field, is_at_target, with_target,
}
use pontis.Sync.Applier.Move.{
  confirm_move, move_ordered, move_answered, move_placed, move_node, move_under, apply_move,
}
use pontis.Sync.Applier.Delete.{
  dropped, confirm_for, confirm_delete, delete_answered, delete_live, apply_delete,
}

module _ (b : BindingRecord) (revision : ℕ) (start : PontisDb) where
  -- Applied: the revision is reached. Else no binding is changed.
  abbrev pub Ended : {Browser : Type 0} → Applied Browser → Type 0
  Ended (Applied.done l) = Reaches b.id revision b l.db × Confined start l.db
  Ended (Applied.thrown l) = Aside start l.db
  Ended (Applied.endless l) = Aside start l.db
  Ended (Applied.unmapped message l) = Aside start l.db

module _ (b : BindingRecord) (c : ChangeWire) (start : PontisDb)
    (stored : Table.get binding_key b.id start.bindings ≡ some b)
    (ahead : b.applied_revision < c.revision) where
  here : (db : PontisDb) → Aside start db → Table.get binding_key b.id db.bindings ≡ some b
  here db h = ap (Table.get binding_key b.id) h.bindings ∙ stored

  pub committed :
      (write : PontisDb → PontisDb) (db : PontisDb)
      → ((d : PontisDb) → Aside d (write d))
      → Aside start db
      → Reaches b.id c.revision b (commit b.id c.revision write db)
        × Confined start (commit b.id c.revision write db)
  committed write db w h = (
    commit-Reaches c.revision write db b (here db h) ahead,
    Confined-trans h.confined (commit-Confined b.id c.revision write db w),
  )

  pub advanced :
      (db : PontisDb)
      → Aside start db
      → Reaches b.id c.revision b (advance_to b.id c.revision db)
        × Confined start (advance_to b.id c.revision db)
  advanced db h = (
    advance_to-Reaches c.revision db b (here db h) ahead,
    Confined-trans h.confined (advance_to-Confined b.id c.revision db),
  )
