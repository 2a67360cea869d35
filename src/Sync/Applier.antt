-- ===== src/Sync/Applier.antt =====
-- extension/src/core/sync/remoteChangeApplier.ts: one canonical change at a time is applied to the
-- browser and the mirror. A call of the browser is one step, and so is a transaction.
pub mod Parents
pub mod Placement
pub mod Commit
pub mod Create
pub mod Update
pub mod Move
pub mod Delete
pub mod Watermark
pub mod Guard
pub mod Recovery
use pontis.Base.{ℕ, ◌+◌, String, Bool, true, false, Option, none, some, nat_eq, if◌then◌else◌}
use pontis.Base.Table
use pontis.Base.Table.{string_key}
use pontis.Browser.Adapter.{Adapter}
use pontis.Protocol.{
  OpType, ChangeWire, CreatePayloadWire, UpdateTitlePayloadWire, UpdateUrlPayloadWire,
  MovePayloadWire, DeletePayloadWire, as_create_payload, as_update_title_payload,
  as_update_url_payload, as_move_payload, as_delete_payload,
}
use pontis.Store.{BindingRecord, PontisDb, Level, binding_key, find_mirror_by_canonical}
use pontis.Sync.Applied.{Local, Applied, Applier}
use pontis.Sync.Applier.Parents.{ParentResolution, resolve_parent}
use pontis.Sync.Applier.Commit.{note, advance_to}
use pontis.Sync.Applier.Create.{create_under}
use pontis.Sync.Applier.Update.{FieldTarget, unmapped_message, update_field}
use pontis.Sync.Applier.Move.{apply_move}
use pontis.Sync.Applier.Delete.{apply_delete}
use pontis.Sync.Applier.Recovery.{recover}

module _ {Browser : Type 0} (adapter : Adapter Browser) (decimal : ℕ → String) (fuel : ℕ) where
  abbrev pub create_in :
      BindingRecord
      → ChangeWire
      → CreatePayloadWire
      → ParentResolution
      → Local Browser
      → Applied Browser
  create_in b change p ParentResolution.excluded l =
      Applied.done (record l { db = advance_to b.id change.revision l.db })
  create_in b change p (ParentResolution.missing ref) l =
      Applied.unmapped (unmapped_message decimal "parent" ref change.revision)
        (record l { db = note Level.error "新建的父目录未映射，该绑定需要恢复" l.db })
  create_in b change p (ParentResolution.mapped parent) l =
      create_under adapter decimal fuel b.id change p parent
        (find_mirror_by_canonical l.db b.id change.node_id) l

  unfoldable pub apply_create :
      BindingRecord → ChangeWire → CreatePayloadWire → Local Browser → Applied Browser
  unfolding create_under resolve_parent advance_to
  apply_create b change p l = create_in b change p (resolve_parent l.db b p.parent) l

  -- A payload of another shape throws.
  abbrev pub checked :
      {P : Type 0} → Option P → (P → Applied Browser) → Local Browser → Applied Browser
  checked none apply l = Applied.thrown l
  checked (some p) apply l = apply p

  unfoldable pub apply_typed : OpType → BindingRecord → ChangeWire → Local Browser → Applied Browser
  unfolding apply_create update_field apply_move apply_delete find_mirror_by_canonical
  apply_typed OpType.create b change l =
      checked (as_create_payload change.payload)
        (λ (p : CreatePayloadWire). apply_create b change p l) l
  apply_typed OpType.update_title b change l =
      checked (as_update_title_payload change.payload)
        (λ (p : UpdateTitlePayloadWire).
          update_field adapter decimal b.id change (FieldTarget.title p.title)
            (find_mirror_by_canonical l.db b.id change.node_id) l)
        l
  apply_typed OpType.update_url b change l =
      checked (as_update_url_payload change.payload)
        (λ (p : UpdateUrlPayloadWire).
          update_field adapter decimal b.id change (FieldTarget.url p.url)
            (find_mirror_by_canonical l.db b.id change.node_id) l)
        l
  apply_typed OpType.move b change l =
      checked (as_move_payload change.payload)
        (λ (p : MovePayloadWire).
          apply_move adapter decimal b change p (find_mirror_by_canonical l.db b.id change.node_id)
            l)
        l
  apply_typed OpType.delete b change l =
      checked (as_delete_payload change.payload)
        (λ (p : DeletePayloadWire).
          apply_delete adapter fuel b.id change (find_mirror_by_canonical l.db b.id change.node_id)
            l)
        l

  abbrev pub apply_for : Option BindingRecord → ChangeWire → Local Browser → Applied Browser
  apply_for none change l = Applied.thrown l
  apply_for (some b) change l =
      if nat_eq change.revision (b.applied_revision + 1)
      then apply_typed change.type b change l
      else Applied.thrown l

  unfoldable pub apply_change : String → ChangeWire → Local Browser → Applied Browser
  unfolding apply_typed
  apply_change binding_id change l =
      apply_for (Table.get binding_key binding_id l.db.bindings) change l

  -- The class as its callers see it.
  abbrev pub remote_change_applier : Applier Browser
  remote_change_applier = record { recover = recover adapter; apply_change = apply_change }
