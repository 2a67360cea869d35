-- ===== src/Sync/Applier/Watermark/Moves.antt =====
-- `applyMove` of remoteChangeApplier.ts and the applied revision.
use pontis.Base.{
  ℕ, ◌<◌, String, ◌≡◌, Bool, true, false, Option, none, some, List, [], ◌∷◌, ◌==◌, Bool-cases, inl,
  inr, ◌&&◌,
}
use pontis.Base.Table
use pontis.Base.Table.{string_key}
use pontis.Browser.{BrowserNode}
use pontis.Browser.Adapter.{Adapter}
use pontis.Protocol.{ChangeWire, MovePayloadWire}
use pontis.Store.{BindingRecord, LocalNodeRecord, PontisDb, Level, binding_key, is_text}
use pontis.Sync.Applied.{Local, Applied}
use pontis.Sync.Events.Outbox.{put_local}
use pontis.Sync.Applier.Parents.{ParentResolution, resolve_parent}
use pontis.Sync.Applier.Placement.{is_at}
use pontis.Sync.Applier.Commit.{Order, read_order}
use pontis.Sync.Applier.Commit.Keeping.{
  Confined, Aside, Aside-trans, put_local-Aside, write_order-Aside, note-Aside, expect-Aside,
  Reaches,
}
use pontis.Sync.Applier.Move.{
  confirm_move, move_ordered, move_answered, move_placed, move_node, move_under, apply_move,
}
use pontis.Sync.Applier.Watermark.Fields.{unmapped-Ends}
use pontis.Sync.Applier.Watermark.{Ended, committed, advanced}

module _ {Browser : Type 0} (adapter : Adapter Browser) (decimal : ℕ → String) (b : BindingRecord)
    (c : ChangeWire) (start : PontisDb)
    (stored : Table.get binding_key b.id start.bindings ≡ some b)
    (ahead : b.applied_revision < c.revision) where
  abbrev Ends : Applied Browser → Type 0
  Ends = Ended b c.revision start

  confirm_move-Ends :
      (m : LocalNodeRecord) (parent : String) (position : ℕ) (order : Order) (db : PontisDb)
      → Aside start db
      → Reaches b.id c.revision b (confirm_move adapter decimal b.id c m parent position order db)
        × Confined start (confirm_move adapter decimal b.id c m parent position order db)
  unfolding confirm_move
  confirm_move-Ends m parent position order db h =
      committed b c start stored ahead _ db
        (λ d.
          Aside-trans
            (put_local-Aside
              (record m { parent_browser_id = some parent; position = some position }) d)
            (write_order-Aside order b.id (some parent ∷ m.parent_browser_id ∷ []) (
              put_local (record m { parent_browser_id = some parent; position = some position })
                d)))
        h

  move_answered-Ends :
      (m : LocalNodeRecord) (parent : String) (position : ℕ) (r : Bool × Browser) (db : PontisDb)
      → Aside start db
      → Ends (move_answered adapter decimal b.id c m parent position r db)
  move_answered-Ends m parent position (false, browser) db h = h
  move_answered-Ends m parent position (true, browser) db h =
      ordered (read_order adapter browser (some parent ∷ m.parent_browser_id ∷ []))
    where
      ordered :
          (o : Option Order)
          → Ends (
              move_ordered adapter decimal b.id c m parent position o
                (record { browser = browser; db = db }))
      ordered none = h
      ordered (some order) = confirm_move-Ends m parent position order db h

  move_placed-Ends :
      (m : LocalNodeRecord) (parent : String) (position : ℕ) (o : Option (List BrowserNode))
      (l : Local Browser)
      → Aside start l.db
      → Ends (move_placed adapter decimal b.id c m parent position o l)
  move_placed-Ends m parent position none l h = h
  move_placed-Ends m parent position (some children) l h =
      move_answered-Ends m parent position _ _ (Aside-trans h (expect-Aside _ l.db))

  move_under-Ends :
      (m : LocalNodeRecord) (position : ℕ) (to : ParentResolution) (l : Local Browser)
      → Aside start l.db
      → Ends (move_under adapter decimal b.id c m position to l)
  unfolding move_node
  move_under-Ends m position ParentResolution.excluded l h = advanced b c start stored ahead l.db h
  move_under-Ends m position (ParentResolution.missing ref) l h =
      Aside-trans h (note-Aside Level.error _ l.db)
  move_under-Ends m position (ParentResolution.mapped parent) l h =
      elim (Bool-cases (is_text m.parent_browser_id parent && is_at m.position position)) [
        | inl e ↦ rw (move_node, e) (advanced b c start stored ahead l.db h)
        | inr e ↦ rw (move_node, e) (move_placed-Ends m parent position _ l h)
      ]

  pub apply_move-Ends :
      (p : MovePayloadWire) (o : Option LocalNodeRecord) (l : Local Browser)
      → Aside start l.db
      → Ends (apply_move adapter decimal b c p o l)
  unfolding apply_move
  apply_move-Ends p none l h = unmapped-Ends adapter decimal b c start stored ahead _ c.node_id l h
  apply_move-Ends p (some m) l h = elim (Bool-cases (m.browser_id == "")) [
    | inl e ↦
        rw (apply_move, e) (unmapped-Ends adapter decimal b c start stored ahead _ c.node_id l h)
    | inr e ↦ rw (apply_move, e) (move_under-Ends m p.position (resolve_parent l.db b p.parent) l h)
  ]
