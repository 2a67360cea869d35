-- ===== src/Sync/Applier/Move.antt =====
-- `applyMove` of extension/src/core/sync/remoteChangeApplier.ts.
use pontis.Base.{
  ℕ, String, Bool, true, false, ◌&&◌, Option, none, some, List, [], ◌∷◌, ◌==◌, if◌then◌else◌,
}
use pontis.Base.Table.{pair_key}
use pontis.Browser.{BrowserNode}
use pontis.Browser.Adapter.{Adapter}
use pontis.Protocol.{OpType, ChangeWire, MovePayloadWire}
use pontis.Store.{BindingRecord, LocalNodeRecord, ExpectedMutationRecord, PontisDb, Level, is_text}
use pontis.Sync.Events.Outbox.{put_local}
use pontis.Sync.Applied.{Local, Applied}
use pontis.Sync.Applier.Parents.{ParentResolution, resolve_parent}
use pontis.Sync.Applier.Placement.{is_at, browser_index_for_position}
use pontis.Sync.Applier.Commit.{
  note, advance_to, commit, expectation_of, expect, Order, read_order, write_order,
}
use pontis.Sync.Applier.Update.{unmapped_message, unmapped_node}

unfoldable pub move_expectation :
    String → ChangeWire → LocalNodeRecord → String → ℕ → PontisDb → ExpectedMutationRecord
move_expectation binding_id change m parent position db =
    record (expectation_of binding_id change OpType.move (some m.browser_id) db) {
      parent_browser_id = some parent;
      position = some position;
    }

module _ {Browser : Type 0} (adapter : Adapter Browser) (decimal : ℕ → String) where
  -- The destination is renumbered, and the parent that was left.
  unfoldable pub confirm_move :
      String → ChangeWire → LocalNodeRecord → String → ℕ → Order → PontisDb → PontisDb
  unfolding write_order commit
  confirm_move binding_id change m parent position order = commit binding_id change.revision λ db.
      write_order order binding_id (some parent ∷ m.parent_browser_id ∷ [])
        (put_local (record m { parent_browser_id = some parent; position = some position }) db)

  abbrev pub move_ordered :
      String
      → ChangeWire
      → LocalNodeRecord
      → String
      → ℕ
      → Option Order
      → Local Browser
      → Applied Browser
  move_ordered binding_id change m parent position none l = Applied.thrown l
  move_ordered binding_id change m parent position (some order) l =
      Applied.done (record l { db = confirm_move binding_id change m parent position order l.db })

  abbrev pub move_answered :
      String
      → ChangeWire
      → LocalNodeRecord
      → String
      → ℕ
      → Bool × Browser
      → PontisDb
      → Applied Browser
  move_answered binding_id change m parent position (false, browser) db =
      Applied.thrown (record { browser = browser; db = db })
  move_answered binding_id change m parent position (true, browser) db =
      move_ordered binding_id change m parent position
        (read_order adapter browser (some parent ∷ m.parent_browser_id ∷ []))
        (record { browser = browser; db = db })

  -- The index is read first, and the expectation stands before the browser is asked.
  abbrev pub move_placed :
      String
      → ChangeWire
      → LocalNodeRecord
      → String
      → ℕ
      → Option (List BrowserNode)
      → Local Browser
      → Applied Browser
  move_placed binding_id change m parent position none l = Applied.thrown l
  move_placed binding_id change m parent position (some children) l =
      move_answered binding_id change m parent position
        (adapter.move m.browser_id parent
          (some (browser_index_for_position l.db binding_id children position (some m.browser_id)))
          l.browser)
        (expect (move_expectation binding_id change m parent position l.db) l.db)

  unfoldable pub move_node :
      String → ChangeWire → LocalNodeRecord → String → ℕ → Local Browser → Applied Browser
  unfolding confirm_move read_order browser_index_for_position expect move_expectation
      expectation_of advance_to
  move_node binding_id change m parent position l =
      if is_text m.parent_browser_id parent && is_at m.position position
      then Applied.done (record l { db = advance_to binding_id change.revision l.db })
      else move_placed binding_id change m parent position (adapter.get_children l.browser parent) l

  abbrev pub move_under :
      String → ChangeWire → LocalNodeRecord → ℕ → ParentResolution → Local Browser → Applied Browser
  move_under binding_id change m position ParentResolution.excluded l =
      Applied.done (record l { db = advance_to binding_id change.revision l.db })
  move_under binding_id change m position (ParentResolution.missing ref) l =
      Applied.unmapped (unmapped_message decimal "parent" ref change.revision)
        (record l { db = note Level.error "移动后的父目录未映射，该绑定需要恢复" l.db })
  move_under binding_id change m position (ParentResolution.mapped parent) l =
      move_node binding_id change m parent position l

  unfoldable pub apply_move :
      BindingRecord
      → ChangeWire
      → MovePayloadWire
      → Option LocalNodeRecord
      → Local Browser
      → Applied Browser
  unfolding move_node unmapped_node resolve_parent
  apply_move b change p none l =
      unmapped_node adapter decimal "移动目标未映射，该绑定需要恢复" change change.node_id l
  apply_move b change p (some m) l =
      if m.browser_id == ""
      then unmapped_node adapter decimal "移动目标未映射，该绑定需要恢复" change change.node_id l
      else move_under b.id change m p.position (resolve_parent l.db b p.parent) l
