-- ===== src/Sync/Events/Moved.antt =====
-- `handleMoved` of eventProcessor.ts. `children` is the browser's answer to `getChildren`.
-- A handler is one step: nothing else writes between its reads and its transaction. It returns what
-- the event was, and the database after it.
use pontis.Base.{ℕ, String, ◌&&◌, Option, none, some, List, [], ◌∷◌, if◌then◌else◌}
use pontis.Base.Table.{string_key, pair_key}
use pontis.Browser.{BrowserNode}
use pontis.Protocol.{OpType, ParentRefWire}
use pontis.Store.{
  BindingRecord, LocalNodeRecord, PendingOpRecord, PendingType, PontisDb, truthy, is_text,
}
use pontis.Sync.Events.Scope.{
  mirror_of, is_managed_scope, canonical_parent_ref, cross_binding_target, next_mapped,
}
use pontis.Sync.Events.Outbox.{
  OpRow, op_on, put_local, put_op, is_queued, is_in_flight, find_create, queue_with,
}
use pontis.Sync.Events.Echo.{
  EventDisposition, Handled, unchanged, warn, Expectation, expectations, consume, with_parent,
}

-- `queuedCreate?.parent`
abbrev pub has_parent : Option PendingOpRecord → Option PendingOpRecord
has_parent none = none
has_parent (some o) = elim o.parent [ none ↦ none | some p ↦ some o ]

module _ (uuid : ℕ → String) (children : String → List BrowserNode) where
  abbrev move_row : String → ParentRefWire → Option String → OpRow
  move_row id parent before_id = record (op_on (PendingType.op OpType.move) id) {
    parent = some parent;
    before_id = before_id;
  }

  -- A node whose create waits in the outbox, unsent or sent.
  unfoldable pub moved_uncreated :
      BindingRecord
      → BrowserNode
      → LocalNodeRecord
      → PontisDb
      → ParentRefWire
      → Option String
      → Option PendingOpRecord
      → Option PendingOpRecord
      → Handled
  moved_uncreated b n mirror db parent before_id (some o) sent = (
    EventDisposition.local_op,
    put_local (with_parent n mirror)
        (put_op (record o { parent = some parent; before_id = before_id }) db),
  )
  moved_uncreated b n mirror db parent before_id none (some o) = (
    EventDisposition.local_op,
    queue_with uuid b.id (move_row o.node_id parent before_id ∷ [])
        (put_local (with_parent n mirror)) db,
  )
  moved_uncreated b n mirror db parent before_id none none = (EventDisposition.ignored, db)

  unfoldable pub moved_unmapped :
      BindingRecord
      → BrowserNode
      → String
      → LocalNodeRecord
      → PontisDb
      → Option ParentRefWire
      → Handled
  unfolding moved_uncreated
  moved_unmapped b n p mirror db none = (EventDisposition.ignored, db)
  moved_unmapped b n p mirror db (some parent) =
      moved_uncreated b n mirror db parent (next_mapped db b.id n.index (children p))
        (has_parent (find_create db b.id n.id is_queued)) (find_create db b.id n.id is_in_flight)

  unfoldable pub moved_inside :
      BindingRecord
      → BrowserNode
      → String
      → LocalNodeRecord
      → String
      → PontisDb
      → Option ParentRefWire
      → Handled
  moved_inside b n p mirror id db none = (EventDisposition.ignored, warn "本机移动到未映射的父目录，已跳过" db)
  moved_inside b n p mirror id db (some parent) = (
    EventDisposition.local_op,
    queue_with uuid b.id
        (record (move_row id parent (next_mapped db b.id n.index (children p))) {
          browser_id = some n.id;
        }
          ∷ [])
        (put_local (with_parent n mirror)) db,
  )

  -- A drag into another binding's scope becomes one transfer, and leaves the mirror as it is.
  unfoldable pub moved_across :
      BindingRecord
      → BrowserNode
      → String
      → LocalNodeRecord
      → String
      → PontisDb
      → Option (BindingRecord × ParentRefWire)
      → Handled
  unfolding moved_inside
  moved_across b n p mirror id db none =
      moved_inside b n p mirror id db (canonical_parent_ref db b p)
  moved_across b n p mirror id db (some (target, parent)) = (
    EventDisposition.local_op,
    queue_with uuid b.id
        (record (op_on PendingType.transfer id) {
          browser_id = some n.id;
          browser_parent_id = n.parent_id;
          target_space_id = some target.space_id;
          target_parent = some parent;
        }
          ∷ [])
        unchanged db,
  )

  unfoldable pub moved_locally :
      BindingRecord → BrowserNode → String → LocalNodeRecord → PontisDb → Option String → Handled
  unfolding moved_unmapped moved_across
  moved_locally b n p mirror db none = moved_unmapped b n p mirror db (canonical_parent_ref db b p)
  moved_locally b n p mirror db (some id) =
      moved_across b n p mirror id db (cross_binding_target db b p)

  -- Exactly one expected move is consumed; the applier writes the mirror.
  unfoldable pub moved_matches :
      BindingRecord → BrowserNode → String → LocalNodeRecord → PontisDb → List Expectation → Handled
  unfolding moved_locally consume
  moved_matches b n p mirror db (e ∷ []) = (EventDisposition.expected, consume (e ∷ []) db)
  moved_matches b n p mirror db _ = moved_locally b n p mirror db mirror.canonical_id

  unfoldable pub expected_moves :
      PontisDb → BindingRecord → String → LocalNodeRecord → List Expectation
  unfolding expectations
  expected_moves db b p mirror =
      if truthy mirror.canonical_id
      then expectations db b.id OpType.move
          (λ e. is_text mirror.canonical_id e.canonical_id && is_text e.parent_browser_id p)
      else []

  unfoldable pub moved_mirror :
      PontisDb → BindingRecord → BrowserNode → String → Option LocalNodeRecord → Handled
  unfolding moved_matches expected_moves
  moved_mirror db b n p none = (EventDisposition.ignored, db)
  moved_mirror db b n p (some mirror) = moved_matches b n p mirror db (expected_moves db b p mirror)

  unfoldable pub moved_to : PontisDb → BindingRecord → BrowserNode → Option String → Handled
  unfolding moved_mirror
  moved_to db b n none = (EventDisposition.ignored, db)
  moved_to db b n (some p) =
      if is_managed_scope db b n.id
      then moved_mirror db b n p (mirror_of db b.id n.id)
      else (EventDisposition.ignored, db)

  unfoldable pub handle_moved : PontisDb → BindingRecord → BrowserNode → Handled
  unfolding moved_to
  handle_moved db b n = moved_to db b n n.parent_id
