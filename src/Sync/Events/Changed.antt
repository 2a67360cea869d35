-- ===== src/Sync/Events/Changed.antt =====
-- `handleChanged` of eventProcessor.ts.
-- A handler is one step: nothing else writes between its reads and its transaction. It returns what
-- the event was, and the database after it.
use pontis.Base.{
  ℕ, String, Bool, ◌&&◌, ◌||◌, Option, none, some, List, [], ◌∷◌, ◌++◌, ◌==◌, keep, if◌then◌else◌,
}
use pontis.Base.Table.{pair_key}
use pontis.Browser.{BrowserNode}
use pontis.Protocol.{OpType}
use pontis.Store.{
  BindingRecord, LocalNodeRecord, PendingOpRecord, PendingType, PontisDb, truthy, is_text,
  same_text,
}
use pontis.Sync.Events.Scope.{mirror_of, is_managed_scope}
use pontis.Sync.Events.Outbox.{
  OpRow, op_on, put_local, put_op, is_queued, is_in_flight, find_create, queue_with,
}
use pontis.Sync.Events.Echo.{
  EventDisposition, Handled, warn, is_kind, Expectation, consume, with_fields, or_empty,
}

module _ (uuid : ℕ → String) where
  -- One field per operation: what differs from the title and url that were sent before.
  unfoldable pub field_updates : String → BrowserNode → Option String → Bool → List OpRow
  field_updates id n title same_url =
      (if is_text title n.title
        then []
        else record (op_on (PendingType.op OpType.update_title) id) { title = some n.title } ∷ [])
      ++ (if same_url
          then []
          else record (op_on (PendingType.op OpType.update_url) id) { url = some (or_empty n.url) }
            ∷ [])

  -- The operations and the mirror in one transaction; no operation is no transaction.
  unfoldable pub changed_sent :
      BindingRecord → BrowserNode → LocalNodeRecord → PontisDb → List OpRow → Handled
  changed_sent b n mirror db [] = (EventDisposition.ignored, put_local (with_fields n mirror) db)
  changed_sent b n mirror db (row ∷ rows) = (
    EventDisposition.local_op,
    queue_with uuid b.id (row ∷ rows) (put_local (with_fields n mirror)) db,
  )

  unfoldable pub changed_mapped :
      BindingRecord → BrowserNode → LocalNodeRecord → PontisDb → List OpRow → Handled
  changed_mapped b n mirror db [] = (EventDisposition.ignored, db)
  changed_mapped b n mirror db (row ∷ rows) = (
    EventDisposition.local_op,
    queue_with uuid b.id (row ∷ rows) (put_local (with_fields n mirror)) db,
  )

  -- A node whose create waits in the outbox, unsent or sent.
  unfoldable pub changed_uncreated :
      BindingRecord
      → BrowserNode
      → LocalNodeRecord
      → PontisDb
      → Option PendingOpRecord
      → Option PendingOpRecord
      → Handled
  unfolding changed_sent field_updates
  changed_uncreated b n mirror db (some o) sent = (
    EventDisposition.local_op,
    put_local (with_fields n mirror) (put_op (record o { title = some n.title; url = n.url }) db),
  )
  changed_uncreated b n mirror db none (some o) =
      changed_sent b n mirror db
        (field_updates o.node_id n o.title (or_empty n.url == or_empty o.url))
  changed_uncreated b n mirror db none none = (EventDisposition.ignored, warn "未映射本机节点的改动已丢弃" db)

  unfoldable pub changed_locally :
      BindingRecord → BrowserNode → LocalNodeRecord → PontisDb → Option String → Handled
  unfolding changed_uncreated changed_mapped field_updates
  changed_locally b n mirror db none =
      changed_uncreated b n mirror db (find_create db b.id n.id is_queued)
        (find_create db b.id n.id is_in_flight)
  changed_locally b n mirror db (some id) =
      changed_mapped b n mirror db
        (field_updates id n (some mirror.title) (same_text n.url mirror.url))

  unfoldable pub changed_matches :
      BindingRecord → BrowserNode → LocalNodeRecord → PontisDb → List Expectation → Handled
  unfolding changed_locally consume
  changed_matches b n mirror db [] = changed_locally b n mirror db mirror.canonical_id
  changed_matches b n mirror db (e ∷ es) =
      (EventDisposition.expected, put_local (with_fields n mirror) (consume (e ∷ es) db))

  -- The expectations that this change fulfils, if the node is mapped.
  unfoldable pub expected_changes :
      PontisDb → BindingRecord → BrowserNode → LocalNodeRecord → List Expectation
  expected_changes db b n mirror =
      if truthy mirror.canonical_id
      then keep
          (λ (e : Expectation).
            e.binding_id == b.id
            && (is_text e.browser_id n.id
                && (is_text mirror.canonical_id e.canonical_id
                    && (is_kind e.kind OpType.update_title && is_text e.title n.title
                        || is_kind e.kind OpType.update_url && same_text e.url n.url))))
          db.expected_mutations
      else []

  unfoldable pub changed_mirror :
      PontisDb → BindingRecord → BrowserNode → Option LocalNodeRecord → Handled
  unfolding changed_matches expected_changes
  changed_mirror db b n none = (EventDisposition.ignored, db)
  changed_mirror db b n (some mirror) =
      changed_matches b n mirror db (expected_changes db b n mirror)

  unfoldable pub handle_changed : PontisDb → BindingRecord → BrowserNode → Handled
  unfolding changed_mirror
  handle_changed db b n =
      if is_managed_scope db b n.id
      then changed_mirror db b n (mirror_of db b.id n.id)
      else (EventDisposition.ignored, db)
