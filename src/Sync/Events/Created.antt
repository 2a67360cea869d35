-- ===== src/Sync/Events/Created.antt =====
-- `handleCreated` of eventProcessor.ts. `children` is the browser's answer to `getChildren`.
-- A handler is one step: nothing else writes between its reads and its transaction. It returns what
-- the event was, and the database after it.
use pontis.Base.{ℕ, ◌+◌, String, ◌&&◌, Option, none, some, List, [], ◌∷◌, if◌then◌else◌}
use pontis.Base.Table.{pair_key}
use pontis.Browser.{BrowserNode}
use pontis.Protocol.{OpType, ParentRefWire}
use pontis.Store.{BindingRecord, PendingType, PontisDb, is_text, same_text}
use pontis.Sync.Events.Scope.{mirror_of, is_managed_scope, canonical_parent_ref, next_mapped}
use pontis.Sync.Events.Outbox.{op_on, put_local, queue_with}
use pontis.Sync.Events.Echo.{
  EventDisposition, Handled, warn, Expectation, expectations, consume, mirror_row, put_local_if_new,
  is_absent,
}

module _ (uuid : ℕ → String) (children : String → List BrowserNode) where
  -- The client names its own node, with a second id.
  unfoldable pub queue_create :
      BindingRecord → BrowserNode → ParentRefWire → Option String → PontisDb → PontisDb
  queue_create b n parent before_id db =
      let db' =
        queue_with uuid b.id
          (record (op_on (PendingType.op OpType.create) (uuid (db.drawn + 1))) {
            node_type = some n.type;
            title = some n.title;
            url = n.url;
            parent = some parent;
            before_id = before_id;
            browser_id = some n.id;
          }
            ∷ [])
          (put_local (mirror_row b n none none)) db in
      record db' { drawn = db'.drawn + 1 }

  unfoldable pub created_locally :
      BindingRecord → BrowserNode → String → PontisDb → Option ParentRefWire → Handled
  unfolding queue_create
  created_locally b n p db none = (EventDisposition.ignored, warn "本机新建位于未映射的父目录下，已跳过" db)
  created_locally b n p db (some parent) = (
    EventDisposition.local_op,
    queue_create b n parent (next_mapped db b.id n.index (children p)) db,
  )

  -- An expectation that the applier already resolved to this browser id.
  unfoldable pub created_settled :
      BindingRecord → BrowserNode → String → PontisDb → List Expectation → Handled
  unfolding created_locally consume
  created_settled b n p db [] = created_locally b n p db (canonical_parent_ref db b p)
  created_settled b n p db (e ∷ es) = (
    EventDisposition.expected,
    put_local_if_new (mirror_row b n (some e.canonical_id) none) (mirror_of db b.id n.id)
        (consume (e ∷ es) db),
  )

  -- A create that the browser answers for the first time: exactly one may match.
  unfoldable pub created_provisional :
      BindingRecord → BrowserNode → String → PontisDb → List Expectation → Handled
  unfolding created_settled consume expectations
  created_provisional b n p db [] =
      created_settled b n p db (expectations db b.id OpType.create λ e. is_text e.browser_id n.id)
  created_provisional b n p db (e ∷ []) = (
    EventDisposition.expected,
    put_local (mirror_row b n (some e.canonical_id) e.position) (consume (e ∷ []) db),
  )
  created_provisional b n p db (_ ∷ _ ∷ _) = (EventDisposition.ignored, warn "新建预期有歧义，已跳过" db)

  unfoldable pub created_under : PontisDb → BindingRecord → BrowserNode → Option String → Handled
  unfolding created_provisional expectations
  created_under db b n none = (EventDisposition.ignored, db)
  created_under db b n (some p) =
      if is_managed_scope db b p
      then created_provisional b n p db (
          expectations db b.id OpType.create λ e.
            is_absent e.browser_id
            && (is_text e.parent_browser_id p
                && (is_text e.title n.title && same_text e.url n.url)))
      else (EventDisposition.ignored, db)

  unfoldable pub handle_created : PontisDb → BindingRecord → BrowserNode → Handled
  unfolding created_under
  handle_created db b n = created_under db b n n.parent_id
