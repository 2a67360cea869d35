-- ===== src/Sync/Events/Removed.antt =====
-- `handleRemoved` of eventProcessor.ts.
-- A handler is one step: nothing else writes between its reads and its transaction. It returns what
-- the event was, and the database after it.
use pontis.Base.{
  ℕ, String, Bool, false, Option, none, some, List, [], ◌∷◌, ◌==◌, any, if◌then◌else◌,
}
use pontis.Base.Table
use pontis.Base.Table.{string_key, pair_key}
use pontis.Browser.{BrowserNode}
use pontis.Protocol.{OpType}
use pontis.Store.{
  BindingMode, BindingState, BindingMount, BindingRecord, LocalNodeRecord, PendingOpRecord,
  PendingType, PontisDb, local_key, truthy, is_text,
}
use pontis.Store.Subtree.{collect_subtree}
use pontis.Sync.Events.Scope.{mirror_of, is_managed_scope}
use pontis.Sync.Events.Outbox.{
  op_on, put_binding, delete_op, is_queued, is_in_flight, find_create, queue_with,
}
use pontis.Sync.Events.Echo.{
  EventDisposition, Handled, unchanged, warn, Expectation, expectations, consume,
}

abbrev pub delete_rows : List LocalNodeRecord → List LocalNodeRecord → List LocalNodeRecord
delete_rows [] t = t
delete_rows (r ∷ rs) t = delete_rows rs (Table.delete local_key (local_key r) t)

abbrev pub drop_rows : Option (List LocalNodeRecord) → PontisDb → Option PontisDb
drop_rows none db = none
drop_rows (some rows) db = some (record db { local_nodes = delete_rows rows db.local_nodes })

-- `none`: the loop that collects the subtree has used up its fuel.
unfoldable pub delete_mirror_subtree : ℕ → String → String → PontisDb → Option PontisDb
unfolding collect_subtree
delete_mirror_subtree fuel binding_id browser_id db =
    drop_rows (collect_subtree fuel db.local_nodes binding_id browser_id) db

abbrev pub answer : EventDisposition → Option PontisDb → Option Handled
answer d none = none
answer d (some db) = some (d, db)

abbrev pub is_root_of : BindingMode → BindingMount → String → Bool
is_root_of BindingMode.partial mount id = is_text mount.folder_browser_id id
is_root_of BindingMode.full mount id = elim mount.roots [
  | none ↦ false
  | some roots ↦ any (λ (e : String × String). e.1 == id) roots
]

-- `bindings.update(id, { state: 'mount_missing' })`; only a partial mount is logged.
abbrev pub lose_mount : BindingMode → PontisDb → BindingRecord → PontisDb
lose_mount BindingMode.partial db b =
    warn "挂载根目录被删除，绑定已暂停（缺少挂载目录）" (put_binding (record b { state = BindingState.mount_missing }) db)
lose_mount BindingMode.full db b = put_binding (record b { state = BindingState.mount_missing }) db

module _ (uuid : ℕ → String) (fuel : ℕ) where
  unfoldable pub removed_uncreated :
      BindingRecord
      → BrowserNode
      → PontisDb
      → Option PendingOpRecord
      → Option PendingOpRecord
      → Option Handled
  unfolding delete_mirror_subtree
  removed_uncreated b n db (some o) sent =
      answer EventDisposition.ignored (delete_mirror_subtree fuel b.id n.id (delete_op o.op_id db))
  removed_uncreated b n db none (some o) = answer EventDisposition.local_op (
      delete_mirror_subtree fuel b.id n.id
        (queue_with uuid b.id (op_on (PendingType.op OpType.delete) o.node_id ∷ []) unchanged db))
  removed_uncreated b n db none none = some (EventDisposition.ignored, db)

  unfoldable pub removed_locally :
      BindingRecord → BrowserNode → PontisDb → Option String → Option Handled
  unfolding removed_uncreated delete_mirror_subtree
  removed_locally b n db none =
      removed_uncreated b n db (find_create db b.id n.id is_queued)
        (find_create db b.id n.id is_in_flight)
  removed_locally b n db (some id) = answer EventDisposition.local_op (
      delete_mirror_subtree fuel b.id n.id (
        queue_with uuid b.id
          (record (op_on (PendingType.op OpType.delete) id) { browser_id = some n.id } ∷ [])
          unchanged db))

  unfoldable pub removed_matches :
      BindingRecord → BrowserNode → LocalNodeRecord → PontisDb → List Expectation → Option Handled
  unfolding removed_locally delete_mirror_subtree consume
  removed_matches b n mirror db (e ∷ []) =
      answer EventDisposition.expected (delete_mirror_subtree fuel b.id n.id (consume (e ∷ []) db))
  removed_matches b n mirror db _ = removed_locally b n db mirror.canonical_id

  unfoldable pub expected_deletes :
      PontisDb → BindingRecord → BrowserNode → LocalNodeRecord → List Expectation
  unfolding expectations
  expected_deletes db b n mirror =
      if truthy mirror.canonical_id
      then expectations db b.id OpType.delete (λ e. is_text e.browser_id n.id)
      else []

  unfoldable pub removed_mirror :
      PontisDb → BindingRecord → BrowserNode → Option LocalNodeRecord → Option Handled
  unfolding removed_matches expected_deletes
  removed_mirror db b n none = some (EventDisposition.ignored, db)
  removed_mirror db b n (some mirror) =
      removed_matches b n mirror db (expected_deletes db b n mirror)

  unfoldable pub handle_removed : PontisDb → BindingRecord → BrowserNode → Option Handled
  unfolding removed_mirror
  handle_removed db b n =
      if is_root_of b.mount.mode b.mount n.id
      then some (EventDisposition.ignored, lose_mount b.mount.mode db b)
      else if is_managed_scope db b n.id
      then removed_mirror db b n (mirror_of db b.id n.id)
      else some (EventDisposition.ignored, db)
