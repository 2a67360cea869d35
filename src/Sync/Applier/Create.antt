-- ===== src/Sync/Applier/Create.antt =====
-- `applyCreate` and `tryAdoptLocalCreate` of extension/src/core/sync/remoteChangeApplier.ts.
use pontis.Base.{
  ℕ, String, Bool, false, not, ◌&&◌, Option, none, some, List, [], ◌∷◌, ◌==◌, keep, find, nat_eq,
  if◌then◌else◌,
}
use pontis.Base.Table.{pair_key}
use pontis.Browser.{BrowserNode}
use pontis.Browser.Adapter.{Adapter}
use pontis.Protocol.{OpType, ChangeWire, CreatePayloadWire}
use pontis.Store.{
  LocalNodeRecord, ExpectedMutationRecord, PendingOpRecord, OpResult, PontisDb, Level, is_text,
  is_unsettled_op, first_of_two,
}
use pontis.Store.Subtree.{collect_subtree}
use pontis.Sync.Tree.{or_empty}
use pontis.Sync.Events.Scope.{mirror_of}
use pontis.Sync.Events.Outbox.{is_create, put_local}
use pontis.Sync.Events.Echo.{is_absent}
use pontis.Sync.Coordinator.Transfers.{drop_rows}
use pontis.Sync.Applied.{Local, Applied}
use pontis.Sync.Applier.Placement.{browser_index_for_position}
use pontis.Sync.Applier.Commit.{
  note, advance_to, commit, expectation_of, expect, put_expectation, Order, read_order, write_order,
}

-- The creates of this device that carry a browser node.
abbrev pub local_creates : String → List PendingOpRecord → List PendingOpRecord
local_creates binding_id = keep (λ (o : PendingOpRecord).
    o.binding_id == binding_id && (is_create o.type && not (is_absent o.browser_id)))

abbrev pub landed_at : ℕ → Option OpResult → Bool
landed_at revision none = false
landed_at revision (some r) = nat_eq r.result_revision revision

-- By identity, then by the revision of the result, then by shape.
unfoldable pub producer :
    ChangeWire → CreatePayloadWire → List PendingOpRecord → Option PendingOpRecord
producer change p ops =
    first_of_two (find (λ (o : PendingOpRecord). o.node_id == change.node_id) ops) (
      first_of_two (find (λ (o : PendingOpRecord). landed_at change.revision o.result) ops) (
        find
          (λ (o : PendingOpRecord).
            is_unsettled_op o && (is_text o.title p.title && or_empty o.url == p.url))
          ops))

abbrev pub carried_id : Option PendingOpRecord → Option String
carried_id none = none
carried_id (some o) = o.browser_id

-- The row that may be adopted: it has no canonical id yet.
abbrev pub unmapped_row : Option LocalNodeRecord → Option LocalNodeRecord
unmapped_row none = none
unmapped_row (some m) = if is_absent m.canonical_id then some m else none

abbrev pub carried_row : PontisDb → String → Option String → Option LocalNodeRecord
carried_row db binding_id none = none
carried_row db binding_id (some id) =
    if id == "" then none else unmapped_row (mirror_of db binding_id id)

unfoldable pub adoptable :
    PontisDb → String → ChangeWire → CreatePayloadWire → Option LocalNodeRecord
unfolding producer
adoptable db binding_id change p =
    carried_row db binding_id
      (carried_id (producer change p (local_creates binding_id db.pending_ops)))

unfoldable pub adopt :
    String → ChangeWire → CreatePayloadWire → LocalNodeRecord → PontisDb → PontisDb
unfolding commit
adopt binding_id change p row db = note Level.info "本机新建已采用服务端确认的规范 id" (
    commit binding_id change.revision
      (put_local (record row { canonical_id = some change.node_id; position = some p.position }))
      db)

-- `payload.url || undefined`
abbrev pub url_or_none : String → Option String
url_or_none url = if url == "" then none else some url

abbrev pub created_row : String → ChangeWire → CreatePayloadWire → BrowserNode → LocalNodeRecord
created_row binding_id change p n = record {
  binding_id = binding_id;
  browser_id = n.id;
  canonical_id = some change.node_id;
  type = n.type;
  title = n.title;
  url = n.url;
  parent_browser_id = n.parent_id;
  position = some p.position;
}

unfoldable pub create_expectation :
    String → ChangeWire → CreatePayloadWire → String → PontisDb → ExpectedMutationRecord
create_expectation binding_id change p parent db =
    record (expectation_of binding_id change OpType.create none db) {
      parent_browser_id = some parent;
      position = some p.position;
      title = some p.title;
      url = some p.url;
    }

module _ {Browser : Type 0} (adapter : Adapter Browser) (decimal : ℕ → String) (fuel : ℕ) where
  -- The transaction after the browser has answered.
  unfoldable pub confirm_create :
      String
      → ChangeWire
      → CreatePayloadWire
      → String
      → ExpectedMutationRecord
      → BrowserNode
      → Order
      → PontisDb
      → PontisDb
  unfolding put_expectation write_order commit
  confirm_create binding_id change p parent e n order = commit binding_id change.revision λ db.
      write_order order binding_id (some parent ∷ []) (
        put_local (created_row binding_id change p n)
          (put_expectation (record e { browser_id = some n.id }) db))

  abbrev pub order_read :
      String
      → ChangeWire
      → CreatePayloadWire
      → String
      → ExpectedMutationRecord
      → BrowserNode
      → Option Order
      → Local Browser
      → Applied Browser
  order_read binding_id change p parent e n none l = Applied.thrown l
  order_read binding_id change p parent e n (some order) l =
      Applied.done (record l { db = confirm_create binding_id change p parent e n order l.db })

  abbrev pub answered :
      String
      → ChangeWire
      → CreatePayloadWire
      → String
      → ExpectedMutationRecord
      → Option BrowserNode × Browser
      → PontisDb
      → Applied Browser
  answered binding_id change p parent e (none, browser) db =
      Applied.thrown (record { browser = browser; db = db })
  answered binding_id change p parent e (some n, browser) db =
      order_read binding_id change p parent e n (read_order adapter browser (some parent ∷ []))
        (record { browser = browser; db = db })

  abbrev pub placed :
      String
      → ChangeWire
      → CreatePayloadWire
      → String
      → ExpectedMutationRecord
      → Option (List BrowserNode)
      → Local Browser
      → Applied Browser
  placed binding_id change p parent e none l = Applied.thrown l
  placed binding_id change p parent e (some children) l =
      answered binding_id change p parent e
        (adapter.create parent
          (record {
            title = p.title;
            url = url_or_none p.url;
            index = some (browser_index_for_position l.db binding_id children p.position none);
          })
          l.browser)
        l.db

  -- The expectation stands before the browser is asked.
  unfoldable pub create_node :
      String → ChangeWire → CreatePayloadWire → String → Local Browser → Applied Browser
  unfolding confirm_create create_expectation expect expectation_of read_order
      browser_index_for_position
  create_node binding_id change p parent l =
      let e = create_expectation binding_id change p parent l.db in
      placed binding_id change p parent e (adapter.get_children l.browser parent)
        (record l { db = expect e l.db })

  abbrev pub adopt_or_create :
      String
      → ChangeWire
      → CreatePayloadWire
      → String
      → Option LocalNodeRecord
      → Local Browser
      → Applied Browser
  adopt_or_create binding_id change p parent (some row) l =
      Applied.done (record l { db = adopt binding_id change p row l.db })
  adopt_or_create binding_id change p parent none l = create_node binding_id change p parent l

  unfoldable pub create_missing :
      String → ChangeWire → CreatePayloadWire → String → Local Browser → Applied Browser
  unfolding create_node adopt adoptable
  create_missing binding_id change p parent l =
      adopt_or_create binding_id change p parent (adoptable l.db binding_id change p) l

  -- The rows of a subtree that the browser no longer has.
  abbrev pub purged :
      String
      → ChangeWire
      → CreatePayloadWire
      → String
      → Option (List LocalNodeRecord)
      → Local Browser
      → Applied Browser
  purged binding_id change p parent none l = Applied.endless l
  purged binding_id change p parent (some stale) l =
      create_missing binding_id change p parent (record l {
        db = record (l.db) { local_nodes = drop_rows binding_id stale l.db.local_nodes };
      })

  abbrev pub known_node :
      String
      → ChangeWire
      → CreatePayloadWire
      → String
      → LocalNodeRecord
      → Option BrowserNode
      → Local Browser
      → Applied Browser
  known_node binding_id change p parent m (some live) l =
      Applied.done (record l { db = advance_to binding_id change.revision l.db })
  known_node binding_id change p parent m none l =
      purged binding_id change p parent
        (collect_subtree fuel l.db.local_nodes binding_id m.browser_id) l

  unfoldable pub create_under :
      String
      → ChangeWire
      → CreatePayloadWire
      → String
      → Option LocalNodeRecord
      → Local Browser
      → Applied Browser
  unfolding create_missing advance_to drop_rows collect_subtree
  create_under binding_id change p parent none l = create_missing binding_id change p parent l
  create_under binding_id change p parent (some m) l =
      known_node binding_id change p parent m (adapter.get_node l.browser m.browser_id) l
