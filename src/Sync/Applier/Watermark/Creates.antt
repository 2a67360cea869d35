-- ===== src/Sync/Applier/Watermark/Creates.antt =====
-- `applyCreate` of remoteChangeApplier.ts and the applied revision.
use pontis.Base.{ℕ, ◌<◌, String, ◌≡◌, Option, none, some, List, [], ◌∷◌}
use pontis.Base.Table
use pontis.Base.Table.{string_key}
use pontis.Browser.{BrowserNode}
use pontis.Browser.Adapter.{Adapter}
use pontis.Protocol.{ChangeWire, CreatePayloadWire}
use pontis.Store.{
  BindingRecord, LocalNodeRecord, ExpectedMutationRecord, PontisDb, Level, binding_key,
  find_mirror_by_canonical,
}
use pontis.Store.Diagnostics.{log_diagnostic}
use pontis.Store.Subtree.{collect_subtree}
use pontis.Sync.Coordinator.Transfers.{drop_rows}
use pontis.Sync.Applied.{Local, Applied}
use pontis.Sync.Events.Outbox.{put_local}
use pontis.Sync.Applier.{create_in, apply_create}
use pontis.Sync.Applier.Parents.{ParentResolution, resolve_parent}
use pontis.Sync.Applier.Commit.{write_order, put_expectation, commit, Order, read_order}
use pontis.Sync.Applier.Commit.Keeping.{
  Confined, Confined-trans, Aside, Aside-trans, put_local-Aside, write_order-Aside, note-Aside,
  expect-Aside, put_expectation-Aside, mirror-Aside, Reaches,
}
use pontis.Sync.Applier.Create.{
  adoptable, adopt, confirm_create, order_read, answered, placed, create_node, adopt_or_create,
  create_missing, purged, known_node, create_under, created_row, create_expectation,
}
use pontis.Sync.Applier.Watermark.{Ended, committed, advanced}

module _ {Browser : Type 0} (adapter : Adapter Browser) (decimal : ℕ → String) (fuel : ℕ)
    (b : BindingRecord) (c : ChangeWire) (start : PontisDb)
    (stored : Table.get binding_key b.id start.bindings ≡ some b)
    (ahead : b.applied_revision < c.revision) where
  abbrev Ends : Applied Browser → Type 0
  Ends = Ended b c.revision start

  confirm_create-Ends :
      (p : CreatePayloadWire) (parent : String) (e : ExpectedMutationRecord) (n : BrowserNode)
      (order : Order) (db : PontisDb)
      → Aside start db
      → Reaches b.id c.revision b (confirm_create adapter decimal fuel b.id c p parent e n order db)
        × Confined start (confirm_create adapter decimal fuel b.id c p parent e n order db)
  unfolding confirm_create
  confirm_create-Ends p parent e n order db h =
      committed b c start stored ahead
        (λ d. write_order order b.id (some parent ∷ []) (
          put_local (created_row b.id c p n)
            (put_expectation (record e { browser_id = some n.id }) d)))
        db
        (λ d.
          let known = put_expectation (record e { browser_id = some n.id }) d in
          Aside-trans (put_expectation-Aside (record e { browser_id = some n.id }) d) (
            Aside-trans (put_local-Aside (created_row b.id c p n) known) (
              write_order-Aside order b.id (some parent ∷ [])
                (put_local (created_row b.id c p n) known))))
        h

  answered-Ends :
      (p : CreatePayloadWire) (parent : String) (e : ExpectedMutationRecord)
      (r : Option BrowserNode × Browser) (db : PontisDb)
      → Aside start db
      → Ends (answered adapter decimal fuel b.id c p parent e r db)
  answered-Ends p parent e (none, browser) db h = h
  answered-Ends p parent e (some n, browser) db h =
      ordered (read_order adapter browser (some parent ∷ []))
    where
      ordered :
          (o : Option Order)
          → Ends (
              order_read adapter decimal fuel b.id c p parent e n o
                (record { browser = browser; db = db }))
      ordered none = h
      ordered (some order) = confirm_create-Ends p parent e n order db h

  placed-Ends :
      (p : CreatePayloadWire) (parent : String) (e : ExpectedMutationRecord)
      (o : Option (List BrowserNode)) (l : Local Browser)
      → Aside start l.db
      → Ends (placed adapter decimal fuel b.id c p parent e o l)
  placed-Ends p parent e none l h = h
  placed-Ends p parent e (some children) l h = answered-Ends p parent e _ l.db h

  create_node-Ends :
      (p : CreatePayloadWire) (parent : String) (l : Local Browser)
      → Aside start l.db
      → Ends (create_node adapter decimal fuel b.id c p parent l)
  unfolding create_node
  create_node-Ends p parent l h =
      placed-Ends p parent (create_expectation b.id c p parent l.db)
        (adapter.get_children l.browser parent) _
        (Aside-trans h (expect-Aside (create_expectation b.id c p parent l.db) l.db))

  adopt-Ends :
      (p : CreatePayloadWire) (row : LocalNodeRecord) (db : PontisDb)
      → Aside start db
      → Reaches b.id c.revision b (adopt b.id c p row db) × Confined start (adopt b.id c p row db)
  unfolding adopt log_diagnostic
  adopt-Ends p row db h =
      let done =
        committed b c start stored ahead (put_local (adopted p row)) db
          (put_local-Aside (adopted p row)) h in
      (
        done.0,
        Confined-trans done.1
            (note-Aside Level.info "本机新建已采用服务端确认的规范 id"
              (commit b.id c.revision (put_local (adopted p row)) db)).confined,
      )
    where
      adopted : CreatePayloadWire → LocalNodeRecord → LocalNodeRecord
      adopted p row = record row { canonical_id = some c.node_id; position = some p.position }

  create_missing-Ends :
      (p : CreatePayloadWire) (parent : String) (l : Local Browser)
      → Aside start l.db
      → Ends (create_missing adapter decimal fuel b.id c p parent l)
  unfolding create_missing
  create_missing-Ends p parent l h = either (adoptable l.db b.id c p)
    where
      either :
          (o : Option LocalNodeRecord)
          → Ends (adopt_or_create adapter decimal fuel b.id c p parent o l)
      either none = create_node-Ends p parent l h
      either (some row) = adopt-Ends p row l.db h

  purged-Ends :
      (p : CreatePayloadWire) (parent : String) (o : Option (List LocalNodeRecord))
      (l : Local Browser)
      → Aside start l.db
      → Ends (purged adapter decimal fuel b.id c p parent o l)
  purged-Ends p parent none l h = h
  purged-Ends p parent (some stale) l h =
      create_missing-Ends p parent _
        (Aside-trans h (mirror-Aside (drop_rows b.id stale l.db.local_nodes) l.db))

  create_under-Ends :
      (p : CreatePayloadWire) (parent : String) (o : Option LocalNodeRecord) (l : Local Browser)
      → Aside start l.db
      → Ends (create_under adapter decimal fuel b.id c p parent o l)
  unfolding create_under
  create_under-Ends p parent none l h = create_missing-Ends p parent l h
  create_under-Ends p parent (some m) l h = known (adapter.get_node l.browser m.browser_id)
    where
      known :
          (o : Option BrowserNode) → Ends (known_node adapter decimal fuel b.id c p parent m o l)
      known none =
          purged-Ends p parent (collect_subtree fuel l.db.local_nodes b.id m.browser_id) l h
      known (some live) = advanced b c start stored ahead l.db h

  create_in-Ends :
      (p : CreatePayloadWire) (to : ParentResolution) (l : Local Browser)
      → Aside start l.db
      → Ends (create_in adapter decimal fuel b c p to l)
  create_in-Ends p ParentResolution.excluded l h = advanced b c start stored ahead l.db h
  create_in-Ends p (ParentResolution.missing ref) l h =
      Aside-trans h (note-Aside Level.error "新建的父目录未映射，该绑定需要恢复" l.db)
  create_in-Ends p (ParentResolution.mapped parent) l h =
      create_under-Ends p parent (find_mirror_by_canonical l.db b.id c.node_id) l h

  pub apply_create-Ends :
      (p : CreatePayloadWire) (l : Local Browser)
      → Aside start l.db
      → Ends (apply_create adapter decimal fuel b c p l)
  unfolding apply_create
  apply_create-Ends p l h = create_in-Ends p (resolve_parent l.db b p.parent) l h
