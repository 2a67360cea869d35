-- ===== src/Sync/Verify/Upload/Queued.antt =====
-- `uploadNode` of verifyReplica.ts as a sequence of effects.
use pontis.Base.{
  ℕ, ◌+◌, String, ◌≡◌, refl, ◌∙◌, ap, Bool, true, false, Option, none, some, List, ◌==◌,
  if◌then◌else◌,
}
use pontis.Base.Table
use pontis.Base.Table.{string_key, pair_key}
use pontis.Browser.{BrowserNode}
use pontis.Browser.Snapshot.{Snapshots, Outcome, and_then}
use pontis.Protocol.{ParentRefWire}
use pontis.Store.{BindingRecord, LocalNodeRecord, PontisDb, binding_key}
use pontis.Sync.Events.Outbox.{queue, put_local}
use pontis.Sync.Events.Effects.{Effect}
use pontis.Sync.Events.Refine.{put_local-Effect}
use pontis.Sync.Verify.Repair.{canonical_parent_ref, repair_level}
use pontis.Sync.Verify.Upload.{
  create_op, uploaded_row, should_skip_upload, enqueue_create, upload_under, upload_nodes,
}
use pontis.Sync.Verify.Repair.Queued.{Queues, repair_level-Queues}

module _ (uuid : ℕ → String) where
  abbrev pub Uploads : PontisDb → Outcome (ℕ × PontisDb) → Type 0
  Uploads start (Outcome.done r) = Effect uuid start r.1
  Uploads start Outcome.thrown = Unit
  Uploads start Outcome.endless = Unit

  module _ (i : String) where
    enqueue_create-Effect :
        (n : BrowserNode) (parent : ParentRefWire) (db : PontisDb)
        → Effect uuid db (enqueue_create uuid i n parent db)
    unfolding enqueue_create queue
    enqueue_create-Effect n parent db = by_binding (Table.get binding_key i db.bindings) refl
      where
        queued : BindingRecord → PontisDb
        queued b = queue uuid b (create_op n parent (uuid (db.drawn + 1))) db

        drawn : BindingRecord → PontisDb
        drawn b = record (queued b) { drawn = (queued b).drawn + 1 }

        provisional :
            (b : BindingRecord) (t : Bool)
            → Effect uuid (drawn b) (if t then drawn b else put_local (uploaded_row i n) (drawn b))
        provisional b true = Effect.stay (drawn b)
        provisional b false = put_local-Effect uuid (uploaded_row i n) (drawn b)

        by_binding :
            (o : Option BindingRecord)
            → Table.get binding_key i db.bindings ≡ o
            → Effect uuid db (elim o [
              | none ↦ record db { drawn = db.drawn + 1 }
              | some b ↦ if n.id == "" then drawn b else put_local (uploaded_row i n) (drawn b)
            ])
        by_binding none e = Effect.draw db
        by_binding (some b) e =
            let same : b.id ≡ i = Table.key_get binding_key i db.bindings e in
            Effect.next
              (Effect.enqueue db b (create_op n parent (uuid (db.drawn + 1)))
                (ap (λ j. Table.get binding_key j db.bindings) same ∙ e))
              (Effect.next (Effect.draw (queued b)) (provisional b (n.id == "")))

    upload_under-Uploads :
        (n : BrowserNode) (o : Outcome (Option ParentRefWire)) (db : PontisDb)
        → Uploads db (and_then o λ parent. upload_under uuid i n parent db)
    upload_under-Uploads n (Outcome.done none) db = Effect.stay db
    upload_under-Uploads n (Outcome.done (some parent)) db = enqueue_create-Effect n parent db
    upload_under-Uploads n Outcome.thrown db = tt
    upload_under-Uploads n Outcome.endless db = tt

    onward :
        (start : PontisDb) (first : Outcome (ℕ × PontisDb))
        (next : PontisDb → Outcome (ℕ × PontisDb))
        → Uploads start first
        → ((d : PontisDb) → Uploads d (next d))
        → Uploads start
            (and_then first λ r. and_then (next r.1) λ r'. Outcome.done (r.0 + r'.0, r'.1))
    onward start (Outcome.done (k, d)) next e h = summed (next d) (h d)
      where
        summed :
            (o : Outcome (ℕ × PontisDb))
            → Uploads d o
            → Uploads start (and_then o λ r'. Outcome.done (k + r'.0, r'.1))
        summed (Outcome.done r) f = Effect.next e f
        summed Outcome.thrown f = tt
        summed Outcome.endless f = tt
    onward start Outcome.thrown next e h = tt
    onward start Outcome.endless next e h = tt

    upload_nodes-Uploads : (q : Snapshots) (db : PontisDb) → Uploads db (upload_nodes uuid i q db)
    unfolding upload_nodes
    upload_nodes-Uploads Snapshots.nothing db = Effect.stay db
    upload_nodes-Uploads (Snapshots.node n kids rest) db =
        onward db _ (upload_nodes uuid i rest)
          (one (upload_nodes-Uploads kids db) (should_skip_upload uuid i db n.id))
          (upload_nodes-Uploads rest)
      where
        one :
            Uploads db (upload_nodes uuid i kids db)
            → (t : Bool)
            → Uploads db (elim t [
              | true ↦ upload_nodes uuid i kids db
              | false ↦
                  and_then
                    (canonical_parent_ref db i n.parent_id)
                    λ parent. upload_under uuid i n parent db
            ])
        one below true = below
        one below false = upload_under-Uploads n (canonical_parent_ref db i n.parent_id) db

  -- A repair of a level, and an upload of nodes, that return have changed the replica by a sequence
  -- of the effects that `Effect` lists, as a browser event does.
  pub repair_and_upload-Queues :
      (binding_id : String) (q : Snapshots) (mirrors : List LocalNodeRecord) (db : PontisDb)
      → Queues uuid db (repair_level uuid binding_id q mirrors db)
        × Uploads db (upload_nodes uuid binding_id q db)
  repair_and_upload-Queues binding_id q mirrors db =
      (repair_level-Queues uuid binding_id q mirrors db, upload_nodes-Uploads binding_id q db)
