-- ===== src/Sync/Verify/Repair/Queued.antt =====
-- `repairLevel` of verifyReplica.ts as a sequence of effects.
use pontis.Base.{
  ℕ, String, Bool, true, false, Option, none, some, List, ◌==◌, find, if◌then◌else◌, Bool-cases,
  inl, inr,
}
use pontis.Base.Table.{string_key, pair_key}
use pontis.Browser.{BrowserNode}
use pontis.Browser.Snapshot.{Snapshots, Outcome, and_then}
use pontis.Protocol.{ParentRefWire}
use pontis.Store.{LocalNodeRecord, PontisDb}
use pontis.Sync.Tree.{or_empty}
use pontis.Sync.Events.Outbox.{OpRow}
use pontis.Sync.Events.Effects.{Effect}
use pontis.Sync.Events.Refine.{queue_one-Effect}
use pontis.Sync.Verify.Scan.{differs_in_parent}
use pontis.Sync.Verify.Repair.{
  has_canonical, canonical_parent_ref, next_mapped_sibling, enqueue_if, enqueue_move, move_op,
  repair_parent, repair_fields, retitle_op, readdress_op, repair_row, repair_from, repair_level,
}

module _ (uuid : ℕ → String) where
  abbrev pub Queues : PontisDb → Outcome PontisDb → Type 0
  Queues start (Outcome.done db) = Effect uuid start db
  Queues start Outcome.thrown = Unit
  Queues start Outcome.endless = Unit

  and_then-Queues :
      {A : Type 0} (start : PontisDb) (o : Outcome A) (f : A → Outcome PontisDb)
      → ((a : A) → Queues start (f a))
      → Queues start (and_then o f)
  and_then-Queues start (Outcome.done a) f h = h a
  and_then-Queues start Outcome.thrown f h = tt
  and_then-Queues start Outcome.endless f h = tt

  pub Queues-trans :
      (start : PontisDb) (o : Outcome PontisDb) (f : PontisDb → Outcome PontisDb)
      → Queues start o
      → ((db : PontisDb) → Queues db (f db))
      → Queues start (and_then o f)
  Queues-trans start (Outcome.done db) f e h = onward (f db) (h db)
    where
      onward : (o : Outcome PontisDb) → Queues db o → Queues start o
      onward (Outcome.done d) k = Effect.next e k
      onward Outcome.thrown k = tt
      onward Outcome.endless k = tt
  Queues-trans start Outcome.thrown f e h = tt
  Queues-trans start Outcome.endless f e h = tt

  module _ (i : String) where
    enqueue_if-Effect :
        (t : Bool) (row : OpRow) (db : PontisDb) → Effect uuid db (enqueue_if uuid i t row db)
    enqueue_if-Effect true row db = queue_one-Effect uuid i row db
    enqueue_if-Effect false row db = Effect.stay db

    enqueue_move-Effect :
        (id : String) (before : Option String) (parent : Option ParentRefWire) (db : PontisDb)
        → Effect uuid db (enqueue_move uuid i id before parent db)
    enqueue_move-Effect id before none db = Effect.stay db
    enqueue_move-Effect id before (some parent) db =
        queue_one-Effect uuid i (move_op id parent before) db

    repair_fields-Effect :
        (n : BrowserNode) (m : LocalNodeRecord) (id : String) (db : PontisDb)
        → Effect uuid db (repair_fields uuid i n m id db)
    repair_fields-Effect n m id db =
        Effect.next
          (enqueue_if-Effect (if n.title == m.title then false else true) (retitle_op n id) db)
          (enqueue_if-Effect _ (readdress_op n id) _)

    repair_parent-Queues :
        (t : Bool) (n : BrowserNode) (id : String) (before : Option String) (db : PontisDb)
        → Queues db (repair_parent uuid i t n id before db)
    repair_parent-Queues false n id before db = Effect.stay db
    repair_parent-Queues true n id before db =
        and_then-Queues db (canonical_parent_ref db i n.parent_id) _
          (λ parent. enqueue_move-Effect id before parent db)

    repair_row-Queues :
        (siblings : Snapshots) (mirrors : List LocalNodeRecord) (n : BrowserNode)
        (o : Option LocalNodeRecord) (db : PontisDb)
        → Queues db (repair_row uuid i siblings mirrors n o db)
    repair_row-Queues siblings mirrors n none db = Effect.stay db
    repair_row-Queues siblings mirrors n (some m) db = elim (Bool-cases (has_canonical m)) [
      | inl t ↦ rw t (
          Queues-trans db (Outcome.done (repair_fields uuid i n m (or_empty m.canonical_id) db)) _
            (repair_fields-Effect n m (or_empty m.canonical_id) db)
            (λ d.
              repair_parent-Queues (differs_in_parent m.parent_browser_id n.parent_id) n
                (or_empty m.canonical_id) (next_mapped_sibling siblings n.id mirrors) d))
      | inr f ↦ rw f (Effect.stay db)
    ]

    repair_from-Queues :
        (siblings : Snapshots) (mirrors : List LocalNodeRecord) (q : Snapshots) (db : PontisDb)
        → Queues db (repair_from uuid i siblings mirrors q db)
    unfolding repair_from
    repair_from-Queues siblings mirrors Snapshots.nothing db = Effect.stay db
    repair_from-Queues siblings mirrors (Snapshots.node n kids rest) db =
        Queues-trans db
          (repair_row uuid i siblings mirrors n
            (find (λ (m : LocalNodeRecord). m.browser_id == n.id) mirrors) db)
          _
          (repair_row-Queues siblings mirrors n
            (find (λ (m : LocalNodeRecord). m.browser_id == n.id) mirrors) db)
          (λ d.
            Queues-trans d (repair_from uuid i kids mirrors kids d) _
              (repair_from-Queues kids mirrors kids d)
              (λ d'. repair_from-Queues siblings mirrors rest d'))

    pub repair_level-Queues :
        (children : Snapshots) (mirrors : List LocalNodeRecord) (db : PontisDb)
        → Queues db (repair_level uuid i children mirrors db)
    unfolding repair_level
    repair_level-Queues children mirrors db = repair_from-Queues children mirrors children db
