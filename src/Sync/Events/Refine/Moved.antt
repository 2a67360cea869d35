-- ===== src/Sync/Events/Refine/Moved.antt =====
-- `handleMoved` as effects.
use pontis.Base.{
  ℕ, String, ◌≡◌, refl, Bool, true, false, Option, none, some, List, [], ◌∷◌, arith, if◌then◌else◌,
}
use pontis.Base.Table.{string_key}
use pontis.Browser.{BrowserNode}
use pontis.Protocol.{ParentRefWire}
use pontis.Store.{BindingRecord, LocalNodeRecord, PendingOpRecord, PontisDb}
use pontis.Sync.Events.Outbox.{is_queued, find_create}
use pontis.Sync.Events.Echo.{EventDisposition, Expectation}
use pontis.Sync.Events.Moved.{
  has_parent, moved_uncreated, moved_unmapped, moved_inside, moved_across, moved_locally,
  moved_matches, moved_mirror, moved_to, handle_moved,
}
use pontis.Sync.Events.Scope.{is_managed_scope, mirror_of}
use pontis.Sync.Events.Refine.{
  warn-Effect, consume-Effect, put_local-Effect, queue_with-Effect, find_create_lem,
}
use pontis.Sync.Events.Effects.{Effect, IsOrdered}

has_parent_lem :
    (q : Option PendingOpRecord) {o : PendingOpRecord} → has_parent q ≡ some o → q ≡ some o
has_parent_lem none e = cc
has_parent_lem (some p) e = ground arith

module _ (uuid : ℕ → String) (children : String → List BrowserNode) where
  pub moved-Effect :
      (db : PontisDb) (b : BindingRecord) (n : BrowserNode)
      → IsOrdered uuid db
      → Effect uuid db (handle_moved uuid children db b n).1
  unfolding handle_moved
  moved-Effect db b n h = by_parent n.parent_id
    where
      uncreated :
          (m : LocalNodeRecord) (parent : ParentRefWire) (before_id : Option String)
          (o sent : Option PendingOpRecord)
          → has_parent (find_create db b.id n.id is_queued) ≡ o
          → Effect uuid db (moved_uncreated uuid children b n m db parent before_id o sent).1
      uncreated m parent before_id (some o) sent e =
          let (at, was) = find_create_lem uuid db b.id n.id h (has_parent_lem _ e) in
          Effect.next
            (Effect.revise db o _ at (record {
              op_id = refl;
              binding_id = refl;
              client_seq = refl;
              was_queued = was;
              is_queued = was;
            }))
            (put_local-Effect uuid _ _)
      uncreated m parent before_id none (some o) e =
          queue_with-Effect uuid b.id _ _ db (put_local-Effect uuid _)
      uncreated m parent before_id none none e = Effect.stay db

      unmapped :
          (p : String) (m : LocalNodeRecord) (o : Option ParentRefWire)
          → Effect uuid db (moved_unmapped uuid children b n p m db o).1
      unmapped p m none = Effect.stay db
      unmapped p m (some parent) = uncreated m parent _ _ _ refl

      inside :
          (p : String) (m : LocalNodeRecord) (id : String) (o : Option ParentRefWire)
          → Effect uuid db (moved_inside uuid children b n p m id db o).1
      inside p m id none = warn-Effect uuid _ db
      inside p m id (some parent) = queue_with-Effect uuid b.id _ _ db (put_local-Effect uuid _)

      across :
          (p : String) (m : LocalNodeRecord) (id : String)
          (o : Option (BindingRecord × ParentRefWire))
          → Effect uuid db (moved_across uuid children b n p m id db o).1
      across p m id none = inside p m id _
      across p m id (some (t, parent)) = queue_with-Effect uuid b.id _ _ db (λ d. Effect.stay d)

      locally :
          (p : String) (m : LocalNodeRecord) (id : Option String)
          → Effect uuid db (moved_locally uuid children b n p m db id).1
      locally p m none = unmapped p m _
      locally p m (some id) = across p m id _

      matches :
          (p : String) (m : LocalNodeRecord) (es : List Expectation)
          → Effect uuid db (moved_matches uuid children b n p m db es).1
      matches p m (e ∷ []) = consume-Effect uuid (e ∷ []) db
      matches p m [] = locally p m m.canonical_id
      matches p m (e ∷ f ∷ es) = locally p m m.canonical_id

      mirrored :
          (p : String) (m : Option LocalNodeRecord)
          → Effect uuid db (moved_mirror uuid children db b n p m).1
      mirrored p none = Effect.stay db
      mirrored p (some m) = matches p m _

      gated :
          (p : String) (g : Bool) (m : Option LocalNodeRecord)
          → Effect uuid db
              (if g
                then moved_mirror uuid children db b n p m
                else (EventDisposition.ignored, db)).1
      gated p true m = mirrored p m
      gated p false m = Effect.stay db

      by_parent : (o : Option String) → Effect uuid db (moved_to uuid children db b n o).1
      by_parent none = Effect.stay db
      by_parent (some p) = gated p (is_managed_scope db b n.id) (mirror_of db b.id n.id)
