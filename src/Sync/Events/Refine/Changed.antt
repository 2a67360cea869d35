-- ===== src/Sync/Events/Refine/Changed.antt =====
-- `handleChanged` as effects.
use pontis.Base.{
  ℕ, String, ◌≡◌, refl, Bool, true, false, Option, none, some, List, [], ◌∷◌, if◌then◌else◌,
}
use pontis.Base.Table.{string_key}
use pontis.Browser.{BrowserNode}
use pontis.Store.{BindingRecord, LocalNodeRecord, PendingOpRecord, PontisDb}
use pontis.Sync.Events.Outbox.{OpRow, is_queued, find_create}
use pontis.Sync.Events.Echo.{EventDisposition, Expectation}
use pontis.Sync.Events.Changed.{
  changed_sent, changed_mapped, changed_uncreated, changed_locally, changed_matches, changed_mirror,
  handle_changed,
}
use pontis.Sync.Events.Scope.{is_managed_scope, mirror_of}
use pontis.Sync.Events.Refine.{
  warn-Effect, consume-Effect, put_local-Effect, queue_with-Effect, find_create_lem,
}
use pontis.Sync.Events.Effects.{Effect, IsOrdered}

module _ (uuid : ℕ → String) where
  sent-Effect :
      (db : PontisDb) (b : BindingRecord) (n : BrowserNode) (m : LocalNodeRecord)
      (rows : List OpRow)
      → Effect uuid db (changed_sent uuid b n m db rows).1
  unfolding changed_sent
  sent-Effect db b n m [] = put_local-Effect uuid _ db
  sent-Effect db b n m (row ∷ rows) =
      queue_with-Effect uuid b.id (row ∷ rows) _ db (put_local-Effect uuid _)

  mapped-Effect :
      (db : PontisDb) (b : BindingRecord) (n : BrowserNode) (m : LocalNodeRecord)
      (rows : List OpRow)
      → Effect uuid db (changed_mapped uuid b n m db rows).1
  unfolding changed_mapped
  mapped-Effect db b n m [] = Effect.stay db
  mapped-Effect db b n m (row ∷ rows) =
      queue_with-Effect uuid b.id (row ∷ rows) _ db (put_local-Effect uuid _)

  pub changed-Effect :
      (db : PontisDb) (b : BindingRecord) (n : BrowserNode)
      → IsOrdered uuid db
      → Effect uuid db (handle_changed uuid db b n).1
  unfolding handle_changed
  changed-Effect db b n h = gated (is_managed_scope db b n.id) (mirror_of db b.id n.id)
    where
      uncreated :
          (m : LocalNodeRecord) (o sent : Option PendingOpRecord)
          → find_create db b.id n.id is_queued ≡ o
          → Effect uuid db (changed_uncreated uuid b n m db o sent).1
      uncreated m (some o) sent e =
          let (at, was) = find_create_lem uuid db b.id n.id h e in
          Effect.next
            (Effect.revise db o _ at (record {
              op_id = refl;
              binding_id = refl;
              client_seq = refl;
              was_queued = was;
              is_queued = was;
            }))
            (put_local-Effect uuid _ _)
      uncreated m none (some o) e = sent-Effect db b n m _
      uncreated m none none e = warn-Effect uuid _ db

      locally :
          (m : LocalNodeRecord) (id : Option String)
          → Effect uuid db (changed_locally uuid b n m db id).1
      locally m none = uncreated m _ _ refl
      locally m (some id) = mapped-Effect db b n m _

      matches :
          (m : LocalNodeRecord) (es : List Expectation)
          → Effect uuid db (changed_matches uuid b n m db es).1
      matches m [] = locally m m.canonical_id
      matches m (e ∷ es) = Effect.next (consume-Effect uuid (e ∷ es) db) (put_local-Effect uuid _ _)

      mirrored : (m : Option LocalNodeRecord) → Effect uuid db (changed_mirror uuid db b n m).1
      mirrored none = Effect.stay db
      mirrored (some m) = matches m _

      gated :
          (g : Bool) (m : Option LocalNodeRecord)
          → Effect uuid db
              (if g then changed_mirror uuid db b n m else (EventDisposition.ignored, db)).1
      gated true m = mirrored m
      gated false m = Effect.stay db
