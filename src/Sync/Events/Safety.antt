-- ===== src/Sync/Events/Safety.antt =====
-- What handling one browser event guarantees.
use pontis.Base.{
  ℕ, String, ◌≡◌, refl, Bool, true, false, Option, none, some, List, if◌then◌else◌, ap, ◌∙◌,
}
use mathlib.Core.Path.{subst}
use pontis.Base.Table
use pontis.Base.Table.{string_key}
use pontis.Browser.{BrowserNode, BrowserEvent}
use pontis.Store.{BindingRecord, PontisDb, binding_key}
use pontis.Sync.Events.{handle_by_kind, handle_for, handle_event}
use pontis.Sync.Events.Scope.{captures_binding_events}
use pontis.Sync.Events.Echo.{EventDisposition, Handled}
use pontis.Sync.Events.Effects.{Effect, IsOrdered, binding_of}
use pontis.Sync.Events.Refine.Created.{created-Effect}
use pontis.Sync.Events.Refine.Changed.{changed-Effect}
use pontis.Sync.Events.Refine.Moved.{moved-Effect}
use pontis.Sync.Events.Refine.Removed.{Done, removed-Effect}

module _ (uuid : ℕ → String) (children : String → List BrowserNode) (fuel : ℕ) where
  by_kind-Done :
      (db : PontisDb) (b : BindingRecord) (event : BrowserEvent)
      → IsOrdered uuid db
      → binding_of db b.id ≡ some b
      → Done uuid fuel db (handle_by_kind uuid children fuel db b event)
  unfolding handle_by_kind
  by_kind-Done db b (BrowserEvent.created n) h at = created-Effect uuid children db b n
  by_kind-Done db b (BrowserEvent.changed n) h at = changed-Effect uuid db b n h
  by_kind-Done db b (BrowserEvent.moved n old) h at = moved-Effect uuid children db b n h
  by_kind-Done db b (BrowserEvent.removed n) h at = removed-Effect uuid fuel db b n h at

  event-Done :
      (db : PontisDb) (i : String) (event : BrowserEvent)
      → IsOrdered uuid db
      → Done uuid fuel db (handle_event uuid children fuel db i event)
  unfolding handle_event
  event-Done db i event h = by_binding (Table.get binding_key i db.bindings) refl
    where
      gated :
          (g : Bool) (b : BindingRecord)
          → binding_of db b.id ≡ some b
          → Done uuid fuel db (
              if g
              then handle_by_kind uuid children fuel db b event
              else some (EventDisposition.ignored, db))
      gated true b at = by_kind-Done db b event h at
      gated false b at = Effect.stay db

      by_binding :
          (o : Option BindingRecord)
          → Table.get binding_key i db.bindings ≡ o
          → Done uuid fuel db (handle_for uuid children fuel db o event)
      by_binding none e = Effect.stay db
      by_binding (some b) e =
          gated (captures_binding_events b.state) b
            (ap (λ j. binding_of db j) (Table.key_get binding_key i db.bindings e) ∙ e)

  Done-Effect :
      {db : PontisDb} {o : Option Handled} {r : Handled}
      → Done uuid fuel db o
      → o ≡ some r
      → Effect uuid db r.1
  Done-Effect {db} d e = subst (λ q. Done uuid fuel db q) e d

  -- From an ordered outbox, if the handling of an event returns, what it did is a sequence of the
  -- effects that `Effect` lists, and nothing else.
  pub handle_event-Effect :
      (db : PontisDb) (i : String) (event : BrowserEvent) (r : Handled)
      → IsOrdered uuid db
      → handle_event uuid children fuel db i event ≡ some r
      → Effect uuid db r.1
  handle_event-Effect db i event r h e = Done-Effect (event-Done db i event h) e
