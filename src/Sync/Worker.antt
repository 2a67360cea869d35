-- ===== src/Sync/Worker.antt =====
-- extension/src/core/sync/workerLoop.ts: how captured events reach the handlers. The chain of
-- `eventsSettled` runs one event after another, and an event goes to every capturing binding.
pub mod Capture
pub mod Pass
use pontis.Base.{ℕ, String, Bool, true, false, ◌||◌, Option, none, some, List, [], ◌∷◌, keep}
use pontis.Browser.{BrowserNode, BrowserEvent}
use pontis.Store.{BindingRecord, PontisDb}
use pontis.Sync.Events.{handle_event}
use pontis.Sync.Events.Echo.{EventDisposition, Handled}
use pontis.Sync.Events.Scope.{captures_binding_events}

abbrev is_local_op : EventDisposition → Bool
is_local_op EventDisposition.local_op = true
is_local_op _ = false

module _ (uuid : ℕ → String) (children : String → List BrowserNode) (fuel : ℕ) where
  -- The loop over the bindings: whether an operation was produced, and the database.
  unfoldable pub dispatch_to :
      List BindingRecord → BrowserEvent → PontisDb → Bool → Option (Bool × PontisDb)
  dispatch_to [] event db produced = some (produced, db)
  dispatch_to (b ∷ bs) event db produced = elim (handle_event uuid children fuel db b.id event) [
    | none ↦ none
    | some r ↦ dispatch_to bs event (r.1) (is_local_op (r.0) || produced)
  ]

  unfoldable pub dispatch : BrowserEvent → PontisDb → Option (Bool × PontisDb)
  unfolding dispatch_to
  dispatch event db =
      dispatch_to (keep (λ (b : BindingRecord). captures_binding_events b.state) db.bindings) event
        db false

  -- The promise chain over the events of a session.
  unfoldable pub dispatch_all : List BrowserEvent → PontisDb → Option PontisDb
  unfolding dispatch
  dispatch_all [] db = some db
  dispatch_all (event ∷ events) db = elim (dispatch event db) [
    | none ↦ none
    | some r ↦ dispatch_all events (r.1)
  ]
