-- ===== src/Sync/Events.antt =====
-- extension/src/core/sync/eventProcessor.ts: `handleEvent`, over the handlers of the children.
pub mod Scope
pub mod Outbox
pub mod Echo
pub mod Created
pub mod Changed
pub mod Moved
pub mod Removed
pub mod Effects
pub mod Refine
pub mod Safety
pub mod Echoes
pub mod Announced
pub mod Claimed
use pontis.Base.{ℕ, String, Option, none, some, List, if◌then◌else◌}
use pontis.Base.Table
use pontis.Base.Table.{string_key}
use pontis.Browser.{BrowserNode, BrowserEvent}
use pontis.Store.{BindingRecord, PontisDb, binding_key}
use Scope.{captures_binding_events}
use Echo.{EventDisposition, Handled}
use Created.{handle_created}
use Changed.{handle_changed}
use Moved.{handle_moved}
use Removed.{handle_removed}

module _ (uuid : ℕ → String) (children : String → List BrowserNode) (fuel : ℕ) where
  unfoldable pub handle_by_kind : PontisDb → BindingRecord → BrowserEvent → Option Handled
  unfolding handle_created handle_changed handle_moved handle_removed
  handle_by_kind db b (BrowserEvent.created n) = some (handle_created uuid children db b n)
  handle_by_kind db b (BrowserEvent.changed n) = some (handle_changed uuid db b n)
  handle_by_kind db b (BrowserEvent.moved n old) = some (handle_moved uuid children db b n)
  handle_by_kind db b (BrowserEvent.removed n) = handle_removed uuid fuel db b n

  unfoldable pub handle_for : PontisDb → Option BindingRecord → BrowserEvent → Option Handled
  unfolding handle_by_kind
  handle_for db none event = some (EventDisposition.ignored, db)
  handle_for db (some b) event =
      if captures_binding_events b.state
      then handle_by_kind db b event
      else some (EventDisposition.ignored, db)

  -- `none`: a loop has used up its fuel.
  unfoldable pub handle_event : PontisDb → String → BrowserEvent → Option Handled
  unfolding handle_for
  handle_event db binding_id event =
      handle_for db (Table.get binding_key binding_id db.bindings) event
