-- ===== src/Tests/Capture.antt =====
-- Captured events.
use pontis.Base.{ℕ, String, ◌≡◌, refl, none, some, List, [], ◌∷◌, Option, before, map}
use pontis.Base.Table
use pontis.Browser.{BrowserEvent}
use pontis.Store.{BindingRecord, PendingOpRecord, PontisDb}
use pontis.Sync.Events.{handle_event}
use pontis.Store.Diagnostics.{log_diagnostic}
use pontis.Sync.Events.Scope.{
  captures_binding_events, is_managed_scope, canonical_parent_ref, next_mapped,
}
use pontis.Sync.Events.Outbox.{find_create, queue_with}
use pontis.Sync.Events.Effects.{op_of, binding_of, IsOrdered}
use pontis.Sync.Events.Effects.Keeps.{Advances}
use pontis.Sync.Worker.{dispatch_all}
use pontis.Sync.Worker.Capture.{dispatch_all-IsOrdered, dispatch_all-frozen, dispatch_all-Advances}
use pontis.Tests.Fixture.{
  unary, unary-IsFresh, replica, replica-IsOrdered, binding, sent_op, browser_node, no_children,
}

abbrev events : List BrowserEvent
events =
    BrowserEvent.changed (browser_node "n1" "new")
    ∷ BrowserEvent.created (browser_node "n2" "fresh")
    ∷ BrowserEvent.removed (browser_node "n2" "fresh")
    ∷ []

abbrev or_replica : Option PontisDb → PontisDb
or_replica none = replica
or_replica (some db) = db

abbrev after : PontisDb
after = or_replica (dispatch_all unary no_children 10 events replica)

runs : dispatch_all unary no_children 10 events replica ≡ some after
unfolding dispatch_all handle_event captures_binding_events is_managed_scope canonical_parent_ref
    next_mapped find_create queue_with log_diagnostic unary Table.put Table.get Table.pair_same
    before
runs = refl

-- The edit is queued as an operation of its own, and the created and removed bookmark leaves none.
queued_ops :
    map {B = String × ℕ × Option String}
      (λ (o : PendingOpRecord). (o.op_id, o.client_seq, o.title))
      after.pending_ops
    ≡ ("", 1, some "old") ∷ ("a", 2, some "new") ∷ []
unfolding dispatch_all handle_event captures_binding_events is_managed_scope canonical_parent_ref
    next_mapped find_create queue_with log_diagnostic unary Table.put Table.get Table.pair_same
    before
queued_ops = refl

dispatch_all-IsOrdered_example : IsOrdered unary after
dispatch_all-IsOrdered_example =
    dispatch_all-IsOrdered unary unary-IsFresh no_children 10 events replica after replica-IsOrdered
      runs

dispatch_all-frozen_example : op_of after "" ≡ some sent_op
unfolding Table.get
dispatch_all-frozen_example =
    dispatch_all-frozen unary unary-IsFresh no_children 10 events replica after "" sent_op
      replica-IsOrdered runs refl (λ e. cc)

dispatch_all-Advances_example :
    (b' : BindingRecord) × (binding_of after "b" ≡ some b') × Advances binding b'
unfolding Table.get
dispatch_all-Advances_example =
    dispatch_all-Advances unary unary-IsFresh no_children 10 events replica after "b" binding
      replica-IsOrdered runs refl
