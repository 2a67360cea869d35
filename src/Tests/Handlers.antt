-- ===== src/Tests/Handlers.antt =====
-- The handlers of single events, at the sample replica.
use mathlib.Core.List.{Memᴰ}
use pontis.Base.{
  ◌≢◌, ◌==◌, Bool, true, String, inl, All, eq_iff, ◌≡◌, refl, Option, none, some, [], ◌∷◌, before,
}
use pontis.Base.Table
use pontis.Base.Table.{string_key, pair_key}
use pontis.Browser.{BrowserEvent, BrowserNode}
use pontis.Protocol.{NodeType, OpType, root_ref}
use pontis.Store.{PendingOpRecord, PendingStatus, PendingType, PontisDb, op_key, local_key}
use pontis.Store.Diagnostics.{log_diagnostic}
use pontis.Sync.Events.{handle_event}
use pontis.Sync.Events.Scope.{
  captures_binding_events, is_managed_scope, canonical_parent_ref, next_mapped,
}
use pontis.Sync.Events.Outbox.{find_create, queue_with}
use pontis.Sync.Events.Echo.{EventDisposition, Handled, Expectation}
use pontis.Sync.Events.Effects.{Effect}
use pontis.Sync.Events.Safety.{handle_event-Effect}
use pontis.Sync.Events.Echoes.{Claims, handle_event_created}
use pontis.Sync.Events.Announced.{Announces, handle_event_expected}
use pontis.Tests.Fixture.{
  unary, replica, replica-IsOrdered, binding, bookmark_row, sent_op, browser_node, no_children,
}

abbrev edited : BrowserEvent
edited = BrowserEvent.changed (browser_node "n1" "new")

abbrev handled_or : PontisDb → Option Handled → Handled
handled_or db none = (EventDisposition.ignored, db)
handled_or db (some r) = r

abbrev after_edit : Handled
after_edit = handled_or replica (handle_event unary no_children 10 replica "b" edited)

edit_runs : handle_event unary no_children 10 replica "b" edited ≡ some after_edit
unfolding handle_event captures_binding_events is_managed_scope canonical_parent_ref next_mapped
    find_create queue_with log_diagnostic unary Table.put Table.get Table.pair_same before
edit_runs = refl

handle_event-Effect_example : Effect unary replica after_edit.1
handle_event-Effect_example =
    handle_event-Effect unary no_children 10 replica "b" edited after_edit replica-IsOrdered
      edit_runs

-- A remote change has announced the new title.
abbrev announcement : Expectation
announcement = record {
  id = 0;
  binding_id = "b";
  revision = 8;
  kind = OpType.update_title;
  canonical_id = "c1";
  browser_id = some "n1";
  parent_browser_id = none;
  position = none;
  title = some "new";
  url = none;
  created_at = 99;
}

abbrev announced : PontisDb
announced = record replica { expected_mutations = announcement ∷ [] }

announces : Announces binding (browser_node "n1" "new") "c1" announcement
announces = (refl, refl, refl, inl (refl, refl))

empty_named : ◌≡◌ {A = Bool} ("c1" == "") true → ⊥
empty_named e = cc

named : ◌≢◌ {A = String} "c1" ""
named = λ e. empty_named ((eq_iff "c1" "").1 e)

handle_event_expected_example :
    (t : PontisDb) × (handle_event unary no_children 10 announced "b" edited
      ≡ some (EventDisposition.expected, t))
    × (t.pending_ops ≡ sent_op ∷ [])
    × (t.bindings ≡ binding ∷ [])
    × (t.local_nodes
        ≡ Table.put local_key (record bookmark_row { title = "new" }) announced.local_nodes)
    × All (λ (x : Expectation). x.id ≢ 0) t.expected_mutations
unfolding captures_binding_events is_managed_scope Table.get Table.pair_same
handle_event_expected_example =
    handle_event_expected unary no_children 10 announced binding (browser_node "n1" "new")
      bookmark_row "c1" announcement refl refl refl refl refl named (Memᴰ.head refl) announces

abbrev fresh_node : BrowserNode
fresh_node = browser_node "n2" "fresh"

unclaimed : ¬ Claims binding fresh_node announcement
unclaimed = λ (claim : Claims binding fresh_node announcement). cc claim.1

handle_event_created_example :
    (t : PontisDb) × (handle_event unary no_children 10 announced "b"
        (BrowserEvent.created fresh_node)
      ≡ some (EventDisposition.local_op, t))
    × (o : PendingOpRecord) × (t.pending_ops ≡ Table.put op_key o announced.pending_ops)
    × (o.type ≡ PendingType.op OpType.create)
    × (o.status ≡ PendingStatus.queued)
    × (o.binding_id ≡ "b")
    × (o.browser_id ≡ some "n2")
    × (o.op_id ≡ unary 1)
    × (o.node_id ≡ unary 2)
    × (o.client_seq ≡ 2)
    × (o.base_revision ≡ 7)
    × (o.node_type ≡ some NodeType.bookmark)
    × (o.title ≡ some "fresh")
    × (o.url ≡ some "http://a")
    × (o.parent ≡ some (root_ref "main"))
    × (o.before_id ≡ next_mapped announced "b" 0 [])
    × (t.local_nodes
        ≡ Table.put local_key
            (record {
              binding_id = "b";
              browser_id = "n2";
              canonical_id = none;
              type = NodeType.bookmark;
              title = "fresh";
              url = some "http://a";
              parent_browser_id = some "root";
              position = none;
            })
            announced.local_nodes)
unfolding captures_binding_events is_managed_scope canonical_parent_ref Table.get
handle_event_created_example =
    handle_event_created unary no_children 10 announced binding fresh_node "root" (root_ref "main")
      refl refl refl refl (unclaimed, tt) refl

-- A remote change has announced the bookmark, before the browser gave it an id.
abbrev create_announcement : Expectation
create_announcement = record announcement {
  id = 1;
  kind = OpType.create;
  canonical_id = "c2";
  browser_id = none;
  parent_browser_id = some "root";
  title = some "fresh";
  url = some "http://a";
}

abbrev twice_announced : PontisDb
twice_announced = record replica { expected_mutations = announcement ∷ create_announcement ∷ [] }
