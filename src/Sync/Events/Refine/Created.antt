-- ===== src/Sync/Events/Refine/Created.antt =====
-- `handleCreated` as effects.
use pontis.Base.{ℕ, String, Bool, true, false, Option, none, some, List, [], ◌∷◌, if◌then◌else◌}
use pontis.Base.Table.{string_key}
use pontis.Browser.{BrowserNode}
use pontis.Protocol.{ParentRefWire}
use pontis.Store.{BindingRecord, PontisDb}
use pontis.Sync.Events.Echo.{EventDisposition, Expectation}
use pontis.Sync.Events.Created.{
  created_locally, created_settled, created_provisional, created_under, handle_created,
}
use pontis.Sync.Events.Scope.{is_managed_scope}
use pontis.Sync.Events.Refine.{
  warn-Effect, consume-Effect, put_local-Effect, put_local_if_new-Effect, queue_with-Effect,
}
use pontis.Sync.Events.Effects.{Effect}

module _ (uuid : ℕ → String) (children : String → List BrowserNode) where
  pub created-Effect :
      (db : PontisDb) (b : BindingRecord) (n : BrowserNode)
      → Effect uuid db (handle_created uuid children db b n).1
  unfolding handle_created
  created-Effect db b n = by_parent n.parent_id
    where
      locally :
          (p : String) (o : Option ParentRefWire)
          → Effect uuid db (created_locally uuid children b n p db o).1
      locally p none = warn-Effect uuid _ db
      locally p (some parent) =
          Effect.next (queue_with-Effect uuid b.id _ _ db (put_local-Effect uuid _)) (Effect.draw _)

      settled :
          (p : String) (es : List Expectation)
          → Effect uuid db (created_settled uuid children b n p db es).1
      settled p [] = locally p _
      settled p (e ∷ es) =
          Effect.next (consume-Effect uuid (e ∷ es) db) (put_local_if_new-Effect uuid _ _ _)

      provisional :
          (p : String) (es : List Expectation)
          → Effect uuid db (created_provisional uuid children b n p db es).1
      provisional p [] = settled p _
      provisional p (e ∷ []) =
          Effect.next (consume-Effect uuid (e ∷ []) db) (put_local-Effect uuid _ _)
      provisional p (e ∷ f ∷ es) = warn-Effect uuid _ db

      gated :
          (p : String) (es : List Expectation) (m : Bool)
          → Effect uuid db
              (if m
                then created_provisional uuid children b n p db es
                else (EventDisposition.ignored, db)).1
      gated p es true = provisional p es
      gated p es false = Effect.stay db

      by_parent : (o : Option String) → Effect uuid db (created_under uuid children db b n o).1
      by_parent none = Effect.stay db
      by_parent (some p) = gated p _ (is_managed_scope db b p)
