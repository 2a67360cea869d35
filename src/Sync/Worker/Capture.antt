-- ===== src/Sync/Worker/Capture.antt =====
-- What capturing any number of browser events guarantees.
use mathlib.Core.Path.{subst}
use pontis.Base.{ℕ, String, ◌≡◌, refl, ◌≢◌, Bool, false, Option, none, some, List, [], ◌∷◌, ◌||◌}
use pontis.Browser.{BrowserNode, BrowserEvent}
use pontis.Store.{BindingRecord, PendingStatus, PendingOpRecord, PontisDb}
use pontis.Sync.Events.{handle_event}
use pontis.Sync.Events.Effects.{Effect, IsOrdered, IsFresh, op_of, binding_of}
use pontis.Sync.Events.Effects.Order.{Effect-IsOrdered}
use pontis.Sync.Events.Effects.Keeps.{Effect-frozen, Effect-Advances, Advances}
use pontis.Sync.Events.Safety.{handle_event-Effect}
use pontis.Sync.Events.Echo.{Handled}
use pontis.Sync.Worker.{is_local_op, dispatch_to, dispatch, dispatch_all}

module _ (uuid : ℕ → String) (fresh : IsFresh uuid) (children : String → List BrowserNode)
    (fuel : ℕ) where
  abbrev Swept : PontisDb → Option (Bool × PontisDb) → Type 0
  Swept start none = Unit
  Swept start (some r) = Effect uuid start r.1

  abbrev Captured : PontisDb → Option PontisDb → Type 0
  Captured start none = Unit
  Captured start (some db) = Effect uuid start db

  -- One binding's turn, given what the rest of the loop does from there.
  turn :
      (b : BindingRecord) (bs : List BindingRecord) (event : BrowserEvent) (start db : PontisDb)
      (p : Bool)
      → ((r : Handled)
          → Effect uuid start r.1
          → Swept start (dispatch_to uuid children fuel bs event r.1 (is_local_op (r.0) || p)))
      → IsOrdered uuid start
      → Effect uuid start db
      → Swept start (dispatch_to uuid children fuel (b ∷ bs) event db p)
  unfolding dispatch_to
  turn b bs event start db p rest h e =
      by_result (handle_event uuid children fuel db b.id event) refl
    where
      by_result :
          (o : Option Handled)
          → handle_event uuid children fuel db b.id event ≡ o
          → Swept start (elim o [
            | none ↦ none
            | some r ↦ dispatch_to uuid children fuel bs event (r.1) (is_local_op (r.0) || p)
          ])
      by_result none q = tt
      by_result (some r) q = rest r (
          Effect.next e (
            handle_event-Effect uuid children fuel db b.id event r (Effect-IsOrdered uuid fresh e h)
              q))

  dispatch_to-Swept :
      (bs : List BindingRecord) (event : BrowserEvent) (start db : PontisDb) (p : Bool)
      → IsOrdered uuid start
      → Effect uuid start db
      → Swept start (dispatch_to uuid children fuel bs event db p)
  dispatch_to-Swept [] event start db p h e = unfold dispatch_to in e
  dispatch_to-Swept (b ∷ bs) event start db p h e =
      turn b bs event start db p
        (λ r k. dispatch_to-Swept bs event start (r.1) (is_local_op (r.0) || p) h k) h e

  next_event :
      (event : BrowserEvent) (events : List BrowserEvent) (start db : PontisDb)
      → ((u : PontisDb)
          → Effect uuid start u
          → Captured start (dispatch_all uuid children fuel events u))
      → IsOrdered uuid start
      → Effect uuid start db
      → Captured start (dispatch_all uuid children fuel (event ∷ events) db)
  unfolding dispatch_all
  next_event event events start db rest h e =
      by_result (dispatch uuid children fuel event db)
        (dispatch_to-Swept _ event start db false h e)
    where
      by_result :
          (o : Option (Bool × PontisDb))
          → Swept start o
          → Captured start
              (elim o [ none ↦ none | some r ↦ dispatch_all uuid children fuel events (r.1) ])
      by_result none q = tt
      by_result (some r) q = rest (r.1) q

  dispatch_all-Captured :
      (events : List BrowserEvent) (start db : PontisDb)
      → IsOrdered uuid start
      → Effect uuid start db
      → Captured start (dispatch_all uuid children fuel events db)
  dispatch_all-Captured [] start db h e = unfold dispatch_all in e
  dispatch_all-Captured (event ∷ events) start db h e =
      next_event event events start db (λ u k. dispatch_all-Captured events start u h k) h e

  -- A run of captured events that returns is a sequence of effects.
  dispatch_all-Effect :
      (events : List BrowserEvent) (db t : PontisDb)
      → IsOrdered uuid db
      → dispatch_all uuid children fuel events db ≡ some t
      → Effect uuid db t
  dispatch_all-Effect events db t h e =
      subst (Captured db) e (dispatch_all-Captured events db db h (Effect.stay db))

  -- From an ordered outbox, with ids of the host that do not repeat, the outbox is ordered after
  -- any number of captured events, if the handlers return: op ids are distinct, the ids still to be
  -- drawn are unused, and each binding's operations keep distinct sequence numbers, none above the
  -- binding's own.
  pub dispatch_all-IsOrdered :
      (events : List BrowserEvent) (db t : PontisDb)
      → IsOrdered uuid db
      → dispatch_all uuid children fuel events db ≡ some t
      → IsOrdered uuid t
  dispatch_all-IsOrdered events db t h e =
      Effect-IsOrdered uuid fresh (dispatch_all-Effect events db t h e) h

  -- From an ordered outbox, with ids of the host that do not repeat, and if the handlers return, an
  -- operation that has left the device (in flight or resolved) stays in the outbox with every field
  -- as it was, however many events are captured.
  pub dispatch_all-frozen :
      (events : List BrowserEvent) (db t : PontisDb) (i : String) (o : PendingOpRecord)
      → IsOrdered uuid db
      → dispatch_all uuid children fuel events db ≡ some t
      → op_of db i ≡ some o
      → o.status ≢ PendingStatus.queued
      → op_of t i ≡ some o
  dispatch_all-frozen events db t i o h e at sent =
      Effect-frozen uuid fresh i o (dispatch_all-Effect events db t h e) h at sent

  -- From an ordered outbox, with ids of the host that do not repeat, and if the handlers return,
  -- capturing events removes no binding, moves no epoch, applied or received revision, and lets no
  -- sequence number fall.
  pub dispatch_all-Advances :
      (events : List BrowserEvent) (db t : PontisDb) (i : String) (b : BindingRecord)
      → IsOrdered uuid db
      → dispatch_all uuid children fuel events db ≡ some t
      → binding_of db i ≡ some b
      → (b' : BindingRecord) × (binding_of t i ≡ some b') × Advances b b'
  dispatch_all-Advances events db t i b h e at =
      Effect-Advances uuid i b (dispatch_all-Effect events db t h e) at
