-- ===== src/Sync/Coordinator/Inbox/Settling.antt =====
-- `settlePending` of syncCoordinator.ts deletes what the server released, and nothing else.
use pontis.Base.{
  leb, not, ℕ, String, ◌≡◌, refl, Bool, ◌&&◌, none, some, List, [], ◌∷◌, ◌==◌, any, if◌then◌else◌,
  arith,
}
use pontis.Base.Table
use pontis.Base.Table.{string_key}
use pontis.Store.{BindingRecord, PendingOpRecord, PontisDb, binding_key, op_key, is_resolved}
use pontis.Sync.Coordinator.Rows.{any-get}
use pontis.Sync.Coordinator.Request.{with_status}
use pontis.Sync.Coordinator.Inbox.{settle_after, is_due, settle_all, settle_pending}

-- Answered, released by the binding's progress, and not kept for its result.
abbrev pub is_released : String → ℕ → PendingOpRecord → Bool
is_released binding_id applied o =
    (o.binding_id == binding_id && is_resolved o.status)
    && (leb (settle_after o.result) applied && not o.keep_resolved)

get-settle_all :
    (applied : ℕ) (ps ops : List PendingOpRecord) (i : String)
    → Table.get op_key i (settle_all applied ps ops) ≡ (
        if any (λ (p : PendingOpRecord). is_due applied p && p.op_id == i) ps
        then none
        else Table.get op_key i ops)
unfolding settle_all
get-settle_all applied [] ops i = refl
get-settle_all applied (p ∷ ps) ops i = ground (
  arith,
  get-settle_all applied ps ops i,
  get-settle_all applied ps (Table.delete op_key p.op_id ops) i,
  Table.get-delete op_key i p.op_id ops,
)

any-with_status :
    (applied : ℕ) (b i : String) (ops : List PendingOpRecord)
    → any
        (λ (p : PendingOpRecord). is_due applied p && p.op_id == i)
        (with_status is_resolved b ops)
      ≡ any (λ (p : PendingOpRecord). is_released b applied p && p.op_id == i) ops
unfolding with_status
any-with_status applied b i [] = refl
any-with_status applied b i (x ∷ xs) = ground (arith, any-with_status applied b i xs)

-- In an outbox with distinct ids, settling the operations of a stored binding keeps every operation
-- as it is, but for those of that binding that are answered, whose answer's `settle_after_revision`
-- the binding has applied, and that are not kept for their result: these are gone. An operation
-- that is queued or in flight is never dropped.
pub settle_pending-get :
    (db : PontisDb) (b : BindingRecord) (i : String) (o : PendingOpRecord)
    → Table.HasDistinctKeys op_key db.pending_ops
    → Table.get binding_key b.id db.bindings ≡ some b
    → Table.get op_key i db.pending_ops ≡ some o
    → Table.get op_key i (settle_pending b.id db).pending_ops
      ≡ (if is_released b.id b.applied_revision o then none else some o)
unfolding settle_pending
settle_pending-get db b i o d e f =
    rw
      (
        e,
        get-settle_all b.applied_revision (with_status is_resolved b.id db.pending_ops)
            db.pending_ops i,
        any-with_status b.applied_revision b.id i db.pending_ops,
      )
      (rw (any-get (is_released b.id b.applied_revision) db.pending_ops i o d f, f) refl)
