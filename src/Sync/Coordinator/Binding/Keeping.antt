-- ===== src/Sync/Coordinator/Binding/Keeping.antt =====
-- The rounds of syncCoordinator.ts leave the run locks alone.
use pontis.Base.{
  ℕ, zero, suc, String, ◌≡◌, refl, ◌∙◌, Bool, Option, none, some, List, [], ◌∷◌, arith, Bool-cases,
  inl, inr,
}
use pontis.Base.Table
use pontis.Base.Table.{string_key}
use pontis.Protocol.{ChangeWire, SyncRequestWire, SyncResponseWire, TransferResponseWire}
use pontis.Transport.{ApiError, Answer}
use pontis.Store.{
  BindingRecord, PendingOpRecord, PontisDb, RemoteChangeRecord, RunLockRecord, Level, binding_key,
}
use pontis.Store.Diagnostics.{log_diagnostic}
use pontis.Sync.Coordinator.{
  Applied, Applier, Run, Turn, update_binding, apply_inbox, failed, after_inbox, received,
  answered_with, turn_for, one_round, loop,
}
use pontis.Sync.Coordinator.Request.{can_run, build_request}
use pontis.Sync.Coordinator.Inbox.{persist_response, as_change, halted, settle_pending, inbox_above}
use pontis.Sync.Coordinator.Transfers.{commit_transfer_ack, rebuild, reject_transfer}

abbrev pub db_of : Applied → PontisDb
db_of (Applied.done db) = db
db_of (Applied.unmapped message db) = db
db_of (Applied.thrown db) = db

-- What a coordinator relies on of its applier here: it leaves the run locks alone.
pub record LeavesLocks (applier : Applier) : Type 0 where
  pub recover :
      (id : String) (db : PontisDb) → (db_of (applier.recover id db)).run_locks ≡ db.run_locks
  pub apply_change :
      (id : String) (c : ChangeWire) (db : PontisDb)
      → (db_of (applier.apply_change id c db)).run_locks ≡ db.run_locks

pub log-locks :
    (l : Level) (scope message : String) (db : PontisDb)
    → (log_diagnostic l scope message db).run_locks ≡ db.run_locks
unfolding log_diagnostic
log-locks l scope message db = refl

pub update-locks :
    (f : BindingRecord → BindingRecord) (id : String) (db : PontisDb)
    → (update_binding f id db).run_locks ≡ db.run_locks
unfolding update_binding
update-locks f id db = ground arith

settle-locks : (id : String) (db : PontisDb) → (settle_pending id db).run_locks ≡ db.run_locks
unfolding settle_pending
settle-locks id db = ground arith

persist-locks :
    (decimal : ℕ → String) (id : String) (resp : SyncResponseWire) (db : PontisDb)
    → (persist_response decimal id resp db).run_locks ≡ db.run_locks
unfolding persist_response
persist-locks decimal id resp db = ground arith

-- A database that a call may not return.
abbrev pub Keeps : List RunLockRecord → Option PontisDb → Type 0
Keeps locks none = Unit
Keeps locks (some db) = db.run_locks ≡ locks

pub commit-locks :
    (fuel : ℕ) (op : PendingOpRecord) (resp : TransferResponseWire) (db : PontisDb)
    → Keeps db.run_locks (commit_transfer_ack fuel op resp db)
unfolding commit_transfer_ack rebuild log_diagnostic
commit-locks fuel op resp db = ground arith

pub reject-locks :
    (e : ApiError) (i : String) (db : PontisDb) → (reject_transfer e i db).run_locks ≡ db.run_locks
unfolding reject_transfer
reject-locks e i db = ground arith

module _ (applier : Applier) (law : LeavesLocks applier) where
  inbox-locks :
      (id : String) (rs : List RemoteChangeRecord) (db : PontisDb)
      → (db_of (apply_inbox applier id rs db)).run_locks ≡ db.run_locks
  unfolding apply_inbox
  inbox-locks id [] db = refl
  inbox-locks id (r ∷ rs) db =
      step (inbox-locks id rs) (applier.apply_change id (as_change r) db)
        (law.apply_change id (as_change r) db)
    where
      step :
          ((d : PontisDb) → (db_of (apply_inbox applier id rs d)).run_locks ≡ d.run_locks)
          → (a : Applied) → (db_of a).run_locks ≡ db.run_locks
          → (db_of (elim a [
            | Applied.done d ↦ apply_inbox applier id rs d
            | Applied.unmapped message d ↦ Applied.unmapped message d
            | Applied.thrown d ↦ Applied.thrown d
          ])).run_locks
            ≡ db.run_locks
      step rest (Applied.done d) h = rest d ∙ h
      step rest (Applied.unmapped message d) h = h
      step rest (Applied.thrown d) h = h

abbrev pub run_of : {Server : Type 0} → Turn Server → Run Server
run_of (Turn.again run) = run
run_of (Turn.last run) = run
run_of (Turn.leave e run) = run

module _ {Server : Type 0}
    (sync : String → SyncRequestWire → Server → Answer SyncResponseWire × Server)
    (applier : Applier) (decimal : ℕ → String) (law : LeavesLocks applier) where
  failed-locks :
      (id : String) (e : ApiError) (run : Run Server)
      → (run_of (failed sync applier decimal id e run)).db.run_locks ≡ run.db.run_locks
  unfolding failed log_diagnostic
  failed-locks id e run = ground (arith, update-locks (λ b. halted b e.code e.message) id run.db)

  inbox_turn-locks :
      (id : String) (more : Bool) (a : Applied) (server : Server)
      → (run_of (after_inbox sync applier decimal id more a server)).db.run_locks
        ≡ (db_of a).run_locks
  unfolding after_inbox log_diagnostic
  inbox_turn-locks id more (Applied.done db) server = ground (arith, settle-locks id db)
  inbox_turn-locks id more (Applied.unmapped message db) server =
      update-locks (λ b. halted b "UNMAPPED_PROJECTION" message) id db
  inbox_turn-locks id more (Applied.thrown db) server = refl

  received-locks :
      (b : BindingRecord) (resp : SyncResponseWire) (run : Run Server)
      → (run_of (received sync applier decimal b resp run)).db.run_locks ≡ run.db.run_locks
  unfolding received
  received-locks b resp run =
      let db = persist_response decimal b.id resp run.db in
      let rows = inbox_above b.id b.applied_revision db.remote_changes in
      ground (
        arith,
        persist-locks decimal b.id resp run.db,
        inbox-locks applier law b.id rows db,
        inbox_turn-locks b.id resp.has_more (apply_inbox applier b.id rows db) run.server,
      )

  answered-locks :
      (b : BindingRecord) (a : Answer SyncResponseWire) (run : Run Server)
      → (run_of (answered_with sync applier decimal b a run)).db.run_locks ≡ run.db.run_locks
  unfolding answered_with log_diagnostic
  answered-locks b (Answer.ok resp) run = received-locks b resp run
  answered-locks b (Answer.refused e) run = failed-locks b.id e run
  answered-locks b (Answer.broken text) run =
      log-locks Level.warn "coordinator" "本轮同步失败，稍后重试" run.db

  round-locks :
      (id : String) (run : Run Server)
      → (run_of (one_round sync applier decimal id run)).db.run_locks ≡ run.db.run_locks
  unfolding one_round build_request
  round-locks id run = for_binding (Table.get binding_key id run.db.bindings)
    where
      for_binding :
          (o : Option BindingRecord)
          → (run_of (turn_for sync applier decimal o run)).db.run_locks ≡ run.db.run_locks
      for_binding none = refl
      for_binding (some b) = elim (Bool-cases (can_run run.db b)) [
        | inl e ↦ rw e (answered-locks b _ _)
        | inr e ↦ rw e refl
      ]

  pub loop-locks :
      (n : ℕ) (id : String) (run : Run Server)
      → (run_of (loop sync applier decimal n id run)).db.run_locks ≡ run.db.run_locks
  unfolding loop
  loop-locks zero id run = refl
  loop-locks (suc n) id run =
      turned (loop-locks n id) (one_round sync applier decimal id run) (round-locks id run)
    where
      turned :
          ((r : Run Server)
            → (run_of (loop sync applier decimal n id r)).db.run_locks ≡ r.db.run_locks)
          → (t : Turn Server) → (run_of t).db.run_locks ≡ run.db.run_locks
          → (run_of (elim t [
            | Turn.again r ↦ loop sync applier decimal n id r
            | Turn.last r ↦ Turn.last r
            | Turn.leave e r ↦ Turn.leave e r
          ])).db.run_locks
            ≡ run.db.run_locks
      turned rest (Turn.again r) h = rest r ∙ h
      turned rest (Turn.last r) h = h
      turned rest (Turn.leave e r) h = h
