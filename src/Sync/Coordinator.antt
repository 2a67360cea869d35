-- ===== src/Sync/Coordinator.antt =====
-- extension/src/core/sync/syncCoordinator.ts: the rounds of one binding under its run lock. The
-- server's state is explicit, and what other tasks do to the database while a round waits for an
-- answer is not part of a round.
pub mod Rows
pub mod Request
pub mod Inbox
pub mod Transfers
pub mod Binding
use pontis.Base.{
  ℕ, zero, suc, ◌+◌, String, Bool, true, false, ◌&&◌, ◌||◌, Option, none, some, List, [], ◌∷◌, ◌==◌,
  keep, if◌then◌else◌,
}
use pontis.Base.Table
use pontis.Base.Table.{string_key}
use pontis.Protocol.{
  ChangeWire, SyncRequestWire, SyncResponseWire, TransferRequestWire, TransferResponseWire,
}
use pontis.Transport.{ApiError, Answer, is_protocol_error}
use pontis.Store.{
  BindingState, BindingRecord, PontisDb, RemoteChangeRecord, Level, binding_key, is_sync_enabled,
}
use pontis.Store.Locks.{acquire_run_lock, release_run_lock}
use pontis.Store.Diagnostics.{log_diagnostic}
use pontis.Sync.Events.Outbox.{put_binding}
use pontis.Sync.Coordinator.Request.{can_run, build_request}
use pontis.Sync.Coordinator.Inbox.{halted, persist_response, inbox_above, as_change, settle_pending}
use pontis.Sync.Coordinator.Transfers.{process_transfers}

pub data SyncOutcome : Type 0 where
  synced needs_recovery inactive busy error : SyncOutcome

abbrev pub max_rounds_per_sync : ℕ
max_rounds_per_sync = 20

-- What the applier makes of one call: it returns, a change meets a lost mapping (with the message
-- of `UnmappedProjectionError`), or it throws another exception.
pub data Applied : Type 0 where
  done : PontisDb → Applied
  unmapped : String → PontisDb → Applied
  thrown : PontisDb → Applied

-- The applier that a coordinator is constructed with.
pub record Applier : Type 0 where
  pub recover : String → PontisDb → Applied
  pub apply_change : String → ChangeWire → PontisDb → Applied

-- How a call ends: with an outcome, by an exception, or never (the fuel of `collect_subtree`).
pub data End : Type 0 where
  outcome : SyncOutcome → End
  threw : End
  endless : End

-- `bindings.update(id, …)`: nothing on a missing key.
abbrev pub change_binding :
    (BindingRecord → BindingRecord) → Option BindingRecord → PontisDb → PontisDb
change_binding f none db = db
change_binding f (some b) db = put_binding (f b) db

unfoldable pub update_binding : (BindingRecord → BindingRecord) → String → PontisDb → PontisDb
update_binding f id db = change_binding f (Table.get binding_key id db.bindings) db

unfoldable pub is_terminal : ApiError → Bool
is_terminal e = is_protocol_error e || e.code == "NOT_BINDING_OWNER"

-- The state of a call.
pub record Run (Server : Type 0) : Type 0 where
  pub server : Server
  pub db : PontisDb

-- How a round ends: by `break`, by the next turn of the loop, or by leaving the loop.
pub data Turn (Server : Type 0) : Type 0 where
  again last : Run Server → Turn Server
  leave : End → Run Server → Turn Server

-- The loop over the inbox.
unfoldable pub apply_inbox : Applier → String → List RemoteChangeRecord → PontisDb → Applied
apply_inbox applier id [] db = Applied.done db
apply_inbox applier id (r ∷ rs) db = elim (applier.apply_change id (as_change r) db) [
  | done db' ↦ apply_inbox applier id rs db'
  | unmapped message db' ↦ Applied.unmapped message db'
  | thrown db' ↦ Applied.thrown db'
]

module _ {Server : Type 0}
    (sync : String → SyncRequestWire → Server → Answer SyncResponseWire × Server)
    (applier : Applier) (decimal : ℕ → String) where
  unfoldable pub failed : String → ApiError → Run Server → Turn Server
  unfolding update_binding is_terminal
  failed id e run =
      if is_terminal e
      then Turn.leave (End.outcome SyncOutcome.needs_recovery) (record run {
        db =
            log_diagnostic Level.error "coordinator" "该副本无法同步此绑定，需要恢复"
              (update_binding (λ b. halted b e.code e.message) id run.db);
      })
      else Turn.leave (End.outcome SyncOutcome.error)
          (record run { db = log_diagnostic Level.warn "coordinator" "本轮同步失败，稍后重试" run.db })

  -- After the inbox.
  unfoldable pub after_inbox : String → Bool → Applied → Server → Turn Server
  after_inbox id has_more (Applied.done db) server =
      let run : Run Server = record { server = server; db = settle_pending id db } in
      if has_more then Turn.again run else Turn.last run
  after_inbox id has_more (Applied.unmapped message db) server =
      Turn.leave (End.outcome SyncOutcome.needs_recovery) (record {
        server = server;
        db =
            log_diagnostic Level.error "coordinator" "远端改动指向已丢失的映射"
              (update_binding (λ b. halted b "UNMAPPED_PROJECTION" message) id db);
      })
  after_inbox id has_more (Applied.thrown db) server =
      Turn.leave End.threw (record { server = server; db = db })

  abbrev pub is_halted : Option BindingRecord → Bool
  is_halted none = false
  is_halted (some b) = stopped b.state
    where
      stopped : BindingState → Bool
      stopped BindingState.needs_recovery = true
      stopped _ = false

  -- The inbox is read above the revision that the binding had before the request.
  unfoldable pub received : BindingRecord → SyncResponseWire → Run Server → Turn Server
  unfolding apply_inbox after_inbox
  received b resp run =
      let db = persist_response decimal b.id resp run.db in
      if is_halted (Table.get binding_key b.id db.bindings)
      then Turn.leave (End.outcome SyncOutcome.needs_recovery) (record run { db = db })
      else after_inbox b.id resp.has_more
          (apply_inbox applier b.id (inbox_above b.id b.applied_revision db.remote_changes) db)
          run.server

  unfoldable pub answered_with : BindingRecord → Answer SyncResponseWire → Run Server → Turn Server
  unfolding failed received
  answered_with b (Answer.ok resp) run = received b resp run
  answered_with b (Answer.refused e) run = failed b.id e run
  answered_with b (Answer.broken text) run =
      Turn.leave (End.outcome SyncOutcome.error)
        (record run { db = log_diagnostic Level.warn "coordinator" "本轮同步失败，稍后重试" run.db })

  abbrev pub inactive_turn : Run Server → Turn Server
  inactive_turn run = Turn.leave (End.outcome SyncOutcome.inactive) run

  abbrev pub turn_for : Option BindingRecord → Run Server → Turn Server
  turn_for none run = inactive_turn run
  turn_for (some b) run =
      if can_run run.db b
      then (let (req, db) = build_request b run.db in
          let (answer, server) = sync b.id req run.server in
          answered_with b answer (record { server = server; db = db }))
      else inactive_turn run

  unfoldable pub one_round : String → Run Server → Turn Server
  unfolding answered_with
  one_round id run = turn_for (Table.get binding_key id run.db.bindings) run

  -- `for (round < MAX_ROUNDS_PER_SYNC)`.
  unfoldable pub loop : ℕ → String → Run Server → Turn Server
  unfolding one_round
  loop zero id run = Turn.last run
  loop (suc rounds) id run = elim (one_round id run) [
    | again run' ↦ loop rounds id run'
    | last run' ↦ Turn.last run'
    | leave e run' ↦ Turn.leave e run'
  ]
