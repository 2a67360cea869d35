-- ===== src/Sync/Coordinator/Binding.antt =====
-- `syncBinding`, `rounds` and `syncAll` of syncCoordinator.ts.
pub mod Keeping
pub mod Released
use pontis.Base.{
  ℕ, ◌+◌, String, Bool, true, false, not, ◌&&◌, ◌||◌, Option, none, some, List, [], ◌∷◌, keep,
  if◌then◌else◌,
}
use pontis.Base.Table
use pontis.Base.Table.{string_key}
use pontis.Protocol.{SyncRequestWire, SyncResponseWire, TransferRequestWire, TransferResponseWire}
use pontis.Transport.{Answer}
use pontis.Store.{
  BindingState, BindingRecord, PontisDb, RunLockRecord, Level, binding_key, is_sync_enabled,
}
use pontis.Store.Locks.{acquire_run_lock, release_run_lock}
use pontis.Store.Diagnostics.{log_diagnostic}
use pontis.Sync.Coordinator.{
  SyncOutcome, Applied, Applier, End, Run, Turn, max_rounds_per_sync, update_binding, loop,
}
use pontis.Sync.Coordinator.Request.{can_run}
use pontis.Sync.Coordinator.Transfers.{process_transfers}

module _ {Server : Type 0}
    (sync : String → SyncRequestWire → Server → Answer SyncResponseWire × Server)
    (transfers : Option (TransferRequestWire → Server → Answer TransferResponseWire × Server))
    (applier : Applier) (decimal : ℕ → String) (uuid : ℕ → String) (fuel : ℕ) where
  abbrev pub Called : Type 0
  Called = End × Run Server

  unfoldable pub upload :
      Option (TransferRequestWire → Server → Answer TransferResponseWire × Server)
      → String
      → Run Server
      → Option (Server × PontisDb)
  upload none id run = some (run.server, run.db)
  upload (some create) id run = process_transfers create fuel id run.server run.db

  abbrev pub finished : String → Option (Server × PontisDb) → Run Server → Called
  finished id none run = (End.endless, run)
  finished id (some (server, db)) run = (
    End.outcome SyncOutcome.synced,
    record {
      server = server;
      db = update_binding (λ b. record b { last_sync_at = some db.now }) id db;
    },
  )

  abbrev pub after_loop : String → Turn Server → Called
  after_loop id (Turn.again run) = finished id (upload transfers id run) run
  after_loop id (Turn.last run) = finished id (upload transfers id run) run
  after_loop id (Turn.leave e run) = (e, run)

  abbrev pub recovered : String → Applied → Server → Called
  recovered id (Applied.done db) server =
      after_loop id
        (loop sync applier decimal max_rounds_per_sync id (record { server = server; db = db }))
  recovered id (Applied.unmapped message db) server =
      (End.threw, record { server = server; db = db })
  recovered id (Applied.thrown db) server = (End.threw, record { server = server; db = db })

  unfoldable pub rounds_for : Option BindingRecord → String → Run Server → Called
  unfolding upload
  rounds_for none id run = (End.outcome SyncOutcome.inactive, run)
  rounds_for (some b) id run =
      if can_run run.db b
      then recovered id (applier.recover id run.db) run.server
      else (End.outcome SyncOutcome.inactive, run)

  unfoldable pub rounds : String → Run Server → Called
  unfolding rounds_for
  rounds id run = rounds_for (Table.get binding_key id run.db.bindings) id run

  -- `finally { releaseRunLock }`: however the call ends.
  unfoldable pub released : String → String → Called → Called
  released id token (e, run) = (
    e,
    record run { db = record (run.db) { run_locks = release_run_lock run.db.run_locks id token } },
  )

  abbrev pub locked : String → String → Option String × List RunLockRecord → Run Server → Called
  locked id token (none, locks) run = (
    End.outcome SyncOutcome.busy,
    record run { db = log_diagnostic Level.info "coordinator" "另一轮正在处理该绑定，本轮跳过" run.db },
  )
  locked id token (some t, locks) run =
      released id token (rounds id (record run { db = record (run.db) { run_locks = locks } }))

  abbrev pub sync_for : Option BindingRecord → String → Run Server → Called
  sync_for none id run = (End.outcome SyncOutcome.inactive, run)
  sync_for (some b) id run =
      if can_run run.db b
      then (let token = uuid run.db.drawn in
          locked id token (acquire_run_lock run.db.run_locks id token run.db.now)
            (record run { db = record (run.db) { drawn = run.db.drawn + 1 } }))
      else (End.outcome SyncOutcome.inactive, run)

  unfoldable pub sync_binding : String → Run Server → Called
  unfolding rounds released
  sync_binding id run = sync_for (Table.get binding_key id run.db.bindings) id run

  abbrev pub is_active : BindingState → Bool
  is_active BindingState.active = true
  is_active _ = false

  -- Whether a binding was busy, and `none` if a call never ends.
  unfoldable pub sync_each : List BindingRecord → Bool → Run Server → Option (Bool × Run Server)
  unfolding sync_binding
  sync_each [] busy run = some (busy, run)
  sync_each (b ∷ bs) busy run =
      if is_sync_enabled b
      then (let (e, run') = sync_binding b.id run in
          elim e [
            | End.outcome o ↦ sync_each bs (is_busy o || busy) run'
            | End.threw ↦
                sync_each bs busy
                  (record run' { db = log_diagnostic Level.error "coordinator" "未预期的同步失败" run'.db })
            | End.endless ↦ none
          ])
      else sync_each bs busy run
    where
      is_busy : SyncOutcome → Bool
      is_busy SyncOutcome.busy = true
      is_busy _ = false

  unfoldable pub sync_all : Run Server → Option (Bool × Run Server)
  unfolding sync_each
  sync_all run =
      sync_each (keep (λ (b : BindingRecord). is_active b.state) run.db.bindings) false run
