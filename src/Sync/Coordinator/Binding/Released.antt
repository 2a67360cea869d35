-- ===== src/Sync/Coordinator/Binding/Released.antt =====
-- `syncBinding` of syncCoordinator.ts gives its run lock back, however its rounds end.
use pontis.Base.{
  ℕ, String, ◌≡◌, refl, ap, ◌∙◌, true, Option, none, some, List, [], ◌∷◌, arith, Bool-cases, inl,
  inr,
}
use pontis.Base.Table
use pontis.Base.Table.{string_key}
use pontis.Protocol.{SyncRequestWire, SyncResponseWire, TransferRequestWire, TransferResponseWire}
use pontis.Transport.{Answer}
use pontis.Store.{
  BindingRecord, PendingOpRecord, PontisDb, RunLockRecord, Level, binding_key, lock_key,
}
use mathlib.Core.Path.{subst}
use pontis.Store.Locks.{acquire_run_lock, release_run_lock}
use pontis.Store.Locks.Exclusion.{acquired, freed}
use pontis.Sync.Coordinator.{max_rounds_per_sync, Applied, Applier, Run, Turn, loop}
use pontis.Sync.Coordinator.Request.{can_run}
use pontis.Sync.Coordinator.Transfers.{
  reject_transfer, settle_transfer, process_each, process_transfers, request_for,
}
use pontis.Sync.Coordinator.Binding.{
  upload, finished, after_loop, recovered, rounds_for, rounds, released, locked, sync_for,
  sync_binding,
}
use pontis.Sync.Coordinator.Binding.Keeping.{
  LeavesLocks, db_of, run_of, Keeps, log-locks, update-locks, commit-locks, reject-locks,
  loop-locks,
}

each-locks :
    {Server : Type 0} (create : TransferRequestWire → Server → Answer TransferResponseWire × Server)
    (fuel : ℕ) (op : PendingOpRecord) (a : Answer TransferResponseWire) (db : PontisDb)
    → Keeps db.run_locks (settle_transfer create fuel op a db)
unfolding settle_transfer
each-locks create fuel op (Answer.ok resp) db = commit-locks fuel op resp db
each-locks create fuel op (Answer.refused e) db = ground (
  arith,
  log-locks Level.error "coordinator" "跨空间搬运被服务端拒绝" (reject_transfer e op.op_id db),
  reject-locks e op.op_id db,
  log-locks Level.warn "coordinator" "跨空间搬运上传失败，稍后重试" db,
)
each-locks create fuel op (Answer.broken text) db =
    log-locks Level.warn "coordinator" "跨空间搬运上传失败，稍后重试" db

abbrev KeepsRun : {Server : Type 0} → List RunLockRecord → Option (Server × PontisDb) → Type 0
KeepsRun locks none = Unit
KeepsRun locks (some (server, db)) = db.run_locks ≡ locks

each_all-locks :
    {Server : Type 0} (create : TransferRequestWire → Server → Answer TransferResponseWire × Server)
    (fuel : ℕ) (ops : List PendingOpRecord) (server : Server) (db : PontisDb)
    → KeepsRun db.run_locks (process_each create fuel ops server db)
unfolding process_each
each_all-locks create fuel [] server db = refl
each_all-locks {Server} create fuel (op ∷ ops) server db = chosen (each_all-locks create fuel ops) (
    request_for create fuel op (Table.get binding_key op.binding_id db.bindings) op.target_space_id
      op.target_parent)
  where
    acked :
        ((s : Server) (d : PontisDb) → KeepsRun d.run_locks (process_each create fuel ops s d))
        → (s : Server) (o : Option PontisDb) → Keeps db.run_locks o
        → KeepsRun db.run_locks (elim o [ none ↦ none | some d ↦ process_each create fuel ops s d ])
    acked rest s none h = tt
    acked rest s (some d) h =
        subst (λ l. KeepsRun l (process_each create fuel ops s d)) h (rest s d)

    chosen :
        ((s : Server) (d : PontisDb) → KeepsRun d.run_locks (process_each create fuel ops s d))
        → (o : Option TransferRequestWire)
        → KeepsRun db.run_locks (elim o [
          | none ↦ process_each create fuel ops server db
          | some req ↦ elim (settle_transfer create fuel op (create req server).0 db) [
            | none ↦ none
            | some d ↦ process_each create fuel ops (create req server).1 d
          ]
        ])
    chosen rest none = rest server db
    chosen rest (some req) =
        acked rest (create req server).1 (settle_transfer create fuel op (create req server).0 db)
          (each-locks create fuel op (create req server).0 db)

module _ {Server : Type 0}
    (sync : String → SyncRequestWire → Server → Answer SyncResponseWire × Server)
    (transfers : Option (TransferRequestWire → Server → Answer TransferResponseWire × Server))
    (applier : Applier) (decimal : ℕ → String) (uuid : ℕ → String) (fuel : ℕ)
    (law : LeavesLocks applier) where
  upload-locks :
      (t : Option (TransferRequestWire → Server → Answer TransferResponseWire × Server))
      (id : String) (run : Run Server)
      → KeepsRun run.db.run_locks (upload sync transfers applier decimal uuid fuel t id run)
  unfolding upload process_transfers
  upload-locks none id run = refl
  upload-locks (some create) id run = each_all-locks create fuel _ run.server run.db

  finished-locks :
      (id : String) (o : Option (Server × PontisDb)) (run : Run Server)
      → KeepsRun run.db.run_locks o
      → (finished sync transfers applier decimal uuid fuel id o run).1.db.run_locks
        ≡ run.db.run_locks
  finished-locks id none run h = refl
  finished-locks id (some (server, db)) run h =
      update-locks (λ b. record b { last_sync_at = some db.now }) id db ∙ h

  after_loop-locks :
      (id : String) (t : Turn Server)
      → (after_loop sync transfers applier decimal uuid fuel id t).1.db.run_locks
        ≡ (run_of t).db.run_locks
  after_loop-locks id (Turn.again run) = finished-locks id _ run (upload-locks transfers id run)
  after_loop-locks id (Turn.last run) = finished-locks id _ run (upload-locks transfers id run)
  after_loop-locks id (Turn.leave e run) = refl

  recovered-locks :
      (id : String) (a : Applied) (server : Server)
      → (recovered sync transfers applier decimal uuid fuel id a server).1.db.run_locks
        ≡ (db_of a).run_locks
  recovered-locks id (Applied.done db) server =
      let start : Run Server = record { server = server; db = db } in
      after_loop-locks id (loop sync applier decimal max_rounds_per_sync id start)
      ∙ loop-locks sync applier decimal law max_rounds_per_sync id start
  recovered-locks id (Applied.unmapped message db) server = refl
  recovered-locks id (Applied.thrown db) server = refl

  rounds-locks :
      (id : String) (run : Run Server)
      → (rounds sync transfers applier decimal uuid fuel id run).1.db.run_locks ≡ run.db.run_locks
  unfolding rounds rounds_for
  rounds-locks id run = for_binding (Table.get binding_key id run.db.bindings)
    where
      for_binding :
          (o : Option BindingRecord)
          → (rounds_for sync transfers applier decimal uuid fuel o id run).1.db.run_locks
            ≡ run.db.run_locks
      for_binding none = refl
      for_binding (some b) = elim (Bool-cases (can_run run.db b)) [
        | inl e ↦
            rw e (recovered-locks id (applier.recover id run.db) run.server ∙ law.recover id run.db)
        | inr e ↦ rw e refl
      ]

  -- With an applier that leaves the run locks alone, a call for a stored binding that may run, and
  -- that acquires the run lock, leaves the lock free, whatever its rounds end with: an outcome, an
  -- exception of the applier, or a refusal of the server.
  pub sync_binding-free :
      (id t : String) (run : Run Server) (b : BindingRecord) (locks : List RunLockRecord)
      → Table.get binding_key id run.db.bindings ≡ some b
      → can_run run.db b ≡ true
      → acquire_run_lock run.db.run_locks id (uuid run.db.drawn) run.db.now ≡ (some t, locks)
      → Table.get lock_key id
          (sync_binding sync transfers applier decimal uuid fuel id run).1.db.run_locks
        ≡ none
  unfolding sync_binding released
  sync_binding-free id t run b locks e c a =
      let token = uuid run.db.drawn in
      rw (e, sync_for)
        (rw c (
          rw (a, locked)
            (ap (λ l. Table.get lock_key id (release_run_lock l id token))
                (rounds-locks id _ ∙ acquired run.db.run_locks locks id token t run.db.now a)
              ∙ freed run.db.run_locks id token run.db.now)))
