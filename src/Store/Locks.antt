-- ===== src/Store/Locks.antt =====
-- The run lock of db.ts: compare and set on the row of a binding.
pub mod Exclusion
use pontis.Base.{
  ℕ, ◌-◌, ◌*◌, String, Bool, false, not, Option, none, some, List, [], ltb, ◌==◌, ◌&&◌,
  if◌then◌else◌, length, ◌||◌,
}
use pontis.Base.Table
use pontis.Base.Table.{string_key}
use pontis.Store.{RunLockRecord, lock_key}

abbrev pub run_lock_stale_ms : ℕ
run_lock_stale_ms = 5 * 60 * 1000

-- Somebody else holds the lock, and has not held it for too long.
abbrev pub refused : Option RunLockRecord → String → String → ℕ → Bool
refused none binding_id token now = false
refused (some current) binding_id token now =
    not (current.binding_id == binding_id)
    || (not (current.token == token) && ltb (now - current.taken_at) run_lock_stale_ms)

abbrev pub lock_row : String → String → ℕ → RunLockRecord
lock_row binding_id token now = record { binding_id = binding_id; token = token; taken_at = now }

-- The token on success, and the table after the transaction.
unfoldable pub acquire_run_lock :
    List RunLockRecord → String → String → ℕ → Option String × List RunLockRecord
acquire_run_lock locks binding_id token now =
    if refused (Table.get lock_key binding_id locks) binding_id token now
    then (none, locks)
    else (some token, Table.put lock_key (lock_row binding_id token now) locks)

unfoldable pub release_all_run_locks : List RunLockRecord → ℕ × List RunLockRecord
release_all_run_locks locks = (length locks, [])

abbrev pub held_by : Option RunLockRecord → String → Bool
held_by none token = false
held_by (some current) token = current.token == token

unfoldable pub release_run_lock : List RunLockRecord → String → String → List RunLockRecord
release_run_lock locks binding_id token =
    if held_by (Table.get lock_key binding_id locks) token
    then Table.delete lock_key binding_id locks
    else locks
