-- ===== src/Sync/Verify.antt =====
-- `isQuiescent` of extension/src/core/sync/verifyReplica.ts: a binding has nothing left to do.
pub mod Quiet
pub mod Report
pub mod Drift
pub mod Scan
pub mod Faithful
pub mod Advisory
pub mod Verdict
pub mod Repair
pub mod Upload
pub mod Quiesce
pub mod Integrity
use pontis.Base.{
  ℕ, String, Bool, true, false, ◌&&◌, Option, none, some, List, ◌==◌, keep, length, ltb, nat_eq,
  if◌then◌else◌,
}
use pontis.Base.Table
use pontis.Base.Table.{string_key}
use pontis.Store.{
  BindingRecord, PendingOpRecord, PontisDb, RemoteChangeRecord, binding_key, is_unsettled_op,
}

-- The tests on the rows of a binding.
abbrev pub is_unsent_for : String → PendingOpRecord → Bool
is_unsent_for id o = o.binding_id == id && is_unsettled_op o

abbrev pub is_unapplied_for : String → ℕ → RemoteChangeRecord → Bool
is_unapplied_for id applied r = r.binding_id == id && ltb applied r.revision

abbrev pub quiescent_for : Option BindingRecord → PontisDb → String → Bool
quiescent_for none db id = true
quiescent_for (some b) db id =
    if nat_eq b.applied_revision b.received_revision
    then (if ltb 0 (length (keep (is_unsent_for id) db.pending_ops))
        then false
        else nat_eq (length (keep (is_unapplied_for id b.applied_revision) db.remote_changes)) 0)
    else false

unfoldable pub is_quiescent : PontisDb → String → Bool
is_quiescent db id = quiescent_for (Table.get binding_key id db.bindings) db id
