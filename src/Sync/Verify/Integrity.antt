-- ===== src/Sync/Verify/Integrity.antt =====
-- extension/src/core/sync/integrity.ts: the periodic check of a binding.
pub mod Settled
use pontis.Base.{
  ℕ, ◌*◌, String, Bool, true, false, not, List, ◌==◌, any, keep, length, ltb, if◌then◌else◌,
}
use pontis.Browser.Adapter.{Adapter}
use pontis.Browser.Snapshot.{Outcome, and_then}
use pontis.Store.{PontisDb, Level}
use pontis.Store.Diagnostics.{log_diagnostic}
use pontis.Store.Subtree.{rows_of}
use pontis.Sync.Applied.{Local}
use pontis.Sync.Verify.Report.{ProblemKind, VerifyProblem, VerifyReport}
use pontis.Sync.Verify.Scan.{is_serious, verify_scan}
use pontis.Sync.Verify.Quiesce.{verify_and_repair}

pub data IntegrityResult : Type 0 where
  ok repaired mapping_lost failed : IntegrityResult

abbrev pub is_missing : ProblemKind → Bool
is_missing ProblemKind.missing_mirror = true
is_missing _ = false

-- `ratio > 0.3`, the ratio of the missing mirrors to the rows of the binding.
abbrev pub is_lost : ℕ → ℕ → Bool
is_lost missing scope = if ltb 0 scope then ltb (3 * scope) (10 * missing) else ltb 0 missing

abbrev pub missing_mirrors : VerifyReport → ℕ
missing_mirrors r = length (keep (λ (p : VerifyProblem). is_missing p.kind) r.problems)

-- `serious(r).length > 0`
abbrev pub has_serious : VerifyReport → Bool
has_serious r = any is_serious r.problems

abbrev pub noted :
    {Browser : Type 0}
    → Level
    → String
    → IntegrityResult
    → Local Browser
    → IntegrityResult × Local Browser
noted level message result l =
    (result, record l { db = log_diagnostic level "integrity" message l.db })

abbrev pub after_repair :
    {Browser : Type 0} → VerifyReport → Local Browser → IntegrityResult × Local Browser
after_repair post l =
    if has_serious post
    then noted Level.error "修复后校验失败" IntegrityResult.failed l
    else noted Level.info "轻微漂移已修复" IntegrityResult.repaired l

module _ {Browser : Type 0} (adapter : Adapter Browser) (uuid : ℕ → String)
    (locale_after : String → String → Bool) (depth : ℕ)
    (sync : String → Local Browser → Outcome (Local Browser)) where
  abbrev pub classified :
      String → VerifyReport → Local Browser → Outcome (IntegrityResult × Local Browser)
  classified binding_id pre l =
      if not (has_serious pre)
      then Outcome.done (noted Level.debug "完整性检查通过" IntegrityResult.ok l)
      else if is_lost (missing_mirrors pre) (length (rows_of binding_id l.db.local_nodes))
      then Outcome.done (noted Level.warn "映射丢失超过阈值，需要一次恢复对账" IntegrityResult.mapping_lost l)
      else and_then (verify_and_repair adapter uuid depth sync locale_after binding_id l)
          λ r. Outcome.done (after_repair r.0 r.1)

  unfoldable pub integrity_check :
      String → Local Browser → Outcome (IntegrityResult × Local Browser)
  unfolding verify_and_repair verify_scan log_diagnostic rows_of
  integrity_check binding_id l =
      and_then (verify_scan adapter locale_after depth l.browser l.db binding_id)
        λ pre. classified binding_id pre l
