-- ===== src/Sync/Verify/Report.antt =====
-- The report of extension/src/core/sync/verifyReplica.ts.
use pontis.Base.{String, Bool, Option, List}

pub data ProblemKind : Type 0 where
  missing_mirror orphan_mirror field_mismatch parent_mismatch order_drift : ProblemKind

pub record VerifyProblem : Type 0 where
  pub kind : ProblemKind
  pub browser_id : Option String
  pub canonical_id : Option String
  pub detail : Option String

pub record VerifyReport : Type 0 where
  pub ok : Bool
  pub problems : List VerifyProblem
