-- ===== src/Sync/Verify/Integrity/Settled.antt =====
-- integrity.ts: what the answers say of the browser and the mirror.
use pontis.Base.{ℕ, String, ◌≡◌, refl, Bool, true, false, not, length, Bool-cases, inl, inr}
use mathlib.Core.Path.{subst}
use pontis.Base.Table.{string_key}
use pontis.Browser.Adapter.{Adapter}
use pontis.Browser.Snapshot.{Outcome, and_then}
use pontis.Store.{BindingRecord, Level}
use pontis.Store.Diagnostics.{log_diagnostic}
use pontis.Store.Subtree.{rows_of}
use pontis.Sync.Applied.{Local}
use pontis.Sync.Verify.Report.{VerifyReport}
use pontis.Sync.Verify.Scan.{verify_scan}
use pontis.Sync.Verify.Verdict.{Compared, Scanned, verify_scan-Scanned}
use pontis.Sync.Verify.Quiesce.{repair_for, verify_and_repair}
use pontis.Sync.Verify.Scan.{must_get_binding}
use pontis.Sync.Verify.Integrity.{
  IntegrityResult, is_lost, missing_mirrors, has_serious, after_repair, classified, integrity_check,
}

module _ {Browser : Type 0} (adapter : Adapter Browser) (uuid : ℕ → String)
    (locale_after : String → String → Bool) (depth : ℕ)
    (sync : String → Local Browser → Outcome (Local Browser)) (binding_id : String) where
  -- Whether the two sides agree on a device.
  abbrev pub Agrees : Bool → Local Browser → Type 0
  Agrees is_ok l = Compared adapter locale_after depth l.browser l.db binding_id is_ok

  -- `ok` and `repaired`: the browser and the mirror agree. `failed`: they do not.
  -- `mapping_lost`: they do not, and nothing is repaired.
  abbrev pub Means : Local Browser → IntegrityResult → Local Browser → Type 0
  Means start IntegrityResult.ok l = Agrees true l
  Means start IntegrityResult.repaired l = Agrees true l
  Means start IntegrityResult.failed l = Agrees false l
  Means start IntegrityResult.mapping_lost l =
      Agrees false l
      × (l.browser ≡ start.browser)
      × (l.db.pending_ops ≡ start.db.pending_ops)
      × (l.db.local_nodes ≡ start.db.local_nodes)

  abbrev pub IsSettled : Local Browser → Outcome (IntegrityResult × Local Browser) → Type 0
  IsSettled start (Outcome.done (result, l)) = Means start result l
  IsSettled start Outcome.thrown = Unit
  IsSettled start Outcome.endless = Unit

  noted-Agrees :
      (is_ok : Bool) (level : Level) (message : String) (l : Local Browser)
      → Agrees is_ok l
      → Agrees is_ok (record l { db = log_diagnostic level "integrity" message l.db })
  unfolding log_diagnostic
  noted-Agrees is_ok level message l h = h

  -- What a repair ends with is a scan of the device as it then is.
  abbrev pub IsRescanned : Outcome (VerifyReport × Local Browser) → Type 0
  IsRescanned (Outcome.done (report, l)) =
      Scanned adapter locale_after depth l.browser l.db binding_id (Outcome.done report)
  IsRescanned Outcome.thrown = Unit
  IsRescanned Outcome.endless = Unit

  verify_and_repair-IsRescanned :
      (l : Local Browser)
      → IsRescanned (verify_and_repair adapter uuid depth sync locale_after binding_id l)
  unfolding verify_and_repair
  verify_and_repair-IsRescanned l = of_binding (must_get_binding l.db binding_id)
    where
      of_scan :
          (l' : Local Browser) (o : Outcome VerifyReport)
          → Scanned adapter locale_after depth l'.browser l'.db binding_id o
          → IsRescanned (and_then o λ report. Outcome.done (report, l'))
      of_scan l' (Outcome.done report) h = h
      of_scan l' Outcome.thrown h = tt
      of_scan l' Outcome.endless h = tt

      of_repair :
          (o : Outcome (Local Browser))
          → IsRescanned (
              and_then o λ l'.
                and_then
                  (verify_scan adapter locale_after depth l'.browser l'.db binding_id)
                  λ report. Outcome.done (report, l'))
      of_repair (Outcome.done l') =
          of_scan l' (verify_scan adapter locale_after depth l'.browser l'.db binding_id)
            (verify_scan-Scanned adapter locale_after depth l'.browser l'.db binding_id)
      of_repair Outcome.thrown = tt
      of_repair Outcome.endless = tt

      of_binding :
          (o : Outcome BindingRecord)
          → IsRescanned (
              and_then o λ b.
                and_then (repair_for adapter uuid depth sync b b.mount.folder_browser_id l) λ l'.
                  and_then
                    (verify_scan adapter locale_after depth l'.browser l'.db binding_id)
                    λ report. Outcome.done (report, l'))
      of_binding (Outcome.done b) =
          of_repair (repair_for adapter uuid depth sync b b.mount.folder_browser_id l)
      of_binding Outcome.thrown = tt
      of_binding Outcome.endless = tt

  -- The verdict of a report, by its problems.
  of_report :
      (l : Local Browser) (report : VerifyReport)
      → Scanned adapter locale_after depth l.browser l.db binding_id (Outcome.done report)
      → Agrees (not (has_serious report)) l
  of_report l report (e, h) = subst (λ t. Agrees t l) e h

  after_repair-Means :
      (start l : Local Browser) (report : VerifyReport)
      → Scanned adapter locale_after depth l.browser l.db binding_id (Outcome.done report)
      → IsSettled start (Outcome.done (after_repair report l))
  unfolding log_diagnostic
  after_repair-Means start l report h = elim (Bool-cases (has_serious report)) [
    | inl t ↦ rw t (subst (λ t. Agrees (not t) l) t (of_report l report h))
    | inr f ↦ rw f (subst (λ t. Agrees (not t) l) f (of_report l report h))
  ]

  classified-IsSettled :
      (l : Local Browser) (pre : VerifyReport)
      → Scanned adapter locale_after depth l.browser l.db binding_id (Outcome.done pre)
      → IsSettled l (classified adapter uuid locale_after depth sync binding_id pre l)
  unfolding log_diagnostic
  classified-IsSettled l pre h = elim (Bool-cases (has_serious pre)) [
    | inr f ↦ rw f (subst (λ t. Agrees (not t) l) f (of_report l pre h))
    | inl t ↦
        elim (Bool-cases
          (is_lost (missing_mirrors pre) (length (rows_of binding_id l.db.local_nodes)))) [
            | inl lost ↦
                rw t
                  (rw lost (subst (λ t. Agrees (not t) l) t (of_report l pre h), refl, refl, refl))
            | inr few ↦ rw t (
                rw few (
                  of_repair (verify_and_repair adapter uuid depth sync locale_after binding_id l)
                    (verify_and_repair-IsRescanned l)))
          ]
  ]
    where
      of_repair :
          (o : Outcome (VerifyReport × Local Browser))
          → IsRescanned o
          → IsSettled l (and_then o λ r. Outcome.done (after_repair r.0 r.1))
      of_repair (Outcome.done (report, l')) k = after_repair-Means l l' report k
      of_repair Outcome.thrown k = tt
      of_repair Outcome.endless k = tt

  -- If `integrityCheck` returns, then after `ok` and `repaired` the report of a scan of the device
  -- would be ok: every node below the mount root is mirrored and every row of the binding is live.
  -- After `failed` and `mapping_lost` it would not, and after `mapping_lost` the browser, the
  -- outbox and the mirror are as they were.
  pub integrity_check-IsSettled :
      (l : Local Browser)
      → IsSettled l (integrity_check adapter uuid locale_after depth sync binding_id l)
  unfolding integrity_check
  integrity_check-IsSettled l =
      of_scan (verify_scan adapter locale_after depth l.browser l.db binding_id)
        (verify_scan-Scanned adapter locale_after depth l.browser l.db binding_id)
    where
      of_scan :
          (o : Outcome VerifyReport)
          → Scanned adapter locale_after depth l.browser l.db binding_id o
          → IsSettled l
              (and_then o λ pre. classified adapter uuid locale_after depth sync binding_id pre l)
      of_scan (Outcome.done pre) h = classified-IsSettled l pre h
      of_scan Outcome.thrown h = tt
      of_scan Outcome.endless h = tt
