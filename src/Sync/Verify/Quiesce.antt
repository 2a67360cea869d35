-- ===== src/Sync/Verify/Quiesce.antt =====
-- `verifyAndRepair` and `quiesceLoop` of extension/src/core/sync/verifyReplica.ts.
pub mod Terminates
use pontis.Base.{
  ℕ, zero, suc, ◌+◌, String, Bool, true, false, ◌&&◌, ◌||◌, Option, none, some, List, [], ◌∷◌, ◌==◌,
  any, find, nat_eq, if◌then◌else◌,
}
use pontis.Base.Table
use pontis.Base.Table.{string_key, pair_key}
use pontis.Browser.{BrowserNode}
use pontis.Browser.Adapter.{Adapter}
use pontis.Browser.Snapshot.{
  Snapshots, BrowserSnapshot, Outcome, and_then, answer, snapshot_browser_tree,
}
use pontis.Protocol.{OpType, ParentRefWire, node_ref, root_ref}
use pontis.Store.{
  BindingMode, BindingMount, BindingRecord, LocalNodeRecord, PendingType, PendingOpRecord, PontisDb,
  Level, binding_key, truthy, same_text, is_text, is_unsettled_op,
}
use pontis.Store.Subtree.{rows_of}
use pontis.Store.Diagnostics.{log_diagnostic}
use pontis.Sync.Tree.{or_empty}
use pontis.Sync.Events.Scope.{mirror_of}
use pontis.Sync.Events.Outbox.{OpRow, op_on, queue, queue_one, put_local}
use pontis.Sync.Applied.{Local}
use pontis.Sync.Verify.{is_quiescent}
use pontis.Sync.Verify.Upload.{upload_nodes}
use pontis.Sync.Verify.Repair.{has_canonical, is_partial, canonical_parent_ref, repair_level}
use pontis.Sync.Verify.Report.{VerifyReport}
use pontis.Sync.Verify.Scan.{differs_in_parent, must_get_binding, verify_scan}

abbrev pub max_quiesce_rounds : ℕ
max_quiesce_rounds = 64

-- `sync` is the coordinator's `syncBinding`, which may change the browser and the replica.
module _ {Browser : Type 0} (adapter : Adapter Browser) (uuid : ℕ → String) (depth : ℕ)
    (sync : String → Local Browser → Outcome (Local Browser)) where
  abbrev pub uploaded : String → Option String → Local Browser → Outcome (ℕ × Local Browser)
  uploaded binding_id none l = Outcome.done (0, l)
  uploaded binding_id (some folder) l =
      if folder == ""
      then Outcome.done (0, l)
      else and_then (snapshot_browser_tree adapter l.browser depth folder) λ snap.
        and_then (upload_nodes uuid binding_id snap.children l.db)
          λ r. Outcome.done (r.0, record l { db = r.1 })

  abbrev pub upload_for : Option BindingRecord → Local Browser → Outcome (ℕ × Local Browser)
  upload_for none l = Outcome.done (0, l)
  upload_for (some b) l =
      if is_partial b.mount.mode
      then uploaded b.id b.mount.folder_browser_id l
      else Outcome.done (0, l)

  unfoldable pub upload_pass_all : String → Local Browser → Outcome (ℕ × Local Browser)
  unfolding snapshot_browser_tree upload_nodes
  upload_pass_all binding_id l = upload_for (Table.get binding_key binding_id l.db.bindings) l

  unfoldable pub quiesce_loop : ℕ → String → Local Browser → Outcome (Local Browser)
  unfolding upload_pass_all log_diagnostic is_quiescent
  quiesce_loop zero binding_id l =
      Outcome.done (record l { db = log_diagnostic Level.warn "verify" "静置等待已用尽" l.db })
  quiesce_loop (suc rounds) binding_id l = and_then (sync binding_id l) λ l'.
      and_then (upload_pass_all binding_id l') λ r.
        elim (nat_eq r.0 0 && is_quiescent r.1.db binding_id) [
          | true ↦ Outcome.done r.1
          | false ↦ quiesce_loop rounds binding_id r.1
        ]

  abbrev pub repaired : BindingRecord → String → Local Browser → Outcome (Local Browser)
  repaired b folder l = and_then (snapshot_browser_tree adapter l.browser depth folder) λ snap.
      and_then (repair_level uuid b.id snap.children (rows_of b.id l.db.local_nodes) l.db) λ d.
        and_then (upload_pass_all b.id (record l { db = d }))
          λ r. quiesce_loop max_quiesce_rounds b.id r.1

  abbrev pub repair_for : BindingRecord → Option String → Local Browser → Outcome (Local Browser)
  repair_for b none l = Outcome.done l
  repair_for b (some folder) l =
      if is_partial b.mount.mode && (if folder == "" then false else true)
      then repaired b folder l
      else Outcome.done l

  unfoldable pub verify_and_repair :
      (String → String → Bool) → String → Local Browser → Outcome (VerifyReport × Local Browser)
  unfolding repair_level quiesce_loop verify_scan rows_of
  verify_and_repair locale_after binding_id l = and_then (must_get_binding l.db binding_id) λ b.
      and_then (repair_for b b.mount.folder_browser_id l) λ l'.
        and_then (verify_scan adapter locale_after depth l'.browser l'.db binding_id)
          λ report. Outcome.done (report, l')
