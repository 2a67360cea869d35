-- ===== src/Sync/Verify/Scan.antt =====
-- `verifyScan` of extension/src/core/sync/verifyReplica.ts: the browser's tree against the mirror.
use pontis.Base.{
  ℕ, zero, suc, String, Bool, true, false, not, ◌&&◌, ◌||◌, Option, none, some, List, [], ◌∷◌, ◌++◌,
  ◌==◌, any, if◌then◌else◌,
}
use Prim.Native.String
use pontis.Base.Table
use pontis.Base.Table.{string_key, pair_key}
use pontis.Browser.{BrowserNode}
use pontis.Browser.Adapter.{Adapter}
use pontis.Browser.Snapshot.{
  Snapshots, BrowserSnapshot, Outcome, and_then, answer, size, snapshot_browser_tree,
}
use pontis.Store.{
  BindingMode, BindingMount, BindingRecord, LocalNodeRecord, PontisDb, binding_key, truthy,
  same_text,
}
use pontis.Store.Subtree.{rows_of}
use pontis.Sync.Tree.{or_empty}
use pontis.Sync.Events.Scope.{mirror_of}
use pontis.Sync.Verify.Report.{ProblemKind, VerifyProblem, VerifyReport}
use pontis.Sync.Verify.Drift.{order_drift}

-- A list of snapshots put after another: `queue.push(...children)`.
unfoldable pub push_all : Snapshots → Snapshots → Snapshots
push_all Snapshots.nothing more = more
push_all (Snapshots.node n kids rest) more = Snapshots.node n kids (push_all rest more)

unfoldable pub differs_in_fields : BrowserNode → LocalNodeRecord → Bool
differs_in_fields n m = not (n.title == m.title) || not (same_text n.url m.url)

-- `mirror.parentBrowserId && node.parentId && node.parentId !== mirror.parentBrowserId`
abbrev pub differs_in_parent : Option String → Option String → Bool
differs_in_parent mirror live = truthy mirror && (truthy live && not (same_text live mirror))

abbrev pub parent_detail : Option String → Option String → String
parent_detail mirror live =
    String.◌++◌ "browser "
      (String.◌++◌ (or_empty live) (String.◌++◌ " vs mirror " (or_empty mirror)))

abbrev pub field_problem : BrowserNode → LocalNodeRecord → List VerifyProblem
field_problem n m =
    if differs_in_fields n m
    then (record {
      kind = ProblemKind.field_mismatch;
      browser_id = some n.id;
      canonical_id = m.canonical_id;
      detail = none;
    })
      ∷ []
    else []

abbrev pub parent_problem : BrowserNode → LocalNodeRecord → List VerifyProblem
parent_problem n m =
    if differs_in_parent m.parent_browser_id n.parent_id
    then (record {
      kind = ProblemKind.parent_mismatch;
      browser_id = some n.id;
      canonical_id = m.canonical_id;
      detail = some (parent_detail m.parent_browser_id n.parent_id);
    })
      ∷ []
    else []

abbrev pub missing : BrowserNode → Option String → VerifyProblem
missing n detail = record {
  kind = ProblemKind.missing_mirror;
  browser_id = some n.id;
  canonical_id = none;
  detail = detail;
}

-- An id is checked by `== null`, so that an empty one counts as mapped.
abbrev pub mapped_problems : BrowserNode → LocalNodeRecord → Option String → List VerifyProblem
mapped_problems n m none = missing n (some "unmapped after apply") ∷ []
mapped_problems n m (some id) = field_problem n m ++ parent_problem n m

abbrev pub row_problems : BrowserNode → Option LocalNodeRecord → List VerifyProblem
row_problems n none = missing n none ∷ []
row_problems n (some m) = mapped_problems n m m.canonical_id

unfoldable pub node_problems : PontisDb → String → BrowserNode → List VerifyProblem
unfolding differs_in_fields
node_problems db binding_id n = row_problems n (mirror_of db binding_id n.id)

-- The queue, on fuel.
unfoldable pub scan_queue : ℕ → PontisDb → String → Snapshots → List VerifyProblem
unfolding node_problems push_all
scan_queue zero db binding_id queue = []
scan_queue (suc fuel) db binding_id Snapshots.nothing = []
scan_queue (suc fuel) db binding_id (Snapshots.node n kids rest) =
    node_problems db binding_id n ++ scan_queue fuel db binding_id (push_all rest kids)

-- Each round takes one node off the queue for good.
unfoldable pub scan_nodes : PontisDb → String → Snapshots → List VerifyProblem
unfolding scan_queue
scan_nodes db binding_id queue = scan_queue (size queue) db binding_id queue

abbrev pub is_absent_node : Option BrowserNode → Bool
is_absent_node none = true
is_absent_node (some n) = false

module _ {Browser : Type 0} (adapter : Adapter Browser) where
  -- The rows whose node is gone; the mount root is not asked for.
  unfoldable pub orphans : Browser → String → List LocalNodeRecord → List VerifyProblem
  orphans browser root_id [] = []
  orphans browser root_id (m ∷ ms) =
      let rest = orphans browser root_id ms in
      if not (m.browser_id == "")
        && (is_absent_node (adapter.get_node browser m.browser_id) && not (m.browser_id == root_id))
      then (record {
        kind = ProblemKind.orphan_mirror;
        browser_id = some m.browser_id;
        canonical_id = m.canonical_id;
        detail = none;
      })
        ∷ rest
      else rest

-- `if (!id) throw …`
abbrev pub id_or_throw : Option String → Outcome String
id_or_throw none = Outcome.thrown
id_or_throw (some id) = if id == "" then Outcome.thrown else Outcome.done id

-- `Object.values(roots ?? {})[0]`
abbrev pub first_root : Option (List (String × String)) → Option String
first_root none = none
first_root (some []) = none
first_root (some ((key, id) ∷ roots)) = some id

abbrev pub mount_root : BindingMode → BindingMount → Outcome String
mount_root BindingMode.partial mount = id_or_throw mount.folder_browser_id
mount_root BindingMode.full mount = id_or_throw (first_root mount.roots)

abbrev pub mount_root_id : BindingRecord → Outcome String
mount_root_id b = mount_root b.mount.mode b.mount

abbrev pub must_get_binding : PontisDb → String → Outcome BindingRecord
must_get_binding db binding_id = answer (Table.get binding_key binding_id db.bindings)

abbrev pub is_order_drift : ProblemKind → Bool
is_order_drift ProblemKind.order_drift = true
is_order_drift _ = false

abbrev pub is_serious : VerifyProblem → Bool
is_serious p = not (is_order_drift p.kind)

abbrev pub report_of : List VerifyProblem → VerifyReport
report_of problems = record { ok = not (any is_serious problems); problems = problems }

module _ {Browser : Type 0} (adapter : Adapter Browser) (locale_after : String → String → Bool)
    (depth : ℕ) where
  abbrev pub compared : Browser → PontisDb → BindingRecord → String → BrowserSnapshot → VerifyReport
  compared browser db b root_id snap = report_of (
      scan_nodes db b.id snap.children
      ++ (orphans adapter browser root_id (rows_of b.id db.local_nodes)
          ++ order_drift locale_after db b snap))

  unfoldable pub verify_scan : Browser → PontisDb → String → Outcome VerifyReport
  unfolding snapshot_browser_tree scan_nodes orphans order_drift rows_of
  verify_scan browser db binding_id = and_then (must_get_binding db binding_id) λ b.
      and_then (mount_root_id b) λ root_id.
        and_then (snapshot_browser_tree adapter browser depth root_id)
          λ snap. Outcome.done (compared browser db b root_id snap)
