-- ===== src/Tests/Verifier.antt =====
-- The verifier at the sample replica, on a browser that does not change.
use pontis.Base.{
  map, ℕ, ◌<◌, String, ◌≡◌, refl, Bool, false, none, some, List, [], ◌∷◌, ◌==◌, find, All, arith,
  if◌then◌else◌, Bool-cases, inl, inr,
}
use mathlib.Core.Path.{subst}
use pontis.Base.Table
use pontis.Base.Sort
use pontis.Sync.Verify.Report.{VerifyReport, VerifyProblem, ProblemKind}
use pontis.Browser.{BrowserNode}
use pontis.Browser.Adapter.{Adapter}
use pontis.Browser.Snapshot.{Snapshots, Outcome}
use pontis.Browser.Snapshot.Ends.{Ends, IsTree}
use pontis.Sync.Applied.{Local}
use pontis.Sync.Verify.Scan.{verify_scan}
use pontis.Sync.Verify.Verdict.{Scanned, verify_scan_ok}
use pontis.Sync.Verify.Repair.{repair_level}
use pontis.Sync.Verify.Repair.Queued.{Queues}
use pontis.Sync.Verify.Upload.{upload_nodes}
use pontis.Sync.Verify.Upload.Queued.{Uploads, repair_and_upload-Queues}
use pontis.Sync.Verify.Integrity.{integrity_check}
use pontis.Sync.Verify.Integrity.Settled.{IsSettled, integrity_check-IsSettled}
use pontis.Sync.Verify.Quiesce.Terminates.{integrity_check-Ends}
use pontis.Tests.Fixture.{unary, bookmark_row, replica, browser_node}

-- The bookmark was renamed, and another one was added, while nobody listened.
abbrev shown : List BrowserNode
shown = browser_node "n1" "renamed" ∷ browser_node "n2" "new" ∷ []

-- A browser with one state.
data Glass : Type 0 where
  pane : Glass

abbrev glass : Adapter Glass
glass = record {
  get_node = λ u id. find (λ (n : BrowserNode). n.id == id) (browser_node "root" "" ∷ shown);
  get_children = λ u id. some (if id == "root" then shown else []);
  create = λ parent d u. (none, u);
  update = λ id c u. (false, u);
  move = λ id parent index u. (false, u);
  remove_bookmark = λ id u. (false, u);
  remove_subtree = λ id u. (false, u);
}

abbrev tall : Glass → String → ℕ
tall u id = if id == "root" then 1 else 0

abbrev LightChildren : String → List BrowserNode → Type 0
LightChildren id = All (λ c. tall Glass.pane c.id < tall Glass.pane id)

light : (id : String) → LightChildren id (if id == "root" then shown else [])
light id = elim (Bool-cases (id == "root")) [
  | inl e ↦ rw e (omega arith, (omega arith, tt))
  | inr e ↦ rw e tt
]

some_inj : (a b : List BrowserNode) → some a ≡ some b → a ≡ b
some_inj a b e = cc

glass-IsTree : (u : Glass) → IsTree glass u (tall u) 1
glass-IsTree u = record {
  falls = λ id children e. subst (LightChildren id) (some_inj _ children e) (light id);
  bounded = λ id. ground arith;
}

abbrev nothing_after : String → String → Bool
nothing_after a b = false

abbrev device : Local Glass
device = record { browser = Glass.pane; db = replica }

-- A round that changes nothing.
abbrev idle : String → Local Glass → Outcome (Local Glass)
idle id l = Outcome.done l

idle-Ends : (id : String) (l : Local Glass) → Ends (idle id l)
idle-Ends id l = tt

verify_scan_ok_example :
    Ends (verify_scan glass nothing_after 1 Glass.pane replica "b")
    × Scanned glass nothing_after 1 Glass.pane replica "b"
        (verify_scan glass nothing_after 1 Glass.pane replica "b")
verify_scan_ok_example =
    verify_scan_ok glass nothing_after Glass.pane (tall Glass.pane) 1 (glass-IsTree Glass.pane)
      replica "b"

-- The renamed bookmark and the new one are found; no row is an orphan.
abbrev kinds : Outcome VerifyReport → List ProblemKind
kinds (Outcome.done report) = map (λ (p : VerifyProblem). p.kind) report.problems
kinds _ = []

verify_scan_finds :
    kinds (verify_scan glass nothing_after 1 Glass.pane replica "b")
    ≡ ProblemKind.field_mismatch ∷ ProblemKind.missing_mirror ∷ []
unfolding verify_scan Table.get Table.pair_same Sort.sort
verify_scan_finds = refl

abbrev shown_tree : Snapshots
shown_tree =
    Snapshots.node (browser_node "n1" "renamed") Snapshots.nothing
      (Snapshots.node (browser_node "n2" "new") Snapshots.nothing Snapshots.nothing)

repair_and_upload-Queues_example :
    Queues unary replica (repair_level unary "b" shown_tree (bookmark_row ∷ []) replica)
    × Uploads unary replica (upload_nodes unary "b" shown_tree replica)
repair_and_upload-Queues_example =
    repair_and_upload-Queues unary "b" shown_tree (bookmark_row ∷ []) replica

integrity_check-IsSettled_example :
    IsSettled glass unary nothing_after 1 idle "b" device
      (integrity_check glass unary nothing_after 1 idle "b" device)
integrity_check-IsSettled_example =
    integrity_check-IsSettled glass unary nothing_after 1 idle "b" device

integrity_check-Ends_example : Ends (integrity_check glass unary nothing_after 1 idle "b" device)
integrity_check-Ends_example =
    integrity_check-Ends glass unary nothing_after 1 idle tall glass-IsTree idle-Ends "b" device
