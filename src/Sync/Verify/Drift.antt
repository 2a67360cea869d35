-- ===== src/Sync/Verify/Drift.antt =====
-- `orderDrift` of extension/src/core/sync/verifyReplica.ts: the order of mapped siblings against
-- the canonical order of the changes that were received.
use pontis.Base.{
  String, Bool, true, false, ◌&&◌, Option, none, some, List, [], ◌∷◌, ◌++◌, ◌==◌, any, keep, ltb,
  map, if◌then◌else◌,
}
use Prim.Native.String
use pontis.Base.Sort
use pontis.Browser.{BrowserNode}
use pontis.Browser.Snapshot.{Snapshots, BrowserSnapshot}
use pontis.Protocol.{NodeType, ParentRefWire, node_ref, root_ref, ChangeWire}
use pontis.Store.{BindingRecord, LocalNodeRecord, RemoteChangeRecord, PontisDb, truthy, is_text}
use pontis.Store.Subtree.{rows_of}
use pontis.Sync.Verify.Report.{ProblemKind, VerifyProblem}
use pontis.Sync.Tree.{CanonicalTree, CanonicalTreeNode, replay_changes, canonical_children}

-- A `Map` filled from a list keeps the last entry of a key.
abbrev pub or_later : {A : Type 0} → Option A → Option A → Option A
or_later a (some b) = some b
or_later a none = a

-- `canonicalToBrowser.get(id)`, over the mapped rows.
unfoldable pub browser_of : String → List LocalNodeRecord → Option String
browser_of id [] = none
browser_of id (m ∷ ms) =
    let later = browser_of id ms in
    or_later (if is_text m.canonical_id id then some m.browser_id else none) later

-- `browserToCanonical.get(id)`, over the mapped rows.
unfoldable pub canonical_of : String → List LocalNodeRecord → Option String
canonical_of id [] = none
canonical_of id (m ∷ ms) =
    let later = canonical_of id ms in
    or_later (if m.browser_id == id then m.canonical_id else none) later

unfoldable pub mapped_rows : String → PontisDb → List LocalNodeRecord
unfolding rows_of
mapped_rows binding_id db =
    keep (λ (m : LocalNodeRecord). truthy m.canonical_id) (rows_of binding_id db.local_nodes)

-- `.map((c) => canonicalToBrowser.get(c.id)).filter((id) => id != null)`
unfoldable pub known_browser_ids : List LocalNodeRecord → List CanonicalTreeNode → List String
unfolding browser_of
known_browser_ids mapped [] = []
known_browser_ids mapped (c ∷ cs) =
    let rest = known_browser_ids mapped cs in
    elim (browser_of c.id mapped) [ none ↦ rest | some id ↦ id ∷ rest ]

abbrev pub is_known : Option String → Bool
is_known none = false
is_known (some id) = true

-- `parent.children.map((c) => c.node.id).filter(…)`
unfoldable pub shown_ids : List LocalNodeRecord → List String → Snapshots → List String
unfolding canonical_of
shown_ids mapped canonical Snapshots.nothing = []
shown_ids mapped canonical (Snapshots.node n kids rest) =
    let later = shown_ids mapped canonical rest in
    if is_known (canonical_of n.id mapped) && any (λ (id : String). id == n.id) canonical
    then n.id ∷ later
    else later

-- The first place at which two lists differ.
unfoldable pub first_difference : List String → List String → Option (String × String)
first_difference (c ∷ cs) (b ∷ bs) =
    let rest = first_difference cs bs in if c == b then rest else some (c, b)
first_difference _ _ = none

abbrev pub drift_problem : String → Option (String × String) → List VerifyProblem
drift_problem parent_id none = []
drift_problem parent_id (some (c, b)) =
    (record {
      kind = ProblemKind.order_drift;
      browser_id = some parent_id;
      canonical_id = none;
      detail = some (String.◌++◌ "canonical " (String.◌++◌ c (String.◌++◌ " vs browser " b)));
    })
    ∷ []

abbrev pub revision_later : RemoteChangeRecord → RemoteChangeRecord → Bool
revision_later a b = ltb b.revision a.revision

abbrev pub change_of : RemoteChangeRecord → ChangeWire
change_of r = record {
  revision = r.revision;
  type = r.type;
  node_id = r.node_id;
  payload = r.payload;
}

unfoldable pub replay_inbox : String → PontisDb → CanonicalTree
unfolding replay_changes
replay_inbox binding_id db = replay_changes (
    map change_of (
      Sort.sort revision_later
        (keep (λ (r : RemoteChangeRecord). r.binding_id == binding_id) db.remote_changes)))

abbrev pub is_folder_node : NodeType → Bool
is_folder_node NodeType.folder = true
is_folder_node NodeType.bookmark = false

-- A folder that is mapped.
abbrev pub folder_id : List LocalNodeRecord → BrowserNode → Option String
folder_id mapped n = if is_folder_node n.type then canonical_of n.id mapped else none

module _ (locale_after : String → String → Bool) (tree : CanonicalTree)
    (mapped : List LocalNodeRecord) where
  unfoldable pub level_drift : String → Snapshots → ParentRefWire → List VerifyProblem
  unfolding known_browser_ids shown_ids first_difference canonical_children
  level_drift parent_id children parent =
      let canonical = known_browser_ids mapped (canonical_children locale_after tree parent) in
      drift_problem parent_id (first_difference canonical (shown_ids mapped canonical children))

  -- `checkLevel` for the folders of a list.
  unfoldable pub folders_drift : Snapshots → List VerifyProblem
  unfolding level_drift canonical_of
  folders_drift Snapshots.nothing = []
  folders_drift (Snapshots.node n kids rest) =
      let below = folders_drift kids in
      let later = folders_drift rest in
      elim (folder_id mapped n) [
        | none ↦ later
        | some id ↦ level_drift n.id kids (node_ref id) ++ (below ++ later)
      ]

unfoldable pub order_drift :
    (String → String → Bool) → PontisDb → BindingRecord → BrowserSnapshot → List VerifyProblem
unfolding level_drift folders_drift replay_inbox mapped_rows
order_drift locale_after db b snap =
    let tree = replay_inbox b.id db in
    let mapped = mapped_rows b.id db in
    level_drift locale_after tree mapped snap.root.id snap.children (root_ref b.mount.root_key)
    ++ folders_drift locale_after tree mapped snap.children
