-- ===== src/Sync/Tree/Snapshot.antt =====
-- `snapshotToTree` and `canonicalChildren` of canonicalTree.ts.
use mathlib.Core.List.{Perm, append_assoc, append-nil}
use pontis.Base.{
  ap, ℕ, ◌+◌, ◌<◌, ◌⊎◌, String, ◌≡◌, refl, Bool, true, false, List, [], ◌∷◌, ◌++◌, keep,
  if◌then◌else◌, arith, eq_iff, All, ◌==◌, sym, ◌∙◌,
}
use pontis.Base.Collection
use pontis.Base.Collection.{HasDistinctKeys}
use pontis.Base.Sort
use pontis.Base.Sort.{IsComparator, IsSorted}
use pontis.Protocol.{ParentRefWire, SnapshotNodeWire}
use pontis.Sync.Tree.{
  CanonicalTreeNode, CanonicalTree, node_id, or_empty, parent_key, created_node, apply_change,
  apply_as, replay_from, stands_after, canonical_children, snapshot_changes, snapshot_to_tree,
}

-- A snapshot's nodes, numbered from 1.
abbrev pub numbered_node : ℕ → SnapshotNodeWire → CanonicalTreeNode
numbered_node i n = record {
  id = n.id;
  type = n.type;
  title = n.title;
  url = or_empty n.url;
  parent = n.parent;
  position = n.position;
  revision = i + 1;
}

abbrev pub numbered : ℕ → List SnapshotNodeWire → CanonicalTree
numbered i [] = []
numbered i (n ∷ ns) = numbered_node i n ∷ numbered (i + 1) ns

abbrev pub snapshot_id : SnapshotNodeWire → String
snapshot_id n = n.id

set_new :
    (v : CanonicalTreeNode) (t : CanonicalTree)
    → Collection.has node_id v.id t ≡ false
    → Collection.set node_id v t ≡ t ++ v ∷ []
unfolding Collection.set Collection.has
set_new v [] h = refl
set_new v (x ∷ xs) h = ground (arith, set_new v xs)

has-append :
    (i : String) (s t : CanonicalTree)
    → Collection.has node_id i (s ++ t)
      ≡ (if Collection.has node_id i s then true else Collection.has node_id i t)
unfolding Collection.has
has-append i [] t = refl
has-append i (x ∷ s) t = ground (arith, has-append i s t)

-- No id of a snapshot is taken by a node of the tree.
abbrev NewTo : CanonicalTree → List SnapshotNodeWire → Type 0
NewTo t ns = All (λ n. Collection.has node_id n.id t ≡ false) ns

NewTo-add :
    (t : CanonicalTree) (v : CanonicalTreeNode) (ns : List SnapshotNodeWire)
    → NewTo t ns
    → Collection.has snapshot_id v.id ns ≡ false
    → NewTo (t ++ v ∷ []) ns
unfolding Collection.has
NewTo-add t v [] h e = tt
NewTo-add t v (n ∷ ns) h e = (
  ground (arith, h.0, has-append n.id t (v ∷ []), eq_iff n.id v.id, eq_iff v.id n.id),
  NewTo-add t v ns h.1 (ground (arith, eq_iff n.id v.id)),
)

NewTo-nil : (ns : List SnapshotNodeWire) → NewTo [] ns
unfolding Collection.has
NewTo-nil [] = tt
NewTo-nil (n ∷ ns) = (refl, NewTo-nil ns)

snapshot_replay :
    (k : ℕ) (ns : List SnapshotNodeWire) (t : CanonicalTree)
    → HasDistinctKeys snapshot_id ns
    → NewTo t ns
    → replay_from t (snapshot_changes k ns) ≡ t ++ numbered k ns
unfolding replay_from snapshot_changes apply_change apply_as created_node
snapshot_replay k [] t d h = sym (append-nil t)
snapshot_replay k (n ∷ ns) t d h =
    let v = numbered_node k n in
    ap (λ u. replay_from u (snapshot_changes (k + 1) ns)) (set_new v t h.0)
    ∙ snapshot_replay (k + 1) ns (t ++ v ∷ []) d.1 (NewTo-add t v ns h.1 d.0)
    ∙ append_assoc t (v ∷ []) (numbered (k + 1) ns)

-- From a snapshot with distinct ids the tree holds exactly its nodes, in its order, an absent url
-- as the empty text, and each with its place, from 1, as its revision.
pub snapshot_to_tree-eq-numbered :
    (nodes : List SnapshotNodeWire)
    → HasDistinctKeys snapshot_id nodes
    → snapshot_to_tree nodes ≡ numbered 0 nodes
unfolding snapshot_to_tree
snapshot_to_tree-eq-numbered nodes d = snapshot_replay 0 nodes [] d (NewTo-nil nodes)

module _ (locale_after : String → String → Bool) where
  -- `localeCompare` orders the ids: of two at most one stands after the other, and "does not stand
  -- after" is transitive.
  stands_after-IsComparator : IsComparator locale_after → IsComparator (stands_after locale_after)
  unfolding stands_after
  stands_after-IsComparator c = record {
    asym = λ a b. ground (arith, c.asym a.id b.id);
    trans = λ x y z. ground (arith, c.trans x.id y.id z.id);
  }

  -- One node may precede another among the children of a parent: its position is lower, or the
  -- positions agree and its id does not collate after the other's.
  abbrev pub Precedes : CanonicalTreeNode → CanonicalTreeNode → Type 0
  Precedes a b =
      (a.position < b.position) ⊎ ((a.position ≡ b.position) × (locale_after a.id b.id ≡ false))

  -- Each node may precede all that follow it.
  abbrev pub IsAscending : List CanonicalTreeNode → Type 0
  IsAscending [] = Unit
  IsAscending (x ∷ xs) = All (Precedes x) xs × IsAscending xs

  stands_after-Precedes :
      (x : CanonicalTreeNode) (xs : List CanonicalTreeNode)
      → All (λ y. stands_after locale_after x y ≡ false) xs
      → All (Precedes x) xs
  unfolding stands_after
  stands_after-Precedes x [] h = tt
  stands_after-Precedes x (y ∷ ys) h = (ground (arith, h.0), stands_after-Precedes x ys h.1)

  IsSorted-IsAscending :
      (xs : List CanonicalTreeNode) → IsSorted (stands_after locale_after) xs → IsAscending xs
  IsSorted-IsAscending [] h = tt
  IsSorted-IsAscending (x ∷ xs) h = (stands_after-Precedes x xs h.0, IsSorted-IsAscending xs h.1)

  -- If `localeCompare` is an order (of two texts at most one collates after the other, and "does
  -- not collate after" is transitive), then the children of a parent are the nodes with its key,
  -- each as often as in the tree, and they ascend: by position, and where positions agree by id, as
  -- `localeCompare` collates.
  pub canonical_children_order :
      (tree : CanonicalTree) (parent : ParentRefWire)
      → IsComparator locale_after
      → Perm
          (canonical_children locale_after tree parent)
          (keep (λ n. parent_key n.parent == parent_key parent) tree)
        × IsAscending (canonical_children locale_after tree parent)
  unfolding canonical_children
  canonical_children_order tree parent c = (
    Sort.sort-perm (stands_after locale_after) _,
    IsSorted-IsAscending _
        (Sort.sort-IsSorted (stands_after locale_after) (stands_after-IsComparator c) _),
  )
