-- ===== src/Tests/Trees.antt =====
-- The canonical tree of a folder, a bookmark in it, and a bookmark beside it.
use mathlib.Core.List.{Perm}
use pontis.Base.{
  ℕ, String, ◌≡◌, refl, ◌≢◌, Bool, not, ◌&&◌, ◌==◌, none, List, [], ◌∷◌, keep, map, arith,
}
use pontis.Base.Collection
use pontis.Base.Collection.{HasDistinctKeys, contains}
use pontis.Base.Sort
use pontis.Base.Sort.{IsComparator, IsSorted}
use pontis.Protocol.{
  OpType, NodeType, ParentRefWire, node_ref, root_ref, ChangeWire, retitled, SnapshotNodeWire,
}
use pontis.Sync.Tree.{
  CanonicalTreeNode, CanonicalTree, node_id, parent_key, apply_change, remove_subtree,
  snapshot_to_tree, canonical_children,
}
use pontis.Sync.Tree.Subtree.{InSubtree, get-remove_subtree}
use pontis.Sync.Tree.Replay.{edit, get-apply_change}
use pontis.Sync.Tree.Snapshot.{
  IsAscending, numbered, snapshot_id, snapshot_to_tree-eq-numbered, canonical_children_order,
}

abbrev wire : String → NodeType → ParentRefWire → ℕ → SnapshotNodeWire
wire id type parent position = record {
  id = id;
  type = type;
  title = id;
  url = none;
  parent = parent;
  position = position;
}

abbrev nodes : List SnapshotNodeWire
nodes =
    wire "f" NodeType.folder (root_ref "main") 1
    ∷ wire "x" NodeType.bookmark (node_ref "f") 0
    ∷ wire "y" NodeType.bookmark (root_ref "main") 0
    ∷ []

abbrev tree : CanonicalTree
tree = numbered 0 nodes

nodes-HasDistinctKeys : HasDistinctKeys snapshot_id nodes
unfolding Collection.has
nodes-HasDistinctKeys = (refl, (refl, (refl, tt)))

snapshot_to_tree-eq-numbered_example : snapshot_to_tree nodes ≡ tree
snapshot_to_tree-eq-numbered_example = snapshot_to_tree-eq-numbered nodes nodes-HasDistinctKeys

get-remove_subtree_example :
    (InSubtree tree "f" "x" → Collection.get node_id "x" (remove_subtree tree "f") ≡ none)
    × (¬ InSubtree tree "f" "x"
        → Collection.get node_id "x" (remove_subtree tree "f") ≡ Collection.get node_id "x" tree)
get-remove_subtree_example = get-remove_subtree tree "f" "x"

removed : map (λ (n : CanonicalTreeNode). n.id) (remove_subtree tree "f") ≡ "y" ∷ []
unfolding remove_subtree Collection.delete_all contains Collection.delete
removed = refl

abbrev rename : ChangeWire
rename = record {
  revision = 9;
  type = OpType.update_title;
  node_id = "x";
  payload = retitled (record { title = "new" });
}

is_update : OpType.update_title ≢ OpType.delete
is_update e = cc

get-apply_change_example :
    Collection.get node_id "x" (apply_change tree rename)
    ≡ edit OpType.update_title rename (Collection.get node_id "x" tree)
get-apply_change_example = get-apply_change tree rename "x" is_update

-- The empty text stands after every other.
abbrev empty_last : String → String → Bool
empty_last a b = a == "" && not (b == "")

empty_last-IsComparator : IsComparator empty_last
empty_last-IsComparator = record { asym = λ a b. ground arith; trans = λ a b c. ground arith }

canonical_children_order_example :
    Perm
      (canonical_children empty_last tree (root_ref "main"))
      (keep (λ n. parent_key n.parent == parent_key (root_ref "main")) tree)
    × IsAscending empty_last (canonical_children empty_last tree (root_ref "main"))
canonical_children_order_example =
    canonical_children_order empty_last tree (root_ref "main") empty_last-IsComparator

children_in_order :
    map (λ (n : CanonicalTreeNode). n.id) (canonical_children empty_last tree (root_ref "main"))
    ≡ "y" ∷ "f" ∷ []
unfolding canonical_children parent_key Sort.sort
children_in_order = refl
