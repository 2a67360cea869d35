-- ===== src/Sync/Tree.antt =====
-- extension/src/core/sync/canonicalTree.ts: the canonical tree as the replay of a change stream.
-- The map of nodes is the list of its values, each under its own id, in the order of insertion.
pub mod Subtree
pub mod Replay
pub mod Snapshot
use pontis.Base.{
  ℕ, zero, suc, ◌+◌, String, Bool, true, false, ◌&&◌, ◌||◌, not, Option, none, some, List, [], ◌∷◌,
  ◌++◌, ltb, nat_eq, if◌then◌else◌, keep, length, ◌==◌,
}
use pontis.Base.Collection
use pontis.Base.Collection.{contains}
use pontis.Base.Sort
use pontis.Protocol.{
  OpType, NodeType, ParentKind, ParentRefWire, node_ref, ChangeWire, ChangePayload,
  CreatePayloadWire, created, as_create_payload, as_update_title_payload, as_update_url_payload,
  as_move_payload, SnapshotNodeWire,
}
use Prim.Native.String

pub record CanonicalTreeNode : Type 0 where
  pub id : String
  pub type : NodeType
  pub title : String
  pub url : String
  pub parent : ParentRefWire
  pub position : ℕ
  -- the revision of the change that last touched the node
  pub revision : ℕ

abbrev pub CanonicalTree : Type 0
CanonicalTree = List CanonicalTreeNode

abbrev pub node_id : CanonicalTreeNode → String
node_id n = n.id

-- `s ?? ''`
abbrev pub or_empty : Option String → String
or_empty none = ""
or_empty (some s) = s

abbrev pub tagged : ParentKind → Option String → Option String → String
tagged ParentKind.root i k = String.◌++◌ "root:" (or_empty k)
tagged ParentKind.node i k = String.◌++◌ "node:" (or_empty i)

unfoldable pub parent_key : ParentRefWire → String
parent_key p = tagged p.type p.id p.key

-- `node.parent.type === 'node' && node.parent.id != null && doomed.has(node.parent.id)`
abbrev pub parent_in : List String → ParentKind → Option String → Bool
parent_in doomed ParentKind.node (some p) = contains p doomed
parent_in doomed _ _ = false

-- One node of the inner loop: the doomed ids, and whether the set grew.
unfoldable pub doom_step : CanonicalTreeNode → List String × Bool → List String × Bool
doom_step n (doomed, grew) =
    if contains n.id doomed
    then (doomed, grew)
    else if parent_in doomed n.parent.type n.parent.id
    then (doomed ++ n.id ∷ [], true)
    else (doomed, grew)

-- The inner loop over the nodes.
unfoldable pub doom_pass : List CanonicalTreeNode → List String × Bool → List String × Bool
unfolding doom_step
doom_pass [] s = s
doom_pass (n ∷ ns) s = doom_pass ns (doom_step n s)

-- `while (grew)`, on fuel.
unfoldable pub doom : ℕ → List CanonicalTreeNode → List String → List String
unfolding doom_pass
doom zero nodes doomed = doomed
doom (suc fuel) nodes doomed =
    let (wider, grew) = doom_pass nodes (doomed, false) in
    let rest = doom fuel nodes wider in if grew then rest else wider

-- A pass that grows the set takes at least one node out of the rest.
unfoldable pub doomed_ids : CanonicalTree → String → List String
unfolding doom
doomed_ids tree root_id = doom (suc (length tree)) tree (root_id ∷ [])

unfoldable pub remove_subtree : CanonicalTree → String → CanonicalTree
unfolding doomed_ids
remove_subtree tree root_id = Collection.delete_all node_id (doomed_ids tree root_id) tree

-- The node that a `create` puts under its id.
unfoldable pub created_node : ChangeWire → CreatePayloadWire → CanonicalTreeNode
created_node change p = record {
  id = change.node_id;
  type = p.type;
  title = p.title;
  url = p.url;
  parent = p.parent;
  position = p.position;
  revision = change.revision;
}

-- `if (!p) return; tree.nodes.set(…)`
abbrev pub place : CanonicalTree → ChangeWire → Option CreatePayloadWire → CanonicalTree
place tree change none = tree
place tree change (some p) = Collection.set node_id (created_node change p) tree

-- `if (p && node) …`: the node is changed in its place.
abbrev pub amend :
    {P : Type 0}
    → CanonicalTree
    → Option P
    → Option CanonicalTreeNode
    → (P → CanonicalTreeNode → CanonicalTreeNode)
    → CanonicalTree
amend tree (some p) (some n) f = Collection.set node_id (f p n) tree
amend tree _ _ f = tree

unfoldable pub apply_as : OpType → CanonicalTree → ChangeWire → CanonicalTree
unfolding remove_subtree created_node
apply_as OpType.create tree change = place tree change (as_create_payload change.payload)
apply_as OpType.update_title tree change =
    amend tree (as_update_title_payload change.payload) (Collection.get node_id change.node_id tree)
      λ p n. record n { title = p.title; revision = change.revision }
apply_as OpType.update_url tree change =
    amend tree (as_update_url_payload change.payload) (Collection.get node_id change.node_id tree)
      λ p n. record n { url = p.url; revision = change.revision }
apply_as OpType.move tree change =
    amend tree (as_move_payload change.payload) (Collection.get node_id change.node_id tree)
      λ p n. record n { parent = p.parent; position = p.position; revision = change.revision }
apply_as OpType.delete tree change =
    if Collection.has node_id change.node_id tree then remove_subtree tree change.node_id else tree

unfoldable pub apply_change : CanonicalTree → ChangeWire → CanonicalTree
unfolding apply_as
apply_change tree change = apply_as change.type tree change

replay_from : CanonicalTree → List ChangeWire → CanonicalTree
replay_from tree [] = tree
replay_from tree (c ∷ cs) = replay_from (apply_change tree c) cs

unfoldable pub replay_changes : List ChangeWire → CanonicalTree
unfolding replay_from apply_change
replay_changes changes = replay_from [] changes

-- `String.prototype.localeCompare` is the host's: `locale_after a b` says that it is positive.
module _ (locale_after : String → String → Bool) where
  unfoldable pub stands_after : CanonicalTreeNode → CanonicalTreeNode → Bool
  stands_after a b =
      ltb b.position a.position || (nat_eq a.position b.position && locale_after a.id b.id)

  unfoldable pub canonical_children : CanonicalTree → ParentRefWire → List CanonicalTreeNode
  unfolding stands_after
  canonical_children tree parent =
      Sort.sort stands_after (keep (λ n. parent_key n.parent == parent_key parent) tree)

  -- The queue of `countSubtree`, on fuel; `none` means that it ran out.
  unfoldable pub count_queue : ℕ → CanonicalTree → List CanonicalTreeNode → ℕ → Option ℕ
  unfolding canonical_children
  count_queue fuel tree [] count = some count
  count_queue zero tree (cur ∷ queue) count = none
  count_queue (suc fuel) tree (cur ∷ queue) count =
      count_queue fuel tree (queue ++ canonical_children tree (node_ref cur.id)) (count + 1)

  unfoldable pub count_subtree : ℕ → CanonicalTree → ParentRefWire → Option ℕ
  unfolding count_queue
  count_subtree fuel tree parent = count_queue fuel tree (canonical_children tree parent) 0

snapshot_changes : ℕ → List SnapshotNodeWire → List ChangeWire
snapshot_changes i [] = []
snapshot_changes i (n ∷ ns) =
    (record {
      revision = i + 1;
      type = OpType.create;
      node_id = n.id;
      payload = created (record {
        type = n.type;
        title = n.title;
        url = or_empty n.url;
        parent = n.parent;
        position = n.position;
      });
    })
    ∷ snapshot_changes (i + 1) ns

unfoldable pub snapshot_to_tree : List SnapshotNodeWire → CanonicalTree
unfolding snapshot_changes replay_changes
snapshot_to_tree nodes = replay_changes (snapshot_changes 0 nodes)
