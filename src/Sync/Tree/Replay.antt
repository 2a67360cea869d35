-- ===== src/Sync/Tree/Replay.antt =====
-- What a replay of canonicalTree.ts does to the node under each id.
use pontis.Base.{
  String, ◌≡◌, refl, ◌≢◌, none, some, if◌then◌else◌, arith, eq_iff, ◌==◌, Option, Option-cases, inl,
  inr, ◌∙◌,
}
use pontis.Base.Collection
use pontis.Base.Collection.{HasDistinctKeys}
use pontis.Protocol.{
  OpType, ChangeWire, CreatePayloadWire, as_create_payload, as_update_title_payload,
  as_update_url_payload, as_move_payload,
}
use pontis.Sync.Tree.{
  CanonicalTreeNode, CanonicalTree, node_id, created_node, place, amend, apply_as, apply_change,
}

-- What a change that deletes nothing makes of the node under its id.
abbrev pub revise :
    {P : Type 0}
    → Option P
    → (P → CanonicalTreeNode → CanonicalTreeNode)
    → Option CanonicalTreeNode
    → Option CanonicalTreeNode
revise (some p) f (some n) = some (f p n)
revise (some p) f none = none
revise none f o = o

abbrev fresh_or :
    ChangeWire → Option CreatePayloadWire → Option CanonicalTreeNode → Option CanonicalTreeNode
fresh_or c none o = o
fresh_or c (some p) o = some (created_node c p)

abbrev pub edit : OpType → ChangeWire → Option CanonicalTreeNode → Option CanonicalTreeNode
edit OpType.create c o = fresh_or c (as_create_payload c.payload) o
edit OpType.update_title c o =
    revise (as_update_title_payload c.payload)
      (λ p n. record n { title = p.title; revision = c.revision }) o
edit OpType.update_url c o =
    revise (as_update_url_payload c.payload)
      (λ p n. record n { url = p.url; revision = c.revision }) o
edit OpType.move c o =
    revise (as_move_payload c.payload)
      (λ p n. record n { parent = p.parent; position = p.position; revision = c.revision }) o
edit OpType.delete c o = none

get-place :
    (tree : CanonicalTree) (c : ChangeWire) (p : Option CreatePayloadWire) (i : String)
    → Collection.get node_id i (place tree c p) ≡ (
        if c.node_id == i
        then fresh_or c p (Collection.get node_id i tree)
        else Collection.get node_id i tree)
unfolding created_node
get-place tree c none i = ground arith
get-place tree c (some p) i = rw Collection.get-set

get-amend :
    {P : Type 0} (tree : CanonicalTree) (j i : String) (p : Option P)
    (f : P → CanonicalTreeNode → CanonicalTreeNode)
    → ((q : P) (n : CanonicalTreeNode) → (f q n).id ≡ n.id)
    → Collection.get node_id i (amend tree p (Collection.get node_id j tree) f) ≡ (
        if j == i
        then revise p f (Collection.get node_id i tree)
        else Collection.get node_id i tree)
get-amend tree j i none f keeps = ground arith
get-amend tree j i (some p) f keeps = elim (Option-cases (Collection.get node_id j tree)) [
  | inl e ↦ rw e (ground (arith, eq_iff j i))
  | inr (n, e) ↦
      let same : (f p n).id ≡ j = keeps p n ∙ Collection.key_get node_id j tree e in
      rw (e, Collection.get-set, same) (ground (arith, eq_iff j i))
]

get-apply_as :
    (u : OpType) (tree : CanonicalTree) (c : ChangeWire) (i : String)
    → u ≢ OpType.delete
    → Collection.get node_id i (apply_as u tree c) ≡ (
        if c.node_id == i
        then edit u c (Collection.get node_id i tree)
        else Collection.get node_id i tree)
unfolding apply_as
get-apply_as OpType.create tree c i h = get-place tree c _ i
get-apply_as OpType.update_title tree c i h = get-amend tree c.node_id i _ _ (λ q n. refl)
get-apply_as OpType.update_url tree c i h = get-amend tree c.node_id i _ _ (λ q n. refl)
get-apply_as OpType.move tree c i h = get-amend tree c.node_id i _ _ (λ q n. refl)
get-apply_as OpType.delete tree c i h = absurd (h refl)

-- A change that is not a delete edits the node under its own id (a create puts a new one there, an
-- update or a move of an unknown id does nothing) and leaves the node under every other id.
pub get-apply_change :
    (tree : CanonicalTree) (c : ChangeWire) (i : String)
    → c.type ≢ OpType.delete
    → Collection.get node_id i (apply_change tree c) ≡ (
        if c.node_id == i
        then edit c.type c (Collection.get node_id i tree)
        else Collection.get node_id i tree)
unfolding apply_change
get-apply_change tree c i h = get-apply_as c.type tree c i h
