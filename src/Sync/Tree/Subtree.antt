-- ===== src/Sync/Tree/Subtree.antt =====
-- `removeSubtree` of canonicalTree.ts removes the ids below the root, and no others.
use mathlib.Core.List.{Memᴰ}
use mathlib.Core.Path.{subst}
use pontis.Base.{
  ℕ, zero, suc, ◌≤◌, ◌<◌, String, ◌≡◌, refl, Bool, true, false, Option, none, some, List, [], ◌∷◌,
  ◌++◌, length, if◌then◌else◌, arith, eq_iff, eq_refl, Bool-cases, inl, inr, All, ◌==◌, ◌↔◌,
}
use pontis.Base.Collection
use pontis.Base.Collection.{contains, contains-append}
use pontis.Protocol.{ParentKind}
use pontis.Sync.Tree.{
  CanonicalTreeNode, CanonicalTree, node_id, parent_in, doom_step, doom_pass, doom, doomed_ids,
  remove_subtree,
}

-- The ids in the subtree of a root: the root, and each node whose parent is in it.
pub data InSubtree (tree : CanonicalTree) (root_id : String) : String → Type 0 where
  top : InSubtree tree root_id root_id
  under :
      {p : String} (n : CanonicalTreeNode)
      → Memᴰ n tree
      → n.parent.type ≡ ParentKind.node
      → n.parent.id ≡ some p
      → InSubtree tree root_id p
      → InSubtree tree root_id n.id

abbrev State : Type 0
State = List String × Bool

contains-add :
    (i j : String) (ids : List String)
    → contains i (ids ++ j ∷ []) ≡ (if contains i ids then true else if j == i then true else false)
unfolding contains
contains-add i j ids = contains-append i ids (j ∷ [])

parent_in_inv :
    (ids : List String) (k : ParentKind) (i : Option String)
    → parent_in ids k i ≡ true
    → (p : String) × (k ≡ ParentKind.node) × (i ≡ some p) × (contains p ids ≡ true)
parent_in_inv ids ParentKind.node (some p) e = (p, refl, refl, e)
parent_in_inv ids ParentKind.node none e = cc
parent_in_inv ids ParentKind.root i e = cc

-- How many nodes are outside a set of ids.
outside : List String → List CanonicalTreeNode → ℕ
outside ids [] = 0
outside ids (n ∷ ns) = if contains n.id ids then outside ids ns else suc (outside ids ns)

outside-le-length : (ids : List String) (ns : List CanonicalTreeNode) → outside ids ns ≤ length ns
unfolding outside
outside-le-length ids [] = omega arith
outside-le-length ids (n ∷ ns) = ground (arith, outside-le-length ids ns)

outside-add :
    (ids : List String) (j : String) (ns : List CanonicalTreeNode)
    → outside (ids ++ j ∷ []) ns ≤ outside ids ns
unfolding outside
outside-add ids j [] = omega arith
outside-add ids j (n ∷ ns) = ground (arith, outside-add ids j ns, contains-add n.id j ids)

outside-add_new :
    (ids : List String) (n : CanonicalTreeNode) {ns : List CanonicalTreeNode}
    → contains n.id ids ≡ false
    → Memᴰ n ns
    → outside (ids ++ n.id ∷ []) ns < outside ids ns
unfolding outside
outside-add_new ids n e (Memᴰ.head {x = x} {xs = xs} same) =
    let step : outside (ids ++ n.id ∷ []) (n ∷ xs) < outside ids (n ∷ xs) =
      ground (arith, outside-add ids n.id xs, contains-add n.id n.id ids, eq_refl n.id) in
    rw (← same) step
outside-add_new ids n e (Memᴰ.tail {x = x} {xs = xs} m) =
    ground (arith, outside-add_new ids n e m, contains-add x.id n.id ids)

module _ (tree : CanonicalTree) where
  -- What an inner loop keeps, from a set of ids on.
  record Grows (start : List String) (s : State) : Type 0 where
    fewer : outside s.0 tree ≤ outside start tree
    strictly : s.1 ≡ true → outside s.0 tree < outside start tree
    wider : (i : String) → contains i start ≡ true → contains i s.0 ≡ true

  doom_step-Grows :
      {start : List String} (n : CanonicalTreeNode) (s : State)
      → Memᴰ n tree
      → Grows start s
      → Grows start (doom_step n s)
  unfolding doom_step
  doom_step-Grows {start} n (ids, grew) m g = elim (Bool-cases (contains n.id ids)) [
    | inl old ↦ rw old g
    | inr new ↦ record {
      fewer = ground (arith, g.fewer, outside-add ids n.id tree);
      strictly = ground (arith, g.fewer, outside-add_new ids n new m);
      wider = λ i e. ground (arith, g.wider i e, contains-add i n.id ids);
    }
  ]

  doom_pass-Grows :
      {start : List String} (ns : List CanonicalTreeNode) (s : State)
      → All (λ n. Memᴰ n tree) ns
      → Grows start s
      → Grows start (doom_pass ns s)
  unfolding doom_pass
  doom_pass-Grows [] s h g = g
  doom_pass-Grows (n ∷ ns) s (m, h) g =
      doom_pass-Grows ns (doom_step n s) h (doom_step-Grows n s m g)

-- No node outside the set has its parent in it.
abbrev ClosedAt : List String → CanonicalTreeNode → Type 0
ClosedAt ids n = parent_in ids n.parent.type n.parent.id ≡ true → contains n.id ids ≡ true

doom_pass-grew :
    (ns : List CanonicalTreeNode) (ids : List String) → (doom_pass ns (ids, true)).1 ≡ true
unfolding doom_pass
doom_pass-grew [] ids = refl
doom_pass-grew (n ∷ ns) ids =
    ground (arith, doom_pass-grew ns ids, doom_pass-grew ns (ids ++ n.id ∷ []))

-- A pass that adds nothing leaves the set, and the set is closed.
doom_pass_stable :
    (ns : List CanonicalTreeNode) (ids : List String)
    → (doom_pass ns (ids, false)).1 ≡ false
    → ((doom_pass ns (ids, false)).0 ≡ ids) × All (ClosedAt ids) ns
unfolding doom_pass
doom_pass_stable [] ids e = (refl, tt)
doom_pass_stable (n ∷ ns) ids e =
    ground (arith, doom_pass_stable ns ids, doom_pass-grew ns (ids ++ n.id ∷ []))

All-mem :
    (ms ns : List CanonicalTreeNode)
    → ((n : CanonicalTreeNode) → Memᴰ n ms → Memᴰ n ns)
    → All (λ n. Memᴰ n ns) ms
All-mem [] ns h = tt
All-mem (m ∷ ms) ns h = (h m (Memᴰ.head refl), All-mem ms ns (λ n k. h n (Memᴰ.tail k)))

mem-All :
    (P : CanonicalTreeNode → Type 0) {n : CanonicalTreeNode} {ns : List CanonicalTreeNode}
    → All P ns
    → Memᴰ n ns
    → P n
mem-All P h (Memᴰ.head e) = rw e h.0
mem-All P h (Memᴰ.tail m) = mem-All P h.1 m

module _ (tree : CanonicalTree) where
  start-Grows : (ids : List String) → Grows tree ids (doom_pass tree (ids, false))
  start-Grows ids =
      doom_pass-Grows tree tree (ids, false) (All-mem tree tree (λ n m. m))
        (record { fewer = omega arith; strictly = λ e. cc; wider = λ i e. e })

  -- With fuel above the nodes outside, the loop ends by its test.
  doom-ClosedAt :
      (fuel : ℕ) (ids : List String)
      → outside ids tree < fuel
      → All (ClosedAt (doom fuel tree ids)) tree
  unfolding doom
  doom-ClosedAt zero ids h = absurd (omega arith)
  doom-ClosedAt (suc fuel) ids h = elim (Bool-cases (doom_pass tree (ids, false)).1) [
    | inl more ↦
        rw (more, doom)
          (doom-ClosedAt fuel (doom_pass tree (ids, false)).0
            (omega (arith, (start-Grows ids).strictly more)))
    | inr done ↦
        let (same, closed) = doom_pass_stable tree ids done in rw (done, doom) (rw same closed)
  ]

  doom_wider :
      (fuel : ℕ) (ids : List String) (i : String)
      → contains i ids ≡ true
      → contains i (doom fuel tree ids) ≡ true
  unfolding doom
  doom_wider zero ids i e = e
  doom_wider (suc fuel) ids i e =
      ground (arith, (start-Grows ids).wider i e, doom_wider fuel (doom_pass tree (ids, false)).0 i)

module _ (tree : CanonicalTree) (root_id : String) where
  abbrev Sound : List String → Type 0
  Sound ids = (i : String) → contains i ids ≡ true → InSubtree tree root_id i

  Sound-add :
      (ids : List String) (j : String)
      → Sound ids
      → InSubtree tree root_id j
      → Sound (ids ++ j ∷ [])
  Sound-add ids j h w i e = elim (Bool-cases (contains i ids)) [
    | inl old ↦ h i old
    | inr new ↦ let same : j ≡ i = ground (arith, contains-add i j ids, eq_iff j i) in rw same at w
  ]

  doom_step-Sound :
      (n : CanonicalTreeNode) (s : State) → Memᴰ n tree → Sound s.0 → Sound (doom_step n s).0
  unfolding doom_step
  doom_step-Sound n (ids, grew) m h = elim (Bool-cases (contains n.id ids)) [
    | inl old ↦ rw old h
    | inr new ↦ elim (Bool-cases (parent_in ids n.parent.type n.parent.id)) [
      | inl below ↦
          let (p, k, q, c) = parent_in_inv ids n.parent.type n.parent.id below in
          rw (new, below) (Sound-add ids n.id h (InSubtree.under n m k q (h p c)))
      | inr other ↦ rw (new, other) h
    ]
  ]

  doom_pass-Sound :
      (ns : List CanonicalTreeNode) (s : State)
      → All (λ n. Memᴰ n tree) ns
      → Sound s.0
      → Sound (doom_pass ns s).0
  unfolding doom_pass
  doom_pass-Sound [] s m h = h
  doom_pass-Sound (n ∷ ns) s (m, ms) h =
      doom_pass-Sound ns (doom_step n s) ms (doom_step-Sound n s m h)

  doom-Sound : (fuel : ℕ) (ids : List String) → Sound ids → Sound (doom fuel tree ids)
  unfolding doom
  doom-Sound zero ids h = h
  doom-Sound (suc fuel) ids h =
      let once = doom_pass-Sound tree (ids, false) (All-mem tree tree (λ n m. m)) h in
      elim (Bool-cases (doom_pass tree (ids, false)).1) [
        | inl more ↦ rw (more, doom) (doom-Sound fuel (doom_pass tree (ids, false)).0 once)
        | inr done ↦ rw (done, doom) once
      ]

  -- A closed set that holds the root holds the subtree.
  subtree_in_closed :
      (ids : List String) {i : String}
      → All (ClosedAt ids) tree
      → contains root_id ids ≡ true
      → InSubtree tree root_id i
      → contains i ids ≡ true
  subtree_in_closed ids c r InSubtree.top = r
  subtree_in_closed ids c r (InSubtree.under {p} n m k q w) =
      mem-All (ClosedAt ids) c m (rw (k, q) (subtree_in_closed ids c r w))

  root-Sound : Sound (root_id ∷ [])
  unfolding contains
  root-Sound i e =
      let same : root_id ≡ i = ground (arith, eq_iff root_id i) in
      subst (InSubtree tree root_id) same InSubtree.top

  root_contained : contains root_id (root_id ∷ []) ≡ true
  unfolding contains
  root_contained = rw (eq_refl root_id)

  -- The doomed ids are exactly the ids of the subtree.
  pub doomed_ids_iff :
      (i : String) → (contains i (doomed_ids tree root_id) ≡ true) ↔ InSubtree tree root_id i
  unfolding doomed_ids
  doomed_ids_iff i = (
    doom-Sound (suc (length tree)) (root_id ∷ []) root-Sound i,
    λ w.
        subtree_in_closed (doom (suc (length tree)) tree (root_id ∷ []))
          (doom-ClosedAt tree (suc (length tree)) (root_id ∷ [])
            (omega (arith, outside-le-length (root_id ∷ []) tree)))
          (doom_wider tree (suc (length tree)) (root_id ∷ []) root_id root_contained) w,
  )

  kept : (i : String) → ¬ InSubtree tree root_id i → contains i (doomed_ids tree root_id) ≡ false
  kept i w = elim (Bool-cases (contains i (doomed_ids tree root_id))) [
    | inl e ↦ absurd (w ((doomed_ids_iff i).0 e))
    | inr e ↦ e
  ]

  -- After `removeSubtree` the ids of the subtree have no node, and every other id has the node that
  -- it had.
  pub get-remove_subtree :
      (i : String)
      → (InSubtree tree root_id i → Collection.get node_id i (remove_subtree tree root_id) ≡ none)
        × (¬ InSubtree tree root_id i
            → Collection.get node_id i (remove_subtree tree root_id)
              ≡ Collection.get node_id i tree)
  unfolding remove_subtree
  get-remove_subtree i = (
    λ w. rw (Collection.get-delete_all, (doomed_ids_iff i).1 w),
    λ w. rw (Collection.get-delete_all, kept i w),
  )
