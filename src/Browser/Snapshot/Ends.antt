-- ===== src/Browser/Snapshot/Ends.antt =====
-- browserSnapshot.ts: the end of the walk.
use pontis.Base.{
  ℕ, zero, suc, ◌≤◌, ◌<◌, String, ◌≡◌, refl, Option, none, some, List, [], ◌∷◌, All, arith,
}
use pontis.Browser.{BrowserNode}
use pontis.Browser.Adapter.{Adapter}
use pontis.Browser.Snapshot.{
  Snapshots, under_root, Outcome, and_then, answer, walk, snapshot_browser_tree,
}

abbrev pub Ends : {A : Type 0} → Outcome A → Type 0
Ends (Outcome.done a) = Unit
Ends Outcome.thrown = Unit
Ends Outcome.endless = ⊥

pub answer-Ends : {A : Type 0} (o : Option A) → Ends (answer o)
answer-Ends none = tt
answer-Ends (some a) = tt

pub and_then-Ends :
    {A B : Type 0} (o : Outcome A) (f : A → Outcome B)
    → Ends o
    → ((a : A) → Ends (f a))
    → Ends (and_then o f)
and_then-Ends (Outcome.done a) f e g = g a
and_then-Ends Outcome.thrown f e g = tt
and_then-Ends Outcome.endless f e g = e

module _ {Browser : Type 0} (adapter : Adapter Browser) (browser : Browser) (weight : String → ℕ)
    (depth : ℕ) where
  -- A node weighs less than its parent, and no node more than the depth that is allowed.
  pub record IsTree : Type 0 where
    pub falls :
        (id : String) (children : List BrowserNode)
        → adapter.get_children browser id ≡ some children
        → All (λ c. weight c.id < weight id) children
    pub bounded : (id : String) → weight id ≤ depth

lighter :
    (weight : String → ℕ) (w d : ℕ) (cs : List BrowserNode)
    → w ≤ d
    → All (λ c. weight c.id < w) cs
    → All (λ c. weight c.id < d) cs
lighter weight w d [] le h = tt
lighter weight w d (c ∷ cs) le (lt, h) = (omega arith, lighter weight w d cs le h)

module _ {Browser : Type 0} (adapter : Adapter Browser) (browser : Browser) (weight : String → ℕ)
    (depth : ℕ) (tree : IsTree adapter browser weight depth) where
  walk-Ends :
      (d : ℕ) (cs : List BrowserNode)
      → All (λ c. weight c.id < d) cs
      → Ends (walk adapter browser d cs)
  unfolding walk
  walk-Ends d [] h = tt
  walk-Ends zero (n ∷ ns) (lt, h) = absurd (omega arith)
  walk-Ends (suc d) (n ∷ ns) (lt, h) =
      below (λ cs. walk-Ends d cs) (walk-Ends (suc d) ns h) (adapter.get_children browser n.id) refl
    where
      below :
          ((cs : List BrowserNode)
            → All (λ c. weight c.id < d) cs
            → Ends (walk adapter browser d cs))
          → Ends (walk adapter browser (suc d) ns)
          → (o : Option (List BrowserNode)) → adapter.get_children browser n.id ≡ o
          → Ends (
              and_then (answer o) λ children. and_then (walk adapter browser d children) λ kids.
                and_then
                  (walk adapter browser (suc d) ns)
                  λ rest. Outcome.done (Snapshots.node n kids rest))
      below deeper later none e = tt
      below deeper later (some children) e =
          and_then-Ends (walk adapter browser d children) _
            (deeper children
              (lighter weight (weight n.id) d children (omega arith) (tree.falls n.id children e)))
            (λ kids. and_then-Ends (walk adapter browser (suc d) ns) _ later (λ rest. tt))

  pub snapshot_browser_tree-Ends :
      (root_id : String) → Ends (snapshot_browser_tree adapter browser depth root_id)
  unfolding snapshot_browser_tree
  snapshot_browser_tree-Ends root_id = of_root (adapter.get_node browser root_id)
    where
      of_children :
          (root : BrowserNode) (o : Option (List BrowserNode))
          → adapter.get_children browser root.id ≡ o
          → Ends (
              and_then
                (answer o)
                λ children. and_then (walk adapter browser depth children) (under_root root))
      of_children root none e = tt
      of_children root (some children) e =
          and_then-Ends (walk adapter browser depth children) _
            (walk-Ends depth children (
              lighter weight (weight root.id) depth children (tree.bounded root.id)
                (tree.falls root.id children e)))
            (λ kids. tt)

      of_root :
          (o : Option BrowserNode)
          → Ends (
              and_then (answer o) λ root.
                and_then
                  (answer (adapter.get_children browser root.id))
                  λ children. and_then (walk adapter browser depth children) (under_root root))
      of_root none = tt
      of_root (some root) = of_children root (adapter.get_children browser root.id) refl
