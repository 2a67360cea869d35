-- ===== src/Store/Subtree/Collected.antt =====
-- `collectSubtree` of db.ts returns the rows at and below a node.
use mathlib.Core.List.{reverse}
use mathlib.Core.Path.{subst}
use pontis.Base.{ℕ, ◌≤◌, String, ◌≡◌, true, some, List, [], ◌∷◌, keep, ◌==◌, arith, eq_iff, ◌↔◌}
use pontis.Store.{LocalNodeRecord}
use pontis.Store.Subtree.{rows_of, collect_subtree}
use pontis.Store.Subtree.Reach.{
  has_id, Below, weigh, weigh-reverse, IsWeight, loop_ends, any-reverse, Visits, loop-Visits,
}

abbrev pub rows_at : String → List LocalNodeRecord → List LocalNodeRecord
rows_at root = keep (λ (r : LocalNodeRecord). r.browser_id == root)

-- A row at the root has the root's id, and the root has a row.
at_root :
    (root i : String) (all : List LocalNodeRecord)
    → has_id i (rows_at root all) ≡ true
    → (root ≡ i) × (has_id root all ≡ true)
at_root root i [] e = cc
at_root root i (x ∷ xs) e =
    ground (arith, at_root root i xs, eq_iff x.browser_id root, eq_iff x.browser_id i)

root_there :
    (root : String) (all : List LocalNodeRecord)
    → has_id root all ≡ true
    → has_id root (rows_at root all) ≡ true
root_there root [] e = e
root_there root (x ∷ xs) e = ground (arith, root_there root xs)

start-Visits :
    (all : List LocalNodeRecord) (root : String) → Visits all root (reverse (rows_at root all)) []
start-Visits all root = record {
  sound = λ i e.
      let (same, there) = at_root root i all (ground (arith, any-reverse i (rows_at root all))) in
      subst (Below all root) same (Below.top there);
  started = λ h. ground (arith, root_there root all h, any-reverse root (rows_at root all));
  closed = λ p r e m c. cc;
}

Below-has :
    (all out : List LocalNodeRecord) (root i : String)
    → Visits all root [] out
    → Below all root i
    → has_id i out ≡ true
Below-has all out root i v (Below.top h) = ground (arith, v.started h)
Below-has all out root i v (Below.under {p = p} r b m c) =
    ground (arith, v.closed p r (Below-has all out root p v b) m c)

-- If the parents of a binding's mirror rows form no cycle (a weight says so: each node outweighs
-- its children together), then with fuel for the weight of the root's row the loop ends, and a
-- browser id is among the collected rows exactly if it is the root's, with a row, or its row stands
-- below one.
pub collect_subtree_iff :
    (w : String → ℕ) (fuel : ℕ) (table : List LocalNodeRecord) (binding_id root : String)
    → IsWeight (rows_of binding_id table) w
    → weigh w (rows_at root (rows_of binding_id table)) ≤ fuel
    → (out : List LocalNodeRecord) × (collect_subtree fuel table binding_id root ≡ some out)
      × ((i : String) → (has_id i out ≡ true) ↔ Below (rows_of binding_id table) root i)
unfolding collect_subtree
collect_subtree_iff w fuel table binding_id root h le =
    let all = rows_of binding_id table in
    let start = reverse (rows_at root all) in
    let (out, e) =
      loop_ends w fuel all start [] h (omega (arith, weigh-reverse w (rows_at root all))) in
    let v = loop-Visits all root fuel start [] out (start-Visits all root) e in
    (out, e, λ i. (λ k. v.sound i (ground arith), Below-has all out root i v))
