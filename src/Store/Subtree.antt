-- ===== src/Store/Subtree.antt =====
-- `collectSubtree` of db.ts: the mirror rows below a browser node, by a stack of rows to visit.
pub mod Reach
pub mod Collected
use mathlib.Core.List.{reverse}
use pontis.Base.{ℕ, zero, suc, String, Option, none, some, List, [], ◌∷◌, ◌++◌, keep, ◌==◌, ◌&&◌}
use pontis.Store.{LocalNodeRecord, truthy, is_text}

-- The rows of a binding.
unfoldable pub rows_of : String → List LocalNodeRecord → List LocalNodeRecord
rows_of binding_id = keep (λ r. r.binding_id == binding_id)

-- `byParent.get(id) ?? []`
unfoldable pub children_of : List LocalNodeRecord → String → List LocalNodeRecord
children_of all id = keep (λ r. truthy r.parent_browser_id && is_text r.parent_browser_id id) all

-- The stack has its top, the end of the source's array, at the head. `none`: the fuel ran out.
unfoldable pub collect_loop :
    ℕ
    → List LocalNodeRecord
    → List LocalNodeRecord
    → List LocalNodeRecord
    → Option (List LocalNodeRecord)
unfolding children_of
collect_loop fuel all [] out = some out
collect_loop zero all (cur ∷ stack) out = none
collect_loop (suc fuel) all (cur ∷ stack) out =
    collect_loop fuel all (reverse (children_of all cur.browser_id) ++ stack) (out ++ cur ∷ [])

unfoldable pub collect_subtree :
    ℕ → List LocalNodeRecord → String → String → Option (List LocalNodeRecord)
unfolding collect_loop rows_of
collect_subtree fuel table binding_id browser_id =
    let all = rows_of binding_id table in
    collect_loop fuel all (reverse (keep (λ r. r.browser_id == browser_id) all)) []
