-- ===== src/Store/Subtree/Reach.antt =====
-- What `collectSubtree` of db.ts collects, and when its loop ends.
use mathlib.Core.List.{Memᴰ, reverse, reverse-cons}
use mathlib.Core.Path.{subst}
use pontis.Base.{
  ℕ, zero, suc, ◌+◌, ◌≤◌, ◌<◌, String, ◌≡◌, refl, ap, ◌∙◌, sym, Bool, true, ◌&&◌, ◌||◌, some, List,
  [], ◌∷◌, ◌++◌, any, ◌==◌, arith, eq_iff, eq_refl, inl, inr, Bool-cases,
}
use pontis.Store.{LocalNodeRecord, truthy, is_text}
use pontis.Store.Subtree.{children_of, collect_loop}

-- The row stands directly below a browser node.
abbrev pub is_child : String → LocalNodeRecord → Bool
is_child id r = truthy r.parent_browser_id && is_text r.parent_browser_id id

-- A list has a row of a browser id.
abbrev pub has_id : String → List LocalNodeRecord → Bool
has_id i = any (λ (r : LocalNodeRecord). r.browser_id == i)

-- The browser ids of the rows at and below a root.
pub data Below (all : List LocalNodeRecord) (root : String) : String → Type 0 where
  top : has_id root all ≡ true → Below all root root
  under :
      {p : String} (r : LocalNodeRecord)
      → Below all root p
      → Memᴰ r all
      → is_child p r ≡ true
      → Below all root r.browser_id

-- A weight that a node has above its children together: there is one unless parents form a cycle.
unfoldable pub weigh : (String → ℕ) → List LocalNodeRecord → ℕ
weigh w [] = 0
weigh w (r ∷ rs) = w r.browser_id + weigh w rs

weigh-append :
    (w : String → ℕ) (xs ys : List LocalNodeRecord) → weigh w (xs ++ ys) ≡ weigh w xs + weigh w ys
unfolding weigh
weigh-append w [] ys = omega arith
weigh-append w (x ∷ xs) ys = omega (arith, weigh-append w xs ys)

pub weigh-reverse : (w : String → ℕ) (xs : List LocalNodeRecord) → weigh w (reverse xs) ≡ weigh w xs
unfolding weigh
weigh-reverse w [] = refl
weigh-reverse w (x ∷ xs) =
    ap (weigh w) (reverse-cons x xs)
    ∙ weigh-append w (reverse xs) (x ∷ [])
    ∙ omega (arith, weigh-reverse w xs)

abbrev pub IsWeight : List LocalNodeRecord → (String → ℕ) → Type 0
IsWeight all w = (i : String) → weigh w (children_of all i) < w i

pub loop_ends :
    (w : String → ℕ) (fuel : ℕ) (all stack out : List LocalNodeRecord)
    → IsWeight all w
    → weigh w stack ≤ fuel
    → (res : List LocalNodeRecord) × (collect_loop fuel all stack out ≡ some res)
unfolding collect_loop weigh
loop_ends w zero all [] out h le = (out, refl)
loop_ends w (suc fuel) all [] out h le = (out, refl)
loop_ends w zero all (cur ∷ stack) out h le = absurd (omega (arith, h cur.browser_id))
loop_ends w (suc fuel) all (cur ∷ stack) out h le =
    loop_ends w fuel all (reverse (children_of all cur.browser_id) ++ stack) (out ++ cur ∷ []) h (
      omega (
        arith,
        h cur.browser_id,
        weigh-append w (reverse (children_of all cur.browser_id)) stack,
        weigh-reverse w (children_of all cur.browser_id),
      ))

any-append :
    (i : String) (xs ys : List LocalNodeRecord) → has_id i (xs ++ ys) ≡ (has_id i xs || has_id i ys)
any-append i [] ys = refl
any-append i (x ∷ xs) ys = ground (arith, any-append i xs ys)

pub any-reverse : (i : String) (xs : List LocalNodeRecord) → has_id i (reverse xs) ≡ has_id i xs
any-reverse i [] = refl
any-reverse i (x ∷ xs) =
    ap (has_id i) (reverse-cons x xs)
    ∙ any-append i (reverse xs) (x ∷ [])
    ∙ ground (arith, any-reverse i xs)

has_child :
    (p : String) (r : LocalNodeRecord) (all : List LocalNodeRecord)
    → Memᴰ r all
    → is_child p r ≡ true
    → has_id r.browser_id (children_of all p) ≡ true
unfolding children_of
has_child p r all (Memᴰ.head {x = x} {xs = xs} same) c =
    let at_head : has_id r.browser_id (children_of (r ∷ xs) p) ≡ true =
      ground (arith, c, eq_refl r.browser_id) in
    rw (← same) at_head
has_child p r all (Memᴰ.tail {x = x} {xs = xs} m) c = ground (arith, has_child p r xs m c)

Below-children :
    (all xs : List LocalNodeRecord) (root p i : String)
    → ((r : LocalNodeRecord) → Memᴰ r xs → Memᴰ r all)
    → Below all root p
    → has_id i (children_of xs p) ≡ true
    → Below all root i
unfolding children_of
Below-children all [] root p i sub b e = cc
Below-children all (x ∷ xs) root p i sub b e = elim (Bool-cases (is_child p x)) [
  | inl c ↦ elim (Bool-cases (x.browser_id == i)) [
    | inl same ↦
        let at : x.browser_id ≡ i = ground (arith, eq_iff x.browser_id i) in
        subst (λ k. Below all root k) at (Below.under x b (sub x (Memᴰ.head refl)) c)
    | inr other ↦ Below-children all xs root p i (λ r m. sub r (Memᴰ.tail m)) b (ground arith)
  ]
  | inr c ↦ Below-children all xs root p i (λ r m. sub r (Memᴰ.tail m)) b (ground arith)
]

module _ (all : List LocalNodeRecord) (root : String) where
  -- Rows that are collected or still to visit, up to here.
  pub record Visits (stack out : List LocalNodeRecord) : Type 0 where
    pub sound : (i : String) → (has_id i out || has_id i stack) ≡ true → Below all root i
    pub started : has_id root all ≡ true → (has_id root out || has_id root stack) ≡ true
    pub closed :
        (p : String) (r : LocalNodeRecord)
        → has_id p out ≡ true
        → Memᴰ r all
        → is_child p r ≡ true
        → (has_id r.browser_id out || has_id r.browser_id stack) ≡ true

  step-Visits :
      (cur : LocalNodeRecord) (stack out : List LocalNodeRecord)
      → Visits (cur ∷ stack) out
      → Visits (reverse (children_of all cur.browser_id) ++ stack) (out ++ cur ∷ [])
  step-Visits cur stack out v =
      let below = children_of all cur.browser_id in
      record {
        sound = λ i e. elim (Bool-cases (has_id i out || has_id i (cur ∷ stack))) [
          | inl old ↦ v.sound i old
          | inr new ↦
              Below-children all all root cur.browser_id i (λ r m. m)
                (v.sound cur.browser_id (ground (arith, eq_refl cur.browser_id)))
                (ground (
                  arith,
                  any-append i out (cur ∷ []),
                  any-append i (reverse below) stack,
                  any-reverse i below,
                ))
        ];
        started = λ h. ground (
          arith,
          v.started h,
          any-append root out (cur ∷ []),
          any-append root (reverse below) stack,
        );
        closed = λ p r e m c. elim (Bool-cases (has_id p out)) [
          | inl old ↦ ground (
            arith,
            v.closed p r old m c,
            any-append r.browser_id out (cur ∷ []),
            any-append r.browser_id (reverse below) stack,
          )
          | inr new ↦
              let at : cur.browser_id ≡ p =
                ground (arith, any-append p out (cur ∷ []), eq_iff cur.browser_id p) in
              let got : has_id r.browser_id below ≡ true =
                subst (λ q. has_id r.browser_id (children_of all q) ≡ true) (sym at)
                  (has_child p r all m c) in
              ground (
                arith,
                got,
                any-reverse r.browser_id below,
                any-append r.browser_id (reverse below) stack,
              )
        ];
      }

  pub loop-Visits :
      (fuel : ℕ) (stack out res : List LocalNodeRecord)
      → Visits stack out
      → collect_loop fuel all stack out ≡ some res
      → Visits [] res
  unfolding collect_loop
  loop-Visits zero [] out res v e = let same : out ≡ res = cc in subst (λ q. Visits [] q) same v
  loop-Visits (suc fuel) [] out res v e =
      let same : out ≡ res = cc in subst (λ q. Visits [] q) same v
  loop-Visits zero (cur ∷ stack) out res v e = cc
  loop-Visits (suc fuel) (cur ∷ stack) out res v e =
      loop-Visits fuel _ (out ++ cur ∷ []) res (step-Visits cur stack out v) e
