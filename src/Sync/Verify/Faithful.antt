-- ===== src/Sync/Verify/Faithful.antt =====
-- `verifyScan` of verifyReplica.ts: what a report without serious problems says of the browser and
-- the mirror.
use pontis.Base.{
  ℕ, zero, suc, ◌+◌, ◌≤◌, String, ◌≡◌, refl, ◌∙◌, sym, ◌↔◌, ◌⊎◌, Bool, true, false, ◌||◌, Option,
  none, some, List, [], ◌∷◌, ◌++◌, any, All, arith, eq_iff,
}
use pontis.Base.Table.{pair_key}
use pontis.Browser.{BrowserNode}
use pontis.Browser.Adapter.{Adapter}
use pontis.Browser.Snapshot.{Snapshots, size}
use pontis.Store.Texts.{same_text_iff}
use pontis.Store.{LocalNodeRecord, PontisDb, truthy}
use pontis.Sync.Events.Scope.{mirror_of}
use pontis.Sync.Verify.Report.{VerifyProblem}
use pontis.Sync.Verify.Scan.{
  push_all, differs_in_fields, differs_in_parent, mapped_problems, row_problems, node_problems,
  scan_queue, orphans, is_absent_node, is_serious,
}

-- Of the parents that are both known, each is the other.
abbrev pub AgreesOnParent : Option String → Option String → Type 0
AgreesOnParent mirror live = (truthy mirror ≡ false) ⊎ (truthy live ≡ false) ⊎ (live ≡ mirror)

-- A row that is mapped and says of the node what the browser says.
abbrev pub Says : BrowserNode → LocalNodeRecord → Option String → Type 0
Says n m none = ⊥
Says n m (some canonical_id) =
    (n.title ≡ m.title) × (n.url ≡ m.url) × AgreesOnParent m.parent_browser_id n.parent_id

abbrev pub IsSaidBy : BrowserNode → Option LocalNodeRecord → Type 0
IsSaidBy n none = ⊥
IsSaidBy n (some m) = Says n m m.canonical_id

abbrev pub IsMirrored : PontisDb → String → BrowserNode → Type 0
IsMirrored db binding_id n = IsSaidBy n (mirror_of db binding_id n.id)

abbrev pub Each : (BrowserNode → Type 0) → Snapshots → Type 0
Each P Snapshots.nothing = Unit
Each P (Snapshots.node n kids rest) = P n × Each P kids × Each P rest

-- The row has no browser id, or that of the mount root, or that of a node of the browser.
abbrev pub IsLive :
    {Browser : Type 0} → Adapter Browser → Browser → String → LocalNodeRecord → Type 0
IsLive adapter browser root_id m =
    (m.browser_id ≡ "")
    ⊎ (m.browser_id ≡ root_id)
    ⊎ ((n : BrowserNode) × (adapter.get_node browser m.browser_id ≡ some n))

not_both : ◌≡◌ {A = Bool} true false → ⊥
not_both e = cc

pub any-append :
    (xs ys : List VerifyProblem)
    → any is_serious (xs ++ ys) ≡ any is_serious xs || any is_serious ys
any-append [] ys = refl
any-append (x ∷ xs) ys = ground (arith, any-append xs ys)

agrees_iff :
    (mirror live : Option String)
    → (differs_in_parent mirror live ≡ false) ↔ AgreesOnParent mirror live
agrees_iff mirror live = ground (arith, same_text_iff live mirror)

fields_iff :
    (n : BrowserNode) (m : LocalNodeRecord)
    → (differs_in_fields n m ≡ false) ↔ ((n.title ≡ m.title) × (n.url ≡ m.url))
unfolding differs_in_fields
fields_iff n m = ground (arith, eq_iff n.title m.title, same_text_iff n.url m.url)

size-push_all : (q more : Snapshots) → size (push_all q more) ≡ size q + size more
unfolding push_all
size-push_all Snapshots.nothing more = omega arith
size-push_all (Snapshots.node n kids rest) more = omega (arith, size-push_all rest more)

Each-push_all :
    (P : BrowserNode → Type 0) (q more : Snapshots)
    → Each P (push_all q more) ↔ (Each P q × Each P more)
unfolding push_all
Each-push_all P Snapshots.nothing more = (λ h. (tt, h), λ h. h.1)
Each-push_all P (Snapshots.node n kids rest) more =
    let later = Each-push_all P rest more in
    (λ h. ((h.0, h.1, (later.0 h.2).0), (later.0 h.2).1), λ h. (h.0.0, h.0.1, later.1 (h.0.2, h.1)))

mapped_iff :
    (n : BrowserNode) (m : LocalNodeRecord) (o : Option String)
    → (any is_serious (mapped_problems n m o) ≡ false) ↔ Says n m o
mapped_iff n m none = ground arith
mapped_iff n m (some id) =
    ground (arith, fields_iff n m, agrees_iff m.parent_browser_id n.parent_id)

row_iff :
    (n : BrowserNode) (o : Option LocalNodeRecord)
    → (any is_serious (row_problems n o) ≡ false) ↔ IsSaidBy n o
row_iff n none = ground arith
row_iff n (some m) = mapped_iff n m m.canonical_id

pub nodes_iff :
    (fuel : ℕ) (db : PontisDb) (b : String) (q : Snapshots)
    → size q ≤ fuel
    → (any is_serious (scan_queue fuel db b q) ≡ false) ↔ Each (IsMirrored db b) q
unfolding scan_queue node_problems
nodes_iff zero db b Snapshots.nothing le = (λ e. tt, λ h. refl)
nodes_iff zero db b (Snapshots.node n kids rest) le = absurd (omega arith)
nodes_iff (suc fuel) db b Snapshots.nothing le = (λ e. tt, λ h. refl)
nodes_iff (suc fuel) db b (Snapshots.node n kids rest) le =
    let here = row_iff n (mirror_of db b n.id) in
    let below : size (push_all rest kids) ≤ fuel = omega (arith, size-push_all rest kids) in
    let later = nodes_iff fuel db b (push_all rest kids) below in
    let both = Each-push_all (IsMirrored db b) rest kids in
    let split =
      any-append (row_problems n (mirror_of db b n.id))
        (scan_queue fuel db b (push_all rest kids)) in
    (
      λ e.
          let e' = sym split ∙ e in
          let first : any is_serious (row_problems n (mirror_of db b n.id)) ≡ false =
            ground arith in
          let second : any is_serious (scan_queue fuel db b (push_all rest kids)) ≡ false =
            ground arith in
          let deeper = both.0 (later.0 second) in (here.0 first, deeper.1, deeper.0),
      λ h.
          let first = here.1 h.0 in
          let second = later.1 (both.1 (h.2, h.1)) in split ∙ rw first second,
    )

module _ {Browser : Type 0} (adapter : Adapter Browser) (browser : Browser) (root_id : String) where
  absent_iff :
      (o : Option BrowserNode) → (is_absent_node o ≡ false) ↔ ((n : BrowserNode) × (o ≡ some n))
  absent_iff none = (λ e. absurd (not_both e), λ h. cc)
  absent_iff (some n) = (λ e. (n, refl), λ h. refl)

  pub orphans_iff :
      (ms : List LocalNodeRecord)
      → (any is_serious (orphans adapter browser root_id ms) ≡ false)
        ↔ All (IsLive adapter browser root_id) ms
  unfolding orphans
  orphans_iff [] = ground arith
  orphans_iff (m ∷ ms) = ground (
    arith,
    orphans_iff ms,
    absent_iff (adapter.get_node browser m.browser_id),
    eq_iff m.browser_id "",
    eq_iff m.browser_id root_id,
  )
