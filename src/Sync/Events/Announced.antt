-- ===== src/Sync/Events/Announced.antt =====
-- `handleChanged` of eventProcessor.ts at the echo of a remote change.
use mathlib.Core.List.{Memᴰ}
use pontis.Base.{
  ap, ℕ, String, ◌≡◌, ◌≢◌, refl, ◌⊎◌, ◌∙◌, sym, Bool, true, false, not, some, List, [], ◌∷◌, ◌==◌,
  keep, All, Bool-cases, inl, inr, arith, eq_iff,
}
use pontis.Base.Table
use pontis.Base.Table.{string_key, pair_key}
use pontis.Browser.{BrowserNode, BrowserEvent}
use pontis.Protocol.{OpType}
use pontis.Store.{BindingRecord, LocalNodeRecord, PontisDb, binding_key, local_key}
use pontis.Store.Texts.{is_text_iff, same_text_iff}
use pontis.Sync.Events.{handle_for, handle_event}
use pontis.Sync.Events.Scope.{mirror_of, captures_binding_events, is_managed_scope}
use pontis.Sync.Events.Echo.{EventDisposition, Expectation, listed, consume, with_fields}
use pontis.Sync.Events.Outbox.{put_local}
use pontis.Sync.Events.Changed.{handle_changed, changed_matches, expected_changes}

-- An expectation announces the state of a mapped node: it is of the node in the same binding, and it
-- is an update of the title or the url to what the browser now shows.
abbrev pub Announces : BindingRecord → BrowserNode → String → Expectation → Type 0
Announces b n c e =
    (e.binding_id ≡ b.id)
    × (e.browser_id ≡ some n.id)
    × (e.canonical_id ≡ c)
    × (((e.kind ≡ OpType.update_title) × (e.title ≡ some n.title))
        ⊎ ((e.kind ≡ OpType.update_url) × (e.url ≡ n.url)))

-- A member that passes a test is among those that are kept, so that there is a first one.
abbrev pub Keeps : {A : Type 0} → A → List A → Type 0
Keeps {A} e ys = (x : A) × (rest : List A) × (ys ≡ x ∷ rest) × Memᴰ e ys

keep_some :
    {A : Type 0} (p : A → Bool) (e : A) (xs : List A) → p e ≡ true → Memᴰ e xs → Keeps e (keep p xs)
keep_some p e xs h (Memᴰ.head {x = x} {xs = ys} same) =
    let kept : p x ≡ true = ap p (sym same) ∙ h in rw kept (x, keep p ys, refl, Memᴰ.head same)
keep_some p e xs h (Memᴰ.tail {x = x} {xs = ys} m) =
    let (y, rest, f, n) = keep_some p e ys h m in
    elim (Bool-cases (p x)) [
      | inl g ↦ rw g (x, keep p ys, refl, Memᴰ.tail n)
      | inr g ↦ rw g (y, rest, f, n)
    ]

pub listed-mem : (e : Expectation) (gone : List Expectation) → Memᴰ e gone → listed e.id gone ≡ true
listed-mem e gone (Memᴰ.head {x = x} {xs = xs} same) =
    let same_id : x.id ≡ e.id = ap (λ (y : Expectation). y.id) (sym same) in ground arith
listed-mem e gone (Memᴰ.tail {x = x} {xs = xs} m) = ground (arith, listed-mem e xs m)

-- No expectation under the id of a consumed one is left.
pub unlisted :
    (e : Expectation) (gone xs : List Expectation)
    → listed e.id gone ≡ true
    → All (λ x. x.id ≢ e.id) (keep (λ (x : Expectation). not (listed x.id gone)) xs)
unlisted e gone [] h = tt
unlisted e gone (x ∷ xs) h = elim (Bool-cases (listed x.id gone)) [
  | inl f ↦ rw f (unlisted e gone xs h)
  | inr f ↦ rw f (λ (same : x.id ≡ e.id). cc (ap (λ i. listed i gone) same), unlisted e gone xs h)
]

expected_changes-Keeps :
    (uuid : ℕ → String) (db : PontisDb) (b : BindingRecord) (n : BrowserNode) (m : LocalNodeRecord)
    (c : String) (e : Expectation)
    → m.canonical_id ≡ some c
    → c ≢ ""
    → Memᴰ e db.expected_mutations
    → Announces b n c e
    → Keeps e (expected_changes uuid db b n m)
unfolding expected_changes
expected_changes-Keeps uuid db b n m c e f not_empty mem a =
    let filled : (c == "") ≡ false = ground (arith, eq_iff c "") in
    rw f (
      rw filled (
        keep_some _ e db.expected_mutations
          (ground (
            arith,
            eq_iff e.binding_id b.id,
            eq_iff c e.canonical_id,
            is_text_iff e.browser_id n.id,
            is_text_iff e.title n.title,
            same_text_iff e.url n.url,
          ))
          mem))

module _ (uuid : ℕ → String) (children : String → List BrowserNode) (fuel : ℕ) where
  -- A change of a mapped node of the managed scope of a stored, capturing binding, whose title or
  -- url an expectation announces, is an echo: it queues, changes and drops no operation and changes
  -- no binding, the mirror row takes the title and url that the browser shows, and no expectation
  -- is left under the id of the one that announced it.
  pub handle_event_expected :
      (db : PontisDb) (b : BindingRecord) (n : BrowserNode) (m : LocalNodeRecord) (c : String)
      (e : Expectation)
      → Table.get binding_key b.id db.bindings ≡ some b
      → captures_binding_events b.state ≡ true
      → is_managed_scope db b n.id ≡ true
      → mirror_of db b.id n.id ≡ some m
      → m.canonical_id ≡ some c
      → c ≢ ""
      → Memᴰ e db.expected_mutations
      → Announces b n c e
      → (t : PontisDb) × (handle_event uuid children fuel db b.id (BrowserEvent.changed n)
          ≡ some (EventDisposition.expected, t))
        × (t.pending_ops ≡ db.pending_ops)
        × (t.bindings ≡ db.bindings)
        × (t.local_nodes
            ≡ Table.put local_key (record m { title = n.title; url = n.url }) db.local_nodes)
        × All (λ x. x.id ≢ e.id) t.expected_mutations
  unfolding handle_event handle_changed changed_matches consume
  handle_event_expected db b n m c e stored captures managed mapped f not_empty mem a =
      let (x, rest, gone, kept) = expected_changes-Keeps uuid db b n m c e f not_empty mem a in
      (
        put_local (with_fields n m) (consume (expected_changes uuid db b n m) db),
        rw (stored, handle_for) (rw (captures, managed) (rw (mapped, gone) refl)),
        refl,
        refl,
        refl,
        unlisted e (expected_changes uuid db b n m) db.expected_mutations (listed-mem e _ kept),
      )
