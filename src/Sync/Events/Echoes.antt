-- ===== src/Sync/Events/Echoes.antt =====
-- `handleEvent` of eventProcessor.ts at an event that no expectation claims, and at one that does.
use pontis.Base.{
  ℕ, ◌+◌, String, ◌⊎◌, ◌&&◌, Bool, keep, All, Bool-cases, inl, inr, eq_iff, ◌≡◌, refl, true, none,
  some, List, [], Option, ◌∷◌, arith,
}
use pontis.Base.Table
use pontis.Base.Table.{string_key, pair_key}
use pontis.Browser.{BrowserNode, BrowserEvent}
use pontis.Protocol.{OpType, ParentRefWire}
use pontis.Store.{
  BindingRecord, PendingOpRecord, PendingStatus, PendingType, PontisDb, is_text, same_text,
  binding_key, op_key, local_key,
}
use pontis.Sync.Events.Scope.{
  captures_binding_events, is_managed_scope, canonical_parent_ref, next_mapped,
}
use pontis.Sync.Events.Outbox.{queue_with, queued_op, op_on}
use pontis.Sync.Events.{handle_event}
use pontis.Sync.Events.Echo.{EventDisposition, Expectation, expectations, is_kind, is_absent}
use pontis.Store.Texts.{is_text_iff, same_text_iff}
use pontis.Sync.Events.Created.{queue_create}

-- An expectation claims a created bookmark: it is a create of the same binding, and either it was
-- resolved to the id of the bookmark, or it has no browser id yet and announces a bookmark with the
-- same parent, title and url.
abbrev pub Claims : BindingRecord → BrowserNode → Expectation → Type 0
Claims b n e =
    (e.binding_id ≡ b.id)
    × (e.kind ≡ OpType.create)
    × ((e.browser_id ≡ some n.id)
        ⊎ ((e.browser_id ≡ none)
            × (e.parent_browser_id ≡ n.parent_id)
            × (e.title ≡ some n.title)
            × (e.url ≡ n.url)))

pub keep_none :
    {A : Type 0} (p : A → Bool) (P : A → Type 0) (xs : List A)
    → ((x : A) → p x ≡ true → P x)
    → All (λ x. ¬ P x) xs
    → keep p xs ≡ []
keep_none p P [] f h = refl
keep_none p P (x ∷ xs) f (not_x, h) = elim (Bool-cases (p x)) [
  | inl e ↦ absurd (not_x (f x e))
  | inr e ↦ rw e (keep_none p P xs f h)
]

pub is_kind-create : (k : OpType) → is_kind k OpType.create ≡ true → k ≡ OpType.create
is_kind-create OpType.create h = refl
is_kind-create OpType.update_title h = cc
is_kind-create OpType.update_url h = cc
is_kind-create OpType.move h = cc
is_kind-create OpType.delete h = cc

pub is_absent-eq-none : (o : Option String) → is_absent o ≡ true → o ≡ none
is_absent-eq-none none h = refl
is_absent-eq-none (some s) h = cc

-- The two tests of `handleCreated` find no expectation if none claims the bookmark.
settled_none :
    (db : PontisDb) (b : BindingRecord) (n : BrowserNode)
    → All (λ e. ¬ Claims b n e) db.expected_mutations
    → expectations db b.id OpType.create (λ e. is_text e.browser_id n.id) ≡ []
unfolding expectations
settled_none db b n = keep_none _ (Claims b n) db.expected_mutations λ e t.
    ground (arith, eq_iff e.binding_id b.id, is_kind-create e.kind, is_text_iff e.browser_id n.id)

provisional_none :
    (db : PontisDb) (b : BindingRecord) (n : BrowserNode) (p : String)
    → n.parent_id ≡ some p
    → All (λ e. ¬ Claims b n e) db.expected_mutations
    → expectations db b.id OpType.create (λ e.
      is_absent e.browser_id
      && (is_text e.parent_browser_id p && (is_text e.title n.title && same_text e.url n.url)))
      ≡ []
unfolding expectations
provisional_none db b n p q = keep_none _ (Claims b n) db.expected_mutations λ e t. ground (
  arith,
  eq_iff e.binding_id b.id,
  is_kind-create e.kind,
  is_absent-eq-none e.browser_id,
  is_text_iff e.parent_browser_id p,
  is_text_iff e.title n.title,
  same_text_iff e.url n.url,
)

module _ (uuid : ℕ → String) (children : String → List BrowserNode) (fuel : ℕ) where
  -- A bookmark or folder that appears under a mapped parent of the managed scope of a stored,
  -- capturing binding, and that no expectation claims, is queued as exactly one create of the
  -- binding, unsent: it carries a fresh id for the node, its browser id, kind, title and url, the
  -- parent on the canonical side, the next mapped sibling and the applied revision as its base, and
  -- it gets the next sequence number of the binding. The mirror row of the node has no canonical id
  -- yet.
  pub handle_event_created :
      (db : PontisDb) (b : BindingRecord) (n : BrowserNode) (p : String) (parent : ParentRefWire)
      → Table.get binding_key b.id db.bindings ≡ some b
      → captures_binding_events b.state ≡ true
      → n.parent_id ≡ some p
      → is_managed_scope db b p ≡ true
      → All (λ e. ¬ Claims b n e) db.expected_mutations
      → canonical_parent_ref db b p ≡ some parent
      → (t : PontisDb) × (handle_event uuid children fuel db b.id (BrowserEvent.created n)
          ≡ some (EventDisposition.local_op, t))
        × (o : PendingOpRecord) × (t.pending_ops ≡ Table.put op_key o db.pending_ops)
        × (o.type ≡ PendingType.op OpType.create)
        × (o.status ≡ PendingStatus.queued)
        × (o.binding_id ≡ b.id)
        × (o.browser_id ≡ some n.id)
        × (o.op_id ≡ uuid db.drawn)
        × (o.node_id ≡ uuid (db.drawn + 1))
        × (o.client_seq ≡ b.client_seq + 1)
        × (o.base_revision ≡ b.applied_revision)
        × (o.node_type ≡ some n.type)
        × (o.title ≡ some n.title)
        × (o.url ≡ n.url)
        × (o.parent ≡ some parent)
        × (o.before_id ≡ next_mapped db b.id n.index (children p))
        × (t.local_nodes
            ≡ Table.put local_key
                (record {
                  binding_id = b.id;
                  browser_id = n.id;
                  canonical_id = none;
                  type = n.type;
                  title = n.title;
                  url = n.url;
                  parent_browser_id = some p;
                  position = none;
                })
                db.local_nodes)
  unfolding handle_event queue_with
  handle_event_created db b n p parent e c q m x f =
      let before_id = next_mapped db b.id n.index (children p) in
      let row = record (op_on (PendingType.op OpType.create) (uuid (db.drawn + 1))) {
        node_type = some n.type;
        title = some n.title;
        url = n.url;
        parent = some parent;
        before_id = before_id;
        browser_id = some n.id;
      } in
      (
        queue_create uuid children b n parent before_id db,
        ground (arith, provisional_none db b n p q x, settled_none db b n x),
        queued_op (uuid db.drawn) b db.now row,
        ground arith,
        refl,
        refl,
        refl,
        refl,
        refl,
        refl,
        refl,
        refl,
        refl,
        refl,
        refl,
        refl,
        refl,
        ground arith,
      )
