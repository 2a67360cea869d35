-- ===== src/Sync/Applier/Guard.antt =====
-- The operations of remoteChangeApplier.ts: the browser and the expectations when a call does not
-- return.
pub mod Warned
use pontis.Base.{
  ℕ, ◌+◌, String, ◌≡◌, refl, ap, Bool, true, false, ◌&&◌, ◌||◌, ◌⊎◌, Option, none, some, List, [],
  ◌∷◌, ◌++◌, nat_eq, ◌==◌, if◌then◌else◌, any, arith, Bool-cases, Option-cases, inl, inr, eq_refl,
}
use pontis.Base.Table
use pontis.Base.Table.{string_key}
use pontis.Browser.{BrowserNode}
use pontis.Browser.Adapter.{Adapter, remove_by_type}
use pontis.Protocol.{
  OpType, ChangeWire, CreatePayloadWire, MovePayloadWire, UpdateTitlePayloadWire,
  UpdateUrlPayloadWire, DeletePayloadWire, as_create_payload, as_update_title_payload,
  as_update_url_payload, as_move_payload, as_delete_payload,
}
use pontis.Store.{
  BindingRecord, LocalNodeRecord, ExpectedMutationRecord, PontisDb, binding_key,
  find_mirror_by_canonical, is_text,
}
use pontis.Store.Subtree.{collect_subtree}
use pontis.Sync.Coordinator.Transfers.{drop_rows}
use pontis.Sync.Applied.{Local, Applied}
use pontis.Sync.Applier.{create_in, apply_create, checked, apply_typed, apply_for, apply_change}
use pontis.Sync.Applier.Parents.{ParentResolution, resolve_parent}
use pontis.Sync.Applier.Placement.{is_at, browser_index_for_position}
use pontis.Sync.Applier.Commit.{expect, expectation_of, forget, Order, read_order}
use pontis.Sync.Applier.Create.{
  adoptable, order_read, answered, placed, create_node, adopt_or_create, create_expectation,
  create_missing, purged, known_node, create_under,
}
use pontis.Sync.Applier.Update.{
  FieldTarget, unmapped_node, confirm_update, update_node, update_field, is_at_target,
  update_expectation, changes_of,
}
use pontis.Sync.Applier.Move.{
  move_ordered, move_answered, move_placed, move_node, move_under, apply_move, move_expectation,
}
use pontis.Sync.Applier.Delete.{dropped, confirm_delete, delete_answered, delete_live, apply_delete}

-- An expectation of the change stands.
abbrev pub is_warning : String → ChangeWire → ExpectedMutationRecord → Bool
is_warning binding_id c e =
    e.binding_id == binding_id && (nat_eq e.revision c.revision && e.canonical_id == c.node_id)

abbrev pub IsWarned : String → ChangeWire → PontisDb → Type 0
IsWarned binding_id c db = any (is_warning binding_id c) db.expected_mutations ≡ true

-- A call that does not return has left the browser as it was, or with an expectation of the change.
abbrev pub IsGuarded : {Browser : Type 0} → String → ChangeWire → Browser → Applied Browser → Type 0
IsGuarded binding_id c browser (Applied.done l) = Unit
IsGuarded binding_id c browser (Applied.thrown l) =
    (l.browser ≡ browser) ⊎ IsWarned binding_id c l.db
IsGuarded binding_id c browser (Applied.endless l) = Unit
IsGuarded binding_id c browser (Applied.unmapped message l) = l.browser ≡ browser

any-end :
    {A : Type 0} (p : A → Bool) (xs : List A) (x : A) → p x ≡ true → any p (xs ++ x ∷ []) ≡ true
any-end p [] x e = rw e refl
any-end p (y ∷ ys) x e = ground (arith, any-end p ys x e)

pub expect-warns :
    (binding_id : String) (c : ChangeWire) (e : ExpectedMutationRecord) (db : PontisDb)
    → is_warning binding_id c e ≡ true
    → IsWarned binding_id c (expect e db)
unfolding expect
expect-warns binding_id c e db w = any-end (is_warning binding_id c) db.expected_mutations e w

pub own :
    (binding_id : String) (c : ChangeWire) (e : ExpectedMutationRecord)
    → e.binding_id ≡ binding_id
    → e.revision ≡ c.revision
    → e.canonical_id ≡ c.node_id
    → is_warning binding_id c e ≡ true
own binding_id c e b r n = rw (b, r, n, eq_refl binding_id, eq_refl c.node_id) (ground arith)

module _ {Browser : Type 0} (adapter : Adapter Browser) (decimal : ℕ → String) (i : String)
    (c : ChangeWire) where
  update_node-IsGuarded :
      (t : FieldTarget) (m : LocalNodeRecord) (l : Local Browser)
      → IsGuarded i c l.browser (update_node adapter decimal i c t m l)
  unfolding update_node confirm_update update_expectation expectation_of
  update_node-IsGuarded t m l = elim (Bool-cases (is_at_target t m)) [
    | inl e ↦ rw (update_node, e) tt
    | inr e ↦
        rw (update_node, e) (answered_with (adapter.update m.browser_id (changes_of t) l.browser))
  ]
    where
      answered_with :
          (r : Bool × Browser)
          → IsGuarded i c l.browser (
              confirm_update adapter decimal i c t m r
                (expect (update_expectation i c t m l.db) l.db))
      answered_with (true, browser) = tt
      answered_with (false, browser) = inr (
          expect-warns i c (update_expectation i c t m l.db) l.db
            (own i c (update_expectation i c t m l.db) refl refl refl))

  pub update_field-IsGuarded :
      (t : FieldTarget) (o : Option LocalNodeRecord) (l : Local Browser)
      → IsGuarded i c l.browser (update_field adapter decimal i c t o l)
  unfolding update_field unmapped_node
  update_field-IsGuarded t none l = refl
  update_field-IsGuarded t (some m) l = elim (Bool-cases (m.browser_id == "")) [
    | inl e ↦ rw (update_field, e) refl
    | inr e ↦ rw (update_field, e) (update_node-IsGuarded t m l)
  ]

  move_node-IsGuarded :
      (m : LocalNodeRecord) (parent : String) (position : ℕ) (l : Local Browser)
      → IsGuarded i c l.browser (move_node adapter decimal i c m parent position l)
  unfolding move_node move_expectation expectation_of
  move_node-IsGuarded m parent position l =
      elim (Bool-cases (is_text m.parent_browser_id parent && is_at m.position position)) [
        | inl e ↦ rw (move_node, e) tt
        | inr e ↦ rw (move_node, e) (read (adapter.get_children l.browser parent))
      ]
    where
      e : ExpectedMutationRecord
      e = move_expectation i c m parent position l.db

      warned : IsWarned i c (expect e l.db)
      warned = expect-warns i c e l.db (own i c e refl refl refl)

      ordered :
          (browser : Browser) (o : Option Order)
          → IsGuarded i c l.browser (
              move_ordered adapter decimal i c m parent position o
                (record { browser = browser; db = expect e l.db }))
      ordered browser none = inr warned
      ordered browser (some order) = tt

      answered_with :
          (r : Bool × Browser)
          → IsGuarded i c l.browser
              (move_answered adapter decimal i c m parent position r (expect e l.db))
      answered_with (false, browser) = inr warned
      answered_with (true, browser) =
          ordered browser (read_order adapter browser (some parent ∷ m.parent_browser_id ∷ []))

      read :
          (o : Option (List BrowserNode))
          → IsGuarded i c l.browser (move_placed adapter decimal i c m parent position o l)
      read none = inl refl
      read (some children) = answered_with (
          adapter.move m.browser_id parent
            (some (browser_index_for_position l.db i children position (some m.browser_id)))
            l.browser)

module _ {Browser : Type 0} (adapter : Adapter Browser) (decimal : ℕ → String) (b : BindingRecord)
    (c : ChangeWire) where
  pub apply_move-IsGuarded :
      (p : MovePayloadWire) (o : Option LocalNodeRecord) (l : Local Browser)
      → IsGuarded b.id c l.browser (apply_move adapter decimal b c p o l)
  unfolding apply_move unmapped_node
  apply_move-IsGuarded p none l = refl
  apply_move-IsGuarded p (some m) l = elim (Bool-cases (m.browser_id == "")) [
    | inl e ↦ rw (apply_move, e) refl
    | inr e ↦ rw (apply_move, e) (under (resolve_parent l.db b p.parent))
  ]
    where
      under :
          (to : ParentResolution)
          → IsGuarded b.id c l.browser (move_under adapter decimal b.id c m p.position to l)
      under ParentResolution.excluded = tt
      under (ParentResolution.missing ref) = refl
      under (ParentResolution.mapped parent) =
          move_node-IsGuarded adapter decimal b.id c m parent p.position l

module _ {Browser : Type 0} (adapter : Adapter Browser) (fuel : ℕ) (i : String)
    (c : ChangeWire) where
  confirm_delete-IsGuarded :
      (m : LocalNodeRecord) (write : PontisDb → PontisDb) (browser : Browser) (l : Local Browser)
      → IsGuarded i c browser (confirm_delete adapter fuel i c.revision m write l)
  unfolding confirm_delete
  confirm_delete-IsGuarded m write browser l =
      elim (Option-cases (Table.get binding_key i l.db.bindings)) [
        | inl e ↦ rw (confirm_delete, e) tt
        | inr (b, e) ↦
            rw (confirm_delete, e)
              (gone b (collect_subtree fuel (write l.db).local_nodes i m.browser_id))
      ]
    where
      gone :
          (b : BindingRecord) (o : Option (List LocalNodeRecord))
          → IsGuarded i c browser
              (dropped adapter fuel i b c.revision o (record l { db = write l.db }))
      gone b none = tt
      gone b (some rows) = tt

  pub apply_delete-IsGuarded :
      (o : Option LocalNodeRecord) (l : Local Browser)
      → IsGuarded i c l.browser (apply_delete adapter fuel i c o l)
  unfolding apply_delete expectation_of
  apply_delete-IsGuarded none l = tt
  apply_delete-IsGuarded (some m) l = elim (Bool-cases (m.browser_id == "")) [
    | inl e ↦ rw (apply_delete, e) tt
    | inr e ↦ rw (apply_delete, e) (live (adapter.get_node l.browser m.browser_id))
  ]
    where
      e : ExpectedMutationRecord
      e = expectation_of i c OpType.delete (some m.browser_id) l.db

      answered_with :
          (r : Bool × Browser)
          → IsGuarded i c l.browser
              (delete_answered adapter fuel i c m l.db.next_expectation r (expect e l.db))
      answered_with (false, browser) = inr (expect-warns i c e l.db (own i c e refl refl refl))
      answered_with (true, browser) =
          confirm_delete-IsGuarded m (forget l.db.next_expectation) l.browser _

      live : (o : Option BrowserNode) → IsGuarded i c l.browser (delete_live adapter fuel i c m o l)
      live none = confirm_delete-IsGuarded m (λ d. d) l.browser l
      live (some n) = answered_with (remove_by_type adapter n.id n.type l.browser)
