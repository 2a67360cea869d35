-- ===== src/Sync/Applier/Guard/Warned.antt =====
-- `applyCreate` and `applyChange` of remoteChangeApplier.ts: the browser and the expectations when a
-- call does not return.
use pontis.Base.{
  ℕ, ◌+◌, String, refl, Option, none, some, List, [], ◌∷◌, nat_eq, Bool-cases, Option-cases, inl,
  inr,
}
use mathlib.Core.Path.{subst}
use pontis.Base.Table
use pontis.Base.Table.{string_key}
use pontis.Browser.{BrowserNode}
use pontis.Browser.Adapter.{Adapter}
use pontis.Protocol.{
  OpType, ChangeWire, CreatePayloadWire, as_create_payload, as_update_title_payload,
  as_update_url_payload, as_move_payload, as_delete_payload,
}
use pontis.Store.{
  BindingRecord, LocalNodeRecord, ExpectedMutationRecord, binding_key, find_mirror_by_canonical,
}
use pontis.Store.Subtree.{collect_subtree}
use pontis.Sync.Coordinator.Transfers.{drop_rows}
use pontis.Sync.Applied.{Local, Applied}
use pontis.Sync.Applier.{create_in, apply_create, checked, apply_typed, apply_change}
use pontis.Sync.Applier.Parents.{ParentResolution, resolve_parent}
use pontis.Sync.Applier.Commit.{expect, expectation_of, Order, read_order}
use pontis.Sync.Applier.Create.{
  adoptable, order_read, answered, placed, create_node, adopt_or_create, create_expectation,
  create_missing, purged, known_node, create_under,
}
use pontis.Sync.Applier.Update.{FieldTarget}
use pontis.Sync.Applier.Guard.{
  IsWarned, IsGuarded, own, expect-warns, update_field-IsGuarded, apply_move-IsGuarded,
  apply_delete-IsGuarded,
}

module _ {Browser : Type 0} (adapter : Adapter Browser) (decimal : ℕ → String) (fuel : ℕ)
    (i : String) (c : ChangeWire) where
  create_node-IsGuarded :
      (p : CreatePayloadWire) (parent : String) (l : Local Browser)
      → IsGuarded i c l.browser (create_node adapter decimal fuel i c p parent l)
  unfolding create_node create_expectation expectation_of
  create_node-IsGuarded p parent l = read (adapter.get_children l.browser parent)
    where
      e : ExpectedMutationRecord
      e = create_expectation i c p parent l.db

      warned : IsWarned i c (expect e l.db)
      warned = expect-warns i c e l.db (own i c e refl refl refl)

      ordered :
          (n : BrowserNode) (browser : Browser) (o : Option Order)
          → IsGuarded i c l.browser (
              order_read adapter decimal fuel i c p parent e n o
                (record { browser = browser; db = expect e l.db }))
      ordered n browser none = inr warned
      ordered n browser (some order) = tt

      answered_with :
          (r : Option BrowserNode × Browser)
          → IsGuarded i c l.browser (answered adapter decimal fuel i c p parent e r (expect e l.db))
      answered_with (none, browser) = inr warned
      answered_with (some n, browser) =
          ordered n browser (read_order adapter browser (some parent ∷ []))

      read :
          (o : Option (List BrowserNode))
          → IsGuarded i c l.browser
              (placed adapter decimal fuel i c p parent e o (record l { db = expect e l.db }))
      read none = inl refl
      read (some children) = answered_with _

  create_missing-IsGuarded :
      (p : CreatePayloadWire) (parent : String) (l : Local Browser)
      → IsGuarded i c l.browser (create_missing adapter decimal fuel i c p parent l)
  unfolding create_missing
  create_missing-IsGuarded p parent l = either (adoptable l.db i c p)
    where
      either :
          (o : Option LocalNodeRecord)
          → IsGuarded i c l.browser (adopt_or_create adapter decimal fuel i c p parent o l)
      either none = create_node-IsGuarded p parent l
      either (some row) = tt

  create_under-IsGuarded :
      (p : CreatePayloadWire) (parent : String) (o : Option LocalNodeRecord) (l : Local Browser)
      → IsGuarded i c l.browser (create_under adapter decimal fuel i c p parent o l)
  unfolding create_under
  create_under-IsGuarded p parent none l = create_missing-IsGuarded p parent l
  create_under-IsGuarded p parent (some m) l = known (adapter.get_node l.browser m.browser_id)
    where
      purge :
          (o : Option (List LocalNodeRecord))
          → IsGuarded i c l.browser (purged adapter decimal fuel i c p parent o l)
      purge none = tt
      purge (some stale) =
          create_missing-IsGuarded p parent
            (record l { db = record (l.db) { local_nodes = drop_rows i stale l.db.local_nodes } })

      known :
          (o : Option BrowserNode)
          → IsGuarded i c l.browser (known_node adapter decimal fuel i c p parent m o l)
      known none = purge (collect_subtree fuel l.db.local_nodes i m.browser_id)
      known (some live) = tt

module _ {Browser : Type 0} (adapter : Adapter Browser) (decimal : ℕ → String) (fuel : ℕ)
    (b : BindingRecord) (c : ChangeWire) where
  apply_create-IsGuarded :
      (p : CreatePayloadWire) (l : Local Browser)
      → IsGuarded b.id c l.browser (apply_create adapter decimal fuel b c p l)
  unfolding apply_create
  apply_create-IsGuarded p l = under (resolve_parent l.db b p.parent)
    where
      under :
          (to : ParentResolution)
          → IsGuarded b.id c l.browser (create_in adapter decimal fuel b c p to l)
      under ParentResolution.excluded = tt
      under (ParentResolution.missing ref) = refl
      under (ParentResolution.mapped parent) =
          create_under-IsGuarded adapter decimal fuel b.id c p parent
            (find_mirror_by_canonical l.db b.id c.node_id) l

  checked-IsGuarded :
      {P : Type 0} (o : Option P) (apply : P → Applied Browser) (l : Local Browser)
      → ((p : P) → IsGuarded b.id c l.browser (apply p))
      → IsGuarded b.id c l.browser (checked adapter decimal fuel o apply l)
  checked-IsGuarded none apply l h = inl refl
  checked-IsGuarded (some p) apply l h = h p

  apply_typed-IsGuarded :
      (t : OpType) (l : Local Browser)
      → IsGuarded b.id c l.browser (apply_typed adapter decimal fuel t b c l)
  unfolding apply_typed
  apply_typed-IsGuarded OpType.create l =
      checked-IsGuarded (as_create_payload c.payload) _ l (λ p. apply_create-IsGuarded p l)
  apply_typed-IsGuarded OpType.update_title l =
      checked-IsGuarded (as_update_title_payload c.payload) _ l (λ p.
        update_field-IsGuarded adapter decimal b.id c (FieldTarget.title p.title)
          (find_mirror_by_canonical l.db b.id c.node_id) l)
  apply_typed-IsGuarded OpType.update_url l =
      checked-IsGuarded (as_update_url_payload c.payload) _ l (λ p.
        update_field-IsGuarded adapter decimal b.id c (FieldTarget.url p.url)
          (find_mirror_by_canonical l.db b.id c.node_id) l)
  apply_typed-IsGuarded OpType.move l = checked-IsGuarded (as_move_payload c.payload) _ l (λ p.
      apply_move-IsGuarded adapter decimal b c p (find_mirror_by_canonical l.db b.id c.node_id) l)
  apply_typed-IsGuarded OpType.delete l = checked-IsGuarded (as_delete_payload c.payload) _ l (λ p.
      apply_delete-IsGuarded adapter fuel b.id c (find_mirror_by_canonical l.db b.id c.node_id) l)

-- If `applyChange` throws, then the browser is as it was, or an expectation of the change, with its
-- binding, revision and canonical id, stands in the database. If it meets a lost mapping, the
-- browser is as it was.
pub apply_change-IsGuarded :
    {Browser : Type 0} (adapter : Adapter Browser) (decimal : ℕ → String) (fuel : ℕ) (id : String)
    (c : ChangeWire) (l : Local Browser)
    → IsGuarded id c l.browser (apply_change adapter decimal fuel id c l)
unfolding apply_change
apply_change-IsGuarded adapter decimal fuel id c l = elim (Option-cases stored) [
  | inl e ↦ rw e (inl refl)
  | inr (b, e) ↦ elim (Bool-cases (nat_eq c.revision (b.applied_revision + 1))) [
    | inl t ↦ rw e (
        rw t (
          subst (λ i. IsGuarded i c l.browser (apply_typed adapter decimal fuel c.type b c l))
            (Table.key_get binding_key id l.db.bindings e)
            (apply_typed-IsGuarded adapter decimal fuel b c c.type l)))
    | inr f ↦ rw e (rw f (inl refl))
  ]
]
  where
    stored : Option BindingRecord
    stored = Table.get binding_key id l.db.bindings
