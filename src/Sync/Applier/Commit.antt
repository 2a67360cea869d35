-- ===== src/Sync/Applier/Commit.antt =====
-- What the operations of extension/src/core/sync/remoteChangeApplier.ts share: the confirming
-- transaction, the expectations, and the sibling orders that are read before a transaction.
pub mod Keeping
use pontis.Base.{
  ℕ, ◌+◌, String, Bool, true, false, not, ◌||◌, Option, none, some, List, [], ◌∷◌, ◌++◌, ◌==◌, leb,
  ltb, nat_eq, keep, find, any, if◌then◌else◌,
}
use pontis.Base.Table
use pontis.Base.Table.{string_key, number_key}
use pontis.Browser.{BrowserNode}
use pontis.Browser.Adapter.{Adapter}
use pontis.Protocol.{OpType, ChangeWire}
use pontis.Store.{
  BindingRecord, LocalNodeRecord, ExpectedMutationRecord, PontisDb, Level, binding_key,
}
use pontis.Store.Diagnostics.{log_diagnostic}
use pontis.Sync.Events.Outbox.{put_binding}
use pontis.Sync.Applier.Placement.{write_mirror_positions}

abbrev pub note : Level → String → PontisDb → PontisDb
note level = log_diagnostic level "applier"

-- `advanceApplied`, on a binding that was just read.
unfoldable pub advance_applied : BindingRecord → ℕ → PontisDb → PontisDb
advance_applied b revision db =
    if ltb b.applied_revision revision
    then put_binding (record b { applied_revision = revision }) db
    else db

abbrev pub advance_for : Option BindingRecord → ℕ → PontisDb → PontisDb
advance_for none revision db = db
advance_for (some b) revision db =
    if leb revision b.applied_revision
    then db
    else put_binding (record b { applied_revision = revision }) db

unfoldable pub advance_to : String → ℕ → PontisDb → PontisDb
advance_to id revision db = advance_for (Table.get binding_key id db.bindings) revision db

-- The confirming transaction: nothing if the binding is gone, else the writes and the advance.
abbrev pub commit_for : Option BindingRecord → ℕ → (PontisDb → PontisDb) → PontisDb → PontisDb
commit_for none revision write db = db
commit_for (some b) revision write db = advance_applied b revision (write db)

unfoldable pub commit : String → ℕ → (PontisDb → PontisDb) → PontisDb → PontisDb
unfolding advance_applied
commit id revision write db = commit_for (Table.get binding_key id db.bindings) revision write db

-- An expectation of a change on a browser node, under the next key of its table.
unfoldable pub expectation_of :
    String → ChangeWire → OpType → Option String → PontisDb → ExpectedMutationRecord
expectation_of binding_id change kind browser_id db = record {
  id = db.next_expectation;
  binding_id = binding_id;
  revision = change.revision;
  kind = kind;
  canonical_id = change.node_id;
  browser_id = browser_id;
  parent_browser_id = none;
  position = none;
  title = none;
  url = none;
  created_at = db.now;
}

-- `expectedMutations.add(exp)`
unfoldable pub expect : ExpectedMutationRecord → PontisDb → PontisDb
expect e db = record db {
  expected_mutations = db.expected_mutations ++ e ∷ [];
  next_expectation = db.next_expectation + 1;
}

-- `expectedMutations.delete(id)`
unfoldable pub forget : ℕ → PontisDb → PontisDb
forget id db = record db {
  expected_mutations =
      keep (λ (e : ExpectedMutationRecord). not (nat_eq e.id id)) db.expected_mutations;
}

abbrev pub expectation_key : ExpectedMutationRecord → ℕ
expectation_key e = e.id

-- `expectedMutations.put(exp)`
unfoldable pub put_expectation : ExpectedMutationRecord → PontisDb → PontisDb
put_expectation e db = record db {
  expected_mutations = Table.put expectation_key e db.expected_mutations;
}

-- What `readOrder` returns: parents with their children.
abbrev pub Order : Type 0
Order = List (String × List BrowserNode)

unfoldable pub order_get : String → Order → Option (List BrowserNode)
order_get id [] = none
order_get id ((p, children) ∷ order) = if p == id then some children else order_get id order

abbrev pub is_read : String → Order → Bool
is_read id = any (λ (o : String × List BrowserNode). o.0 == id)

-- An id that is absent or empty is passed over.
abbrev pub present : List (Option String) → List String
present [] = []
present (none ∷ ids) = present ids
present (some id ∷ ids) = if id == "" then present ids else id ∷ present ids

-- `none`: a `getChildren` rejects.
unfoldable pub read_each :
    {Browser : Type 0} → Adapter Browser → Browser → List String → Order → Option Order
read_each adapter browser [] order = some order
read_each adapter browser (id ∷ ids) order = elim (is_read id order) [
  | true ↦ read_each adapter browser ids order
  | false ↦ elim (adapter.get_children browser id) [
    | none ↦ none
    | some children ↦ read_each adapter browser ids (order ++ (id, children) ∷ [])
  ]
]

unfoldable pub read_order :
    {Browser : Type 0} → Adapter Browser → Browser → List (Option String) → Option Order
unfolding read_each
read_order adapter browser ids = read_each adapter browser (present ids) []

abbrev pub write_if : String → Option (List BrowserNode) → PontisDb → PontisDb
write_if binding_id none db = db
write_if binding_id (some children) db = write_mirror_positions binding_id children db

unfoldable pub write_each : Order → String → List String → PontisDb → PontisDb
unfolding order_get
write_each order binding_id [] db = db
write_each order binding_id (id ∷ ids) db =
    write_each order binding_id ids (write_if binding_id (order_get id order) db)

unfoldable pub write_order : Order → String → List (Option String) → PontisDb → PontisDb
unfolding write_each
write_order order binding_id ids db = write_each order binding_id (present ids) db
