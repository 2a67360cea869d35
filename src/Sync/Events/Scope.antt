-- ===== src/Sync/Events/Scope.antt =====
-- The questions that eventProcessor.ts asks of the mirror before it acts: which nodes a binding
-- manages, and what a browser parent is called on the canonical side.
use pontis.Base.{
  ℕ, zero, suc, String, Bool, true, false, ◌&&◌, Option, none, some, List, [], ◌∷◌, ◌==◌, leb, keep,
  find, not, if◌then◌else◌,
}
use pontis.Base.Table
use pontis.Base.Table.{pair_key}
use pontis.Browser.{BrowserNode}
use pontis.Protocol.{ParentRefWire, node_ref, root_ref}
use pontis.Store.{
  BindingMode, BindingState, BindingMount, BindingRecord, LocalNodeRecord, PontisDb, local_key,
  truthy, is_text,
}

-- `CAPTURING_STATES.includes(state)`
unfoldable pub captures_binding_events : BindingState → Bool
captures_binding_events BindingState.active = true
captures_binding_events BindingState.initializing = true
captures_binding_events BindingState.resyncing = true
captures_binding_events BindingState.needs_recovery = true
captures_binding_events BindingState.waiting_user = true
captures_binding_events _ = false

-- `db.localNodes.get([bindingId, browserId])`
abbrev pub mirror_of : PontisDb → String → String → Option LocalNodeRecord
mirror_of db binding_id browser_id = Table.get local_key (binding_id, browser_id) db.local_nodes

-- The walk up the mirror; the first argument counts the rounds of the `for` loop left.
unfoldable pub scope_walk : ℕ → PontisDb → String → String → Option String → Bool
scope_walk zero db binding_id mount_id cur = false
scope_walk (suc rounds) db binding_id mount_id none = false
scope_walk (suc rounds) db binding_id mount_id (some cur) = elim (cur == mount_id) [
  | true ↦ true
  | false ↦ elim (mirror_of db binding_id cur) [
    | none ↦ false
    | some row ↦ scope_walk rounds db binding_id mount_id row.parent_browser_id
  ]
]

abbrev pub in_mount : BindingMode → Option String → PontisDb → String → String → Bool
in_mount BindingMode.full folder db binding_id browser_id = true
in_mount BindingMode.partial none db binding_id browser_id = false
in_mount BindingMode.partial (some mount_id) db binding_id browser_id =
    not (mount_id == "") && scope_walk 64 db binding_id mount_id (some browser_id)

unfoldable pub is_managed_scope : PontisDb → BindingRecord → String → Bool
unfolding scope_walk
is_managed_scope db b browser_id =
    in_mount b.mount.mode b.mount.folder_browser_id db b.id browser_id

-- The root key under which a browser id is mounted.
abbrev pub root_entry : Option (List (String × String)) → String → Option (String × String)
root_entry none browser_id = none
root_entry (some roots) browser_id = find (λ (e : String × String). e.1 == browser_id) roots

abbrev pub mounted_key : BindingMode → BindingMount → String → Option String
mounted_key BindingMode.partial mount browser_id =
    if is_text mount.folder_browser_id browser_id then some mount.root_key else none
mounted_key BindingMode.full mount browser_id = elim (root_entry mount.roots browser_id) [
  | none ↦ none
  | some e ↦ some (e.0)
]

-- `parent?.canonicalId ? { type: 'node', id: parent.canonicalId } : null`
abbrev pub mapped_id : Option LocalNodeRecord → Option String
mapped_id none = none
mapped_id (some row) = if truthy row.canonical_id then row.canonical_id else none

abbrev pub as_root_or_node : Option String → Option String → Option ParentRefWire
as_root_or_node (some key) canonical = some (root_ref key)
as_root_or_node none (some canonical) = some (node_ref canonical)
as_root_or_node none none = none

unfoldable pub canonical_parent_ref : PontisDb → BindingRecord → String → Option ParentRefWire
canonical_parent_ref db b parent =
    as_root_or_node (mounted_key b.mount.mode b.mount parent) (mapped_id (mirror_of db b.id parent))

abbrev pub is_active : BindingState → Bool
is_active BindingState.active = true
is_active _ = false

-- The first other active binding that holds the browser parent.
unfoldable pub first_target :
    PontisDb → String → String → List BindingRecord → Option (BindingRecord × ParentRefWire)
unfolding canonical_parent_ref
first_target db self parent [] = none
first_target db self parent (other ∷ others) =
    let rest = first_target db self parent others in
    if other.id == self
    then rest
    else elim (canonical_parent_ref db other parent) [ none ↦ rest | some ref ↦ some (other, ref) ]

unfoldable pub cross_binding_target :
    PontisDb → BindingRecord → String → Option (BindingRecord × ParentRefWire)
unfolding first_target
cross_binding_target db b parent =
    first_target db b.id parent (keep (λ (o : BindingRecord). is_active o.state) db.bindings)

-- The first mapped child behind an index.
unfoldable pub next_mapped : PontisDb → String → ℕ → List BrowserNode → Option String
next_mapped db binding_id index [] = none
next_mapped db binding_id index (child ∷ rest) =
    let later = next_mapped db binding_id index rest in
    if leb child.index index
    then later
    else elim (mapped_id (mirror_of db binding_id child.id)) [ none ↦ later | some c ↦ some c ]
