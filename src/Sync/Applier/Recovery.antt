-- ===== src/Sync/Applier/Recovery.antt =====
-- `recover` of extension/src/core/sync/remoteChangeApplier.ts: the expectations of an interrupted
-- run are compared with the browser.
pub mod Untouched
use pontis.Base.{
  ℕ, String, Bool, true, false, ◌&&◌, Option, none, some, List, [], ◌∷◌, ◌==◌, keep, nat_eq,
  if◌then◌else◌,
}
use pontis.Base.Table
use pontis.Base.Table.{string_key, pair_key}
use pontis.Browser.{BrowserNode}
use pontis.Browser.Adapter.{Adapter}
use pontis.Protocol.{OpType, NodeType}
use pontis.Store.{
  LocalNodeRecord, ExpectedMutationRecord, PontisDb, Level, binding_key, truthy, is_text, same_text,
  find_mirror_by_canonical,
}
use pontis.Sync.Events.Scope.{mirror_of}
use pontis.Sync.Events.Outbox.{put_local}
use pontis.Sync.Coordinator.Transfers.{or_else}
use pontis.Sync.Applied.{Local, Applied}
use pontis.Sync.Applier.Placement.{rank_from}
use pontis.Sync.Applier.Commit.{note, commit, forget, Order, read_order, write_order}

abbrev pub title_or : Option String → String → String
title_or none title = title
title_or (some s) title = s

abbrev pub position_or : Option ℕ → Option ℕ → Option ℕ
position_or (some p) q = some p
position_or none q = q

abbrev pub is_folder : NodeType → Bool
is_folder NodeType.folder = true
is_folder NodeType.bookmark = false

-- The mirror row after a resolved expectation, from the live node if there is one.
unfoldable pub resolved_row :
    ExpectedMutationRecord → Option BrowserNode → LocalNodeRecord → LocalNodeRecord
resolved_row e none m = record m {
  title = title_or e.title m.title;
  url = if is_folder m.type then none else or_else e.url m.url;
  position = position_or e.position m.position;
}
resolved_row e (some n) m = record m {
  parent_browser_id = or_else n.parent_id m.parent_browser_id;
  title = n.title;
  url = if is_folder n.type then none else or_else n.url (or_else e.url m.url);
  position = position_or e.position m.position;
}

abbrev pub put_resolved :
    ExpectedMutationRecord → Option BrowserNode → Option LocalNodeRecord → PontisDb → PontisDb
put_resolved e n none db = db
put_resolved e n (some m) db = put_local (resolved_row e n m) db

abbrev pub parent_id_of : Option BrowserNode → Option String
parent_id_of none = none
parent_id_of (some n) = n.parent_id

abbrev pub row_parent : Option LocalNodeRecord → Option String
row_parent none = none
row_parent (some m) = m.parent_browser_id

abbrev pub is_move : OpType → Bool
is_move OpType.move = true
is_move _ = false

-- `Boolean(parentId) && (kind === 'move' || kind === 'create')`
abbrev pub reparents : OpType → Option String → Bool
reparents OpType.move parent = truthy parent
reparents OpType.create parent = truthy parent
reparents _ parent = false

module _ {Browser : Type 0} (adapter : Adapter Browser) where
  -- The transaction of `commitResolved`.
  unfoldable pub confirm_resolved :
      String
      → ExpectedMutationRecord
      → Option BrowserNode
      → Option LocalNodeRecord
      → List (Option String)
      → Order
      → PontisDb
      → PontisDb
  unfolding resolved_row forget write_order commit
  confirm_resolved binding_id e n m parents order =
      commit binding_id e.revision
        λ db. write_order order binding_id parents (put_resolved e n m (forget e.id db))

  abbrev pub resolved_ordered :
      String
      → ExpectedMutationRecord
      → Option BrowserNode
      → Option LocalNodeRecord
      → List (Option String)
      → Option Order
      → Local Browser
      → Applied Browser
  resolved_ordered binding_id e n m parents none l = Applied.thrown l
  resolved_ordered binding_id e n m parents (some order) l =
      Applied.done (record l { db = confirm_resolved binding_id e n m parents order l.db })

  -- The parents whose order is adopted: the new one, and of a move the one that was left.
  abbrev pub reordered :
      ExpectedMutationRecord → Option String → Option LocalNodeRecord → List (Option String)
  reordered e parent m =
      if reparents e.kind parent
      then parent ∷ (if is_move e.kind then row_parent m else none) ∷ []
      else []

  unfoldable pub commit_resolved :
      String → ExpectedMutationRecord → Option BrowserNode → Local Browser → Applied Browser
  unfolding confirm_resolved read_order find_mirror_by_canonical
  commit_resolved binding_id e n l =
      let m = find_mirror_by_canonical l.db binding_id e.canonical_id in
      let parents =
        reordered e (or_else (parent_id_of n) (or_else e.parent_browser_id (row_parent m))) m in
      resolved_ordered binding_id e n m parents (read_order adapter l.browser parents) l

  -- The unmapped children that look like the expected node.
  unfoldable pub candidates :
      PontisDb → String → ExpectedMutationRecord → List BrowserNode → List BrowserNode
  candidates db binding_id e = keep λ (c : BrowserNode).
      is_unmapped (mirror_of db binding_id c.id)
      && (is_text e.title c.title && same_text c.url e.url)
    where
      is_unmapped : Option LocalNodeRecord → Bool
      is_unmapped none = true
      is_unmapped (some m) = false

  abbrev pub adopted_row : String → ExpectedMutationRecord → BrowserNode → LocalNodeRecord
  adopted_row binding_id e n = record {
    binding_id = binding_id;
    browser_id = n.id;
    canonical_id = some e.canonical_id;
    type = n.type;
    title = n.title;
    url = n.url;
    parent_browser_id = n.parent_id;
    position = e.position;
  }

  -- Exactly one is adopted.
  unfoldable pub adopt_candidate :
      String → ExpectedMutationRecord → List BrowserNode → PontisDb → PontisDb
  unfolding forget commit
  adopt_candidate binding_id e (n ∷ []) db =
      commit binding_id e.revision (λ d. put_local (adopted_row binding_id e n) (forget e.id d)) db
  adopt_candidate binding_id e _ db = note Level.warn "未落定的新建预期需要对账" db

  abbrev pub provisional_under :
      String → ExpectedMutationRecord → Option (List BrowserNode) → Local Browser → Applied Browser
  provisional_under binding_id e none l = Applied.thrown l
  provisional_under binding_id e (some children) l =
      Applied.done (record l {
        db = adopt_candidate binding_id e (candidates l.db binding_id e children) l.db;
      })

  abbrev pub children_if : Browser → Option String → Option (List BrowserNode)
  children_if browser none = some []
  children_if browser (some id) = if id == "" then some [] else adapter.get_children browser id

  -- `exp.browserId`: a create that is resolved, or a provisional one.
  abbrev pub recover_create :
      String → ExpectedMutationRecord → Bool → Local Browser → Applied Browser
  recover_create binding_id e true l = commit_resolved binding_id e none l
  recover_create binding_id e false l =
      provisional_under binding_id e (children_if l.browser e.parent_browser_id) l

  abbrev pub same_rank : Option ℕ → Option ℕ → Bool
  same_rank none rank = true
  same_rank (some p) none = false
  same_rank (some p) (some q) = nat_eq q p

  -- The rank is read only if the parent is the expected one; `none`: `getChildren` rejects.
  abbrev pub in_rank :
      PontisDb
      → String
      → ExpectedMutationRecord
      → BrowserNode
      → Option (List BrowserNode)
      → Option Bool
  in_rank db binding_id e n none = none
  in_rank db binding_id e n (some children) =
      some (same_rank e.position (rank_from db binding_id n.id 0 children))

  abbrev pub in_place :
      Local Browser → String → ExpectedMutationRecord → BrowserNode → Option String → Option Bool
  in_place l binding_id e n none = some false
  in_place l binding_id e n (some parent) =
      in_rank l.db binding_id e n (adapter.get_children l.browser parent)

  unfoldable pub is_satisfied :
      OpType → Local Browser → String → ExpectedMutationRecord → Option BrowserNode → Option Bool
  unfolding rank_from
  is_satisfied OpType.delete l binding_id e none = some true
  is_satisfied OpType.delete l binding_id e (some n) = some false
  is_satisfied OpType.move l binding_id e (some n) =
      if same_text n.parent_id e.parent_browser_id
      then in_place l binding_id e n e.parent_browser_id
      else some false
  is_satisfied OpType.update_title l binding_id e (some n) = some (is_text e.title n.title)
  is_satisfied OpType.update_url l binding_id e (some n) = some (same_text n.url e.url)
  is_satisfied _ l binding_id e n = some false

  abbrev pub probed :
      String
      → ExpectedMutationRecord
      → Option BrowserNode
      → Option Bool
      → Local Browser
      → Applied Browser
  probed binding_id e n none l = Applied.thrown l
  probed binding_id e n (some true) l = commit_resolved binding_id e n l
  probed binding_id e n (some false) l =
      Applied.done (record l { db = note Level.info "恢复：预期未达成，将重新应用" l.db })

  abbrev pub lost_mapping : Local Browser → Applied Browser
  lost_mapping l = Applied.done (record l { db = note Level.error "恢复：预期没有可校验的映射，需要恢复" l.db })

  abbrev pub recover_mapped :
      String → ExpectedMutationRecord → Option LocalNodeRecord → Local Browser → Applied Browser
  recover_mapped binding_id e none l = lost_mapping l
  recover_mapped binding_id e (some m) l =
      if m.browser_id == ""
      then lost_mapping l
      else (let n = adapter.get_node l.browser m.browser_id in
          probed binding_id e n (is_satisfied e.kind l binding_id e n) l)

  abbrev pub is_creation : OpType → Bool
  is_creation OpType.create = true
  is_creation _ = false

  unfoldable pub recover_one : String → ExpectedMutationRecord → Local Browser → Applied Browser
  unfolding commit_resolved candidates adopt_candidate is_satisfied
  recover_one binding_id e l =
      if is_creation e.kind
      then recover_create binding_id e (truthy e.browser_id) l
      else recover_mapped binding_id e (find_mirror_by_canonical l.db binding_id e.canonical_id) l

  -- The loop; a binding that is gone ends it.
  unfoldable pub recover_each :
      String → List ExpectedMutationRecord → Local Browser → Applied Browser
  unfolding recover_one
  recover_each binding_id [] l = Applied.done l
  recover_each binding_id (e ∷ es) l = elim (Table.get binding_key binding_id l.db.bindings) [
    | none ↦ Applied.done l
    | some b ↦ elim (recover_one binding_id e l) [
      | Applied.done l' ↦ recover_each binding_id es l'
      | Applied.thrown l' ↦ Applied.thrown l'
      | Applied.endless l' ↦ Applied.endless l'
      | Applied.unmapped message l' ↦ Applied.unmapped message l'
    ]
  ]

  unfoldable pub recover : String → Local Browser → Applied Browser
  unfolding recover_each
  recover binding_id l =
      recover_each binding_id
        (keep (λ (e : ExpectedMutationRecord). e.binding_id == binding_id) l.db.expected_mutations)
        l
