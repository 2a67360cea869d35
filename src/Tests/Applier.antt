-- ===== src/Tests/Applier.antt =====
-- The applier at the sample replica, on a browser that is a list of nodes.
use pontis.Base.{
  ℕ, String, ◌≡◌, refl, Bool, true, ◌≢◌, eq_iff, false, not, Option, none, some, List, [], ◌∷◌, map,
  ◌==◌, find, keep, any, if◌then◌else◌,
}
use pontis.Base.Sort
use pontis.Base.Table
use pontis.Base.Table.{string_key, pair_key}
use pontis.Browser.{BrowserNode}
use pontis.Browser.Adapter.{Adapter, NodeChanges}
use pontis.Protocol.{OpType, ChangeWire, ChangePayload}
use pontis.Store.{PontisDb, is_text, binding_key}
use pontis.Sync.Events.Scope.{mirror_of}
use pontis.Sync.Applied.{Local, local_of}
use pontis.Sync.Applier.{apply_change}
use pontis.Sync.Applier.Commit.{expect}
use pontis.Sync.Applier.Update.{FieldTarget, update_expectation}
use pontis.Sync.Applier.Recovery.{recover}
use pontis.Sync.Applier.Recovery.Untouched.{IsUntouched, recover-IsUntouched}
use pontis.Sync.Applier.Placement.{browser_index_for_position, write_mirror_positions, rank_from}
use pontis.Sync.Applier.Placement.Index.{IsIndex, browser_index_for_position_lem}
use pontis.Sync.Applier.Placement.Ranks.{AreDistinct, write_mirror_positions_rank}
use pontis.Sync.Applier.Watermark.Reached.{InOrder, apply_change-InOrder}
use pontis.Sync.Applier.Guard.{IsGuarded}
use pontis.Sync.Applier.Guard.Warned.{apply_change-IsGuarded}
use pontis.Tests.Fixture.{binding, bookmark_row, replica, browser_node}

abbrev retitle : String → NodeChanges → List BrowserNode → List BrowserNode
retitle id c [] = []
retitle id c (n ∷ ns) =
    let rest = retitle id c ns in
    if n.id == id then record n { title = or_title c.title n.title } ∷ rest else n ∷ rest
  where
    or_title : Option String → String → String
    or_title none t = t
    or_title (some s) t = s

-- Only titles can be changed here.
abbrev shelf : Adapter (List BrowserNode)
shelf = record {
  get_node = λ ns id. find (λ (n : BrowserNode). n.id == id) ns;
  get_children = λ ns id. some (keep (λ (n : BrowserNode). is_text n.parent_id id) ns);
  create = λ parent d ns. (none, ns);
  update = λ id c ns. (any (λ (n : BrowserNode). n.id == id) ns, retitle id c ns);
  move = λ id parent index ns. (false, ns);
  remove_bookmark = λ id ns. (true, keep (λ (n : BrowserNode). not (n.id == id)) ns);
  remove_subtree = λ id ns. (false, ns);
}

abbrev shelves : List BrowserNode
shelves = browser_node "n0" "new" ∷ browser_node "n1" "old" ∷ []

abbrev device : Local (List BrowserNode)
device = record { browser = shelves; db = replica }

abbrev digits : ℕ → String
digits n = "8"

abbrev retitled : ChangeWire
retitled = record {
  revision = 8;
  type = OpType.update_title;
  node_id = "c1";
  payload = ChangePayload.retitled (record { title = "renamed" });
}

-- The browser, the mirror and the revision, after the change.
retitled_runs :
    (map
        (λ (n : BrowserNode). n.title)
        (local_of (apply_change shelf digits 9 "b" retitled device)).browser
      ≡ "new" ∷ "renamed" ∷ [])
    × (mirror_of (local_of (apply_change shelf digits 9 "b" retitled device)).db "b" "n1"
        ≡ some (record bookmark_row { title = "renamed" }))
    × (Table.get binding_key "b"
          (local_of (apply_change shelf digits 9 "b" retitled device)).db.bindings
        ≡ some (record binding { applied_revision = 8 }))
unfolding apply_change Table.get Table.put expect Table.pair_same
retitled_runs = (refl, refl, refl)

apply_change-InOrder_example :
    InOrder binding retitled replica (apply_change shelf digits 9 "b" retitled device)
unfolding Table.get
apply_change-InOrder_example = apply_change-InOrder shelf digits 9 binding retitled device refl

true_false : ◌≡◌ {A = Bool} ("n1" == "n0") true → ⊥
true_false e = cc

-- The browser does not have the node any more, so that it rejects.
apply_change-IsGuarded_example :
    IsGuarded "b" retitled []
      (apply_change shelf digits 9 "b" retitled (record device { browser = [] }))
apply_change-IsGuarded_example =
    apply_change-IsGuarded shelf digits 9 "b" retitled (record device { browser = [] })

-- The rows of both nodes are mapped, in the other order than the browser has them.
abbrev shelved : PontisDb
shelved = record replica {
  local_nodes =
      (record bookmark_row { browser_id = "n0"; canonical_id = some "c0"; position = some 1 })
      ∷ bookmark_row
      ∷ [];
}

browser_index_for_position_lem_example :
    IsIndex shelved "b" shelves 1
      (browser_index_for_position shelved "b" (browser_node "n2" "moved" ∷ shelves) 1 (some "n2"))
browser_index_for_position_lem_example =
    browser_index_for_position_lem shelved "b" (browser_node "n2" "moved" ∷ shelves) 1 (some "n2")

before_n0 :
    browser_index_for_position shelved "b" (browser_node "n2" "moved" ∷ shelves) 1 (some "n2") ≡ 0
unfolding browser_index_for_position Table.get Table.pair_same Sort.sort
before_n0 = refl

other_node : ◌≢◌ {A = String} "n1" "n0"
other_node e = true_false ((eq_iff "n1" "n0").1 e)

shelves_distinct : AreDistinct shelves
shelves_distinct = ((other_node, tt), (tt, tt))

write_mirror_positions_rank_example :
    mirror_of (write_mirror_positions "b" shelves replica) "b" "n1"
    ≡ some (record bookmark_row { position = some 0 })
unfolding Table.get rank_from Table.pair_same
write_mirror_positions_rank_example =
    write_mirror_positions_rank replica "b" "n1" shelves bookmark_row 0 shelves_distinct refl refl
      refl

-- A change of the title was asked for before the device stopped.
abbrev interrupted : Local (List BrowserNode)
interrupted = record device {
  db =
      expect (update_expectation "b" retitled (FieldTarget.title "old") bookmark_row replica)
        replica;
}

recover-IsUntouched_example : IsUntouched interrupted (local_of (recover shelf "b" interrupted))
recover-IsUntouched_example = recover-IsUntouched shelf "b" interrupted
