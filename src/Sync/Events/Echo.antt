-- ===== src/Sync/Events/Echo.antt =====
-- What the handlers of eventProcessor.ts share: the disposition of an event, and the expectations of
-- the echoes of remote changes.
use pontis.Base.{
  ℕ, String, Bool, true, false, not, ◌&&◌, ◌||◌, Option, none, some, List, [], ◌∷◌, ◌==◌, nat_eq,
  keep,
}
use pontis.Base.Table.{pair_key}
use pontis.Browser.{BrowserNode}
use pontis.Protocol.{OpType}
use pontis.Store.{BindingRecord, LocalNodeRecord, ExpectedMutationRecord, PontisDb, Level}
use pontis.Store.Diagnostics.{log_diagnostic}
use pontis.Sync.Events.Outbox.{put_local}

pub data EventDisposition : Type 0 where
  expected local_op ignored : EventDisposition

abbrev pub Handled : Type 0
Handled = EventDisposition × PontisDb

abbrev pub warn : String → PontisDb → PontisDb
warn = log_diagnostic Level.warn "event-processor"

abbrev pub is_kind : OpType → OpType → Bool
is_kind OpType.create OpType.create = true
is_kind OpType.update_title OpType.update_title = true
is_kind OpType.update_url OpType.update_url = true
is_kind OpType.move OpType.move = true
is_kind OpType.delete OpType.delete = true
is_kind _ _ = false

abbrev pub Expectation : Type 0
Expectation = ExpectedMutationRecord

-- The expectations of a binding, of one kind, that pass a test.
unfoldable pub expectations : PontisDb → String → OpType → (Expectation → Bool) → List Expectation
expectations db binding_id kind test =
    keep (λ (e : Expectation). e.binding_id == binding_id && (is_kind e.kind kind && test e))
      db.expected_mutations

abbrev pub listed : ℕ → List Expectation → Bool
listed i [] = false
listed i (e ∷ es) = nat_eq e.id i || listed i es

-- `expectedMutations.bulkDelete(gone.map((e) => e.id!))`
unfoldable pub consume : List Expectation → PontisDb → PontisDb
consume gone db = record db {
  expected_mutations = keep (λ (e : Expectation). not (listed e.id gone)) db.expected_mutations;
}

abbrev pub mirror_row : BindingRecord → BrowserNode → Option String → Option ℕ → LocalNodeRecord
mirror_row b n canonical position = record {
  binding_id = b.id;
  browser_id = n.id;
  canonical_id = canonical;
  type = n.type;
  title = n.title;
  url = n.url;
  parent_browser_id = n.parent_id;
  position = position;
}

-- `{ ...mirror, title: node.title, url: node.url }`
abbrev pub with_fields : BrowserNode → LocalNodeRecord → LocalNodeRecord
with_fields n mirror = record mirror { title = n.title; url = n.url }

-- `{ ...mirror, parentBrowserId: node.parentId, position: null }`
abbrev pub with_parent : BrowserNode → LocalNodeRecord → LocalNodeRecord
with_parent n mirror = record mirror { parent_browser_id = n.parent_id; position = none }

abbrev pub put_local_if_new : LocalNodeRecord → Option LocalNodeRecord → PontisDb → PontisDb
put_local_if_new row none db = put_local row db
put_local_if_new row (some old) db = db

abbrev pub is_absent : Option String → Bool
is_absent none = true
is_absent (some s) = false

-- `node.url ?? ''`
abbrev pub or_empty : Option String → String
or_empty none = ""
or_empty (some s) = s

-- A transaction that writes no mirror row.
abbrev pub unchanged : PontisDb → PontisDb
unchanged db = db
