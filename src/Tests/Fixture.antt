-- ===== src/Tests/Fixture.antt =====
-- A replica with one partial binding: a mounted folder, a mapped bookmark in it, and one operation
-- in flight; and ids of growing length.
use Prim.Native.Char.{Char}
use pontis.Base.{
  ℕ, zero, suc, ◌≤◌, String, ◌≡◌, refl, ap, false, none, some, List, [], ◌∷◌, arith, eq_iff, ◌≢◌,
}
use pontis.Base.Table
use pontis.Browser.{BrowserNode}
use pontis.Protocol.{OpType, NodeType}
use pontis.Store.{
  BindingMode, BindingState, BindingRecord, LocalNodeRecord, PendingStatus, PendingType,
  PendingOpRecord, PontisDb,
}
use pontis.Sync.Events.Effects.{IsOrdered, IsFresh}

-- "", "a", "aa", …
unfoldable pub unary : ℕ → String
unary zero = String.[]
unary (suc n) = String.◌∷◌ "a" (unary n)

unary_tail : (s t : String) (c : Char) → String.◌∷◌ c s ≡ String.◌∷◌ c t → s ≡ t
unary_tail s t c e = cc

pub unary-IsFresh : IsFresh unary
unfolding unary
unary-IsFresh zero zero e = refl
unary-IsFresh zero (suc k) e = cc
unary-IsFresh (suc j) zero e = cc
unary-IsFresh (suc j) (suc k) e = ap suc (unary-IsFresh j k (unary_tail (unary j) (unary k) "a" e))

abbrev pub binding : BindingRecord
binding = record {
  id = "b";
  space_id = "s";
  space_name = "Space";
  mode = BindingMode.partial;
  state = BindingState.active;
  epoch = 1;
  applied_revision = 7;
  received_revision = 7;
  client_seq = 1;
  mount = record {
    mode = BindingMode.partial;
    folder_browser_id = some "root";
    root_key = "main";
    roots = none;
  };
  last_sync_at = none;
  recovery = none;
  created_at = 0;
  enabled = none;
}

abbrev pub bookmark_row : LocalNodeRecord
bookmark_row = record {
  binding_id = "b";
  browser_id = "n1";
  canonical_id = some "c1";
  type = NodeType.bookmark;
  title = "old";
  url = some "http://a";
  parent_browser_id = some "root";
  position = some 0;
}

abbrev pub sent_op : PendingOpRecord
sent_op = record {
  op_id = "";
  binding_id = "b";
  client_seq = 1;
  base_revision = 7;
  status = PendingStatus.in_flight;
  type = PendingType.op OpType.update_title;
  node_id = "c1";
  node_type = none;
  title = some "old";
  url = none;
  parent = none;
  before_id = none;
  browser_id = none;
  browser_parent_id = none;
  target_space_id = none;
  target_parent = none;
  keep_resolved = false;
  result = none;
  created_at = 0;
}

abbrev pub replica : PontisDb
replica = record {
  bindings = binding ∷ [];
  local_nodes = bookmark_row ∷ [];
  pending_ops = sent_op ∷ [];
  expected_mutations = [];
  remote_changes = [];
  recon_sessions = [];
  run_locks = [];
  diagnostics = [];
  next_expectation = 0;
  next_diagnostic = 0;
  now = 100;
  drawn = 1;
}

abbrev pub browser_node : String → String → BrowserNode
browser_node id title = record {
  id = id;
  parent_id = some "root";
  title = title;
  url = some "http://a";
  type = NodeType.bookmark;
  index = 0;
  folder_type = none;
  unmodifiable = false;
}

abbrev pub no_children : String → List BrowserNode
no_children p = []

unary_new : (k : ℕ) → 1 ≤ k → ◌≢◌ {A = String} "" (unary k)
unfolding unary
unary_new zero h = absurd (omega arith)
unary_new (suc k) h = λ e. cc

pub replica-IsOrdered : IsOrdered unary replica
unfolding Table.get
replica-IsOrdered = record {
  distinct = (refl, tt);
  unused = λ k le. ground (arith, eq_iff "" (unary k), unary_new k le);
  numbered = λ i b j o e f same. ground arith;
  unique = λ i j o p e f same seq. ground (arith, eq_iff "" i, eq_iff "" j);
}
