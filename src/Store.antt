-- ===== src/Store.antt =====
-- extension/src/core/store/db.ts: the rows of the local replica, and its tables. `null` and an
-- absent field are both `none`; a `Record` is the list of its entries.
pub mod Locks
pub mod Subtree
pub mod Diagnostics
pub mod Texts
use pontis.Base.{
  ℕ, zero, suc, ◌+◌, String, Bool, true, false, not, Option, none, some, List, [], ◌∷◌, ◌==◌, keep,
  find, head?, if◌then◌else◌, ◌&&◌, ◌||◌,
}
use pontis.Base.Table
use pontis.Protocol.{
  NodeType, OpStatus, OpType, ParentRefWire, ReconciliationIssueWire, ReconciliationPhase,
  ChangePayload,
}

pub data BindingMode : Type 0 where
  full partial : BindingMode

pub data BindingState : Type 0 where
  active paused mount_missing needs_recovery pending_initial initializing resyncing waiting_user :
      BindingState

pub record BindingMount : Type 0 where
  pub mode : BindingMode
  pub folder_browser_id : Option String
  pub root_key : String
  -- canonical root key and browser root id, in the order of the entries
  pub roots : Option (List (String × String))

pub record Recovery : Type 0 where
  pub code : String
  pub message : String

pub record BindingRecord : Type 0 where
  pub id : String
  pub space_id : String
  pub space_name : String
  pub mode : BindingMode
  pub state : BindingState
  pub epoch : ℕ
  pub applied_revision : ℕ
  pub received_revision : ℕ
  pub client_seq : ℕ
  pub mount : BindingMount
  pub last_sync_at : Option ℕ
  pub recovery : Option Recovery
  pub created_at : ℕ
  pub enabled : Option Bool

-- `binding.enabled !== false`
abbrev pub or_true : Option Bool → Bool
or_true none = true
or_true (some b) = b

unfoldable pub is_sync_enabled : BindingRecord → Bool
is_sync_enabled b = or_true b.enabled

pub record LocalNodeRecord : Type 0 where
  pub binding_id : String
  pub browser_id : String
  pub canonical_id : Option String
  pub type : NodeType
  pub title : String
  pub url : Option String
  pub parent_browser_id : Option String
  pub position : Option ℕ

pub data PendingStatus : Type 0 where
  queued in_flight resolved : PendingStatus

pub data PendingType : Type 0 where
  op : OpType → PendingType
  transfer : PendingType

pub record OpResult : Type 0 where
  pub status : OpStatus
  pub reason : String
  pub result_revision : ℕ
  pub settle_after_revision : ℕ

pub record PendingOpRecord : Type 0 where
  pub op_id : String
  pub binding_id : String
  pub client_seq : ℕ
  pub base_revision : ℕ
  pub status : PendingStatus
  pub type : PendingType
  pub node_id : String
  pub node_type : Option NodeType
  pub title : Option String
  pub url : Option String
  pub parent : Option ParentRefWire
  pub before_id : Option String
  pub browser_id : Option String
  pub browser_parent_id : Option String
  pub target_space_id : Option String
  pub target_parent : Option ParentRefWire
  pub keep_resolved : Bool
  pub result : Option OpResult
  pub created_at : ℕ

abbrev pub is_resolved : PendingStatus → Bool
is_resolved PendingStatus.resolved = true
is_resolved _ = false

unfoldable pub is_unsettled_op : PendingOpRecord → Bool
is_unsettled_op o = not (is_resolved o.status)

-- An expectation; `id` is the key that the store gives it.
pub record ExpectedMutationRecord : Type 0 where
  pub id : ℕ
  pub binding_id : String
  pub revision : ℕ
  pub kind : OpType
  pub canonical_id : String
  pub browser_id : Option String
  pub parent_browser_id : Option String
  pub position : Option ℕ
  pub title : Option String
  pub url : Option String
  pub created_at : ℕ

pub record RemoteChangeRecord : Type 0 where
  pub id : String
  pub binding_id : String
  pub revision : ℕ
  pub type : OpType
  pub node_id : String
  pub payload : ChangePayload

pub data ReconType : Type 0 where
  initial full_resync mapping_lost : ReconType

pub data ReconState : Type 0 where
  running waiting_user completed failed : ReconState

pub data ReconPhase : Type 0 where
  prepare fetch snapshot analyze wait_user commit apply verify done : ReconPhase

pub record ReconProgress : Type 0 where
  pub matched : ℕ
  pub local_only : ℕ
  pub server_only : ℕ
  pub ambiguous : ℕ
  pub uploaded : ℕ
  pub applied : ℕ

pub record ReconSessionRecord : Type 0 where
  pub id : String
  pub binding_id : String
  pub type : ReconType
  pub state : ReconState
  pub phase : ReconPhase
  pub journal_floor : ℕ
  pub server_revision : ℕ
  pub progress : ReconProgress
  pub intent_reviewed : Bool
  pub server_session_id : Option String
  -- `driver: 'server'` is present
  pub server_driven : Bool
  pub server_phase : Option ReconciliationPhase
  pub plan_hash : Option String
  pub issues : List ReconciliationIssueWire
  pub local_refs : List (String × String)
  pub commit_revision : Option ℕ
  pub error : Option String
  pub created_at : ℕ
  pub updated_at : ℕ

pub record RunLockRecord : Type 0 where
  pub binding_id : String
  pub token : String
  pub taken_at : ℕ

pub data Level : Type 0 where
  debug info warn error : Level

-- The `data` of an event has no type in the source and is left out.
pub record DiagnosticEvent : Type 0 where
  pub id : ℕ
  pub ts : ℕ
  pub level : Level
  pub scope : String
  pub message : String

-- The tables that the sync engine reads and writes, with the next keys of the two that number their
-- rows, the host's clock and how many random ids were drawn from the host.
pub record PontisDb : Type 0 where
  pub bindings : List BindingRecord
  pub local_nodes : List LocalNodeRecord
  pub pending_ops : List PendingOpRecord
  pub expected_mutations : List ExpectedMutationRecord
  pub remote_changes : List RemoteChangeRecord
  pub recon_sessions : List ReconSessionRecord
  pub run_locks : List RunLockRecord
  pub diagnostics : List DiagnosticEvent
  pub next_expectation : ℕ
  pub next_diagnostic : ℕ
  pub now : ℕ
  pub drawn : ℕ

-- The primary keys.
abbrev pub binding_key : BindingRecord → String
binding_key b = b.id

abbrev pub local_key : LocalNodeRecord → String × String
local_key r = (r.binding_id, r.browser_id)

abbrev pub op_key : PendingOpRecord → String
op_key o = o.op_id

abbrev pub lock_key : RunLockRecord → String
lock_key l = l.binding_id

abbrev pub change_key : RemoteChangeRecord → String
change_key c = c.id

-- `s && …` on a text that may be absent: absent and empty are both false.
abbrev pub truthy : Option String → Bool
truthy none = false
truthy (some s) = not (s == "")

-- `a === b` where a side may be absent.
abbrev pub is_text : Option String → String → Bool
is_text none s = false
is_text (some t) s = t == s

abbrev pub same_text : Option String → Option String → Bool
same_text none none = true
same_text (some s) (some t) = s == t
same_text _ _ = false

abbrev pub is_open_state : ReconState → Bool
is_open_state ReconState.running = true
is_open_state ReconState.waiting_user = true
is_open_state _ = false

-- The index `[bindingId+state]` is read with RUNNING before WAITING_USER.
abbrev pub first_of_two {ℓ} : {A : Type ℓ} → Option A → Option A → Option A
first_of_two (some a) o = some a
first_of_two none o = o

abbrev pub is_running : ReconState → Bool
is_running ReconState.running = true
is_running _ = false

abbrev pub is_waiting : ReconState → Bool
is_waiting ReconState.waiting_user = true
is_waiting _ = false

unfoldable pub active_recon_session : PontisDb → String → Option ReconSessionRecord
active_recon_session db binding_id =
    first_of_two
      (find (λ (s : ReconSessionRecord). s.binding_id == binding_id && is_running s.state)
        db.recon_sessions)
      (find (λ (s : ReconSessionRecord). s.binding_id == binding_id && is_waiting s.state)
        db.recon_sessions)

-- The canonical side is a lookup index: the first row in the order of browser ids.
unfoldable pub find_mirror_by_canonical : PontisDb → String → String → Option LocalNodeRecord
find_mirror_by_canonical db binding_id canonical_id =
    find
      (λ (r : LocalNodeRecord). r.binding_id == binding_id && is_text r.canonical_id canonical_id)
      db.local_nodes
