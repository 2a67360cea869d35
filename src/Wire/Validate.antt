-- ===== src/Wire/Validate.antt =====
-- extension/src/core/protocol/validate.ts: the checks of a parsed body. A body that passes is
-- returned as it is, so that a check says only whether it passes, and else the message.
pub mod Accepted
pub mod Bodies
use pontis.Base.{String, Bool, true, false, not, Option, none, some, if◌then◌else◌}
use Prim.Native.String
use pontis.Wire.Json.{Json, Items, Fields, member, is_object}

pub data Check : Type 0 where
  fine : Check
  refused : String → Check

-- A statement after another one that may throw.
abbrev pub and_also : Check → Check → Check
and_also Check.fine c = c
and_also (Check.refused message) c = Check.refused message

abbrev pub quoted : String → String → String → String
quoted before name after =
    String.◌++◌ before (String.◌++◌ "\"" (String.◌++◌ name (String.◌++◌ "\"" after)))

-- `Number.isFinite` and `JSON.stringify` are the host's.
module _ {Number : Type 0} (is_finite : Number → Bool)
    (stringify : Option (Json Number) → String) where
  abbrev pub message_of : String → String → String → Option (Json Number) → String
  message_of subject name wanted v =
      String.◌++◌ (quoted subject name (String.◌++◌ " must be " wanted))
        (String.◌++◌ ", got " (stringify v))

  abbrev pub require_array : Option (Json Number) → String → Check
  require_array (some (Json.array xs)) name = Check.fine
  require_array v name = Check.refused (message_of "sync response field " name "an array" v)

  abbrev pub require_number : Option (Json Number) → String → Check
  require_number (some (Json.number n)) name =
      if is_finite n
      then Check.fine
      else Check.refused (message_of "sync response field " name "a number" (some (Json.number n)))
  require_number v name = Check.refused (message_of "sync response field " name "a number" v)

  abbrev pub require_bool : Option (Json Number) → Check
  require_bool (some (Json.bool b)) = Check.fine
  require_bool v = Check.refused "sync response field \"has_more\" must be a boolean"

  abbrev pub require_string : Option (Json Number) → String → Check
  require_string (some (Json.text s)) name = Check.fine
  require_string v name = Check.refused (message_of "field " name "a string" v)

  -- A field that may be left out.
  abbrev pub optional_string : Option (Json Number) → String → Check
  optional_string none name = Check.fine
  optional_string (some v) name = require_string (some v) name

  -- `objectAt`, and what is done with its answer.
  abbrev pub with_object : Option (Json Number) → String → (Json Number → Check) → Check
  with_object none name f = Check.refused (message_of "field " name "an object" none)
  with_object (some v) name f =
      if is_object v then f v else Check.refused (message_of "field " name "an object" (some v))

  -- `for (const x of value)`, after `requireArray`.
  abbrev pub each_item : (Json Number → Check) → Items Number → Check
  each_item f Items.nil = Check.fine
  each_item f (Items.item x xs) = let rest = each_item f xs in and_also (f x) rest

  abbrev pub items_of : Option (Json Number) → Items Number
  items_of (some (Json.array xs)) = xs
  items_of v = Items.nil

  abbrev pub require_each : Option (Json Number) → String → (Json Number → Check) → Check
  require_each v name f = and_also (require_array v name) (each_item f (items_of v))

  abbrev pub check_change : Json Number → Check
  check_change c =
      if is_object c then Check.fine else Check.refused "sync response contains a non-object change"

  abbrev pub check_sync_fields : Json Number → Check
  check_sync_fields j = and_also (require_number (member j "protocol_version") "protocol_version") (
      and_also (require_number (member j "epoch") "epoch") (
        and_also (require_number (member j "from_revision") "from_revision") (
          and_also (require_number (member j "through_revision") "through_revision") (
            and_also (require_number (member j "server_revision") "server_revision") (
              and_also (require_bool (member j "has_more")) (
                and_also (require_array (member j "operation_results") "operation_results")
                  (require_each (member j "changes") "changes" check_change)))))))

  unfoldable pub parse_sync_response : Json Number → Check
  parse_sync_response j =
      if is_object j
      then check_sync_fields j
      else Check.refused (String.◌++◌ "sync response must be an object, got " (stringify (some j)))

  abbrev pub require_nodes : Option (Json Number) → Check
  require_nodes (some (Json.array xs)) = Check.fine
  require_nodes v = Check.refused "snapshot response field \"nodes\" must be an array"

  unfoldable pub parse_snapshot_response : Json Number → Check
  parse_snapshot_response j =
      if is_object j
      then and_also (require_number (member j "epoch") "epoch") (
          and_also (require_number (member j "snapshot_revision") "snapshot_revision")
            (require_nodes (member j "nodes")))
      else Check.refused
          (String.◌++◌ "snapshot response must be an object, got " (stringify (some j)))

  abbrev pub check_session : Json Number → Check
  check_session s = and_also (require_string (member s "id") "session.id") (
      and_also (require_string (member s "state") "session.state") (
        and_also (optional_string (member s "phase") "session.phase")
          (require_number (member s "commit_revision") "session.commit_revision")))

  abbrev pub check_issue : Json Number → Check
  check_issue raw = with_object (some raw) "issue" λ issue.
      and_also (require_string (member issue "id") "issue.id") (
        with_object (member issue "payload") "issue.payload" λ payload.
          and_also (require_string (member payload "source_ref") "issue.payload.source_ref")
            (require_array (member payload "candidates") "issue.payload.candidates"))

  abbrev pub check_plan : Json Number → Check
  check_plan p = and_also (require_string (member p "plan_hash") "plan.plan_hash") (
      and_also
        (with_object (member p "stats") "plan.stats"
          λ stats. require_number (member stats "creates") "plan.stats.creates")
        (require_array (member p "warnings") "plan.warnings"))

  abbrev pub optional_plan : Option (Json Number) → Check
  optional_plan none = Check.fine
  optional_plan (some p) = with_object (some p) "plan" check_plan

  unfoldable pub parse_reconciliation_envelope : Json Number → Check
  parse_reconciliation_envelope j = with_object (some j) "reconciliation response" λ body.
      and_also (with_object (member body "session") "session" check_session) (
        and_also (require_each (member body "issues") "issues" check_issue)
          (optional_plan (member body "plan")))

  abbrev pub check_step : Json Number → Check
  check_step raw =
      with_object (some raw) "step" λ step. require_string (member step "kind") "step.kind"

  unfoldable pub parse_steps : Json Number → Check
  parse_steps j = with_object (some j) "steps response" λ body.
      and_also (require_string (member body "plan_hash") "plan_hash")
        (require_each (member body "steps") "steps" check_step)

  unfoldable pub parse_server_snapshot : Json Number → Check
  parse_server_snapshot j = with_object (some j) "server snapshot" λ body.
      and_also (require_string (member body "snapshot_id") "snapshot_id") (
        and_also (require_number (member body "node_count") "node_count")
          (require_string (member body "checksum") "checksum"))

  abbrev pub check_node_fields : Json Number → Check
  check_node_fields node =
      and_also (require_string (member node "node_ref") "node_ref")
        (require_string (member node "type") "type")

  abbrev pub check_node : Json Number → Check
  check_node raw = with_object (some raw) "node" check_node_fields

  abbrev pub check_page : Json Number → Check
  check_page body = and_also (require_number (member body "total") "total") (
      and_also (require_string (member body "next_cursor") "next_cursor")
        (require_each (member body "nodes") "nodes" check_node))

  unfoldable pub parse_server_snapshot_page : Json Number → Check
  parse_server_snapshot_page j = with_object (some j) "server snapshot page" check_page
