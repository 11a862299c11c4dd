-- ===== src/Tests/Store.antt =====
-- The task store at concrete inputs.
use thoughtgate.Base.{◌≤◌, ◌≡◌, refl, ◌⊎◌, String, none, some, [], ok, arith, str_eq}
use mathlib.Core.List.{◌∷◌, ◌++◌}
use thoughtgate.Base.Dict.{lookup, total, insert}
use thoughtgate.Json.{Value}
use thoughtgate.Task.Status.{
  TaskStatus, is_terminal, can_transition_to, from_str, to_sep1686, to_wire, wire_is_terminal,
  status_eq,
}
use thoughtgate.Task.Status.Machine.{StatusPath, step, is_terminal-final, StatusPath-le-three}
use thoughtgate.Task.Status.Machine
use thoughtgate.Task.Status.Wire.{from_str-to_sep1686}
use thoughtgate.Task.Types.{
  Task, Principal, ToolCallRequest, JsonRpcId, TimeoutAction, TaskTransition, Libraries, Clock,
}
use thoughtgate.Task.Helpers.{hash_request, compute_poll_interval, sort_fields}
use thoughtgate.Task.Methods
use thoughtgate.Task.Methods.{rate_limit_key}
use thoughtgate.Task.Store.State.{
  TaskStoreConfig, TaskStore, TaskEntry, new, principal_count, default_config, settle,
}
use thoughtgate.Task.Store.Create.{create, estimate, reserve, admit, clamp, enter}
use thoughtgate.Task.Store.Changes.{transition, conclude, cancel, conclude_terminal}
use thoughtgate.Task.Store.Sweeps.{fail_all_pending}
use thoughtgate.Task.Store.Invariant.{Inv, IsSized, pending_weight, key_weight, bytes_weight}
use thoughtgate.Task.Store.History.{
  Operation, creates, transitions, cancels, run, Reach, start, next, Reach-Inv,
}
use thoughtgate.Task.Store.Limits.{Reach-limits}
use thoughtgate.Task.Store.Lifetimes.{run-terminal}
use thoughtgate.Task.Store.Shutdown.{HasStatus, fail_all_pending_statuses}

abbrev pub lib : Libraries
lib = record { json_text = λ v. some "null"; sha256_hex = λ s. s; from_std = λ d. some d }

abbrev pub config : TaskStoreConfig
config = default_config none

abbrev request : ToolCallRequest
request = record {
  method = "tools/call";
  name = "delete_user";
  arguments = Value.null;
  mcp_request_id = JsonRpcId.null;
}

abbrev pub agent : Principal
agent = record {
  app_name = "agent";
  user_id = none;
  session_id = none;
  namespace = "default";
  service_account = "default";
  roles = [];
}

abbrev pub clock : Clock
clock = record { recorded = 5; polled = 6; ended = 7 }

abbrev creation : Operation
creation = creates lib "tg_1" 3 request request agent none TimeoutAction.deny

abbrev created : TaskStore
created = run creation (new config)

config-IsSized : IsSized config
config-IsSized = omega arith

created_reached : Reach config created
unfolding new lookup estimate
created_reached = next start creation (refl, omega arith)

asking : Operation
asking = transitions clock "tg_1" TaskStatus.input_required none

asked : TaskStore
asked = run asking created

asked_reached : Reach config asked
unfolding asked asking
asked_reached = next created_reached asking tt

Reach-Inv_example : Inv asked
Reach-Inv_example = Reach-Inv config-IsSized asked_reached

Reach-limits_example :
    (total pending_weight asked.tasks ≤ 1000)
    × ((key : String) → total (key_weight key) asked.tasks ≤ 10)
    × (total bytes_weight asked.tasks ≤ 268_435_456)
Reach-limits_example = Reach-limits config-IsSized asked_reached

-- The task after it was created and asks for approval.
asked_task : Task
asked_task = record {
  id = "tg_1";
  original_request = request;
  pre_approval_transformed = request;
  request_hash = "tools/calldelete_usernull";
  principal = agent;
  created_at = 3;
  ttl = 600_000_000_000;
  expires_at = 600_000_000_003;
  poll_interval = 10_000_000_000;
  status = TaskStatus.input_required;
  status_message = none;
  transitions = entry ∷ [];
  approval = none;
  result = none;
  failure = none;
  on_timeout = TimeoutAction.deny;
}
  where
    entry : TaskTransition
    entry = record {
      from = TaskStatus.working;
      to = TaskStatus.input_required;
      at = 5;
      reason = none;
    }

abbrev asked_entry : TaskEntry
asked_entry = record { task = asked_task; terminal_at = none; notify = 0; estimated_bytes = 204 }

asked_lookup : lookup "tg_1" asked.tasks ≡ some asked_entry
unfolding asked asking asked_task run create new lookup insert principal_count rate_limit_key
    reserve admit enter estimate clamp hash_request compute_poll_interval sort_fields Methods.new
    Methods.transition transition conclude is_terminal can_transition_to str_eq
asked_lookup = refl

fail_all_pending_statuses_example :
    HasStatus
      (fail_all_pending (λ _. clock) "service_shutdown" asked).0
      "tg_1"
      TaskStatus.input_required
unfolding asked_task
fail_all_pending_statuses_example =
    fail_all_pending_statuses (λ _. clock) "service_shutdown" "tg_1" asked_entry config-IsSized
      asked_reached asked_lookup

cancelling : Operation
cancelling = cancels clock "tg_1"

cancelled : TaskStore
cancelled = run cancelling asked

cancelled_reached : Reach config cancelled
unfolding cancelled cancelling
cancelled_reached = next asked_reached cancelling tt

cancelled_task : Task
unfolding asked_task
cancelled_task = record asked_task {
  status = TaskStatus.cancelled;
  transitions = asked_task.transitions ++ entry ∷ [];
}
  where
    entry : TaskTransition
    entry = record {
      from = TaskStatus.input_required;
      to = TaskStatus.cancelled;
      at = 5;
      reason = some "Cancelled by agent";
    }

abbrev cancelled_entry : TaskEntry
cancelled_entry = record {
  task = cancelled_task;
  terminal_at = some 7;
  notify = 1;
  estimated_bytes = 204;
}

cancelled_lookup : lookup "tg_1" cancelled.tasks ≡ some cancelled_entry
unfolding cancelled cancelling cancelled_task asked asking asked_task run create new lookup insert
    principal_count rate_limit_key reserve admit enter estimate clamp hash_request
    compute_poll_interval sort_fields Methods.new Methods.transition transition conclude is_terminal
    can_transition_to str_eq cancel conclude_terminal settle status_eq
cancelled_lookup = refl

run-terminal_example :
    (lookup "tg_1" (run asking cancelled).tasks ≡ none)
    ⊎ ((e : TaskEntry) × (lookup "tg_1" (run asking cancelled).tasks ≡ some e)
        × (e.task.status ≡ TaskStatus.cancelled))
unfolding cancelled_task is_terminal asking
run-terminal_example =
    run-terminal asking "tg_1" cancelled_entry config-IsSized cancelled_reached tt cancelled_lookup
      refl

approved_path : StatusPath TaskStatus.working TaskStatus.completed 3
unfolding can_transition_to
approved_path =
    step {t = TaskStatus.executing}
      (step {t = TaskStatus.input_required} (step {t = TaskStatus.working} Machine.start refl) refl)
      refl

from_str-to_sep1686_example :
    (from_str (to_sep1686 TaskStatus.rejected) ≡ ok (to_wire TaskStatus.rejected))
    × (wire_is_terminal (to_wire TaskStatus.rejected) ≡ is_terminal TaskStatus.rejected)
from_str-to_sep1686_example = from_str-to_sep1686 TaskStatus.rejected
