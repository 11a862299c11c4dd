-- ===== src/Task/Methods.antt =====
-- The methods of `Principal` and `Task` in thoughtgate-core/src/governance/task/types.rs. A method
-- that mutates the task returns the new task and its result.
use Prim.Native.String.{◌++◌}
use thoughtgate.Base.{
  ℕ, ◌+◌, ◌-◌, ◌*◌, get_or, String, Bool, Option, none, some, [], ◌∷◌, leb, ltb, not, if◌then◌else◌,
  Result, ok, err,
}
use mathlib.Core.List.{◌++◌ as append}
use thoughtgate.Task.Status.{TaskStatus, is_terminal, can_transition_to, status_eq}
use thoughtgate.Task.Types.{
  Principal, Task, TaskId, ToolCallRequest, TimeoutAction, Libraries, TaskError, TaskTransition,
  Clock,
}
use thoughtgate.Task.Helpers.{compute_poll_interval, hash_request, seconds}

key_of : String → Option String → Option String → String
key_of app (some user) (some session) = app ++ ":" ++ user ++ ":" ++ session
key_of app (some user) none = app ++ ":" ++ user
key_of app none (some session) = app ++ "::" ++ session
key_of app none none = app

unfoldable pub rate_limit_key : Principal → String
unfolding key_of
rate_limit_key p = key_of p.app_name p.user_id p.session_id

unfoldable pub is_expired : ℕ → Task → Bool
is_expired now t = ltb t.expires_at now

-- The duration between two times is not negative where it is taken, so `to_std` succeeds.
unfoldable pub remaining_ttl : ℕ → Task → ℕ
remaining_ttl now t = if leb t.expires_at now then 0 else t.expires_at - now

unfoldable pub transition :
    Clock → TaskStatus → Option String → Task → Task × Result (Unit {0}) TaskError
unfolding remaining_ttl
transition c new_status reason t =
    if is_terminal t.status
    then (t, err (TaskError.already_terminal t.id t.status))
    else if not (can_transition_to t.status new_status)
    then (t, err (TaskError.invalid_transition t.id t.status new_status))
    else (
      record t {
        transitions = append t.transitions (entry ∷ []);
        status = new_status;
        poll_interval = compute_poll_interval (remaining_ttl c.polled t);
      },
      ok tt,
    )
  where
    entry : TaskTransition
    entry = record { from = t.status; to = new_status; at = c.recorded; reason = reason }

unfoldable pub transition_if :
    Clock → TaskStatus → TaskStatus → Option String → Task → Task × Result (Unit {0}) TaskError
unfolding transition
transition_if c expected_status new_status reason t =
    if not (status_eq t.status expected_status)
    then (t, err (TaskError.concurrent_modification t.id expected_status t.status))
    else transition c new_status reason t

abbrev thirty_days : ℕ
thirty_days = seconds (30 * 86400)

-- `Task::new`. `id` is what `TaskId::new` draws, and `now` the reading of the clock.
unfoldable pub new :
    Libraries
    → TaskId
    → ℕ
    → ToolCallRequest
    → ToolCallRequest
    → Principal
    → ℕ
    → TimeoutAction
    → Result Task String
new lib id now original_request pre_approval_transformed principal ttl on_timeout =
    elim (hash_request lib pre_approval_transformed) [
      | err e ↦ err e
      | ok request_hash ↦ ok (record {
        id = id;
        original_request = original_request;
        pre_approval_transformed = pre_approval_transformed;
        request_hash = request_hash;
        principal = principal;
        created_at = now;
        ttl = ttl;
        expires_at = now + get_or (lib.from_std ttl) thirty_days;
        poll_interval = compute_poll_interval ttl;
        status = TaskStatus.working;
        status_message = none;
        transitions = [];
        approval = none;
        result = none;
        failure = none;
        on_timeout = on_timeout;
      })
    ]
