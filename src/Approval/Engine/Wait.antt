-- ===== src/Approval/Engine/Wait.antt =====
-- governance/engine.rs: `wait_and_execute`, the loop of a call that waits for its approval. A round is
-- what the loop meets: the time at its test of the deadline, what others have done until it polls,
-- and the moment of the poll. The heartbeats of the loop are output and are left out.
use Prim.Native.String.{◌++◌}
use thoughtgate.Base.{
  ℕ, ◌+◌, String, true, Option, none, some, List, [], ◌∷◌, ok, err, leb, if◌then◌else◌,
}
use mathlib.Core.List.{◌++◌ as append}
use thoughtgate.Errors.{task_result_not_ready, approval_timeout}
use thoughtgate.Json.{object, array, string, field, end, cons, nil}
use thoughtgate.Task.Types.{TaskId, ToolCallResult}
use thoughtgate.Task.Helpers.{as_secs}
use thoughtgate.Approval.Pipeline.{McpRequest}
use thoughtgate.Approval.Engine.{ApprovalEngine, EngineState}
use thoughtgate.Approval.Engine.Execute.{Moment, Reply, Executed, execute_on_result}

pub record Round : Type 0 where
  pub tested_at : ℕ
  pub before_poll : EngineState → EngineState
  pub poll : Moment

-- The text that says that no response came: the result of the call, marked as an error.
unfoldable pub timed_out_result : (ℕ → String) → ℕ → String → ToolCallResult
timed_out_result decimal secs tool = record {
  content = array (
      cons
        (object (
          field "type" (string "text") (
            field "text"
              (string (
                "Approval timed out after "
                ++ decimal secs
                ++ "s for tool '"
                ++ tool
                ++ "'. The request was sent to the approval channel but no response was received. The tool call was NOT executed. You may retry."))
              end)))
        nil);
  is_error = true;
}

-- What a poll's answer leads to: `none` is to go on.
unfoldable pub poll_answer : (ℕ → String) → Reply → Option Reply
unfolding timed_out_result
poll_answer decimal (ok result) = some (ok result)
poll_answer decimal (err (task_result_not_ready _)) = none
poll_answer decimal (err (approval_timeout tool secs _)) =
    some (ok (timed_out_result decimal secs tool))
poll_answer decimal (err e) = some (err e)

-- The state after the loop, what was sent, and the answer, unless the rounds end before the loop does.
abbrev pub Waited : Type 0
Waited = EngineState × List McpRequest × Option Reply

abbrev pub after_poll : Executed → Option Reply → (EngineState → Waited) → Waited
after_poll (s, calls, _) (some answer) next = (s, calls, some answer)
after_poll (s, calls, _) none next = let rest = next s in (rest.0, append calls rest.1, rest.2)

unfoldable pub wait_loop : ApprovalEngine → TaskId → Reply → ℕ → List Round → EngineState → Waited
wait_loop v id at_timeout deadline [] s = (s, [], none)
wait_loop v id at_timeout deadline (r ∷ rounds) s =
    let polled = execute_on_result v r.poll id (r.before_poll s) in
    let next =
      after_poll polled (poll_answer v.pipeline.decimal polled.2)
        (wait_loop v id at_timeout deadline rounds) in
    if leb deadline r.tested_at then (s, [], some at_timeout) else next

-- `start` is the time of the call.
unfoldable pub wait_and_execute :
    ApprovalEngine → TaskId → String → ℕ → ℕ → List Round → EngineState → Waited
wait_and_execute v id tool_name start timeout rounds s =
    wait_loop v id (ok (timed_out_result v.pipeline.decimal (as_secs timeout) tool_name))
      (start + timeout) rounds s
