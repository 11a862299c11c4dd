-- ===== src/Approval/Engine/Execute.antt =====
-- governance/engine.rs: `execute_on_result` and what it calls. A call reads the store and takes its
-- place in the set of running executions; then the pipeline runs, while other threads act on the state
-- (`meanwhile`), and the result is recorded in the state that they leave. They may act between the
-- reading and the taking of the place, too (`after_read`).
use Prim.Native.String.{◌++◌}
use thoughtgate.Base.{
  ℕ, ◌+◌, String, Bool, true, false, not, ◌||◌, Option, none, some, List, [], ◌∷◌, any, filter,
  Result, ok, err, if◌then◌else◌, str_eq, get_or,
}
use thoughtgate.Base.Int.{minus}
use thoughtgate.Base.Texts.{contains}
use thoughtgate.Errors
use thoughtgate.Errors.{ThoughtGateError}
use thoughtgate.Json.{object, string, bool, field, end}
use thoughtgate.Task.Status.{TaskStatus}
use thoughtgate.Task.Helpers.{as_secs}
use thoughtgate.Task.Types.{
  Task, TaskId, ToolCallResult, ApprovalRecord, ApprovalDecision, FailureStage, FailureInfo,
  TimeoutAction, TaskError, Clock,
}
use thoughtgate.Task.Store.State.{TaskStore}
use thoughtgate.Task.Store.Changes.{complete, fail, record_auto_approve_result}
use thoughtgate.Task.Store.Queries
use thoughtgate.Approval.Pipeline.{PipelineResult, success, failure, McpRequest}
use thoughtgate.Approval.Pipeline.Execute.{execute_approved}
use thoughtgate.Approval.Engine.{ApprovalEngine, EngineState}

abbrev pub Reply : Type 0
Reply = Result ToolCallResult ThoughtGateError

-- The state after a call, what was sent to the upstream, and the answer.
abbrev pub Executed : Type 0
Executed = EngineState × List McpRequest × Reply

-- Whether the execution ends before its timer; a pipeline that is cut off may have sent its request.
pub data Timer : Type 0 where
  in_time : Timer
  elapsed : (was_sent : Bool) → Timer

-- What a call meets from outside: the times that it reads, its timer, and what others do meanwhile.
pub record Moment : Type 0 where
  pub now : ℕ
  pub approved_at : ℕ
  pub recorded_at : ℕ
  pub ends : Clock
  pub timer : Timer
  pub after_read : EngineState → EngineState
  pub meanwhile : EngineState → EngineState

unfoldable pub is_executing : TaskId → List TaskId → Bool
is_executing id l = any (λ j. str_eq j id) l

-- `DashSet::remove`, by the guard's `Drop`.
unfoldable pub release : TaskId → EngineState → EngineState
release id s = record s { executing = filter (λ j. not (str_eq j id)) s.executing }

abbrev pub acquire : TaskId → EngineState → EngineState
acquire id s = record s { executing = id ∷ s.executing }

abbrev unavailable : String → Reply
unavailable reason = err (Errors.service_unavailable reason)

unfoldable pub map_pipeline_failure :
    ApprovalEngine → FailureStage → String → Task → ThoughtGateError
map_pipeline_failure v FailureStage.approval_timeout reason task =
    Errors.approval_timeout task.original_request.name (as_secs v.config.approval_timeout) none
map_pipeline_failure v FailureStage.approval_rejected reason task =
    Errors.approval_rejected task.original_request.name
      (elim task.approval [ none ↦ none | some a ↦ some a.decided_by ]) none
map_pipeline_failure v FailureStage.policy_drift reason task =
    Errors.policy_drift task.original_request.name task.id
map_pipeline_failure v FailureStage.transform_drift reason task =
    Errors.transform_drift task.original_request.name task.id
map_pipeline_failure v FailureStage.upstream_error reason task =
    if contains "timeout" reason || contains "timed out" reason
    then Errors.upstream_timeout "unknown" (as_secs v.config.execution_timeout)
    else Errors.upstream_error (minus 32002) reason
map_pipeline_failure v _ reason task = Errors.service_unavailable reason

-- The store after a result is recorded; an error of the store is only logged.
unfoldable pub handle_pipeline_result :
    ApprovalEngine → Clock → PipelineResult → TaskId → Task → TaskStore → TaskStore × Reply
unfolding map_pipeline_failure
handle_pipeline_result v ends (success result) id task s =
    ((complete ends id result s).0, ok result)
handle_pipeline_result v ends (failure stage reason retriable) id task s = (
  (fail ends id (record { stage = stage; reason = reason; retriable = retriable }) s).0,
  err (map_pipeline_failure v stage reason task),
)

abbrev pub cut : Bool → List McpRequest → List McpRequest
cut true calls = calls
cut false calls = []

unfoldable pub run_pipeline_with_timeout :
    ApprovalEngine → Moment → Task → ApprovalRecord → List McpRequest × PipelineResult
run_pipeline_with_timeout v m task approval =
    let run = execute_approved v.pipeline m.now task approval in
    elim m.timer [
      | in_time ↦ run
      | elapsed was_sent ↦ (
        cut was_sent run.0,
        failure FailureStage.upstream_error
            ("Pipeline execution timed out after "
              ++ v.pipeline.decimal (as_secs v.config.execution_timeout)
              ++ "s")
            true,
      )
    ]

unfoldable pub synthetic_approval : ApprovalEngine → ℕ → ApprovalRecord
synthetic_approval v now = record {
  decision = ApprovalDecision.approved;
  decided_by = "system:auto-approve";
  decided_at = now;
  approval_valid_until = now + get_or (v.pipeline.lib.from_std v.config.execution_timeout) 0;
  metadata = some (
      object (
        field "auto_approve" (bool true)
          (field "reason" (string "timeout with on_timeout: approve") end)));
}

-- What is recorded of an automatic approval; an error of the store is only logged.
unfoldable pub auto_approve_result :
    ApprovalEngine → Moment → TaskId → PipelineResult → TaskStore → TaskStore × Reply
unfolding synthetic_approval
auto_approve_result v m id (success result) s = (
  (record_auto_approve_result m.recorded_at id result (synthetic_approval v m.approved_at) s).0,
  ok result,
)
auto_approve_result v m id (failure stage reason retriable) s =
    (s, unavailable ("Auto-approved task execution failed: " ++ reason))

abbrev auto_timed_out : ApprovalEngine → Reply
auto_timed_out v = unavailable (
    "Auto-approved task execution timed out after "
    ++ v.pipeline.decimal (as_secs v.config.execution_timeout)
    ++ "s")

-- The result goes into the store that the others have left, and the place in the set is given back.
abbrev pub finish :
    TaskId → EngineState → List McpRequest → (TaskStore → TaskStore × Reply) → Executed
finish id later calls recording =
    let recorded = recording later.task_store in
    (release id (record later { task_store = recorded.0 }), calls, recorded.1)

abbrev pub in_progress : EngineState → Executed
in_progress s = (s, [], unavailable "Task execution already in progress")

unfoldable pub auto_approve : ApprovalEngine → Moment → TaskId → Task → EngineState → Executed
auto_approve v m id task s =
    let later = m.meanwhile (acquire id s) in
    let run =
      execute_approved v.pipeline m.now (record task { status = TaskStatus.executing })
        (synthetic_approval v m.approved_at) in
    if is_executing id s.executing then in_progress s else elim m.timer [
      | in_time ↦ finish id later run.0 (auto_approve_result v m id run.1)
      | elapsed was_sent ↦ finish id later (cut was_sent run.0) λ t. (t, auto_timed_out v)
    ]

unfoldable pub handle_expired_task :
    ApprovalEngine → Moment → TaskId → Task → EngineState → TimeoutAction → Executed
handle_expired_task v m id task s TimeoutAction.deny =
    (s, [], err (Errors.approval_timeout task.original_request.name (as_secs task.ttl) none))
handle_expired_task v m id task s TimeoutAction.approve = auto_approve v m id task s

unfoldable pub execute_with :
    ApprovalEngine → Moment → TaskId → Task → EngineState → Option ApprovalRecord → Executed
execute_with v m id task s none =
    finish id (acquire id s) [] λ t. (t, unavailable "Task approved but no approval record")
execute_with v m id task s (some approval) =
    let run = run_pipeline_with_timeout v m task approval in
    finish id (m.meanwhile (acquire id s)) run.0 (handle_pipeline_result v m.ends run.1 id task)

unfoldable pub execute_executing : ApprovalEngine → Moment → TaskId → Task → EngineState → Executed
execute_executing v m id task s =
    if is_executing id s.executing then in_progress s else execute_with v m id task s task.approval

abbrev pub failed_reply : Option FailureInfo → Reply
failed_reply none = unavailable "Task failed"
failed_reply (some f) = unavailable f.reason

abbrev completed_reply : Option ToolCallResult → Reply
completed_reply none = unavailable "Task completed but no result available"
completed_reply (some r) = ok r

unfoldable pub by_status :
    ApprovalEngine → Moment → TaskId → Task → EngineState → TaskStatus → Executed
by_status v m id task s TaskStatus.input_required = (s, [], err (Errors.task_result_not_ready id))
by_status v m id task s TaskStatus.working = (s, [], err (Errors.task_result_not_ready id))
by_status v m id task s TaskStatus.executing = execute_executing v m id task s
by_status v m id task s TaskStatus.rejected = (
  s,
  [],
  err (
      Errors.approval_rejected task.original_request.name
        (elim task.approval [ none ↦ none | some a ↦ some a.decided_by ]) none),
)
by_status v m id task s TaskStatus.expired = handle_expired_task v m id task s task.on_timeout
by_status v m id task s TaskStatus.failed = (s, [], failed_reply task.failure)
by_status v m id task s TaskStatus.cancelled = (s, [], err (Errors.task_cancelled id))
by_status v m id task s TaskStatus.completed = (s, [], completed_reply task.result)

unfoldable pub get_error : ApprovalEngine → TaskError → ThoughtGateError
get_error v (TaskError.not_found id) = Errors.task_not_found id
get_error v other = Errors.service_unavailable (v.error_text other)

unfoldable pub with_task :
    ApprovalEngine → Moment → TaskId → EngineState → Result Task TaskError → Executed
with_task v m id s (err e) = (s, [], err (get_error v e))
with_task v m id s (ok task) = by_status v m id task (m.after_read s) task.status

unfoldable pub execute_on_result : ApprovalEngine → Moment → TaskId → EngineState → Executed
execute_on_result v m id s = with_task v m id s (Queries.get id s.task_store)
