-- ===== src/Approval/Engine.antt =====
-- governance/engine.rs: the data of the approval engine, and the start of an approval.
pub mod Execute
pub mod Wait
pub mod Sending
pub mod Once
pub mod Again
pub mod Starting
pub mod Polled
pub mod Waiting
use Prim.Native.String.{◌++◌}
use thoughtgate.Base.{
  ℕ, String, Option, none, some, List, [], ◌∷◌, Result, ok, err, if◌then◌else◌, str_eq, get_or,
}
use thoughtgate.Lifecycle.Config.{Environment}
use thoughtgate.Task.Status.{TaskStatus, display}
use thoughtgate.Task.Helpers.{seconds}
use thoughtgate.Task.Types.{
  Principal, Task, TaskId, ToolCallRequest, TimeoutAction, TaskError, Libraries, Clock,
}
use thoughtgate.Task.Store.State.{TaskStore}
use thoughtgate.Task.Store.Create.{create}
use thoughtgate.Task.Store.Changes.{transition, Outcome}
use thoughtgate.Governance.Gates.{ApprovalRequest, Started, Scheduler}
use thoughtgate.Governance.Gates
use thoughtgate.Approval.Pipeline.{PreHitlResult, PipelineError, pipeline_error_text}
use thoughtgate.Approval.Pipeline.Inspect.{pre_approval_amber}
use thoughtgate.Approval.Pipeline.Execute.{ApprovalPipeline}

pub record ApprovalEngineConfig : Type 0 where
  pub approval_timeout : ℕ
  pub on_timeout : TimeoutAction
  pub execution_timeout : ℕ

abbrev pub default_engine : ApprovalEngineConfig
default_engine = record {
  approval_timeout = seconds 600;
  on_timeout = TimeoutAction.deny;
  execution_timeout = seconds 30;
}

-- `.ok().and_then(parse).map(from_secs).unwrap_or`.
unfoldable pub env_secs : Environment → String → ℕ → ℕ
env_secs e name d = elim (e.var name) [
  | none ↦ seconds d
  | some s ↦ seconds (get_or (e.parse_u64 s) d)
]

abbrev pub timeout_action : (String → String) → Option String → TimeoutAction
timeout_action to_lowercase none = TimeoutAction.deny
timeout_action to_lowercase (some s) =
    if str_eq (to_lowercase s) "approve" then TimeoutAction.approve else TimeoutAction.deny

unfoldable pub engine_from_env : (String → String) → Environment → ApprovalEngineConfig
unfolding env_secs
engine_from_env to_lowercase e = record {
  approval_timeout = env_secs e "THOUGHTGATE_APPROVAL_TIMEOUT_SECS" 600;
  on_timeout = timeout_action to_lowercase (e.var "THOUGHTGATE_ON_TIMEOUT");
  execution_timeout = env_secs e "THOUGHTGATE_EXECUTION_TIMEOUT_SECS" 30;
}

pub data ApprovalEngineError : Type 0 where
  task_creation : (details : String) → ApprovalEngineError
  post_failed : (details : String) → ApprovalEngineError
  task_not_found : TaskId → ApprovalEngineError
  invalid_state : TaskId → TaskStatus → ApprovalEngineError
  internal : (details : String) → ApprovalEngineError

-- `Display`.
unfoldable pub engine_error_text : ApprovalEngineError → String
engine_error_text (task_creation details) = "Task creation failed: " ++ details
engine_error_text (post_failed details) = "Approval post failed: " ++ details
engine_error_text (task_not_found id) = "Task not found: " ++ id
engine_error_text (invalid_state id status) =
    "Task " ++ id ++ " in invalid state: " ++ display status
engine_error_text (internal details) = "Internal error: " ++ details

-- `From<TaskError>`; `error_text` prints an error of the store.
unfoldable pub from_task_error : (TaskError → String) → TaskError → ApprovalEngineError
from_task_error error_text (TaskError.not_found id) = task_not_found id
from_task_error error_text (TaskError.invalid_transition id from _) = invalid_state id from
from_task_error error_text other = internal (error_text other)

-- The engine, less its store and its set of running executions, which are the state below, and its
-- metrics and join handle.
pub record ApprovalEngine : Type 0 where
  pub scheduler : Scheduler
  pub pipeline : ApprovalPipeline
  pub config : ApprovalEngineConfig
  pub error_text : TaskError → String

pub record EngineState : Type 0 where
  pub task_store : TaskStore
  pub executing : List TaskId

-- What the start of an approval draws: identifiers and times.
pub record Arrival : Type 0 where
  pub task_id : TaskId
  pub now : ℕ
  pub waits : Clock
  pub correlation_id : String

abbrev pub Start : Type 0
Start = TaskStore × Result Started ApprovalEngineError

abbrev pub asked : Arrival → ToolCallRequest → Principal → List String → Task → ApprovalRequest
asked a request principal redact task = record {
  task_id = task.id;
  tool_name = request.name;
  tool_arguments = request.arguments;
  principal = principal;
  expires_at = task.expires_at;
  created_at = task.created_at;
  correlation_id = a.correlation_id;
  redact_fields = redact;
}

unfoldable pub submitted : Task → TaskStore → Result (Unit {0}) String → Start
submitted task s (err e) = (s, err (post_failed e))
submitted task s (ok _) = (
  s,
  ok (record {
    task_id = task.id;
    status = TaskStatus.input_required;
    poll_interval = task.poll_interval;
  }),
)

unfoldable pub waiting : ApprovalEngine → (Task → ApprovalRequest) → Task → Outcome → Start
waiting v ask task (s, err e) =
    (s, err (internal ("Failed to transition task: " ++ v.error_text e)))
waiting v ask task (s, ok _) = submitted task s (v.scheduler (ask task))

unfoldable pub created : ApprovalEngine → Clock → (Task → ApprovalRequest) → Outcome → Start
created v waits ask (s, err e) = (s, err (task_creation (v.error_text e)))
created v waits ask (s, ok task) =
    waiting v ask task (transition waits task.id TaskStatus.input_required none s)

unfoldable pub amber_passed :
    ApprovalEngine
    → Arrival
    → ToolCallRequest
    → Principal
    → Option ℕ
    → Option TimeoutAction
    → List String
    → TaskStore
    → Result PreHitlResult PipelineError
    → Start
amber_passed v a request principal workflow_timeout on_timeout redact s (err e) =
    (s, err (internal ("Pre-approval phase failed: " ++ pipeline_error_text v.pipeline.decimal e)))
amber_passed v a request principal workflow_timeout on_timeout redact s (ok pre) =
    created v a.waits (asked a request principal redact) (
      create v.pipeline.lib a.task_id a.now request pre.transformed_request principal
        (some (get_or workflow_timeout v.config.approval_timeout))
        (get_or on_timeout v.config.on_timeout) s)

unfoldable pub start_approval :
    ApprovalEngine
    → Arrival
    → ToolCallRequest
    → Principal
    → Option ℕ
    → Option TimeoutAction
    → List String
    → TaskStore
    → Start
start_approval v a request principal workflow_timeout on_timeout redact s =
    amber_passed v a request principal workflow_timeout on_timeout redact s (
      pre_approval_amber v.pipeline.lib v.pipeline.wire v.pipeline.config v.pipeline.inspectors
        request)

abbrev pub printed : Start → TaskStore × Result Started String
printed (s, ok r) = (s, ok r)
printed (s, err e) = (s, err (engine_error_text e))

-- The engine as the evaluator's gate 4 takes it.
unfoldable pub as_gate : ApprovalEngine → Arrival → Gates.ApprovalEngine
unfolding engine_error_text
as_gate v a request principal workflow_timeout on_timeout redact s =
    printed (start_approval v a request principal workflow_timeout on_timeout redact s)
