-- ===== src/Governance/Gates.antt =====
-- governance/evaluator.rs: `GovernanceEvaluator`, the gates in their order.
use Prim.Native.String.{◌++◌}
use thoughtgate.Base.{
  ℕ, ◌/◌, ◌%◌, String, Bool, true, false, Option, none, some, List, [], Result, ok, err, get_or,
  usize_end,
}
use thoughtgate.Json.{Value}
use thoughtgate.Task.Status.{TaskStatus}
use thoughtgate.Task.Types.{
  Principal, Task, TaskId, ToolCallRequest, TimeoutAction, TaskError, JsonRpcId, Libraries, Clock,
}
use thoughtgate.Task.Helpers.{seconds, as_secs}
use thoughtgate.Task.Store.State.{TaskStore}
use thoughtgate.Task.Store.Create.{create}
use thoughtgate.Task.Store.Changes.{transition}
use thoughtgate.Task.Store.Queries
use thoughtgate.Governance.Schema.{Config, HumanWorkflow, timeout_or_default, on_timeout_or_default}
use thoughtgate.Governance.Evaluator.{
  Profile, DenySource, GovernanceEvaluateRequest, GovernanceEvaluateResponse, EvalTrace, deny_with,
  pending_with, extract_arguments,
}

pub data CedarResource : Type 0 where
  tool_call : (name : String) (server : String) (arguments : Value) → CedarResource
  mcp_method : (method : String) (server : String) → CedarResource

-- `CedarRequest` with the policy's principal; the time of its context is that of the evaluation.
pub record CedarRequest : Type 0 where
  pub app_name : String
  pub namespace : String
  pub service_account : String
  pub roles : List String
  pub resource : CedarResource
  pub policy_id : String
  pub source_id : String

pub data CedarDecision : Type 0 where
  permit : CedarDecision
  forbid : (reason : String) → CedarDecision

-- `ApprovalStartResult`.
pub record Started : Type 0 where
  pub task_id : TaskId
  pub status : TaskStatus
  pub poll_interval : ℕ

pub record ApprovalRequest : Type 0 where
  pub task_id : TaskId
  pub tool_name : String
  pub tool_arguments : Value
  pub principal : Principal
  pub expires_at : ℕ
  pub created_at : ℕ
  pub correlation_id : String
  pub redact_fields : List String

-- The interfaces of the components that the evaluator calls. The approval engine works on the same
-- store; an error is the text that it prints.
abbrev pub ApprovalEngine : Type 0
ApprovalEngine =
    ToolCallRequest
    → Principal
    → Option ℕ
    → Option TimeoutAction
    → List String
    → TaskStore
    → TaskStore × Result Started String

abbrev pub Scheduler : Type 0
Scheduler = ApprovalRequest → Result (Unit {0}) String

pub record Evaluator {ℓ} (P : Type ℓ) : Type ℓ where
  pub config : Config P
  pub cedar_engine : Option (CedarRequest → CedarDecision)
  pub principal : Principal
  pub profile : Profile
  pub scheduler : Option Scheduler
  pub approval_engine : Option ApprovalEngine

-- What an evaluation draws from outside: the identifier of a new task, the times, and how an error of
-- the store is printed.
pub record Draws : Type 0 where
  pub lib : Libraries
  pub task_id : TaskId
  pub now : ℕ
  pub waits : Clock
  pub created_at : ℕ
  pub fails : Clock
  pub error_text : TaskError → String

abbrev pub Answer : Type 0
Answer = TaskStore × GovernanceEvaluateResponse × EvalTrace

unfoldable pub is_development : Profile → Bool
is_development Profile.development = true
is_development Profile.production = false

-- `as_millis() as u64`.
abbrev pub as_millis : ℕ → ℕ
as_millis d = d / 1_000_000 % usize_end

abbrev pub default_approval_timeout : ℕ
default_approval_timeout = seconds 600

abbrev pub default_approval_ttl_secs : ℕ
default_approval_ttl_secs = 300

unfoldable pub task_timeout : TaskId → TaskStore → Option ℕ
unfolding Queries.get
task_timeout id s = elim (Queries.get id s) [ ok t ↦ some (as_secs t.ttl) | err _ ↦ none ]

-- What the approval engine's answer becomes.
unfoldable pub engine_answer :
    Option String → EvalTrace → TaskStore × Result Started String → Answer
unfolding task_timeout
engine_answer policy_id trace (s, ok r) = (
  s,
  pending_with r.task_id policy_id (as_millis r.poll_interval) (task_timeout r.task_id s),
  record trace { gate4 = some "started" },
)
engine_answer policy_id trace (s, err e) = (
  s,
  deny_with (some ("Approval workflow failed: " ++ e)) policy_id DenySource.governance_rule,
  trace,
)

-- The end of the path without an engine: five seconds is the `approval_poll_interval` of the defaults.
unfoldable pub legacy_pending : TaskId → Option String → EvalTrace → TaskStore → Answer
legacy_pending id policy_id trace s = (
  s,
  pending_with id policy_id (as_millis (seconds 5)) (some default_approval_ttl_secs),
  record trace { gate4 = some "started" },
)

unfoldable pub legacy_submitted :
    Draws → TaskId → Option String → EvalTrace → TaskStore → Result (Unit {0}) String → Answer
unfolding legacy_pending
legacy_submitted w id policy_id trace s (ok _) = legacy_pending id policy_id trace s
legacy_submitted w id policy_id trace s (err e) = (
  (transition w.fails id TaskStatus.failed (some ("Scheduler submission failed: " ++ e)) s).0,
  deny_with (some ("Approval submission failed: " ++ e)) policy_id DenySource.governance_rule,
  trace,
)

unfoldable pub legacy_waiting :
    Draws
    → Option Scheduler
    → (Task → ApprovalRequest)
    → Option String
    → EvalTrace
    → Task
    → TaskStore × Result Task TaskError
    → Answer
unfolding legacy_submitted legacy_pending
legacy_waiting w scheduler ask policy_id trace task (s, err e) = (
  s,
  deny_with (some ("Task transition failed: " ++ w.error_text e)) policy_id
      DenySource.governance_rule,
  trace,
)
legacy_waiting w none ask policy_id trace task (s, ok _) = legacy_pending task.id policy_id trace s
legacy_waiting w (some submit) ask policy_id trace task (s, ok _) =
    legacy_submitted w task.id policy_id trace s (submit (ask task))

unfoldable pub legacy_created :
    Draws
    → Option Scheduler
    → (Task → ApprovalRequest)
    → Option String
    → EvalTrace
    → TaskStore × Result Task TaskError
    → Answer
unfolding legacy_waiting
legacy_created w scheduler ask policy_id trace (s, err e) = (
  s,
  deny_with (some ("Failed to create approval task: " ++ w.error_text e)) policy_id
      DenySource.governance_rule,
  trace,
)
legacy_created w scheduler ask policy_id trace (s, ok task) =
    legacy_waiting w scheduler ask policy_id trace task
      (transition w.waits task.id TaskStatus.input_required none s)

-- The `ApprovalRequest` of a new task, less the context of its trace.
abbrev pub asking :
    Draws → GovernanceEvaluateRequest → String → Principal → List String → Task → ApprovalRequest
asking w req resource_name principal redact task = record {
  task_id = task.id;
  tool_name = resource_name;
  tool_arguments = extract_arguments req.params;
  principal = principal;
  expires_at = task.expires_at;
  created_at = w.created_at;
  correlation_id = task.id;
  redact_fields = redact;
}

abbrev pub tool_request_of : GovernanceEvaluateRequest → String → ToolCallRequest
tool_request_of req resource_name = record {
  method = req.method;
  name = resource_name;
  arguments = extract_arguments req.params;
  mcp_request_id = get_or req.id JsonRpcId.null;
}

-- The three settings of a workflow.
abbrev pub workflow_timeout : Option HumanWorkflow → Option ℕ
workflow_timeout none = none
workflow_timeout (some w) = some (timeout_or_default default_approval_timeout w)

abbrev pub workflow_on_timeout : Option HumanWorkflow → Option TimeoutAction
workflow_on_timeout none = none
workflow_on_timeout (some w) = some (on_timeout_or_default w)

abbrev pub workflow_redact : Option HumanWorkflow → List String
workflow_redact none = []
workflow_redact (some w) = get_or w.redact_fields []

unfoldable pub approval_by :
    Draws
    → Option ApprovalEngine
    → Option Scheduler
    → GovernanceEvaluateRequest
    → String
    → Option String
    → Option HumanWorkflow
    → Principal
    → EvalTrace
    → TaskStore
    → Answer
unfolding engine_answer legacy_created
approval_by w (some start) scheduler req resource_name policy_id wf principal trace s =
    engine_answer policy_id trace (
      start (tool_request_of req resource_name) principal (workflow_timeout wf)
        (workflow_on_timeout wf) (workflow_redact wf) s)
approval_by w none scheduler req resource_name policy_id wf principal trace s =
    legacy_created w scheduler (asking w req resource_name principal (workflow_redact wf)) policy_id
      trace
      (create w.lib w.task_id w.now (tool_request_of req resource_name)
        (tool_request_of req resource_name) principal (some (seconds default_approval_ttl_secs))
        TimeoutAction.deny s)
