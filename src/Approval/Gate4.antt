-- ===== src/Approval/Gate4.antt =====
-- Gate 4 of governance/evaluator.rs with the engine of governance/engine.rs in its place.
use thoughtgate.Base.{String, Option, some, ok, err, ◌≡◌, refl, ◌⊎◌, inl, inr, ap}
use thoughtgate.Task.Types.{Principal, TaskId, ToolCallRequest}
use thoughtgate.Task.Store.State.{TaskStore}
use thoughtgate.Governance.Schema.{HumanWorkflow}
use thoughtgate.Governance.Evaluator.{
  GovernanceEvaluateRequest, GovernanceDecision, EvalTrace, deny_with, pending_with,
}
use thoughtgate.Governance.Gates.{
  Draws, Scheduler, Answer, approval_by, engine_answer, tool_request_of, workflow_timeout,
  workflow_on_timeout, workflow_redact,
}
use thoughtgate.Approval.Engine.{ApprovalEngine, Arrival, Start, printed, as_gate}
use thoughtgate.Approval.Engine.Starting.{IsWaiting, IsAccepted, Leaves, start_approval-Leaves}

-- An answer that denies the call, or that says which task waits for its approval.
abbrev pub Answers : ApprovalEngine → TaskId → ToolCallRequest → Answer → Type 0
Answers v id request (s, r, _) =
    (r.decision ≡ GovernanceDecision.deny)
    ⊎ ((r.decision ≡ GovernanceDecision.pending_approval)
        × (r.task_id ≡ some id)
        × IsWaiting v.pipeline id request s
        × IsAccepted v id request)

engine_answer-Answers :
    (v : ApprovalEngine) (id : TaskId) (request : ToolCallRequest) (policy_id : Option String)
    (trace : EvalTrace) (x : Start)
    → Leaves v id request x
    → Answers v id request (engine_answer policy_id trace (printed x))
unfolding engine_answer deny_with pending_with
engine_answer-Answers v id request policy_id trace (s, err e) left = inl refl
engine_answer-Answers v id request policy_id trace (s, ok r) (same, waits, accepted) =
    inr (refl, ap some same, waits, accepted)

-- In production, where the engine takes the place of gate 4, a call is denied, or the answer names the
-- new task: it waits in the store under this identifier, with the request of the agent, the request
-- that the inspectors made of it and the hash of that one, and the scheduler has accepted a post for it with the tool and the
-- arguments of the agent's request.
pub approval_by-Answers :
    (v : ApprovalEngine) (a : Arrival) (w : Draws) (scheduler : Option Scheduler)
    (req : GovernanceEvaluateRequest) (name : String) (policy_id : Option String)
    (wf : Option HumanWorkflow) (p : Principal) (trace : EvalTrace) (s : TaskStore)
    → Answers v a.task_id
        (tool_request_of req name)
        (approval_by w (some (as_gate v a)) scheduler req name policy_id wf p trace s)
unfolding approval_by as_gate
approval_by-Answers v a w scheduler req name policy_id wf p trace s =
    engine_answer-Answers v a.task_id (tool_request_of req name) policy_id trace _ (
      start_approval-Leaves v a (tool_request_of req name) p (workflow_timeout wf)
        (workflow_on_timeout wf) (workflow_redact wf) s)
