-- ===== src/Governance/Decisions.antt =====
-- What the gates of governance/evaluator.rs forward.
use thoughtgate.Base.{
  String, Bool, true, false, ◌&&◌, Option, none, some, ◌≡◌, refl, arith, Result, ok, err,
  if◌then◌else◌, ◌∙◌,
}
use thoughtgate.Task.Types.{Principal, Task, TaskError, TimeoutAction}
use thoughtgate.Task.Helpers.{seconds}
use thoughtgate.Task.Store.Create.{create}
use thoughtgate.Task.Store.Changes.{transition}
use thoughtgate.Task.Status.{TaskStatus}
use thoughtgate.Task.Store.State.{TaskStore}
use thoughtgate.Governance.Schema.{
  Glob, Source, Action, MatchResult, HumanWorkflow, get_source, expose, is_visible, evaluate,
}
use thoughtgate.Governance.Evaluator.{
  Profile, GovernanceDecision, GovernanceEvaluateRequest, EvalTrace, forward_with, deny_with,
  pending_with, method_requires_gates, extract_resource_name,
}
use thoughtgate.Governance.Gates.{
  CedarDecision, ApprovalEngine, Scheduler, ApprovalRequest, Started, Evaluator, Draws, Answer,
  is_development, engine_answer, legacy_pending, legacy_submitted, legacy_waiting, legacy_created,
  approval_by, asking, tool_request_of, workflow_timeout, workflow_on_timeout, workflow_redact,
  default_approval_ttl_secs,
}
use thoughtgate.Governance.Routing.{
  start_approval, cedar_decided, evaluate_cedar, route, gate1, gate2, is_request, from_agent,
  evaluate_with_principal,
}

abbrev pub is_forward : GovernanceDecision → Bool
is_forward GovernanceDecision.forward = true
is_forward _ = false

abbrev forwarded : Answer → Bool
forwarded a = is_forward a.1.decision

-- Which answers of the rules forward a call: in production `Forward` alone, in development all but
-- `Deny`.
abbrev pub forwards : Profile → Action → Bool
forwards Profile.production Action.forward = true
forwards Profile.production _ = false
forwards Profile.development Action.deny = false
forwards Profile.development _ = true

engine_answer-not_forwarded :
    (policy_id : Option String) (trace : EvalTrace) (r : TaskStore × Result Started String)
    → forwarded (engine_answer policy_id trace r) ≡ false
unfolding engine_answer pending_with deny_with
engine_answer-not_forwarded policy_id trace (s, ok r) = refl
engine_answer-not_forwarded policy_id trace (s, err e) = refl

legacy_waiting-not_forwarded :
    (w : Draws) (o : Option Scheduler) (ask : Task → ApprovalRequest) (p : Option String)
    (trace : EvalTrace) (task : Task) (r : TaskStore × Result Task TaskError)
    → forwarded (legacy_waiting w o ask p trace task r) ≡ false
unfolding legacy_waiting legacy_submitted legacy_pending pending_with deny_with
legacy_waiting-not_forwarded w o ask p trace task (s, err e) = refl
legacy_waiting-not_forwarded w none ask p trace task (s, ok t) = refl
legacy_waiting-not_forwarded w (some submit) ask p trace task (s, ok t) = ground arith

legacy_created-not_forwarded :
    (w : Draws) (o : Option Scheduler) (ask : Task → ApprovalRequest) (p : Option String)
    (trace : EvalTrace) (r : TaskStore × Result Task TaskError)
    → forwarded (legacy_created w o ask p trace r) ≡ false
unfolding legacy_created deny_with
legacy_created-not_forwarded w o ask p trace (s, err e) = refl
legacy_created-not_forwarded w o ask p trace (s, ok task) =
    legacy_waiting-not_forwarded w o ask p trace task
      (transition w.waits task.id TaskStatus.input_required none s)

approval_by-not_forwarded :
    (w : Draws) (e : Option ApprovalEngine) (o : Option Scheduler) (req : GovernanceEvaluateRequest)
    (n : String) (p : Option String) (wf : Option HumanWorkflow) (principal : Principal)
    (trace : EvalTrace) (s : TaskStore)
    → forwarded (approval_by w e o req n p wf principal trace s) ≡ false
unfolding approval_by
approval_by-not_forwarded w (some start) o req n p wf principal trace s =
    engine_answer-not_forwarded p trace (
      start (tool_request_of req n) principal (workflow_timeout wf) (workflow_on_timeout wf)
        (workflow_redact wf) s)
approval_by-not_forwarded w none o req n p wf principal trace s =
    legacy_created-not_forwarded w o (asking w req n principal (workflow_redact wf)) p trace (
      create w.lib w.task_id w.now (tool_request_of req n) (tool_request_of req n) principal
        (some (seconds default_approval_ttl_secs)) TimeoutAction.deny s)

forwards-approval :
    (p : Profile)
    → (is_development p ≡ forwards p Action.policy) × (is_development p ≡ forwards p Action.approve)
unfolding is_development
forwards-approval Profile.production = (refl, refl)
forwards-approval Profile.development = (refl, refl)

forwards-plain :
    (p : Profile) → (true ≡ forwards p Action.forward) × (false ≡ forwards p Action.deny)
forwards-plain Profile.production = (refl, refl)
forwards-plain Profile.development = (refl, refl)

module _ {ℓ} {P : Type ℓ} where
  start_approval-forwarded :
      (w : Draws) (v : Evaluator P) (req : GovernanceEvaluateRequest) (n : String)
      (p wf : Option String) (principal : Principal) (trace : EvalTrace) (s : TaskStore)
      → forwarded (start_approval w v req n p wf principal trace s) ≡ is_development v.profile
  unfolding start_approval forward_with
  start_approval-forwarded w v req n p wf principal trace s =
      grind (arith, approval_by-not_forwarded)

  cedar_decided-forwarded :
      (w : Draws) (v : Evaluator P) (req : GovernanceEvaluateRequest) (n pid : String)
      (wf : Option String) (principal : Principal) (trace : EvalTrace) (s : TaskStore)
      (d : CedarDecision)
      → forwarded (cedar_decided w v req n pid wf principal trace s d) ≡ is_development v.profile
  unfolding cedar_decided forward_with deny_with
  cedar_decided-forwarded w v req n pid wf principal trace s CedarDecision.permit =
      start_approval-forwarded w v req n (some pid) wf principal _ s
  cedar_decided-forwarded w v req n pid wf principal trace s (CedarDecision.forbid reason) =
      ground arith

  evaluate_cedar-forwarded :
      (w : Draws) (v : Evaluator P) (req : GovernanceEvaluateRequest) (n : String)
      (p wf : Option String) (principal : Principal) (trace : EvalTrace) (s : TaskStore)
      → forwarded (evaluate_cedar w v req n p wf principal trace s) ≡ is_development v.profile
  unfolding evaluate_cedar forward_with deny_with
  evaluate_cedar-forwarded w v req n p wf principal trace s = grind (arith, cedar_decided-forwarded)

  route-forwarded :
      (w : Draws) (v : Evaluator P) (req : GovernanceEvaluateRequest) (n : String) (m : MatchResult)
      (a : Action) (principal : Principal) (trace : EvalTrace) (s : TaskStore)
      → forwarded (route w v req n m a principal trace s) ≡ forwards v.profile a
  unfolding route forward_with deny_with
  route-forwarded w v req n m Action.forward principal trace s = (forwards-plain v.profile).0
  route-forwarded w v req n m Action.deny principal trace s = (forwards-plain v.profile).1
  route-forwarded w v req n m Action.policy principal trace s =
      evaluate_cedar-forwarded w v req n m.policy_id m.approval_workflow principal trace s
      ∙ (forwards-approval v.profile).0
  route-forwarded w v req n m Action.approve principal trace s =
      start_approval-forwarded w v req n m.policy_id m.approval_workflow principal trace s
      ∙ (forwards-approval v.profile).1

  module _ (g : Glob P) where
    -- What a call of this name is forwarded by: a source that is configured, enabled and exposes it,
    -- and the answer of the rules.
    abbrev pub passes : Evaluator P → String → String → Option (Source P) → Bool
    passes v server_id name none = false
    passes v server_id name (some source) =
        source.enabled
        && is_visible g (expose source) name
        && forwards v.profile (evaluate g v.config.governance name server_id).action

    gate1-forwarded :
        (w : Draws) (v : Evaluator P) (req : GovernanceEvaluateRequest) (n : String)
        (principal : Principal) (s : TaskStore) (o : Option (Source P))
        → forwarded (gate1 g w v req n principal s o) ≡ passes v req.server_id n o
    unfolding gate1 gate2 deny_with
    gate1-forwarded w v req n principal s none = refl
    gate1-forwarded w v req n principal s (some source) = grind (arith, route-forwarded)

    -- The name that the gates look at: that of a request of the agent for a governed method.
    abbrev pub governed_name : GovernanceEvaluateRequest → Option String
    governed_name req =
        if is_request req.message_type
          && from_agent req.direction
          && method_requires_gates req.method
        then extract_resource_name req.method req.params
        else none

    pub evaluate_with_principal-passes :
        (w : Draws) (v : Evaluator P) (req : GovernanceEvaluateRequest)
        (principal_override : Option Principal) (s : TaskStore)
        → is_forward (evaluate_with_principal g w v req principal_override s).1.decision
          ≡ elim (governed_name req) [
            | none ↦ true
            | some name ↦ passes v req.server_id name (get_source v.config req.server_id)
          ]
    unfolding evaluate_with_principal forward_with
    evaluate_with_principal-passes w v req principal_override s = grind (arith, gate1-forwarded)
