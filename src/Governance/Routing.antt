-- ===== src/Governance/Routing.antt =====
-- governance/evaluator.rs: `start_approval`, `evaluate_cedar` and `evaluate_with_principal`.
use Prim.Native.String.{◌++◌}
use thoughtgate.Base.{
  String, Bool, true, false, not, ◌||◌, Option, none, some, if◌then◌else◌, str_eq, get_or,
}
use thoughtgate.Task.Types.{Principal}
use thoughtgate.Task.Store.State.{TaskStore}
use thoughtgate.Governance.Schema.{
  Glob, Config, Source, Action, MatchResult, HumanWorkflow, get_source, get_workflow, expose,
  is_visible, evaluate,
}
use thoughtgate.Governance.Evaluator.{
  MessageType, StreamDirection, DenySource, GovernanceEvaluateRequest, EvalTrace, empty_trace,
  forward_with, deny_with, method_requires_gates, extract_resource_name, extract_arguments,
}
use thoughtgate.Governance.Gates.{
  CedarResource, CedarRequest, CedarDecision, Evaluator, Draws, Answer, is_development, approval_by,
}

unfoldable pub cedar_resource : GovernanceEvaluateRequest → String → CedarResource
cedar_resource req resource_name =
    if str_eq req.method "tools/call"
    then CedarResource.tool_call resource_name req.server_id (extract_arguments req.params)
    else CedarResource.mcp_method req.method req.server_id

unfoldable pub cedar_request :
    GovernanceEvaluateRequest → String → String → Principal → CedarRequest
unfolding cedar_resource
cedar_request req resource_name pid principal = record {
  app_name = principal.app_name;
  namespace = principal.namespace;
  service_account = principal.service_account;
  roles = principal.roles;
  resource = cedar_resource req resource_name;
  policy_id = pid;
  source_id = req.server_id;
}

abbrev pub gate2_outcome : Action → String
gate2_outcome Action.forward = "forward"
gate2_outcome Action.deny = "deny"
gate2_outcome Action.policy = "policy"
gate2_outcome Action.approve = "approve"

abbrev pub blocked : TaskStore → String → Answer
blocked s reason = (
  s,
  deny_with (some reason) none DenySource.visibility,
  record empty_trace { gate1 = some "block" },
)

abbrev pub is_request : MessageType → Bool
is_request MessageType.request = true
is_request _ = false

abbrev pub from_agent : StreamDirection → Bool
from_agent StreamDirection.agent_to_server = true
from_agent _ = false

module _ {ℓ} {P : Type ℓ} where
  abbrev workflow_of : Config P → Option String → Option HumanWorkflow
  workflow_of c none = none
  workflow_of c (some name) = get_workflow c name

  unfoldable pub start_approval :
      Draws
      → Evaluator P
      → GovernanceEvaluateRequest
      → String
      → Option String
      → Option String
      → Principal
      → EvalTrace
      → TaskStore
      → Answer
  unfolding approval_by
  start_approval w v req resource_name policy_id approval_workflow principal trace s =
      if is_development v.profile
      then (
        s,
        forward_with (
            some (
              "WOULD_REQUIRE_APPROVAL for '" ++ resource_name
              ++ "' — auto-forwarding in dev mode")),
        trace,
      )
      else approval_by w v.approval_engine v.scheduler req resource_name policy_id
          (workflow_of v.config approval_workflow) principal trace s

  -- What the decision of the Cedar engine leads to.
  unfoldable pub cedar_decided :
      Draws
      → Evaluator P
      → GovernanceEvaluateRequest
      → String
      → String
      → Option String
      → Principal
      → EvalTrace
      → TaskStore
      → CedarDecision
      → Answer
  unfolding start_approval
  cedar_decided w v req resource_name pid approval_workflow principal trace s CedarDecision.permit =
      start_approval w v req resource_name (some pid) approval_workflow principal
        (record trace { gate3 = some "allow" }) s
  cedar_decided w v req resource_name pid approval_workflow principal trace s
        (CedarDecision.forbid reason) =
      if is_development v.profile
      then (
        s,
        forward_with (some ("WOULD_DENY: Cedar forbid — " ++ reason)),
        record trace { gate3 = some "deny" },
      )
      else (
        s,
        deny_with (some reason) (some pid) DenySource.cedar_policy,
        record trace { gate3 = some "deny" },
      )

  unfoldable pub evaluate_cedar :
      Draws
      → Evaluator P
      → GovernanceEvaluateRequest
      → String
      → Option String
      → Option String
      → Principal
      → EvalTrace
      → TaskStore
      → Answer
  unfolding cedar_decided
  evaluate_cedar w v req resource_name policy_id approval_workflow principal trace s =
      let pid = get_or policy_id "default" in
      elim v.cedar_engine [
        | none ↦
            if is_development v.profile
            then (
              s,
              forward_with (some "No Cedar engine configured — forwarding in dev mode"),
              trace,
            )
            else (
              s,
              deny_with (some "Cedar engine not configured") none DenySource.cedar_policy,
              trace,
            )
        | some decide ↦
            cedar_decided w v req resource_name pid approval_workflow principal
              (record trace { gate3_policy_id = some pid }) s
              (decide (cedar_request req resource_name pid principal))
      ]

  unfoldable pub route :
      Draws
      → Evaluator P
      → GovernanceEvaluateRequest
      → String
      → MatchResult
      → Action
      → Principal
      → EvalTrace
      → TaskStore
      → Answer
  unfolding start_approval evaluate_cedar
  route w v req resource_name m Action.forward principal trace s = (s, forward_with none, trace)
  route w v req resource_name m Action.deny principal trace s = (
    s,
    deny_with (some ("Denied by governance rule for '" ++ resource_name ++ "'")) m.policy_id
        DenySource.governance_rule,
    trace,
  )
  route w v req resource_name m Action.policy principal trace s =
      evaluate_cedar w v req resource_name m.policy_id m.approval_workflow principal trace s
  route w v req resource_name m Action.approve principal trace s =
      start_approval w v req resource_name m.policy_id m.approval_workflow principal trace s

  module _ (g : Glob P) where
    unfoldable pub gate2 :
        Draws
        → Evaluator P
        → GovernanceEvaluateRequest
        → String
        → Principal
        → EvalTrace
        → TaskStore
        → Answer
    unfolding route
    gate2 w v req resource_name principal trace s =
        let m = evaluate g v.config.governance resource_name req.server_id in
        route w v req resource_name m m.action principal
          (record trace { gate2_rule_id = m.matched_rule; gate2 = some (gate2_outcome m.action) }) s

    unfoldable pub gate1 :
        Draws
        → Evaluator P
        → GovernanceEvaluateRequest
        → String
        → Principal
        → TaskStore
        → Option (Source P)
        → Answer
    unfolding gate2
    gate1 w v req resource_name principal s none =
        blocked s ("Source '" ++ req.server_id ++ "' not found in configuration")
    gate1 w v req resource_name principal s (some source) =
        if not source.enabled
        then blocked s ("Source '" ++ req.server_id ++ "' is disabled")
        else if not (is_visible g (expose source) resource_name)
        then blocked s
            ("Resource '" ++ resource_name ++ "' not exposed on source '" ++ req.server_id ++ "'")
        else gate2 w v req resource_name principal (record empty_trace { gate1 = some "pass" }) s

    unfoldable pub evaluate_with_principal :
        Draws → Evaluator P → GovernanceEvaluateRequest → Option Principal → TaskStore → Answer
    unfolding gate1
    evaluate_with_principal w v req principal_override s =
        if not (is_request req.message_type) || not (from_agent req.direction)
        then (s, forward_with none, empty_trace)
        else if not (method_requires_gates req.method)
        then (s, forward_with none, empty_trace)
        else elim (extract_resource_name req.method req.params) [
          | none ↦ (s, forward_with none, empty_trace)
          | some resource_name ↦
              gate1 w v req resource_name (get_or principal_override v.principal) s
                (get_source v.config req.server_id)
        ]
