-- ===== src/Proxy/Mcp/Gates.antt =====
-- thoughtgate-proxy/src/mcp_handler/gate_routing.rs: `route_through_gates`.
use thoughtgate.Base.{ℕ, ◌*◌, String, Bool, true, false, Option, none, some, [], ok, err, get_or}
use thoughtgate.Errors.{
  ThoughtGateError, service_unavailable, tool_not_exposed, governance_rule_denied, policy_denied,
}
use thoughtgate.Task.Types.{Principal}
use thoughtgate.Task.Helpers.{seconds}
use thoughtgate.Governance.Schema.{
  Glob, Config, MatchResult, HumanWorkflow, evaluate, get_workflow, blocking_timeout_or_default,
}
use thoughtgate.Governance.Evaluator.{
  MessageType, StreamDirection, DenySource, GovernanceDecision, GovernanceEvaluateRequest,
  GovernanceEvaluateResponse, extract_resource_name,
}
use thoughtgate.Governance.Gates.{Evaluator, Answer}
use thoughtgate.Governance.Routing.{evaluate_with_principal}
use thoughtgate.Approval.Engine.{ApprovalEngine}
use thoughtgate.Transport.{McpRequest, is_some}
use thoughtgate.Transport.Response
use thoughtgate.Proxy.TaskMethods.{PolicyPrincipal, caller_of}
use thoughtgate.Proxy.Mcp.{
  McpState, Live, Call, GateResult, immediate, blocking_approval, Answered, Step, forward,
  source_id,
}
use thoughtgate.Proxy.Mcp.Capabilities.{validate_task_metadata, Validated}
use thoughtgate.Proxy.Mcp.Cedar.{missing, with_store}

-- An immediate result.
abbrev pub at_once : Step Answered → Step GateResult
at_once (s, sent, r) = (s, sent, immediate r)

abbrev pub refused : Live → ThoughtGateError → Step GateResult
refused s e = (s, [], immediate (err e))

unfoldable pub deny_error : String → GovernanceEvaluateResponse → ThoughtGateError
deny_error resource_name r = elim r.deny_source [
  | none ↦ policy_denied resource_name r.policy_id r.reason
  | some d ↦ elim d [
    | DenySource.visibility ↦ tool_not_exposed resource_name source_id
    | DenySource.governance_rule ↦ governance_rule_denied resource_name r.reason
    | DenySource.cedar_policy ↦ policy_denied resource_name r.policy_id r.reason
  ]
]

abbrev pub principal_of : Option PolicyPrincipal → Option Principal
principal_of none = none
principal_of (some p) = some (caller_of p)

abbrev pub millis : ℕ → ℕ
millis ms = ms * 1_000_000

module _ {ℓ} {P : Type ℓ} where
  unfoldable pub governance_request : McpState P → McpRequest → GovernanceEvaluateRequest
  governance_request v request = record {
    server_id = source_id;
    direction = StreamDirection.agent_to_server;
    method = request.method;
    id = request.id;
    params = request.params;
    message_type = MessageType.request;
    profile = v.profile;
  }

  abbrev pub timeout_of : McpState P → Option HumanWorkflow → ℕ
  timeout_of v none = seconds v.blocking_approval_timeout_secs
  timeout_of v (some w) = blocking_timeout_or_default w

  abbrev pub workflow_named : Config P → Option String → Option HumanWorkflow
  workflow_named c none = none
  workflow_named c (some name) = get_workflow c name

  unfoldable pub blocking_timeout : McpState P → Config P → MatchResult → ℕ
  blocking_timeout v c m = timeout_of v (workflow_named c m.approval_workflow)

  abbrev pub pending :
      McpState P
      → Config P
      → MatchResult
      → Live
      → McpRequest
      → String
      → Bool
      → GovernanceEvaluateResponse
      → Option ApprovalEngine
      → Step GateResult
  pending v c m s request resource_name true r none =
      refused s (service_unavailable "Approval engine not available for blocking mode")
  pending v c m s request resource_name true r (some engine) = (
    s,
    [],
    blocking_approval (record {
      approval_engine = engine;
      task_id = get_or r.task_id "";
      resource_name = resource_name;
      request_id = request.id;
      blocking_timeout = blocking_timeout v c m;
      poll_interval = millis (get_or r.poll_interval_ms 1000);
    }),
  )
  pending v c m s request resource_name false r o = (
    s,
    [],
    immediate (
        ok (
          Response.task_created v.reader.numbers request.id (get_or r.task_id "") "working"
            (millis (get_or r.poll_interval_ms 1000)) (some "Awaiting human approval"))),
  )

  -- The state has the store that the evaluation leaves.
  unfoldable pub act_on :
      McpState P
      → Config P
      → MatchResult
      → Live
      → McpRequest
      → String
      → Bool
      → GovernanceDecision
      → GovernanceEvaluateResponse
      → Step GateResult
  unfolding deny_error blocking_timeout Response.task_created
  act_on v c m s request resource_name blocking GovernanceDecision.forward r =
      at_once (forward v s request)
  act_on v c m s request resource_name blocking GovernanceDecision.deny r =
      refused s (deny_error resource_name r)
  act_on v c m s request resource_name blocking GovernanceDecision.pending_approval r =
      pending v c m s request resource_name blocking r v.tasks.approval_engine

  abbrev pub acted :
      McpState P
      → Config P
      → MatchResult
      → Live
      → McpRequest
      → String
      → Bool
      → Answer
      → Step GateResult
  acted v c m s request resource_name blocking (t, r, trace) =
      act_on v c m (with_store s t) request resource_name blocking r.decision r

  module _ (g : Glob P) where
    abbrev pub validated :
        McpState P
        → Call
        → Live
        → Evaluator P
        → Config P
        → MatchResult
        → String
        → Validated
        → Step GateResult
    validated v w s e c m resource_name (request, err x) = refused s x
    validated v w s e c m resource_name (request, ok blocking) =
        acted v c m s request resource_name blocking (
          evaluate_with_principal g w.draws e (governance_request v request)
            (principal_of w.optional_principal) s.engine.task_store)

    abbrev pub for_resource :
        McpState P
        → Call
        → Live
        → Evaluator P
        → Config P
        → McpRequest
        → Option String
        → Step GateResult
    for_resource v w s e c request none = refused s (missing request.method)
    for_resource v w s e c request (some resource_name) =
        let m = evaluate g c.governance resource_name source_id in
        validated v w s e c m resource_name (
          validate_task_metadata request m.action resource_name
            s.capability_cache.upstream_supports_tasks (is_some v.tasks.approval_engine))

    abbrev pub configured :
        McpState P
        → Call
        → Live
        → McpRequest
        → Option (Evaluator P)
        → Option (Config P)
        → Step GateResult
    configured v w s request none o = refused s (service_unavailable "Evaluator not configured")
    configured v w s request (some e) none =
        refused s (service_unavailable "Configuration not loaded")
    configured v w s request (some e) (some c) =
        for_resource v w s e c request (extract_resource_name request.method request.params)

    unfoldable pub route_through_gates : McpState P → Call → Live → McpRequest → Step GateResult
    unfolding validate_task_metadata governance_request act_on
    route_through_gates v w s request = configured v w s request v.evaluator v.config
