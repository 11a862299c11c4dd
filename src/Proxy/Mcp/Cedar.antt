-- ===== src/Proxy/Mcp/Cedar.antt =====
-- thoughtgate-proxy/src/mcp_handler/cedar_eval.rs (`evaluate_with_cedar`), the evaluation without a
-- configuration, and `start_approval_flow` of gate_routing.rs, to which it leads with one.
use Prim.Native.String.{◌++◌}
use thoughtgate.Base.{
  String, not, Option, none, some, [], Result, ok, err, str_eq, get_or, if◌then◌else◌,
}
use thoughtgate.Errors.{ThoughtGateError, invalid_params, policy_denied, service_unavailable}
use thoughtgate.Task.Status.{display}
use thoughtgate.Task.Types.{JsonRpcId, ToolCallRequest}
use thoughtgate.Task.Store.State.{TaskStore}
use thoughtgate.Governance.Schema.{MatchResult, Config, HumanWorkflow, get_workflow}
use thoughtgate.Governance.Evaluator.{
  method_requires_gates, extract_resource_name, extract_arguments,
}
use thoughtgate.Governance.Gates.{
  CedarResource, CedarRequest, CedarDecision, workflow_timeout, workflow_on_timeout,
  workflow_redact,
}
use thoughtgate.Approval.Engine.{ApprovalEngine, Start, start_approval, engine_error_text}
use thoughtgate.Transport.{McpRequest}
use thoughtgate.Transport.Response
use thoughtgate.Proxy.TaskMethods.{PolicyPrincipal, caller_of}
use thoughtgate.Proxy.Mcp.{McpState, Live, Call, Answered, Step, forward, source_id, missing_field}

abbrev pub missing : String → ThoughtGateError
missing method =
    invalid_params
      ("Missing required field '" ++ missing_field method ++ "' in " ++ method ++ " params")

unfoldable pub tool_request : McpRequest → String → ToolCallRequest
tool_request request tool_name = record {
  method = request.method;
  name = tool_name;
  arguments = extract_arguments request.params;
  mcp_request_id = get_or request.id JsonRpcId.null;
}

abbrev pub cedar_resource_of : McpRequest → String → CedarResource
cedar_resource_of request resource_name =
    if str_eq request.method "tools/call"
    then CedarResource.tool_call resource_name source_id (extract_arguments request.params)
    else CedarResource.mcp_method request.method source_id

abbrev pub policy_of : Option MatchResult → String
policy_of none = "default"
policy_of (some m) = get_or m.policy_id "default"

unfoldable pub cedar_request_of : McpRequest → String → String → PolicyPrincipal → CedarRequest
cedar_request_of request resource_name policy_id p = record {
  app_name = p.app_name;
  namespace = p.namespace;
  service_account = p.service_account;
  roles = p.roles;
  resource = cedar_resource_of request resource_name;
  policy_id = policy_id;
  source_id = source_id;
}

abbrev pub with_store : Live → TaskStore → Live
with_store s t = record s { engine = record s.engine { task_store = t } }

module _ {ℓ} {P : Type ℓ} where
  abbrev pub started : McpState P → Live → McpRequest → Start → Step Answered
  started v s request (t, err e) = (
    with_store s t,
    [],
    err (service_unavailable ("Failed to start approval: " ++ engine_error_text e)),
  )
  started v s request (t, ok r) = (
    with_store s t,
    [],
    ok (
        Response.task_created v.reader.numbers request.id r.task_id (display r.status)
          r.poll_interval (some "Awaiting human approval")),
  )

  abbrev pub workflow_in : Option (Config P) → Option String → Option HumanWorkflow
  workflow_in (some c) (some name) = get_workflow c name
  workflow_in _ _ = none

  abbrev pub flow_by :
      McpState P
      → Call
      → Live
      → McpRequest
      → String
      → Option HumanWorkflow
      → ApprovalEngine
      → Result PolicyPrincipal ThoughtGateError
      → Step Answered
  flow_by v w s request tool_name workflow engine (err e) = (s, [], err e)
  flow_by v w s request tool_name workflow engine (ok p) = started v s request (
      start_approval engine w.arrival (tool_request request tool_name) (caller_of p)
        (workflow_timeout workflow) (workflow_on_timeout workflow) (workflow_redact workflow)
        s.engine.task_store)

  unfoldable pub start_approval_flow :
      McpState P → Call → Live → McpRequest → String → MatchResult → Step Answered
  unfolding start_approval tool_request Response.task_created
  start_approval_flow v w s request tool_name m = elim v.tasks.approval_engine [
    | none ↦ (s, [], err (service_unavailable "Approval engine not configured"))
    | some engine ↦
        flow_by v w s request tool_name (workflow_in v.config m.approval_workflow) engine w.inferred
  ]

  -- What a decision leads to: with an answer of the rules to the approval, without to the upstream.
  abbrev pub permitted :
      McpState P → Call → Live → McpRequest → String → Option MatchResult → Step Answered
  permitted v w s request resource_name none = forward v s request
  permitted v w s request resource_name (some m) = start_approval_flow v w s request resource_name m

  abbrev pub decided :
      McpState P
      → Call
      → Live
      → McpRequest
      → String
      → Option MatchResult
      → CedarDecision
      → Step Answered
  decided v w s request resource_name m CedarDecision.permit =
      permitted v w s request resource_name m
  decided v w s request resource_name m (CedarDecision.forbid reason) =
      (s, [], err (policy_denied resource_name (some (policy_of m)) (some reason)))

  abbrev pub evaluated :
      McpState P
      → Call
      → Live
      → McpRequest
      → String
      → Option MatchResult
      → Result PolicyPrincipal ThoughtGateError
      → Step Answered
  evaluated v w s request resource_name m (err e) = (s, [], err e)
  evaluated v w s request resource_name m (ok p) =
      decided v w s request resource_name m
        (v.cedar_engine (cedar_request_of request resource_name (policy_of m) p))

  unfoldable pub evaluate_with_cedar :
      McpState P → Call → Live → McpRequest → Option MatchResult → Step Answered
  unfolding start_approval_flow cedar_request_of
  evaluate_with_cedar v w s request m =
      if not (method_requires_gates request.method)
      then forward v s request
      else elim (extract_resource_name request.method request.params) [
        | none ↦ (s, [], err (missing request.method))
        | some resource_name ↦ evaluated v w s request resource_name m w.inferred
      ]
