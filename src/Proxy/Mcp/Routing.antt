-- ===== src/Proxy/Mcp/Routing.antt =====
-- `route_request` of thoughtgate-proxy/src/mcp_handler/mod.rs: every request of the agent, to the part
-- that serves it.
use thoughtgate.Base.{Option, none, some, Result, ok, err, get_or, map, if◌then◌else◌}
use thoughtgate.Errors.{ThoughtGateError}
use thoughtgate.Json.{Value, object, end}
use thoughtgate.Governance.Schema.{Glob, Config}
use thoughtgate.Governance.Evaluator.{method_requires_gates}
use thoughtgate.Transport.{McpRequest}
use thoughtgate.Transport.Response
use thoughtgate.Transport.Router.{
  RouteTarget, policy_evaluation, task_handler, pass_through, initialize_handler, route,
}
use thoughtgate.Proxy.TaskMethods.{Served, handle_task_method}
use thoughtgate.Proxy.Mcp.{
  McpState, Live, Call, executed, GateResult, Answered, Step, forward, is_list_method,
}
use thoughtgate.Proxy.Mcp.Capabilities.{handle_initialize_method, handle_list_method}
use thoughtgate.Proxy.Mcp.Cedar.{evaluate_with_cedar}
use thoughtgate.Proxy.Mcp.Gates.{at_once, route_through_gates}

abbrev pub answered : McpRequest → Result Value ThoughtGateError → Answered
answered request (ok v) = ok (Response.success request.id v)
answered request (err e) = err e

abbrev pub serve : Live → McpRequest → Served → Step Answered
serve s request (engine, calls, r) =
    (record s { engine = engine }, map executed calls, answered request r)

module _ {ℓ} {P : Type ℓ} (g : Glob P) where
  abbrev pub policed : McpState P → Call → Live → McpRequest → Option (Config P) → Step GateResult
  policed v w s request none = at_once (evaluate_with_cedar v w s request none)
  policed v w s request (some c) =
      if method_requires_gates request.method
      then route_through_gates g v w s request
      else if is_list_method request.method
      then at_once (handle_list_method g v s request)
      else at_once (forward v s request)

  unfoldable pub route_to : McpState P → Call → Live → RouteTarget → Step GateResult
  unfolding evaluate_with_cedar route_through_gates is_list_method handle_list_method
      handle_initialize_method Response.success
  route_to v w s (policy_evaluation request) = policed v w s request v.config
  route_to v w s (task_handler method request) = at_once (
      serve s request
        (handle_task_method v.tasks w.visit method (get_or request.params (object end)) s.engine))
  route_to v w s (initialize_handler request) = at_once (handle_initialize_method v s request)
  route_to v w s (pass_through request) = at_once (forward v s request)

  unfoldable pub route_request : McpState P → Call → Live → McpRequest → Step GateResult
  unfolding route_to
  route_request v w s request = route_to v w s (route request)
