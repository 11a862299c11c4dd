-- ===== src/Proxy/Mcp/Governed.antt =====
-- Which calls of the agent the proxy sends on: mcp_handler/mod.rs, with cedar_eval.rs where there is no
-- configuration.
use thoughtgate.Base.{
  String, Bool, true, false, Option, none, some, Result, ok, err, map, ◌≡◌, refl, Option-cases, inl,
  inr,
}
use thoughtgate.Errors.{ThoughtGateError}
use thoughtgate.Governance.Schema.{Glob, Config}
use thoughtgate.Governance.Evaluator.{method_requires_gates, extract_resource_name}
use thoughtgate.Governance.Gates.{CedarDecision}
use thoughtgate.Transport.{McpRequest}
use thoughtgate.Transport.Governed.{route-policy_evaluation}
use thoughtgate.Proxy.TaskMethods.{PolicyPrincipal}
use thoughtgate.Proxy.Mcp.{McpState, Live, Call}
use thoughtgate.Proxy.Mcp.Cedar.{evaluate_with_cedar, cedar_request_of, decided, evaluated}
use thoughtgate.Proxy.Mcp.Gates.{route_through_gates}
use thoughtgate.Proxy.Mcp.Routing.{policed, route_to, route_request}
use thoughtgate.Proxy.Mcp.Passing.{wire, once_if, admits_by, configured-sent}

abbrev pub permits : CedarDecision → Bool
permits CedarDecision.permit = true
permits (CedarDecision.forbid reason) = false

module _ {ℓ} {P : Type ℓ} where
  -- Without a configuration the Cedar engine alone decides, for a caller that can be inferred.
  abbrev pub permits_caller :
      McpState P → McpRequest → String → Result PolicyPrincipal ThoughtGateError → Bool
  permits_caller v r name (err e) = false
  permits_caller v r name (ok p) = permits (v.cedar_engine (cedar_request_of r name "default" p))

  abbrev pub permits_name : McpState P → Call → McpRequest → Option String → Bool
  permits_name v w r none = false
  permits_name v w r (some name) = permits_caller v r name w.inferred

  decided-sent :
      (v : McpState P) (w : Call) (s : Live) (r : McpRequest) (name : String) (d : CedarDecision)
      → map wire (decided v w s r name none d).1 ≡ once_if (permits d) r
  decided-sent v w s r name CedarDecision.permit = refl
  decided-sent v w s r name (CedarDecision.forbid reason) = refl

  evaluated-sent :
      (v : McpState P) (w : Call) (s : Live) (r : McpRequest) (name : String)
      (p : Result PolicyPrincipal ThoughtGateError)
      → map wire (evaluated v w s r name none p).1 ≡ once_if (permits_caller v r name p) r
  evaluated-sent v w s r name (err e) = refl
  evaluated-sent v w s r name (ok p) =
      decided-sent v w s r name (v.cedar_engine (cedar_request_of r name "default" p))

  named-sent :
      (v : McpState P) (w : Call) (s : Live) (r : McpRequest)
      → method_requires_gates r.method ≡ true
      → map wire (evaluate_with_cedar v w s r none).1
        ≡ once_if (permits_name v w r (extract_resource_name r.method r.params)) r
  unfolding evaluate_with_cedar
  named-sent v w s r governed =
      rw governed (elim (Option-cases (extract_resource_name r.method r.params)) [
        | inl absent ↦ rw absent refl
        | inr (name, named) ↦ rw named (evaluated-sent v w s r name w.inferred)
      ])

  module _ (g : Glob P) where
    -- Whether a call is let on, with the configuration or without.
    abbrev pub admits : McpState P → Call → McpRequest → Option (Config P) → Bool
    admits v w r none = permits_name v w r (extract_resource_name r.method r.params)
    admits v w r (some c) = admits_by g v r v.evaluator (some c)

    -- A call of a governed method reaches the upstream exactly when it is let on, and then once, with
    -- the identifier, the method and the parameters that the agent sent. With a configuration it is let
    -- on when an evaluator is there, the call names a resource, it has task metadata or the proxy has
    -- an approval engine if its rule may need an approval, and the evaluator's gates pass it. Without a
    -- configuration it is let on when it names a resource, the caller can be inferred and the Cedar
    -- engine permits the call.
    pub route_request-admits :
        (v : McpState P) (w : Call) (s : Live) (r : McpRequest)
        → method_requires_gates r.method ≡ true
        → map wire (route_request g v w s r).1 ≡ once_if (admits v w r v.config) r
    unfolding route_request route_to route_through_gates
    route_request-admits v w s r governed =
        rw (route-policy_evaluation r governed) (by_config v.config refl)
      where
        by_config :
            (o : Option (Config P))
            → v.config ≡ o
            → map wire (policed g v w s r o).1 ≡ once_if (admits v w r o) r
        by_config none same = named-sent v w s r governed
        by_config (some c) same =
            rw governed (rw same (configured-sent g v w s r v.evaluator (some c) governed))
