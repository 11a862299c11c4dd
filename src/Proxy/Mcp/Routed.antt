-- ===== src/Proxy/Mcp/Routed.antt =====
-- What routing a request keeps, and what it may wait for: mcp_handler/mod.rs, gate_routing.rs and
-- cedar_eval.rs.
use thoughtgate.Base.{
  ℕ, String, Bool, true, false, Option, none, some, Result, ok, err, ◌≡◌, inl, inr, refl, ap, subst,
  arith, Bool-cases, Option-cases,
}
use thoughtgate.Errors.{ThoughtGateError}
use thoughtgate.Task.Types.{JsonRpcId}
use thoughtgate.Governance.Schema.{Glob, Config, MatchResult, evaluate}
use thoughtgate.Governance.Evaluator.{
  GovernanceDecision, GovernanceEvaluateResponse, method_requires_gates, extract_resource_name,
}
use thoughtgate.Governance.Gates.{Evaluator, Answer, CedarDecision}
use thoughtgate.Governance.Routing.{evaluate_with_principal}
use thoughtgate.Approval.Engine.{ApprovalEngine}
use thoughtgate.Transport.{McpRequest, JsonRpcRequest, is_some, to_jsonrpc_request}
use thoughtgate.Transport.Router.{
  RouteTarget, policy_evaluation, task_handler, pass_through, initialize_handler, route, route_task,
}
use thoughtgate.Proxy.TaskMethods.{
  PolicyPrincipal, TaskMethod, list_tasks, get_task, task_result, cancel_task,
}
use thoughtgate.Proxy.Mcp.{
  McpState, Live, Call, GateResult, immediate, blocking_approval, Answered, Step, is_list_method,
  source_id,
}
use thoughtgate.Proxy.Mcp.Capabilities.{
  Validated, validate_task_metadata, after_initialize, handle_initialize_method, handle_list_method,
}
use thoughtgate.Proxy.Mcp.Cedar.{evaluate_with_cedar, decided, evaluated, cedar_request_of}
use thoughtgate.Proxy.Mcp.Gates.{
  pending, act_on, acted, validated, configured, route_through_gates, governance_request,
  principal_of, blocking_timeout,
}
use thoughtgate.Proxy.Mcp.Routing.{policed, route_to, route_request}
use thoughtgate.Proxy.Mcp.Passing.{validate_task_metadata-same}

-- What the bodies that are handled at once share.
abbrev pub load : Live → ℕ × ℕ
load s = (s.buffered_bytes, s.permits)

abbrev request_of : RouteTarget → McpRequest
request_of (policy_evaluation r) = r
request_of (task_handler m r) = r
request_of (pass_through r) = r
request_of (initialize_handler r) = r

route_task-request_of : (m : TaskMethod) (r : McpRequest) → request_of (route_task m r) ≡ r
route_task-request_of list_tasks r = refl
route_task-request_of get_task r = ground arith
route_task-request_of task_result r = ground arith
route_task-request_of cancel_task r = ground arith

route-request_of : (r : McpRequest) → request_of (route r) ≡ r
unfolding route
route-request_of r = grind (arith, route_task-request_of)

module _ {ℓ} {P : Type ℓ} (g : Glob P) (v : McpState P) where
  -- A wait is for the timeout of a workflow of the configuration, or for that of the proxy, and it
  -- answers the identifier of the request.
  abbrev pub Waits : Option JsonRpcId → GateResult → Type ℓ
  Waits id (immediate r) = Unit
  Waits id (blocking_approval b) =
      (c : Config P) × (m : MatchResult) × (v.config ≡ some c)
      × (b.blocking_timeout ≡ blocking_timeout v c m)
      × (b.request_id ≡ id)

  abbrev pub Routed : Option JsonRpcId → Live → Step GateResult → Type ℓ
  Routed id s x = (load x.0 ≡ load s) × Waits id x.2

  pending-Routed :
      (c : Config P) (m : MatchResult) (s : Live) (r : McpRequest) (name : String) (blocking : Bool)
      (x : GovernanceEvaluateResponse) (o : Option ApprovalEngine)
      → v.config ≡ some c
      → Routed r.id s (pending v c m s r name blocking x o)
  pending-Routed c m s r name true x none h = (refl, tt)
  pending-Routed c m s r name true x (some engine) h = (refl, (c, m, h, refl, refl))
  pending-Routed c m s r name false x o h = (refl, tt)

  act_on-Routed :
      (c : Config P) (m : MatchResult) (s : Live) (r : McpRequest) (name : String) (blocking : Bool)
      (d : GovernanceDecision) (x : GovernanceEvaluateResponse)
      → v.config ≡ some c
      → Routed r.id s (act_on v c m s r name blocking d x)
  unfolding act_on
  act_on-Routed c m s r name blocking GovernanceDecision.forward x h = (refl, tt)
  act_on-Routed c m s r name blocking GovernanceDecision.deny x h = (refl, tt)
  act_on-Routed c m s r name blocking GovernanceDecision.pending_approval x h =
      pending-Routed c m s r name blocking x v.tasks.approval_engine h

  acted-Routed :
      (c : Config P) (m : MatchResult) (s : Live) (r : McpRequest) (name : String) (blocking : Bool)
      (a : Answer)
      → v.config ≡ some c
      → Routed r.id s (acted v c m s r name blocking a)
  acted-Routed c m s r name blocking (t, x, trace) h =
      act_on-Routed c m _ r name blocking x.decision x h

  validated-Routed :
      (w : Call) (s : Live) (e : Evaluator P) (c : Config P) (m : MatchResult) (name : String)
      (id : Option JsonRpcId) (x : Validated)
      → v.config ≡ some c
      → x.0.id ≡ id
      → Routed id s (validated g v w s e c m name x)
  validated-Routed w s e c m name id (q, err f) h same = (refl, tt)
  validated-Routed w s e c m name id (q, ok blocking) h same =
      let a : Answer =
        evaluate_with_principal g w.draws e (governance_request v q)
          (principal_of w.optional_principal) s.engine.task_store in
      subst (λ i. Routed i s (acted v c m s q name blocking a)) same
        (acted-Routed c m s q name blocking a h)

  configured-Routed :
      (w : Call) (s : Live) (r : McpRequest) (e : Option (Evaluator P)) (o : Option (Config P))
      → v.config ≡ o
      → Routed r.id s (configured g v w s r e o)
  unfolding to_jsonrpc_request
  configured-Routed w s r none o h = (refl, tt)
  configured-Routed w s r (some e) none h = (refl, tt)
  configured-Routed w s r (some e) (some c) h =
      elim (Option-cases (extract_resource_name r.method r.params)) [
        | inl absent ↦ rw absent (refl, tt)
        | inr (name, named) ↦
            let m : MatchResult = evaluate g c.governance name source_id in
            let up = s.capability_cache.upstream_supports_tasks in
            let engine = is_some v.tasks.approval_engine in
            rw named (
              validated-Routed w s e c m name r.id
                (validate_task_metadata r m.action name up engine) h
                (ap (λ (j : JsonRpcRequest). j.id)
                  (validate_task_metadata-same r m.action name up engine)))
      ]

  decided-load :
      (w : Call) (s : Live) (r : McpRequest) (name : String) (d : CedarDecision)
      → load (decided v w s r name none d).0 ≡ load s
  decided-load w s r name CedarDecision.permit = refl
  decided-load w s r name (CedarDecision.forbid reason) = refl

  evaluated-load :
      (w : Call) (s : Live) (r : McpRequest) (name : String)
      (p : Result PolicyPrincipal ThoughtGateError)
      → load (evaluated v w s r name none p).0 ≡ load s
  evaluated-load w s r name (err e) = refl
  evaluated-load w s r name (ok p) =
      decided-load w s r name (v.cedar_engine (cedar_request_of r name "default" p))

  evaluate_with_cedar-load :
      (w : Call) (s : Live) (r : McpRequest) → load (evaluate_with_cedar v w s r none).0 ≡ load s
  unfolding evaluate_with_cedar
  evaluate_with_cedar-load w s r = elim (Bool-cases (method_requires_gates r.method)) [
    | inr other ↦ rw other refl
    | inl governed ↦ elim (Option-cases (extract_resource_name r.method r.params)) [
      | inl absent ↦ rw (governed, absent) refl
      | inr (name, named) ↦ rw (governed, named) (evaluated-load w s r name w.inferred)
    ]
  ]

  policed-Routed :
      (w : Call) (s : Live) (r : McpRequest) (o : Option (Config P))
      → v.config ≡ o
      → Routed r.id s (policed g v w s r o)
  unfolding route_through_gates handle_list_method
  policed-Routed w s r none h = (evaluate_with_cedar-load w s r, tt)
  policed-Routed w s r (some c) h = elim (Bool-cases (method_requires_gates r.method)) [
    | inl governed ↦ rw governed (configured-Routed w s r v.evaluator v.config refl)
    | inr other ↦ elim (Bool-cases (is_list_method r.method)) [
      | inl list ↦ rw (other, list) (refl, tt)
      | inr neither ↦ rw (other, neither) (refl, tt)
    ]
  ]

  after_initialize-load : (s : Live) (a : Answered) → load (after_initialize s a).0 ≡ load s
  after_initialize-load s (err e) = refl
  after_initialize-load s (ok response) = refl

  route_to-Routed :
      (w : Call) (s : Live) (t : RouteTarget) → Routed (request_of t).id s (route_to g v w s t)
  unfolding route_to handle_initialize_method
  route_to-Routed w s (policy_evaluation r) = policed-Routed w s r v.config refl
  route_to-Routed w s (task_handler m r) = (refl, tt)
  route_to-Routed w s (initialize_handler r) = (after_initialize-load s (v.upstream r), tt)
  route_to-Routed w s (pass_through r) = (refl, tt)

  -- Routing a request leaves the buffer counter and the permits, and a wait that it asks for has a
  -- timeout of the proxy and the identifier of the request.
  pub route_request-Routed :
      (w : Call) (s : Live) (r : McpRequest) → Routed r.id s (route_request g v w s r)
  unfolding route_request
  route_request-Routed w s r =
      subst (λ (q : McpRequest). Routed q.id s (route_to g v w s (route r))) (route-request_of r)
        (route_to-Routed w s (route r))
