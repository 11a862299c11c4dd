-- ===== src/Proxy/Mcp/Passing.antt =====
-- Which calls gate_routing.rs sends on, with the gates of governance/evaluator.rs.
use thoughtgate.Base.{
  String, Bool, true, false, ◌&&◌, ◌||◌, Option, none, some, List, [], ◌∷◌, ok, err, map, ◌≡◌, refl,
  ◌∙◌, ap, arith, is_ok, if◌then◌else◌,
}
use thoughtgate.Governance.Schema.{
  Glob, Config, Action, MatchResult, evaluate, get_source, is_approval,
}
use thoughtgate.Governance.Evaluator.{
  GovernanceDecision, GovernanceEvaluateResponse, method_requires_gates, extract_resource_name,
}
use thoughtgate.Governance.Gates.{Evaluator, Answer}
use thoughtgate.Governance.Routing.{evaluate_with_principal}
use thoughtgate.Governance.Decisions.{is_forward, passes, evaluate_with_principal-passes}
use thoughtgate.Transport.{
  McpRequest, JsonRpcRequest, is_some, is_task_augmented, to_jsonrpc_request,
}
use thoughtgate.Proxy.Mcp.{McpState, Live, Call, Sent, forwarded, executed, source_id}
use thoughtgate.Proxy.Mcp.Capabilities.{Validated, validate_task_metadata}
use thoughtgate.Proxy.Mcp.Gates.{
  act_on, acted, validated, for_resource, configured, governance_request, principal_of,
}

-- What the upstream receives of a request.
abbrev pub wire : Sent → JsonRpcRequest
wire (forwarded r) = to_jsonrpc_request r
wire (executed r) = record { id = r.id; method = r.method; params = r.params }

abbrev pub once_if : Bool → McpRequest → List JsonRpcRequest
once_if b r = if b then to_jsonrpc_request r ∷ [] else []

-- A call that may need an approval needs task metadata, or an engine that it can wait for.
abbrev pub accepted : Action → Bool → Bool → Bool
accepted a augmented engine = if is_approval a then augmented || engine else true

validate_task_metadata-accepted :
    (r : McpRequest) (a : Action) (name : String) (up engine : Bool)
    → is_ok (validate_task_metadata r a name up engine).1 ≡ accepted a (is_task_augmented r) engine
unfolding validate_task_metadata is_approval
validate_task_metadata-accepted r Action.approve name up engine = ground arith
validate_task_metadata-accepted r Action.policy name up engine = ground arith
validate_task_metadata-accepted r Action.forward name up engine = ground arith
validate_task_metadata-accepted r Action.deny name up engine = ground arith

-- The upstream is sent the same with the metadata as without: its parameters keep them.
pub validate_task_metadata-same :
    (r : McpRequest) (a : Action) (name : String) (up engine : Bool)
    → to_jsonrpc_request (validate_task_metadata r a name up engine).0 ≡ to_jsonrpc_request r
unfolding validate_task_metadata to_jsonrpc_request
validate_task_metadata-same r Action.approve name up engine = ground arith
validate_task_metadata-same r Action.policy name up engine = ground arith
validate_task_metadata-same r Action.forward name up engine = ground arith
validate_task_metadata-same r Action.deny name up engine = ground arith

module _ {ℓ} {P : Type ℓ} where
  act_on-sent :
      (v : McpState P) (c : Config P) (m : MatchResult) (s : Live) (r : McpRequest) (name : String)
      (blocking : Bool) (d : GovernanceDecision) (x : GovernanceEvaluateResponse)
      → map wire (act_on v c m s r name blocking d x).1 ≡ once_if (is_forward d) r
  unfolding act_on
  act_on-sent v c m s r name blocking GovernanceDecision.forward x = refl
  act_on-sent v c m s r name blocking GovernanceDecision.deny x = refl
  act_on-sent v c m s r name true GovernanceDecision.pending_approval x = ground arith
  act_on-sent v c m s r name false GovernanceDecision.pending_approval x = refl

  acted-sent :
      (v : McpState P) (c : Config P) (m : MatchResult) (s : Live) (r : McpRequest) (name : String)
      (blocking : Bool) (a : Answer)
      → map wire (acted v c m s r name blocking a).1 ≡ once_if (is_forward a.1.decision) r
  acted-sent v c m s r name blocking (t, x, trace) =
      act_on-sent v c m _ r name blocking x.decision x

  module _ (g : Glob P) where
    -- What the evaluator says of a call with this name.
    abbrev pub gates_pass : Evaluator P → String → Bool
    gates_pass e name = passes g e source_id name (get_source e.config source_id)

    named-passes :
        (v : McpState P) (w : Call) (s : Live) (e : Evaluator P) (r : McpRequest) (name : String)
        → method_requires_gates r.method ≡ true
        → extract_resource_name r.method r.params ≡ some name
        → is_forward
            (evaluate_with_principal g w.draws e
              (governance_request v r)
              (principal_of w.optional_principal)
              s.engine.task_store).1.decision
          ≡ gates_pass e name
    unfolding governance_request
    named-passes v w s e r name governed named =
        evaluate_with_principal-passes g w.draws e (governance_request v r)
          (principal_of w.optional_principal) s.engine.task_store
        ∙ rw (governed, named) refl

    validated-sent :
        (v : McpState P) (w : Call) (s : Live) (e : Evaluator P) (c : Config P) (m : MatchResult)
        (r : McpRequest) (name : String) (x : Validated)
        → method_requires_gates r.method ≡ true
        → extract_resource_name r.method r.params ≡ some name
        → to_jsonrpc_request x.0 ≡ to_jsonrpc_request r
        → map wire (validated g v w s e c m name x).1 ≡ once_if (is_ok x.1 && gates_pass e name) r
    unfolding to_jsonrpc_request
    validated-sent v w s e c m r name (q, err f) governed named same = refl
    validated-sent v w s e c m r name (q, ok blocking) governed named same =
        acted-sent v c m s q name blocking (
          evaluate_with_principal g w.draws e (governance_request v q)
            (principal_of w.optional_principal) s.engine.task_store)
        ∙ rw
            (
              named-passes v w s e q name
                  (ap (λ (j : JsonRpcRequest). method_requires_gates j.method) same ∙ governed)
                  (ap (λ (j : JsonRpcRequest). extract_resource_name j.method j.params) same
                    ∙ named),
              same,
            )
            refl

    -- Whether the gates let a call on: it names a resource, its mode of approval is possible, and the
    -- evaluator forwards it.
    abbrev pub admits_name : McpState P → McpRequest → Evaluator P → Config P → Option String → Bool
    admits_name v r e c none = false
    admits_name v r e c (some name) =
        accepted (evaluate g c.governance name source_id).action (is_task_augmented r)
          (is_some v.tasks.approval_engine)
        && gates_pass e name

    abbrev pub admits_by : McpState P → McpRequest → Option (Evaluator P) → Option (Config P) → Bool
    admits_by v r none o = false
    admits_by v r (some e) none = false
    admits_by v r (some e) (some c) = admits_name v r e c (extract_resource_name r.method r.params)

    for_resource-sent :
        (v : McpState P) (w : Call) (s : Live) (e : Evaluator P) (c : Config P) (r : McpRequest)
        (o : Option String)
        → method_requires_gates r.method ≡ true
        → extract_resource_name r.method r.params ≡ o
        → map wire (for_resource g v w s e c r o).1 ≡ once_if (admits_name v r e c o) r
    for_resource-sent v w s e c r none governed named = refl
    for_resource-sent v w s e c r (some name) governed named =
        let m : MatchResult = evaluate g c.governance name source_id in
        let up = s.capability_cache.upstream_supports_tasks in
        let engine = is_some v.tasks.approval_engine in
        validated-sent v w s e c m r name (validate_task_metadata r m.action name up engine)
          governed named (validate_task_metadata-same r m.action name up engine)
        ∙ rw (validate_task_metadata-accepted r m.action name up engine) refl

    pub configured-sent :
        (v : McpState P) (w : Call) (s : Live) (r : McpRequest) (e : Option (Evaluator P))
        (c : Option (Config P))
        → method_requires_gates r.method ≡ true
        → map wire (configured g v w s r e c).1 ≡ once_if (admits_by v r e c) r
    configured-sent v w s r none c governed = refl
    configured-sent v w s r (some e) none governed = refl
    configured-sent v w s r (some e) (some c) governed =
        for_resource-sent v w s e c r (extract_resource_name r.method r.params) governed refl
