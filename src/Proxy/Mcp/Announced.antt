-- ===== src/Proxy/Mcp/Announced.antt =====
-- What the agent learns from `initialize` and `tools/list`: mcp_handler/capabilities.rs with
-- protocol/capability.rs and governance/list_filtering.rs.
use thoughtgate.Base.{true, Bool, Option, some, List, [], ◌∷◌, ok, map, filter, ◌≡◌, refl, ap}
use thoughtgate.Json.{Value, Fields, array, object}
use thoughtgate.Json.Objects.{get_field}
use thoughtgate.Json.Maps.{IsJson}
use thoughtgate.Task.Types.{JsonRpcId}
use thoughtgate.Governance.Schema.{Glob, Config}
use thoughtgate.Governance.Listing.{text_of}
use thoughtgate.Governance.Visibility.{shown}
use thoughtgate.Governance.Presented.{SameBut, PresentsEach}
use thoughtgate.Protocol.{
  extract_upstream_task_support, extract_upstream_sse_support, inject_task_capability,
  strip_sse_capability, set_upstream_supports_tasks, set_upstream_supports_task_sse,
}
use thoughtgate.Protocol.Injected.{can_advertise}
use thoughtgate.Protocol.Announced.{
  Announces, strip_sse_capability-inject_task_capability-Announces,
}
use thoughtgate.Transport.{McpRequest}
use thoughtgate.Transport.Response
use thoughtgate.Proxy.Mcp.{McpState, Live, Answered, source_id}
use thoughtgate.Proxy.Mcp.Capabilities.{
  detected, initialized, to_list, of_list, handle_initialize_method,
}

-- The answer to `initialize` and the cache after it, for this result of the upstream.
pub record Introduces (result : Value) (id : Option JsonRpcId) (s : Live) (r : Answered)
    : Type 0 where
  pub sent_on : Value
  pub answers : r ≡ ok (Response.success id sent_on)
  pub announces : Announces sent_on (can_advertise result)
  pub remembers : s.capability_cache ≡ record {
    upstream_supports_tasks = extract_upstream_task_support result;
    upstream_supports_task_sse = extract_upstream_sse_support result;
    has_initialized = true;
  }

module _ {ℓ} {P : Type ℓ} where
  -- Where the upstream answers `initialize` with a result, the agent is told that tasks are supported
  -- exactly where each value on the path to that capability is missing or an object, and never that the
  -- status of tasks is notified, even if the upstream announces that it is; the cache holds what the upstream itself announced. The result has
  -- distinct keys, as a parsed one has.
  pub handle_initialize_method-Introduces :
      (v : McpState P) (s : Live) (r : McpRequest) (id : Option JsonRpcId) (result : Value)
      → v.upstream r ≡ ok (Response.success id result)
      → IsJson result
      → Introduces result id (handle_initialize_method v s r).0 (handle_initialize_method v s r).2
  unfolding handle_initialize_method initialized detected Response.success
      set_upstream_supports_tasks set_upstream_supports_task_sse
  handle_initialize_method-Introduces v s r id result h json = rw h (record {
    sent_on = strip_sse_capability (inject_task_capability result);
    answers = refl;
    announces = strip_sse_capability-inject_task_capability-Announces result json;
    remembers = refl;
  })

to_list-of_list : (l : List Value) → to_list (of_list l) ≡ l
unfolding to_list of_list
to_list-of_list [] = refl
to_list-of_list (v ∷ l) = ap (λ l. v ∷ l) (to_list-of_list l)

module _ {ℓ} {P : Type ℓ} (g : Glob P) where
  -- The tools of an answer, for the fields and the tools of what the upstream has answered.
  pub record Lists (c : Config P) (up : Bool) (l : Fields) (tools : List Value)
      (id : Option JsonRpcId) (r : Answered) : Type ℓ where
    pub fields : Fields
    pub answer : List Value
    pub answers : r ≡ ok (Response.success id (object fields))
    pub there : get_field "tools" fields ≡ some (array (of_list answer))
    pub names :
        map (text_of "name") answer
        ≡ map (text_of "name") (filter (shown g c source_id "name") tools)
    pub presented : PresentsEach g c source_id up (filter (shown g c source_id "name") tools) answer
    pub others : SameBut "tools" (object l) (object fields)
