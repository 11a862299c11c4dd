-- ===== src/Proxy/Mcp/Capabilities.antt =====
-- thoughtgate-proxy/src/mcp_handler/capabilities.rs: the responses that ThoughtGate changes on their
-- way back, and the task metadata of a call.
use thoughtgate.Base.{
  String, Bool, true, false, not, ◌&&◌, Option, none, some, List, [], ◌∷◌, Result, ok, err, str_eq,
  if◌then◌else◌,
}
use thoughtgate.Errors.{ThoughtGateError, task_required}
use thoughtgate.Json.{Value, Items, Fields, nil, cons, array, object}
use thoughtgate.Json.Objects.{get_field, modify_field}
use thoughtgate.Governance.Schema.{Glob, Config, Action}
use thoughtgate.Governance.Listing.{
  filter_and_annotate_tools, filter_resources_by_visibility, filter_prompts_by_visibility,
}
use thoughtgate.Protocol.{
  CapabilityCache, set_upstream_supports_tasks, set_upstream_supports_task_sse,
  extract_upstream_task_support, extract_upstream_sse_support, inject_task_capability,
  strip_sse_capability,
}
use thoughtgate.Transport.{McpRequest, JsonRpcResponse, is_task_augmented}
use thoughtgate.Transport.Response
use thoughtgate.Proxy.Mcp.{McpState, Live, Answered, Step, forward, source_id}

unfoldable pub detected : Value → CapabilityCache → CapabilityCache
unfolding set_upstream_supports_tasks set_upstream_supports_task_sse extract_upstream_task_support
    extract_upstream_sse_support
detected result c =
    set_upstream_supports_task_sse (extract_upstream_sse_support result)
      (set_upstream_supports_tasks (extract_upstream_task_support result) c)

-- The cache and the response, by the error and the result of the upstream's response.
unfoldable pub initialized : JsonRpcResponse → CapabilityCache → CapabilityCache × JsonRpcResponse
unfolding detected inject_task_capability strip_sse_capability Response.success
initialized response c = elim response.error [
  | some e ↦ (c, response)
  | none ↦ elim response.result [
    | none ↦ (c, response)
    | some result ↦ (
      detected result c,
      Response.success response.id (strip_sse_capability (inject_task_capability result)),
    )
  ]
]

abbrev pub cached : Live → CapabilityCache × JsonRpcResponse → Live × Answered
cached s (c, response) = (record s { capability_cache = c }, ok response)

abbrev pub after_initialize : Live → Answered → Live × Answered
after_initialize s (err e) = (s, err e)
after_initialize s (ok response) = cached s (initialized response s.capability_cache)

unfoldable pub to_list : Items → List Value
to_list nil = []
to_list (cons v l) = v ∷ to_list l

unfoldable pub of_list : List Value → Items
of_list [] = nil
of_list (v ∷ l) = cons v (of_list l)

abbrev pub listed_in : String → (List Value → List Value) → Option Value → Fields → Option Value
listed_in key change (some (array items)) l =
    some (object (modify_field key (λ _. array (of_list (change (to_list items)))) l))
listed_in key change _ l = none

-- The result with the list under a key changed, if there is one.
unfoldable pub with_list : String → (List Value → List Value) → Value → Option Value
unfolding to_list of_list
with_list key change (object l) = listed_in key change (get_field key l) l
with_list key change _ = none

abbrev pub or_unchanged : JsonRpcResponse → Option Value → JsonRpcResponse
or_unchanged response none = response
or_unchanged response (some result) = Response.success response.id result

module _ {ℓ} {P : Type ℓ} where
  unfoldable pub handle_initialize_method : McpState P → Live → McpRequest → Step Answered
  unfolding initialized
  handle_initialize_method v s request =
      let sent = forward v s request in
      let after = after_initialize s sent.2 in (after.0, sent.1, after.1)

  module _ (g : Glob P) where
    unfoldable pub filtered : Config P → Bool → String → Value → Option Value
    unfolding with_list
    filtered config upstream_tasks method result =
        if str_eq method "tools/list"
        then with_list "tools"
            (λ tools. (filter_and_annotate_tools g tools config source_id upstream_tasks).0) result
        else if str_eq method "resources/list"
        then with_list "resources"
            (λ resources. (filter_resources_by_visibility g resources config source_id).0) result
        else if str_eq method "prompts/list"
        then with_list "prompts"
            (λ prompts. (filter_prompts_by_visibility g prompts config source_id).0) result
        else none

    unfoldable pub list_response :
        Option (Config P) → Bool → String → JsonRpcResponse → JsonRpcResponse
    unfolding filtered Response.success
    list_response config upstream_tasks method response = elim response.error [
      | some e ↦ response
      | none ↦ elim config [
        | none ↦ response
        | some c ↦ elim response.result [
          | none ↦ response
          | some result ↦ or_unchanged response (filtered c upstream_tasks method result)
        ]
      ]
    ]

    abbrev pub after_list : Option (Config P) → Bool → String → Answered → Answered
    after_list config upstream_tasks method (err e) = err e
    after_list config upstream_tasks method (ok response) =
        ok (list_response config upstream_tasks method response)

    unfoldable pub handle_list_method : McpState P → Live → McpRequest → Step Answered
    unfolding list_response
    handle_list_method v s request =
        let sent = forward v s request in
        (
          s,
          sent.1,
          after_list v.config s.capability_cache.upstream_supports_tasks request.method sent.2,
        )

abbrev pub Validated : Type 0
Validated = McpRequest × Result Bool ThoughtGateError

abbrev pub approving : McpRequest → String → Bool → Validated
approving request tool_name has_approval_engine =
    if is_task_augmented request
    then (request, ok false)
    else if has_approval_engine
    then (request, ok true)
    else (
      request,
      err (task_required tool_name "Include params.task per tools/list taskSupport annotation"),
    )

abbrev pub plain : McpRequest → Bool → Validated
plain request upstream_supports_tasks =
    if is_task_augmented request && not upstream_supports_tasks
    then (record request { task_metadata = none }, ok false)
    else (request, ok false)

-- Whether the call waits for its approval here, and the request that goes on.
unfoldable pub validate_task_metadata : McpRequest → Action → String → Bool → Bool → Validated
unfolding is_task_augmented
validate_task_metadata request Action.approve tool_name upstream_tasks has_approval_engine =
    approving request tool_name has_approval_engine
validate_task_metadata request Action.policy tool_name upstream_tasks has_approval_engine =
    approving request tool_name has_approval_engine
validate_task_metadata request Action.forward tool_name upstream_tasks has_approval_engine =
    plain request upstream_tasks
validate_task_metadata request Action.deny tool_name upstream_tasks has_approval_engine =
    plain request upstream_tasks
