-- ===== src/Proxy/Mcp/Requests.antt =====
-- thoughtgate-proxy/src/mcp_handler/request.rs: a single request and a batch. The items of a batch run
-- concurrently: they are taken here in the order in which they end, and what an item meets of the
-- others is in its `Call`.
use thoughtgate.Base.{ℕ, Option, none, some, List, [], ◌∷◌, ok, err, if◌then◌else◌}
use mathlib.Core.List.{◌++◌ as append}
use thoughtgate.Errors.{ThoughtGateError}
use thoughtgate.Task.Types.{JsonRpcId}
use thoughtgate.Governance.Schema.{Glob}
use thoughtgate.Transport.{McpRequest, JsonRpcResponse, BatchItem, valid, invalid, is_notification}
use thoughtgate.Transport.Correlation.{fast_correlation_id}
use thoughtgate.Transport.Parsing.{ParsedRequests, single, batch}
use thoughtgate.Proxy.Mcp.{
  McpState, Live, Call, GateResult, immediate, blocking_approval, Answered, Step,
}
use thoughtgate.Proxy.Mcp.Routing.{route_request}
use thoughtgate.Proxy.Mcp.Answers.{
  Buffered, McpResponse, buffered, streaming, server_error, no_content, batch_failed_body, written,
  json_bytes, error_response, error_bytes, blocking_approval_sync,
}

-- The calls of a body: that of a single request, and the items of a batch in the order in which they
-- end.
pub record Schedule : Type 0 where
  pub call : Call
  pub order : List BatchItem → List (BatchItem × Call)

abbrev pub Responses : Type 0
Responses = Option (List JsonRpcResponse)

-- `into_iter().flatten()`, one item at a time.
unfoldable pub gathered : Option (Option JsonRpcResponse) → Responses → Responses
gathered none rest = none
gathered (some o) none = none
gathered (some none) (some l) = some l
gathered (some (some r)) (some l) = some (r ∷ l)

module _ {ℓ} {P : Type ℓ} where
  abbrev pub answer_to : McpState P → McpRequest → Answered → Buffered
  answer_to v request (ok response) = json_bytes v response
  answer_to v request (err e) = error_bytes v request.id e request.correlation_id

  unfoldable pub single_response : McpState P → McpRequest → GateResult → McpResponse
  unfolding json_bytes error_bytes is_notification
  single_response v request (blocking_approval b) = streaming b
  single_response v request (immediate r) =
      if is_notification request
      then buffered (no_content, "")
      else buffered (answer_to v request r)

  -- The response to an item; none for a notification.
  abbrev pub response_to : McpState P → McpRequest → Answered → JsonRpcResponse
  response_to v request (ok response) = response
  response_to v request (err e) = error_response v request.id e request.correlation_id

  unfoldable pub item_response :
      McpState P → McpRequest → Option Answered → Option (Option JsonRpcResponse)
  unfolding is_notification error_response
  item_response v request none = none
  item_response v request (some r) =
      if is_notification request then some none else some (some (response_to v request r))

  abbrev pub settled : McpState P → Call → Step GateResult → Step (Option Answered)
  settled v w (s, sent, immediate r) = (s, sent, some r)
  settled v w (s, sent, blocking_approval b) =
      let after = blocking_approval_sync v w s b in (after.0, append sent after.1, after.2)

  abbrev pub failed_item :
      McpState P
      → Live
      → Option JsonRpcId
      → ThoughtGateError
      → ℕ × ℕ
      → Step (Option (Option JsonRpcResponse))
  failed_item v s id e (counter, correlation_id) =
      (record s { counter = counter }, [], some (some (error_response v id e correlation_id)))

  abbrev pub batch_written : McpState P → List JsonRpcResponse → Buffered
  batch_written v [] = (no_content, "")
  batch_written v responses = written server_error batch_failed_body (v.batch_to_vec responses)

  unfoldable pub batch_response : McpState P → Responses → Option McpResponse
  batch_response v none = none
  batch_response v (some responses) = some (buffered (batch_written v responses))

  module _ (g : Glob P) where
    unfoldable pub handle_single_request_bytes :
        McpState P → Call → Live → McpRequest → Step McpResponse
    unfolding route_request single_response
    handle_single_request_bytes v w s request =
        let routed = route_request g v w s request in
        (routed.0, routed.1, single_response v request routed.2)

    unfoldable pub handle_item :
        McpState P → Live → BatchItem × Call → Step (Option (Option JsonRpcResponse))
    unfolding route_request blocking_approval_sync item_response error_response fast_correlation_id
    handle_item v s (invalid id e, w) =
        failed_item v s id e (fast_correlation_id v.reader.prefix s.counter)
    handle_item v s (valid request, w) =
        let after = settled v w (route_request g v w s request) in
        (after.0, after.1, item_response v request after.2)

    unfoldable pub handle_items : McpState P → Live → List (BatchItem × Call) → Step Responses
    unfolding handle_item gathered
    handle_items v s [] = (s, [], some [])
    handle_items v s (i ∷ items) =
        let one = handle_item v s i in
        let rest = handle_items v one.0 items in
        (rest.0, append one.1 rest.1, gathered one.2 rest.2)

    -- A response, unless an item waits for ever.
    unfoldable pub handle_batch_request_bytes :
        McpState P → Live → List (BatchItem × Call) → Step (Option McpResponse)
    unfolding handle_items batch_response
    handle_batch_request_bytes v s items =
        let after = handle_items v s items in (after.0, after.1, batch_response v after.2)

    abbrev pub as_response : Step McpResponse → Step (Option McpResponse)
    as_response (s, sent, r) = (s, sent, some r)

    unfoldable pub handle_parsed :
        McpState P → Schedule → Live → ParsedRequests → Step (Option McpResponse)
    unfolding handle_single_request_bytes handle_batch_request_bytes
    handle_parsed v w s (single request) =
        as_response (handle_single_request_bytes v w.call s request)
    handle_parsed v w s (batch items) = handle_batch_request_bytes v s (w.order items)
