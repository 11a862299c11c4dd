-- ===== src/Proxy/Mcp/Body.antt =====
-- `handle_mcp_body_bytes` of thoughtgate-proxy/src/mcp_handler/request.rs: a body of the agent, through
-- its limits. A body is a list of bytes.
use Prim.Native.String.{◌++◌}
use thoughtgate.Base.{
  ℕ, ◌+◌, ◌-◌, ◌%◌, ◌^◌, min, max, Bool, false, Option, some, List, ok, err, ltb, length, usize_end,
  wrapping_add, wrapping_sub, if◌then◌else◌,
}
use thoughtgate.Errors.{ThoughtGateError, invalid_request, rate_limited}
use thoughtgate.Governance.Schema.{Glob}
use thoughtgate.Transport.Parsing.{Requests, ParsedRequests, single, batch, parse_jsonrpc}
use thoughtgate.Proxy.Mcp.{McpState, Live, Step}
use thoughtgate.Proxy.Mcp.Answers.{McpResponse, refuse, limited, error_response}
use thoughtgate.Proxy.Mcp.Requests.{Schedule, handle_parsed}

-- The guard and the permit are dropped.
abbrev pub released : ℕ → ℕ → Step (Option McpResponse) → Step (Option McpResponse)
released size count (s, sent, r) = (
  record s { buffered_bytes = wrapping_sub s.buffered_bytes size; permits = s.permits + count },
  sent,
  r,
)

abbrev pub answer_now : Step McpResponse → Step (Option McpResponse)
answer_now (s, sent, r) = (s, sent, some r)

abbrev pub dropped : ℕ → Step McpResponse → Step (Option McpResponse)
dropped size r = released size 0 (answer_now r)

unfoldable pub permit_count : ParsedRequests → ℕ
permit_count (single request) = 1
permit_count (batch items) = max (length items) 1 % 2 ^ 32

abbrev pub batch_size : ParsedRequests → ℕ
batch_size (single request) = 1
batch_size (batch items) = length items

module _ {ℓ} {P : Type ℓ} where
  abbrev pub is_over : McpState P → ParsedRequests → Bool
  is_over v (single request) = false
  is_over v (batch items) = ltb v.max_batch_size (length items)

  abbrev pub batch_too_long : McpState P → ℕ → ThoughtGateError
  batch_too_long v size =
      invalid_request
        ("Batch size " ++ v.decimal size ++ " exceeds maximum of " ++ v.decimal v.max_batch_size)

  abbrev pub body_too_long : McpState P → ThoughtGateError
  body_too_long v =
      invalid_request
        ("Request body exceeds maximum size of " ++ v.decimal v.max_body_size ++ " bytes")

  module _ (g : Glob P) where
    unfoldable pub handle_permitted :
        McpState P → Schedule → Live → ℕ → ParsedRequests → Step (Option McpResponse)
    unfolding permit_count refuse error_response handle_parsed
    handle_permitted v w s size parsed =
        let count = permit_count parsed in
        if is_over v parsed
        then dropped size (refuse v s (batch_too_long v (batch_size parsed)))
        else if ltb s.permits count
        then dropped size (limited v s)
        else released size count
            (handle_parsed g v w (record s { permits = s.permits - count }) parsed)

    abbrev pub by_parse : McpState P → Schedule → Live → ℕ → Requests → Step (Option McpResponse)
    by_parse v w s size (counter, err e) =
        dropped size (refuse v (record s { counter = counter }) e)
    by_parse v w s size (counter, ok parsed) =
        handle_permitted v w (record s { counter = counter }) size parsed

    -- `saturating_add` stops below `usize_end`.
    unfoldable pub handle_mcp_body_bytes :
        McpState P → Schedule → Live → List ℕ → Step (Option McpResponse)
    unfolding refuse handle_permitted parse_jsonrpc
    handle_mcp_body_bytes v w s body =
        let size = length body in
        let counted : Live = record s { buffered_bytes = wrapping_add s.buffered_bytes size } in
        if ltb v.max_body_size size
        then answer_now (refuse v s (body_too_long v))
        else if ltb v.max_aggregate_buffer (min (s.buffered_bytes + size) (usize_end - 1))
        then dropped size (refuse v counted (rate_limited (some 1)))
        else by_parse v w counted size (parse_jsonrpc v.reader s.counter body)
