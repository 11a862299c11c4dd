-- ===== src/Proxy/Mcp/Limits.antt =====
-- Which bodies reach the upstream: the limits of mcp_handler/request.rs.
use thoughtgate.Base.{ℕ, ◌+◌, ◌-◌, ◌≤◌, min, false, Option, List, [], ok, length, ◌≡◌, usize_end}
use thoughtgate.Governance.Schema.{Glob}
use thoughtgate.Transport.Parsing.{Requests, ParsedRequests, parse_jsonrpc}
use thoughtgate.Proxy.Mcp.{McpState, Live, Step}
use thoughtgate.Proxy.Mcp.Answers.{McpResponse}
use thoughtgate.Proxy.Mcp.Body.{is_over, permit_count}

module _ {ℓ} {P : Type ℓ} (g : Glob P) (v : McpState P) where
  -- A body within the limits on its size, on the bytes that are buffered with it, on the items of a
  -- batch and on what is handled at once.
  pub record IsAdmitted (s : Live) (body : List ℕ) : Type 0 where
    pub requests : ParsedRequests
    pub parsed : (parse_jsonrpc v.reader s.counter body).1 ≡ ok requests
    pub short : length body ≤ v.max_body_size
    pub buffered : min (s.buffered_bytes + length body) (usize_end - 1) ≤ v.max_aggregate_buffer
    pub in_batch : is_over v requests ≡ false
    pub permitted : permit_count requests ≤ s.permits

  abbrev Quiet : Step (Option McpResponse) → Type 0
  Quiet x = x.1 ≡ []
