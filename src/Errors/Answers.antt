-- ===== src/Errors/Answers.antt =====
-- What an agent learns of an upstream's error: error/mod.rs, whose `safe_details` leave its message out.
use thoughtgate.Base.{ℕ, String, ◌≡◌, ◌↔◌, refl, ap}
use thoughtgate.Base.Int.{ℤ}
use text.Mathlib.TextLemmas.{append_cancel_left}
use thoughtgate.Errors.{upstream_error, JsonRpcError, safe_details, message, to_jsonrpc_error}

-- Of two errors of the upstream with the same code, the details are the same, but the answers are the
-- same exactly where the messages are: the details leave the message out, and the answer tells it.
pub upstream_error-to_jsonrpc_error :
    (decimal : ℕ → String) (correlation_id : String) (code : ℤ) (m n : String)
    → (safe_details decimal (upstream_error code m) ≡ safe_details decimal (upstream_error code n))
      × ((to_jsonrpc_error decimal correlation_id (upstream_error code m)
            ≡ to_jsonrpc_error decimal correlation_id (upstream_error code n))
          ↔ (m ≡ n))
unfolding safe_details to_jsonrpc_error message
upstream_error-to_jsonrpc_error decimal correlation_id code m n = (
  refl,
  (
    λ same. append_cancel_left "MCP server error: " m n (ap (λ (e : JsonRpcError). e.text) same),
    ap (λ m. to_jsonrpc_error decimal correlation_id (upstream_error code m)),
  ),
)
