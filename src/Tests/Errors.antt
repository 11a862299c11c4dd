-- ===== src/Tests/Errors.antt =====
-- The answers at concrete errors.
use thoughtgate.Base.{ℕ, String, ◌≡◌, ◌↔◌}
use thoughtgate.Base.Int.{pos}
use thoughtgate.Errors.{upstream_error, safe_details, to_jsonrpc_error}
use thoughtgate.Errors.Answers.{upstream_error-to_jsonrpc_error}

abbrev decimal : ℕ → String
decimal n = "7"

upstream_error-to_jsonrpc_error_example :
    (safe_details decimal (upstream_error (pos 7) "no such host db.internal")
      ≡ safe_details decimal (upstream_error (pos 7) "busy"))
    × ((to_jsonrpc_error decimal "c" (upstream_error (pos 7) "no such host db.internal")
          ≡ to_jsonrpc_error decimal "c" (upstream_error (pos 7) "busy"))
        ↔ (◌≡◌ {A = String} "no such host db.internal" "busy"))
upstream_error-to_jsonrpc_error_example =
    upstream_error-to_jsonrpc_error decimal "c" (pos 7) "no such host db.internal" "busy"
