-- ===== src/Errors.antt =====
-- thoughtgate-core/src/error/mod.rs and error/jsonrpc.rs: the errors that an agent is answered, and what
-- the answer says of them.
pub mod Answers
use Prim.Native.String.{◌++◌}
use thoughtgate.Base.{ℕ, String, Option, none, some}
use thoughtgate.Base.Int.{ℤ, minus, int_text}

pub data ThoughtGateError : Type 0 where
  parse_error : (details : String) → ThoughtGateError
  invalid_request : (details : String) → ThoughtGateError
  invalid_params : (details : String) → ThoughtGateError
  upstream_connection_failed : (url reason : String) → ThoughtGateError
  upstream_timeout : (url : String) (timeout_secs : ℕ) → ThoughtGateError
  upstream_error : (code : ℤ) (message : String) → ThoughtGateError
  tool_not_exposed : (tool source_id : String) → ThoughtGateError
  governance_rule_denied : (tool : String) (rule : Option String) → ThoughtGateError
  policy_denied : (tool : String) (policy_id reason : Option String) → ThoughtGateError
  task_not_found : (task_id : String) → ThoughtGateError
  task_expired : (task_id : String) → ThoughtGateError
  task_cancelled : (task_id : String) → ThoughtGateError
  task_result_not_ready : (task_id : String) → ThoughtGateError
  approval_rejected : (tool : String) (rejected_by workflow : Option String) → ThoughtGateError
  approval_timeout :
      (tool : String) (timeout_secs : ℕ) (workflow : Option String) → ThoughtGateError
  task_required : (tool hint : String) → ThoughtGateError
  policy_drift : (tool task_id : String) → ThoughtGateError
  transform_drift : (tool task_id : String) → ThoughtGateError
  rate_limited : (retry_after_secs : Option ℕ) → ThoughtGateError
  service_unavailable : (reason : String) → ThoughtGateError
  internal_error : (correlation_id : String) → ThoughtGateError

unfoldable pub to_jsonrpc_code : ThoughtGateError → ℤ
to_jsonrpc_code (parse_error _) = minus 32700
to_jsonrpc_code (invalid_request _) = minus 32600
to_jsonrpc_code (invalid_params _) = minus 32602
to_jsonrpc_code (internal_error _) = minus 32603
to_jsonrpc_code (upstream_connection_failed _ _) = minus 32000
to_jsonrpc_code (upstream_timeout _ _) = minus 32001
to_jsonrpc_code (upstream_error _ _) = minus 32002
to_jsonrpc_code (policy_denied _ _ _) = minus 32003
to_jsonrpc_code (task_not_found _) = minus 32602
to_jsonrpc_code (task_expired _) = minus 32005
to_jsonrpc_code (task_cancelled _) = minus 32006
to_jsonrpc_code (task_result_not_ready _) = minus 32020
to_jsonrpc_code (approval_rejected _ _ _) = minus 32007
to_jsonrpc_code (approval_timeout _ _ _) = minus 32008
to_jsonrpc_code (policy_drift _ _) = minus 32011
to_jsonrpc_code (transform_drift _ _) = minus 32012
to_jsonrpc_code (rate_limited _) = minus 32009
to_jsonrpc_code (service_unavailable _) = minus 32013
to_jsonrpc_code (governance_rule_denied _ _) = minus 32014
to_jsonrpc_code (tool_not_exposed _ _) = minus 32015
to_jsonrpc_code (task_required _ _) = minus 32600

unfoldable pub error_type_name : ThoughtGateError → String
error_type_name (parse_error _) = "parse_error"
error_type_name (invalid_request _) = "invalid_request"
error_type_name (invalid_params _) = "invalid_params"
error_type_name (upstream_connection_failed _ _) = "upstream_connection_failed"
error_type_name (upstream_timeout _ _) = "upstream_timeout"
error_type_name (upstream_error _ _) = "upstream_error"
error_type_name (tool_not_exposed _ _) = "tool_not_exposed"
error_type_name (governance_rule_denied _ _) = "governance_rule_denied"
error_type_name (policy_denied _ _ _) = "policy_denied"
error_type_name (task_not_found _) = "task_not_found"
error_type_name (task_expired _) = "task_expired"
error_type_name (task_cancelled _) = "task_cancelled"
error_type_name (task_result_not_ready _) = "task_result_not_ready"
error_type_name (approval_rejected _ _ _) = "approval_rejected"
error_type_name (approval_timeout _ _ _) = "approval_timeout"
error_type_name (policy_drift _ _) = "policy_drift"
error_type_name (transform_drift _ _) = "transform_drift"
error_type_name (rate_limited _) = "rate_limited"
error_type_name (service_unavailable _) = "service_unavailable"
error_type_name (internal_error _) = "internal_error"
error_type_name (task_required _ _) = "task_required"

unfoldable pub retry_after : ThoughtGateError → Option ℕ
retry_after (rate_limited secs) = secs
retry_after _ = none

unfoldable pub gate : ThoughtGateError → Option String
gate (tool_not_exposed _ _) = some "visibility"
gate (governance_rule_denied _ _) = some "governance"
gate (policy_denied _ _ _) = some "policy"
gate (approval_rejected _ _ _) = some "approval"
gate (approval_timeout _ _ _) = some "approval"
gate (policy_drift _ _) = some "policy"
gate (transform_drift _ _) = some "policy"
gate _ = none

unfoldable pub tool_of : ThoughtGateError → Option String
tool_of (tool_not_exposed tool _) = some tool
tool_of (governance_rule_denied tool _) = some tool
tool_of (policy_denied tool _ _) = some tool
tool_of (approval_rejected tool _ _) = some tool
tool_of (approval_timeout tool _ _) = some tool
tool_of (policy_drift tool _) = some tool
tool_of (transform_drift tool _) = some tool
tool_of (task_required tool _) = some tool
tool_of _ = none

-- `decimal` prints a number, as `Display` of the integers does.
module _ (decimal : ℕ → String) where
  abbrev prefixed : String → Option String → Option String
  prefixed p none = none
  prefixed p (some s) = some (p ++ s)

  abbrev after_secs : Option ℕ → Option String
  after_secs none = none
  after_secs (some n) = some ("Retry after " ++ decimal n ++ "s")

  unfoldable pub safe_details : ThoughtGateError → Option String
  safe_details (approval_rejected _ rejected_by _) = prefixed "Rejected by: " rejected_by
  safe_details (approval_timeout _ secs _) = some ("Timeout after " ++ decimal secs ++ "s")
  safe_details (upstream_timeout _ secs) = some ("Timeout after " ++ decimal secs ++ "s")
  safe_details (upstream_error code _) = some ("Upstream error code: " ++ int_text decimal code)
  safe_details (task_expired id) = some ("Task " ++ id ++ " expired")
  safe_details (task_result_not_ready id) = some ("Task " ++ id ++ " result pending")
  safe_details (rate_limited secs) = after_secs secs
  safe_details (service_unavailable reason) = some reason
  safe_details (parse_error details) = some details
  safe_details (invalid_request details) = some details
  safe_details (invalid_params details) = some details
  safe_details (task_required _ hint) = some hint
  safe_details (tool_not_exposed _ _) = none
  safe_details (governance_rule_denied _ _) = none
  safe_details (policy_denied _ _ _) = none
  safe_details (policy_drift _ _) = none
  safe_details (transform_drift _ _) = none
  safe_details (upstream_connection_failed _ _) = none
  safe_details (task_not_found _) = none
  safe_details (task_cancelled _) = none
  safe_details (internal_error _) = none

  -- `Debug` of an `Option<u64>`, as the message of `RateLimited` prints it.
  abbrev option_text : Option ℕ → String
  option_text none = "None"
  option_text (some n) = "Some(" ++ decimal n ++ ")"

  -- `Display`.
  unfoldable pub message : ThoughtGateError → String
  message (parse_error details) = "Invalid JSON: " ++ details
  message (invalid_request details) = "Invalid JSON-RPC request: " ++ details
  message (invalid_params details) = "Invalid parameters: " ++ details
  message (upstream_connection_failed _ _) = "Cannot connect to MCP server"
  message (upstream_timeout _ _) = "MCP server did not respond in time"
  message (upstream_error _ m) = "MCP server error: " ++ m
  message (tool_not_exposed tool _) = "Tool '" ++ tool ++ "' is not available"
  message (governance_rule_denied tool _) = "Tool '" ++ tool ++ "' is denied by governance rules"
  message (policy_denied tool _ _) = "Policy denied access to tool '" ++ tool ++ "'"
  message (task_not_found id) = "Task '" ++ id ++ "' not found"
  message (task_expired id) = "Task '" ++ id ++ "' has expired"
  message (task_cancelled id) = "Task '" ++ id ++ "' was cancelled"
  message (task_result_not_ready id) = "Task '" ++ id ++ "' result not ready"
  message (approval_rejected tool _ _) = "Approval rejected for tool '" ++ tool ++ "'"
  message (approval_timeout tool secs _) =
      "Approval timeout for tool '" ++ tool ++ "' after " ++ decimal secs ++ "s"
  message (task_required tool _) = "Task metadata required for tool '" ++ tool ++ "'"
  message (policy_drift tool _) = "Policy changed since approval for tool '" ++ tool ++ "'"
  message (transform_drift tool _) =
      "Request transform changed since approval for tool '" ++ tool ++ "'"
  message (rate_limited secs) = "Too many requests. Retry after " ++ option_text secs ++ " seconds"
  message (service_unavailable _) = "Service temporarily unavailable"
  message (internal_error id) = "Internal error. Reference: " ++ id

pub record ErrorData : Type 0 where
  pub correlation_id : String
  pub gate_name : Option String
  pub tool : Option String
  pub details : Option String
  pub error_type : String
  pub retry_after_secs : Option ℕ

pub record JsonRpcError : Type 0 where
  pub code : ℤ
  pub text : String
  pub error_data : Option ErrorData

unfoldable pub to_jsonrpc_error : (ℕ → String) → String → ThoughtGateError → JsonRpcError
unfolding to_jsonrpc_code message gate tool_of safe_details error_type_name retry_after
to_jsonrpc_error decimal correlation_id e = record {
  code = to_jsonrpc_code e;
  text = message decimal e;
  error_data = some (record {
    correlation_id = correlation_id;
    gate_name = gate e;
    tool = tool_of e;
    details = safe_details decimal e;
    error_type = error_type_name e;
    retry_after_secs = retry_after e;
  });
}
