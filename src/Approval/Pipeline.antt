-- ===== src/Approval/Pipeline.antt =====
-- governance/pipeline.rs: its data, its configuration, and its helpers.
pub mod Inspect
pub mod Execute
pub mod Forwarding
use Prim.Native.String.{◌++◌}
use thoughtgate.Base.{
  ℕ, ltb, ◌==◌, String, Bool, true, false, ◌||◌, ◌&&◌, Option, none, some, List, [], ◌∷◌, Result,
  ok, err, if◌then◌else◌, str_eq, get_or,
}
use thoughtgate.Base.Int.{ℤ, pos, negsuc}
use thoughtgate.Errors.{
  ThoughtGateError, upstream_timeout, upstream_connection_failed, upstream_error, message,
}
use thoughtgate.Json.{Value, object, string, field, end, null}
use thoughtgate.Task.Helpers.{seconds, as_secs}
use thoughtgate.Task.Types.{
  ToolCallRequest, ToolCallResult, Principal, JsonRpcId, FailureStage, Libraries,
}
use thoughtgate.Lifecycle.Config.{Environment}

-- `PreHitlResult`.
pub record PreHitlResult : Type 0 where
  pub transformed_request : ToolCallRequest
  pub request_hash : String

pub data PipelineResult : Type 0 where
  success : ToolCallResult → PipelineResult
  failure : (stage : FailureStage) (reason : String) (retriable : Bool) → PipelineResult

pub data PipelineError : Type 0 where
  inspection_rejected : (inspector reason : String) → PipelineError
  internal_error : (details : String) → PipelineError
  inspector_timeout : (inspector : String) (timeout_secs : ℕ) → PipelineError
  serialization_error : (details : String) → PipelineError

-- `Display`.
unfoldable pub pipeline_error_text : (ℕ → String) → PipelineError → String
pipeline_error_text decimal (inspection_rejected inspector reason) =
    "Inspector '" ++ inspector ++ "' rejected: " ++ reason
pipeline_error_text decimal (internal_error details) = "Internal pipeline error: " ++ details
pipeline_error_text decimal (inspector_timeout inspector secs) =
    "Inspector '" ++ inspector ++ "' timed out after " ++ decimal secs ++ "s"
pipeline_error_text decimal (serialization_error details) = "Serialization error: " ++ details

pub data TransformDriftMode : Type 0 where
  strict permissive : TransformDriftMode

pub record PipelineConfig : Type 0 where
  pub approval_validity : ℕ
  pub execution_timeout : ℕ
  pub inspector_timeout : ℕ
  pub transform_drift_mode : TransformDriftMode

abbrev pub default_pipeline : PipelineConfig
default_pipeline = record {
  approval_validity = seconds 300;
  execution_timeout = seconds 30;
  inspector_timeout = seconds 30;
  transform_drift_mode = TransformDriftMode.strict;
}

-- `validate`; `debug_duration` is how a duration is printed.
unfoldable pub validate : (ℕ → String) → PipelineConfig → Result (Unit {0}) String
validate debug_duration c =
    if ltb c.execution_timeout c.inspector_timeout
    then err (
        "inspector_timeout ("
        ++ debug_duration c.inspector_timeout
        ++ ") must be <= execution_timeout ("
        ++ debug_duration c.execution_timeout
        ++ ")")
    else if c.approval_validity == 0
    then err "approval_validity must be > 0"
    else ok tt

unfoldable pub parse_env_warn : Environment → String → ℕ → ℕ
parse_env_warn e name d = elim (e.var name) [ none ↦ d | some value ↦ get_or (e.parse_u64 value) d ]

abbrev pub drift_mode : (String → String) → Option String → TransformDriftMode
drift_mode to_lowercase none = TransformDriftMode.strict
drift_mode to_lowercase (some s) =
    if str_eq (to_lowercase s) "permissive"
    then TransformDriftMode.permissive
    else TransformDriftMode.strict

abbrev valid_or_default : PipelineConfig → Result (Unit {0}) String → PipelineConfig
valid_or_default c (ok _) = c
valid_or_default c (err _) = default_pipeline

unfoldable pub pipeline_from_env : (ℕ → String) → (String → String) → Environment → PipelineConfig
unfolding validate parse_env_warn
pipeline_from_env debug_duration to_lowercase e =
    let c : PipelineConfig = record {
      approval_validity = seconds (parse_env_warn e "THOUGHTGATE_APPROVAL_VALIDITY_SECS" 300);
      execution_timeout = seconds (parse_env_warn e "THOUGHTGATE_EXECUTION_TIMEOUT_SECS" 30);
      inspector_timeout = seconds (parse_env_warn e "THOUGHTGATE_INSPECTOR_TIMEOUT_SECS" 30);
      transform_drift_mode = drift_mode to_lowercase (e.var "THOUGHTGATE_TRANSFORM_DRIFT_MODE");
    } in
    valid_or_default c (validate debug_duration c)

-- `McpRequest`, less the time of its arrival and its correlation identifier, which are new each time,
-- and its task metadata, which the pipeline leaves out.
pub record McpRequest : Type 0 where
  pub id : Option JsonRpcId
  pub method : String
  pub params : Option Value

-- The error of a JSON-RPC response.
pub record ResponseError : Type 0 where
  pub code : ℤ
  pub text : String

pub record JsonRpcResponse : Type 0 where
  pub result : Option Value
  pub error : Option ResponseError

abbrev request_id : JsonRpcId → Option JsonRpcId
request_id (JsonRpcId.number n) = some (JsonRpcId.number n)
request_id (JsonRpcId.string s) = some (JsonRpcId.string s)
request_id JsonRpcId.null = none

-- `is_null() || == {}`.
unfoldable pub has_no_arguments : Value → Bool
has_no_arguments null = true
has_no_arguments (object end) = true
has_no_arguments _ = false

abbrev name_and_arguments : ToolCallRequest → Value
name_and_arguments r = object (field "name" (string r.name) (field "arguments" r.arguments end))

unfoldable pub to_mcp_request : ToolCallRequest → McpRequest
unfolding has_no_arguments
to_mcp_request r = record {
  id = request_id r.mcp_request_id;
  method = r.method;
  params =
      if str_eq r.method "tools/call"
      then some (name_and_arguments r)
      else if str_eq r.method "resources/read" || str_eq r.method "resources/subscribe"
      then some (object (field "uri" (string r.name) end))
      else if str_eq r.method "prompts/get" && has_no_arguments r.arguments
      then some (object (field "name" (string r.name) end))
      else some (name_and_arguments r);
}

pub record ApprovalGrant : Type 0 where
  pub task_id : String
  pub approved_by : String
  pub approved_at : ℕ

-- `PolicyRequest` for a call of a tool of the server "default".
pub record PolicyRequest : Type 0 where
  pub app_name : String
  pub namespace : String
  pub service_account : String
  pub roles : List String
  pub tool : String
  pub server : String
  pub approval_grant : Option ApprovalGrant

pub data PolicyAction : Type 0 where
  forward : PolicyAction
  approve : (timeout : ℕ) → PolicyAction
  reject : (reason : String) → PolicyAction

unfoldable pub build_policy_request :
    ToolCallRequest → Principal → Option ApprovalGrant → PolicyRequest
build_policy_request r principal grant = record {
  app_name = principal.app_name;
  namespace = principal.namespace;
  service_account = principal.service_account;
  roles = principal.roles;
  tool = r.name;
  server = "default";
  approval_grant = grant;
}

-- `check_policy_drift`; the engine runs in a thread of its own, which may fail with a text.
unfoldable pub check_policy_drift :
    (PolicyRequest → Result PolicyAction String)
    → ToolCallRequest
    → Principal
    → Result (Unit {0}) String
unfolding build_policy_request
check_policy_drift evaluate r principal = elim (evaluate (build_policy_request r principal none)) [
  | err e ↦ err ("Policy re-evaluation task failed: " ++ e)
  | ok a ↦ elim a [ forward ↦ ok tt | approve _ ↦ ok tt | reject reason ↦ err reason ]
]

unfoldable pub classify_upstream_error : (ℕ → String) → ThoughtGateError → Bool × String
classify_upstream_error decimal (upstream_timeout _ _) = (true, "Upstream timed out")
classify_upstream_error decimal (upstream_connection_failed _ reason) =
    (true, "Connection failed: " ++ reason)
classify_upstream_error decimal (upstream_error _ text) = (false, text)
classify_upstream_error decimal other = (false, message decimal other)

-- The codes -32000, -32001 and -32013.
unfoldable pub is_retriable_error : ℤ → Bool
is_retriable_error (pos _) = false
is_retriable_error (negsuc n) = n == 31999 || n == 32000 || n == 32012
