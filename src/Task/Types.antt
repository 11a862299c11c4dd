-- ===== src/Task/Types.antt =====
-- thoughtgate-core/src/governance/task/types.rs and error.rs: the data of a task. `DateTime<Utc>` and
-- `Duration` are numbers of nanoseconds.
use thoughtgate.Base.{ℕ, String, Bool, Option, none, List, []}
use thoughtgate.Base.Int.{ℤ}
use thoughtgate.Json.{Value}
use thoughtgate.Task.Status.{TaskStatus}

-- `TaskId` wraps a text.
abbrev pub TaskId : Type 0
TaskId = String

pub record Principal : Type 0 where
  pub app_name : String
  pub user_id : Option String
  pub session_id : Option String
  pub namespace : String
  pub service_account : String
  pub roles : List String

unfoldable pub new : String → Principal
new app_name = record {
  app_name = app_name;
  user_id = none;
  session_id = none;
  namespace = "default";
  service_account = "default";
  roles = [];
}

unfoldable pub from_policy : String → String → String → List String → Principal
from_policy app_name namespace service_account roles = record {
  app_name = app_name;
  user_id = none;
  session_id = none;
  namespace = namespace;
  service_account = service_account;
  roles = roles;
}

pub data JsonRpcId : Type 0 where
  number : ℤ → JsonRpcId
  string : String → JsonRpcId
  null : JsonRpcId

pub record ToolCallRequest : Type 0 where
  pub method : String
  pub name : String
  pub arguments : Value
  pub mcp_request_id : JsonRpcId

pub record ToolCallResult : Type 0 where
  pub content : Value
  pub is_error : Bool

pub data ApprovalDecision : Type 0 where
  approved : ApprovalDecision
  rejected : Option String → ApprovalDecision

pub record ApprovalRecord : Type 0 where
  pub decision : ApprovalDecision
  pub decided_by : String
  pub decided_at : ℕ
  pub approval_valid_until : ℕ
  pub metadata : Option Value

pub data FailureStage : Type 0 where
  pre_hitl_inspection approval_timeout approval_rejected policy_drift : FailureStage
  post_hitl_inspection transform_drift upstream_error service_shutdown : FailureStage
  invalid_task_state : FailureStage

pub record FailureInfo : Type 0 where
  pub stage : FailureStage
  pub reason : String
  pub retriable : Bool

pub record TaskTransition : Type 0 where
  pub from : TaskStatus
  pub to : TaskStatus
  pub at : ℕ
  pub reason : Option String

pub data TimeoutAction : Type 0 where
  deny approve : TimeoutAction

pub record Task : Type 0 where
  pub id : TaskId
  pub original_request : ToolCallRequest
  pub pre_approval_transformed : ToolCallRequest
  pub request_hash : String
  pub principal : Principal
  pub created_at : ℕ
  pub ttl : ℕ
  pub expires_at : ℕ
  pub poll_interval : ℕ
  pub status : TaskStatus
  pub status_message : Option String
  pub transitions : List TaskTransition
  pub approval : Option ApprovalRecord
  pub result : Option ToolCallResult
  pub failure : Option FailureInfo
  pub on_timeout : TimeoutAction

-- What the task's code calls outside the repository: `serde_json::to_string`, SHA-256 in hexadecimal
-- and `chrono::Duration::from_std`.
pub record Libraries : Type 0 where
  pub json_text : Value → Option String
  pub sha256_hex : String → String
  pub from_std : ℕ → Option ℕ

-- The readings of `Utc::now()` that a change of status makes, in their order: for the audit trail, for
-- the poll interval, and for the end of the task.
pub record Clock : Type 0 where
  pub recorded : ℕ
  pub polled : ℕ
  pub ended : ℕ

pub data TaskError : Type 0 where
  not_found : TaskId → TaskError
  expired : TaskId → TaskError
  already_terminal : TaskId → TaskStatus → TaskError
  invalid_transition : TaskId → TaskStatus → TaskStatus → TaskError
  concurrent_modification : TaskId → TaskStatus → TaskStatus → TaskError
  rate_limited : String → ℕ → TaskError
  capacity_exceeded : TaskError
  result_not_ready : TaskId → TaskError
  internal : String → TaskError
