-- ===== src/Transport.antt =====
-- The messages of thoughtgate-core/src/transport/jsonrpc.rs. The time at which a request arrived is
-- left out, since it is only measured.
pub mod Response
pub mod Correlation
pub mod Classify
pub mod Parsing
pub mod Agreement
pub mod Router
pub mod Governed
use thoughtgate.Base.{ℕ, String, Bool, true, false, Option, none, some}
use thoughtgate.Base.Int.{ℤ}
use thoughtgate.Errors.{JsonRpcError, ThoughtGateError}
use thoughtgate.Json.{Value}
use thoughtgate.Task.Types.{JsonRpcId}

-- What is read of the numbers of `serde_json` and printed as one: `as_i64`, `as_u64`, and the number of
-- an unsigned integer.
pub record Numbers : Type 0 where
  pub as_i64 : String → Option ℤ
  pub as_u64 : String → Option ℕ
  pub of_unsigned : ℕ → String

-- The duration is in nanoseconds.
pub record TaskMetadata : Type 0 where
  pub ttl : Option ℕ

pub record JsonRpcRequest : Type 0 where
  pub id : Option JsonRpcId
  pub method : String
  pub params : Option Value

pub record JsonRpcResponse : Type 0 where
  pub id : Option JsonRpcId
  pub result : Option Value
  pub error : Option JsonRpcError

pub record McpRequest : Type 0 where
  pub id : Option JsonRpcId
  pub method : String
  pub params : Option Value
  pub task_metadata : Option TaskMetadata
  pub correlation_id : ℕ

pub data BatchItem : Type 0 where
  valid : McpRequest → BatchItem
  invalid : (id : Option JsonRpcId) (error : ThoughtGateError) → BatchItem

abbrev pub is_none {ℓ} : {A : Type ℓ} → Option A → Bool
is_none none = true
is_none (some _) = false

abbrev pub is_some {ℓ} : {A : Type ℓ} → Option A → Bool
is_some none = false
is_some (some _) = true

unfoldable pub is_notification : McpRequest → Bool
is_notification r = is_none r.id

unfoldable pub is_task_augmented : McpRequest → Bool
is_task_augmented r = is_some r.task_metadata

unfoldable pub to_jsonrpc_request : McpRequest → JsonRpcRequest
to_jsonrpc_request r = record { id = r.id; method = r.method; params = r.params }
