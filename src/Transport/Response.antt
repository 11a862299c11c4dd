-- ===== src/Transport/Response.antt =====
-- The constructors of `JsonRpcResponse` in thoughtgate-core/src/transport/jsonrpc.rs. The version is
-- always "2.0" and is left out.
use thoughtgate.Base.{ℕ, ◌/◌, String, Option, none, some}
use thoughtgate.Errors.{JsonRpcError}
use thoughtgate.Json.{Value, Fields, number, string, object, end, field}
use thoughtgate.Task.Types.{JsonRpcId}
use thoughtgate.Transport.{Numbers, JsonRpcResponse}

unfoldable pub success : Option JsonRpcId → Value → JsonRpcResponse
success id result = record { id = id; result = some result; error = none }

unfoldable pub error : Option JsonRpcId → JsonRpcError → JsonRpcResponse
error id e = record { id = id; result = none; error = some e }

abbrev message_field : Option String → Fields
message_field none = end
message_field (some m) = field "statusMessage" (string m) end

-- The poll interval is in nanoseconds.
unfoldable pub task_created :
    Numbers → Option JsonRpcId → String → String → ℕ → Option String → JsonRpcResponse
task_created n id task_id status poll_interval status_message = record {
  id = id;
  result = some (
      object (
        field "taskId" (string task_id) (
          field "status" (string status) (
            field "pollInterval" (number (n.of_unsigned (poll_interval / 1_000_000)))
              (message_field status_message)))));
  error = none;
}
