-- ===== src/Proxy/Mcp/Answers.antt =====
-- The answers of thoughtgate-proxy/src/mcp_handler/helpers.rs, and of a wait for an approval in
-- request.rs. A response is its status and its text.
use thoughtgate.Base.{ℕ, String, Option, none, some, [], Result, ok, err, map}
use thoughtgate.Errors.{ThoughtGateError, rate_limited, to_jsonrpc_error}
use thoughtgate.Json.{Value, string, object, field, end}
use thoughtgate.Task.Types.{JsonRpcId, ToolCallResult}
use thoughtgate.Approval.Engine.Wait.{Waited, wait_and_execute}
use thoughtgate.Transport.{JsonRpcResponse}
use thoughtgate.Transport.Correlation.{fast_correlation_id}
use thoughtgate.Transport.Response
use thoughtgate.Proxy.TaskMethods
use thoughtgate.Proxy.Mcp.{McpState, Live, Call, executed, Blocking, Answered, Step}

abbrev pub Buffered : Type 0
Buffered = ℕ × String

-- `Streaming` stands for what its background task waits for.
pub data McpResponse : Type 0 where
  buffered : Buffered → McpResponse
  streaming : Blocking → McpResponse

abbrev pub ok_status : ℕ
ok_status = 200

abbrev pub no_content : ℕ
no_content = 204

abbrev pub server_error : ℕ
server_error = 500

abbrev pub internal_body : String
internal_body =
    "{\"jsonrpc\":\"2.0\",\"id\":null,\"error\":{\"code\":-32603,\"message\":\"Internal error\"}}"

abbrev pub rate_limited_body : String
rate_limited_body =
    "{\"jsonrpc\":\"2.0\",\"id\":null,\"error\":{\"code\":-32009,\"message\":\"Rate limited\"}}"

abbrev pub batch_failed_body : String
batch_failed_body =
    "{\"jsonrpc\":\"2.0\",\"id\":null,\"error\":{\"code\":-32603,\"message\":\"Internal error: failed to serialize response\"}}"

abbrev pub written : ℕ → String → Option String → Buffered
written status fallback none = (status, fallback)
written status fallback (some bytes) = (ok_status, bytes)

abbrev pub or_failed : Result Value String → Value
or_failed (ok value) = value
or_failed (err e) = object (field "error" (string "serialization failed") end)

module _ {ℓ} {P : Type ℓ} where
  unfoldable pub json_bytes : McpState P → JsonRpcResponse → Buffered
  json_bytes v response = written server_error internal_body (v.to_vec response)

  unfoldable pub error_response :
      McpState P → Option JsonRpcId → ThoughtGateError → ℕ → JsonRpcResponse
  unfolding Response.error
  error_response v id e correlation_id =
      Response.error id (to_jsonrpc_error v.decimal (v.uuid_text correlation_id) e)

  unfoldable pub error_bytes : McpState P → Option JsonRpcId → ThoughtGateError → ℕ → Buffered
  unfolding error_response
  error_bytes v id e correlation_id =
      written ok_status internal_body (v.to_vec (error_response v id e correlation_id))

  abbrev pub numbered : McpState P → Live → (ℕ → Buffered) → ℕ × ℕ → Step McpResponse
  numbered v s bytes (counter, id) = (record s { counter = counter }, [], buffered (bytes id))

  -- An error that no request has caused, with an identifier of its own.
  unfoldable pub refuse : McpState P → Live → ThoughtGateError → Step McpResponse
  unfolding error_bytes fast_correlation_id
  refuse v s e = numbered v s (error_bytes v none e) (fast_correlation_id v.reader.prefix s.counter)

  abbrev pub limited : McpState P → Live → Step McpResponse
  limited v s =
      numbered v s
        (λ id.
          written ok_status rate_limited_body
            (v.to_vec (error_response v none (rate_limited (some 1)) id)))
        (fast_correlation_id v.reader.prefix s.counter)

  unfoldable pub approved_response :
      McpState P → Option JsonRpcId → Result ToolCallResult ThoughtGateError → Answered
  unfolding Response.success
  approved_response v id (ok result) =
      ok (Response.success id (or_failed (v.tasks.serde.to_value (TaskMethods.executed result))))
  approved_response v id (err e) = err e

  abbrev pub waited : McpState P → Live → Blocking → Waited → Step (Option Answered)
  waited v s b (engine, calls, none) = (record s { engine = engine }, map executed calls, none)
  waited v s b (engine, calls, some reply) = (
    record s { engine = engine },
    map executed calls,
    some (approved_response v b.request_id reply),
  )

  -- The wait of an item of a batch; without a result where the rounds end before the wait does.
  unfoldable pub blocking_approval_sync :
      McpState P → Call → Live → Blocking → Step (Option Answered)
  unfolding approved_response
  blocking_approval_sync v w s b = waited v s b (
      wait_and_execute b.approval_engine b.task_id b.resource_name w.start b.blocking_timeout
        w.rounds s.engine)

  abbrev pub stream_response :
      McpState P → Live → Blocking → Answered → ℕ × ℕ → Live × Option String
  stream_response v s b (ok response) ids = (s, v.to_vec response)
  stream_response v s b (err e) (counter, id) =
      (record s { counter = counter }, v.to_vec (error_response v b.request_id e id))

  abbrev pub streamed : McpState P → Blocking → Step (Option Answered) → Step (Option String)
  streamed v b (s, sent, none) = (s, sent, none)
  streamed v b (s, sent, some r) =
      let after = stream_response v s b r (fast_correlation_id v.reader.prefix s.counter) in
      (after.0, sent, some (written ok_status internal_body after.1).1)

  -- What the background task of a streaming response ends the stream with, while the agent stays
  -- connected; the spaces that keep the connection open are before it.
  unfoldable pub spawn_blocking_approval_stream :
      McpState P → Call → Live → Blocking → Step (Option String)
  unfolding blocking_approval_sync error_response fast_correlation_id
  spawn_blocking_approval_stream v w s b = streamed v b (blocking_approval_sync v w s b)
