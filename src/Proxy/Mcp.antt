-- ===== src/Proxy/Mcp.antt =====
-- thoughtgate-proxy/src/mcp_handler/mod.rs, helpers.rs and cedar_eval.rs (`get_source_id`): the state of
-- the MCP handler, and what a request of it meets. Spans and metrics are output and are left out.
pub mod Capabilities
pub mod Cedar
pub mod Gates
pub mod Routing
pub mod Answers
pub mod Requests
pub mod Body
pub mod Passing
pub mod Governed
pub mod Routed
pub mod Announced
pub mod Batches
pub mod Restored
pub mod Limits
use thoughtgate.Base.{
  ℕ, String, Bool, ◌||◌, Option, none, some, List, [], ◌∷◌, Result, str_eq, if◌then◌else◌,
}
use thoughtgate.Errors.{ThoughtGateError}
use thoughtgate.Task.Types.{TaskId, JsonRpcId}
use thoughtgate.Governance.Schema.{Config}
use thoughtgate.Governance.Evaluator.{Profile}
use thoughtgate.Governance.Gates.{CedarRequest, CedarDecision, Evaluator, Draws}
use thoughtgate.Approval.Pipeline
use thoughtgate.Approval.Engine.{ApprovalEngine, EngineState, Arrival}
use thoughtgate.Approval.Engine.Wait.{Round}
use thoughtgate.Protocol.{CapabilityCache}
use thoughtgate.Transport.{McpRequest, JsonRpcResponse}
use thoughtgate.Transport.Parsing.{Reader}
use thoughtgate.Proxy.TaskMethods.{PolicyPrincipal, Visit}
use thoughtgate.Proxy.TaskMethods

-- `tasks` holds the approval engine and what the task methods need; `reader` is the parser; the last
-- fields print a number, an identifier and the JSON of a response.
pub record McpState {ℓ} (P : Type ℓ) : Type ℓ where
  pub upstream : McpRequest → Result JsonRpcResponse ThoughtGateError
  pub tasks : TaskMethods.McpState
  pub cedar_engine : CedarRequest → CedarDecision
  pub config : Option (Config P)
  pub evaluator : Option (Evaluator P)
  pub max_body_size : ℕ
  pub max_batch_size : ℕ
  pub max_aggregate_buffer : ℕ
  pub blocking_approval_timeout_secs : ℕ
  pub profile : Profile
  pub reader : Reader
  pub decimal : ℕ → String
  pub uuid_text : ℕ → String
  pub to_vec : JsonRpcResponse → Option String
  pub batch_to_vec : List JsonRpcResponse → Option String

-- What changes: the store and the executions, the cache, the counters, and the free permits of the
-- semaphore.
pub record Live : Type 0 where
  pub engine : EngineState
  pub capability_cache : CapabilityCache
  pub buffered_bytes : ℕ
  pub permits : ℕ
  pub counter : ℕ

-- What a request draws from outside: the two inferences of the principal, and what its evaluation, its
-- task method, the start of its approval and the rounds of its wait meet.
pub record Call : Type 0 where
  pub optional_principal : Option PolicyPrincipal
  pub inferred : Result PolicyPrincipal ThoughtGateError
  pub draws : Draws
  pub visit : Visit
  pub arrival : Arrival
  pub start : ℕ
  pub rounds : List Round

-- What is sent to the upstream: a request as it came, or the execution of an approved task.
pub data Sent : Type 0 where
  forwarded : McpRequest → Sent
  executed : Pipeline.McpRequest → Sent

abbrev pub Answered : Type 0
Answered = Result JsonRpcResponse ThoughtGateError

-- `BlockingApproval`, less the metrics.
pub record Blocking : Type 0 where
  pub approval_engine : ApprovalEngine
  pub task_id : TaskId
  pub resource_name : String
  pub request_id : Option JsonRpcId
  pub blocking_timeout : ℕ
  pub poll_interval : ℕ

pub data GateResult : Type 0 where
  immediate : Answered → GateResult
  blocking_approval : Blocking → GateResult

-- The state after a step, what was sent, and the result.
abbrev pub Step {ℓ} : Type ℓ → Type ℓ
Step A = Live × List Sent × A

abbrev pub forward {ℓ} : {P : Type ℓ} → McpState P → Live → McpRequest → Step Answered
forward v s r = (s, forwarded r ∷ [], v.upstream r)

-- `get_source_id`.
abbrev pub source_id : String
source_id = "upstream"

unfoldable pub is_list_method : String → Bool
is_list_method m = str_eq m "tools/list" || str_eq m "resources/list" || str_eq m "prompts/list"

-- What a request lacks that names no resource.
unfoldable pub missing_field : String → String
missing_field method =
    if str_eq method "tools/call" || str_eq method "prompts/get"
    then "name"
    else if str_eq method "resources/read" || str_eq method "resources/subscribe"
    then "uri"
    else "identifier"
