-- ===== src/Governance/Evaluator.antt =====
-- thoughtgate-core/src/governance/evaluator.rs: a request through the four gates. The Cedar engine, the
-- approval engine and the scheduler are parameters, as interfaces of their components; the metrics and
-- the measured time of gate 3 are left out.
use thoughtgate.Base.{
  ℕ, String, Bool, false, ◌||◌, Option, none, some, if◌then◌else◌, str_eq, get_or,
}
use thoughtgate.Json.{Value, object, end}
use thoughtgate.Json.Objects.{get_value, value_as_str}
use thoughtgate.Task.Types.{TaskId, JsonRpcId}

pub data MessageType : Type 0 where
  request response notification : MessageType

pub data StreamDirection : Type 0 where
  agent_to_server server_to_agent : StreamDirection

pub data Profile : Type 0 where
  production development : Profile

pub data DenySource : Type 0 where
  visibility governance_rule cedar_policy : DenySource

pub data GovernanceDecision : Type 0 where
  forward deny pending_approval : GovernanceDecision

pub record GovernanceEvaluateRequest : Type 0 where
  pub server_id : String
  pub direction : StreamDirection
  pub method : String
  pub id : Option JsonRpcId
  pub params : Option Value
  pub message_type : MessageType
  pub profile : Profile

pub record GovernanceEvaluateResponse : Type 0 where
  pub decision : GovernanceDecision
  pub task_id : Option String
  pub policy_id : Option String
  pub reason : Option String
  pub poll_interval_ms : Option ℕ
  pub timeout_secs : Option ℕ
  pub shutdown : Bool
  pub deny_source : Option DenySource

pub record EvalTrace : Type 0 where
  pub gate1 : Option String
  pub gate2 : Option String
  pub gate2_rule_id : Option String
  pub gate3 : Option String
  pub gate3_policy_id : Option String
  pub gate4 : Option String

abbrev pub empty_trace : EvalTrace
empty_trace = record {
  gate1 = none;
  gate2 = none;
  gate2_rule_id = none;
  gate3 = none;
  gate3_policy_id = none;
  gate4 = none;
}

unfoldable pub forward_with : Option String → GovernanceEvaluateResponse
forward_with reason = record {
  decision = GovernanceDecision.forward;
  task_id = none;
  policy_id = none;
  reason = reason;
  poll_interval_ms = none;
  timeout_secs = none;
  shutdown = false;
  deny_source = none;
}

unfoldable pub deny_with : Option String → Option String → DenySource → GovernanceEvaluateResponse
deny_with reason policy_id source = record {
  decision = GovernanceDecision.deny;
  task_id = none;
  policy_id = policy_id;
  reason = reason;
  poll_interval_ms = none;
  timeout_secs = none;
  shutdown = false;
  deny_source = some source;
}

unfoldable pub pending_with : TaskId → Option String → ℕ → Option ℕ → GovernanceEvaluateResponse
pending_with task_id policy_id poll_interval_ms timeout_secs = record {
  decision = GovernanceDecision.pending_approval;
  task_id = some task_id;
  policy_id = policy_id;
  reason = none;
  poll_interval_ms = some poll_interval_ms;
  timeout_secs = timeout_secs;
  shutdown = false;
  deny_source = none;
}

unfoldable pub method_requires_gates : String → Bool
method_requires_gates m =
    str_eq m "tools/call"
    || str_eq m "resources/read"
    || str_eq m "resources/subscribe"
    || str_eq m "prompts/get"

abbrev pub text_at : String → Value → Option String
text_at key params = elim (get_value key params) [ none ↦ none | some v ↦ value_as_str v ]

unfoldable pub extract_resource_name : String → Option Value → Option String
extract_resource_name method none = none
extract_resource_name method (some params) =
    if str_eq method "tools/call"
    then text_at "name" params
    else if str_eq method "resources/read" || str_eq method "resources/subscribe"
    then text_at "uri" params
    else if str_eq method "prompts/get"
    then text_at "name" params
    else none

unfoldable pub extract_arguments : Option Value → Value
extract_arguments none = object end
extract_arguments (some params) = get_or (get_value "arguments" params) (object end)
