-- ===== src/Tests/Approval.antt =====
-- The approval of a call at concrete inputs.
use thoughtgate.Base.{false, Option, none, some, [], ◌∷◌, ok, ◌≡◌, refl, ◌⊎◌, str_eq, List}
use thoughtgate.Base.Dict.{lookup}
use thoughtgate.Json.{Value}
use thoughtgate.Task.Status.{TaskStatus, status_eq}
use thoughtgate.Task.Types.{
  Task, ToolCallRequest, JsonRpcId, TimeoutAction, ApprovalRecord, ApprovalDecision,
}
use thoughtgate.Task.Helpers.{hash_request, canonical_json}
use thoughtgate.Task.Store.State.{new}
use thoughtgate.Task.Store.Queries
use thoughtgate.Approval.Pipeline.{PolicyAction, default_pipeline, to_mcp_request}
use thoughtgate.Approval.Pipeline.Execute.{
  ApprovalPipeline, answered, execute_approved, validate_approval, reevaluate_policy,
  policy_verdict, post_approval_amber, compare_hash, forward_to_upstream,
}
use thoughtgate.Approval.Pipeline.Inspect.{run_inspector_chain}
use thoughtgate.Approval.Pipeline.Forwarding.{NothingSent, IsSent, execute_approved-IsSent}
use thoughtgate.Approval.Engine.{ApprovalEngine, EngineState, Arrival, default_engine}
use thoughtgate.Approval.Engine.Execute.{
  Moment, in_time, is_executing, run_pipeline_with_timeout, execute_on_result, with_task, by_status,
  handle_expired_task, auto_approve, release,
}
use thoughtgate.Approval.Engine.Sending.{HasHash, IsExecution, execute_on_result-IsExecution}
use thoughtgate.Approval.Engine.Once.{IsOver, execute_on_result-IsOver, execute_on_result-twice}
use thoughtgate.Approval.Engine.Again.{auto_run, execute_on_result-again}
use thoughtgate.Approval.Engine.Wait.{Round}
use thoughtgate.Governance.Evaluator.{EvalTrace}
use thoughtgate.Governance.Gates.{approval_by, tool_request_of}
use thoughtgate.Approval.Engine.{as_gate}
use thoughtgate.Approval.Gate4.{Answers, approval_by-Answers}
use thoughtgate.Tests.Governance.{call, draws}
use thoughtgate.Tests.Store.{lib, config, agent, clock}

abbrev pub request : ToolCallRequest
request = record {
  method = "tools/call";
  name = "delete_user";
  arguments = Value.null;
  mcp_request_id = JsonRpcId.null;
}

abbrev pipeline : ApprovalPipeline
pipeline = record {
  inspectors = [];
  policy_engine = λ r. ok PolicyAction.forward;
  upstream_client = λ r. answered (record { result = some Value.null; error = none });
  config = default_pipeline;
  wire = record {
    to_bytes = λ v. ok "{}";
    bad_uri = λ u. none;
    parse_request = λ s. ok (s, Value.null);
  };
  lib = lib;
  decimal = λ n. "7";
}

abbrev pub engine : ApprovalEngine
engine = record {
  scheduler = λ r. ok tt;
  pipeline = pipeline;
  config = default_engine;
  error_text = λ e. "error";
}

abbrev approval : ApprovalRecord
approval = record {
  decision = ApprovalDecision.approved;
  decided_by = "ann";
  decided_at = 4;
  approval_valid_until = 90;
  metadata = none;
}

abbrev pub task : TaskStatus → Option ApprovalRecord → Task
task status a = record {
  id = "tg_1";
  original_request = request;
  pre_approval_transformed = request;
  request_hash = "tools/calldelete_usernull";
  principal = agent;
  created_at = 3;
  ttl = 100;
  expires_at = 103;
  poll_interval = 1;
  status = status;
  status_message = none;
  transitions = [];
  approval = a;
  result = none;
  failure = none;
  on_timeout = TimeoutAction.approve;
}

abbrev pub state : TaskStatus → Option ApprovalRecord → EngineState
state status a = record {
  task_store = record (new config) {
    tasks =
        (
          "tg_1",
          record { task = task status a; terminal_at = none; notify = 0; estimated_bytes = 0 },
        )
        ∷ [];
  };
  executing = [];
}

abbrev moment : (EngineState → EngineState) → Moment
moment after = record {
  now = 5;
  approved_at = 5;
  recorded_at = 6;
  ends = clock;
  timer = in_time;
  after_read = after;
  meanwhile = λ s. s;
}

abbrev pub calm : Moment
calm = moment λ s. s

abbrev pub approved : Task
approved = task TaskStatus.executing (some approval)

abbrev pub approved_state : EngineState
approved_state = state TaskStatus.executing (some approval)

abbrev expired_state : EngineState
expired_state = state TaskStatus.expired none

hashed : HasHash lib approved
unfolding hash_request canonical_json
hashed = refl

execute_approved-IsSent_example :
    let run = execute_approved pipeline 5 approved approval in
    NothingSent run.0 run.1 ⊎ IsSent pipeline 5 approved approval run.0 run.1
execute_approved-IsSent_example = execute_approved-IsSent pipeline 5 approved approval hashed

found : Queries.get "tg_1" approved_state.task_store ≡ ok approved
unfolding Queries.get lookup new str_eq
found = refl

execute_on_result-IsExecution_example :
    let run = execute_on_result engine calm "tg_1" approved_state in
    (run.1 ≡ []) ⊎ IsExecution engine "tg_1" approved approved_state run.1
execute_on_result-IsExecution_example =
    execute_on_result-IsExecution engine calm "tg_1" approved_state approved found hashed

idle : is_executing "tg_1" approved_state.executing ≡ false
unfolding is_executing
idle = refl

execute_on_result-IsOver_example :
    let run = execute_on_result engine calm "tg_1" approved_state in
    IsOver engine "tg_1" run.2 run.0
execute_on_result-IsOver_example =
    execute_on_result-IsOver engine calm "tg_1" approved_state approved approval found refl refl
      idle found

abbrev behind : Moment
behind = moment λ s. (execute_on_result engine calm "tg_1" approved_state).0

execute_on_result-twice_example :
    ((execute_on_result engine calm "tg_1" approved_state).1
      ≡ (run_pipeline_with_timeout engine calm approved approval).0)
    × ((execute_on_result engine behind "tg_1" approved_state).1
        ≡ (run_pipeline_with_timeout engine behind approved approval).0)
execute_on_result-twice_example =
    execute_on_result-twice engine calm behind "tg_1" approved_state approved approval found refl
      refl idle refl

-- Each of the two has sent the request.
sent_twice :
    (run_pipeline_with_timeout engine behind approved approval).0 ≡ to_mcp_request request ∷ []
unfolding run_pipeline_with_timeout execute_approved validate_approval reevaluate_policy
    policy_verdict post_approval_amber run_inspector_chain compare_hash forward_to_upstream
    hash_request canonical_json str_eq status_eq
sent_twice = refl

expired_found : Queries.get "tg_1" expired_state.task_store ≡ ok (task TaskStatus.expired none)
unfolding Queries.get lookup new str_eq
expired_found = refl

again_idle :
    is_executing "tg_1" (execute_on_result engine calm "tg_1" expired_state).0.executing ≡ false
unfolding execute_on_result with_task Queries.get lookup new str_eq by_status handle_expired_task
    auto_approve is_executing release
again_idle = refl

execute_on_result-again_example :
    ((execute_on_result engine calm "tg_1" expired_state).1
      ≡ (auto_run engine calm (task TaskStatus.expired none)).0)
    × ((execute_on_result engine calm "tg_1"
          (execute_on_result engine calm "tg_1" expired_state).0).1
        ≡ (auto_run engine calm (task TaskStatus.expired none)).0)
execute_on_result-again_example =
    execute_on_result-again engine calm calm "tg_1" expired_state (task TaskStatus.expired none)
      expired_found refl refl idle expired_found refl refl again_idle

abbrev pub arrival : Arrival
arrival = record { task_id = "tg_2"; now = 9; waits = clock; correlation_id = "c" }

abbrev pub round : Round
round = record { tested_at = 30; before_poll = λ s. s; poll = calm }

abbrev rounds : List Round
rounds = record round { tested_at = 6 } ∷ record round { tested_at = 9 } ∷ round ∷ []

abbrev trace : EvalTrace
trace = record {
  gate1 = none;
  gate2 = none;
  gate2_rule_id = none;
  gate3 = none;
  gate3_policy_id = none;
  gate4 = none;
}

approval_by-Answers_example :
    Answers engine "tg_2" (tool_request_of (call "delete_user") "delete_user") (
      approval_by draws
        (some (as_gate engine arrival))
        none
        (call "delete_user")
        "delete_user"
        none
        none
        agent
        trace
        (new config))
approval_by-Answers_example =
    approval_by-Answers engine arrival draws none (call "delete_user") "delete_user" none none agent
      trace (new config)
