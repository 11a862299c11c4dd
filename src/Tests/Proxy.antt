-- ===== src/Tests/Proxy.antt =====
-- The methods that the proxy serves at concrete inputs.
use thoughtgate.Base.{true, none, some, [], ok, err, ◌≡◌, refl, str_eq, str_eq_refl, subst, ap}
use thoughtgate.Base.Dict.{lookup}
use thoughtgate.Json.{Value}
use thoughtgate.Task.Types.{Principal, TaskError}
use thoughtgate.Task.Store.State.{new}
use thoughtgate.Task.Store.Queries.{get}
use thoughtgate.Task.Handlers.{handle_tasks_list}
use thoughtgate.Approval.Engine.{EngineState}
use thoughtgate.Proxy.TaskMethods.{
  McpState, Visit, PolicyPrincipal, identified, task_result, caller_of, handle_task_method,
}
use thoughtgate.Proxy.TaskMethods.Isolation.{
  another, handle_task_method-isolates, handle_tasks_list-app_name,
}
use thoughtgate.Tests.Store.{config, agent, clock}
use thoughtgate.Tests.Approval.{approved_state, approved, engine, calm}
use thoughtgate.Tests.Handlers.{unary}

abbrev stranger : PolicyPrincipal
stranger = record {
  app_name = "agent";
  namespace = "other";
  service_account = "default";
  roles = [];
}

abbrev pub owner : PolicyPrincipal
owner = record {
  app_name = "agent";
  namespace = "default";
  service_account = "default";
  roles = [];
}

abbrev pub proxy : McpState
proxy = record {
  serde = record {
    task_id_of = λ v. ok "tg_1";
    cursor_of = λ v. ok none;
    to_value = λ r. ok Value.null;
  };
  cursors = unary;
  approval_engine = some engine;
}

abbrev pub visit : PolicyPrincipal → Visit
visit p = record {
  caller = identified p;
  lister = ok p;
  after_check = λ s. s;
  changes = clock;
  moment = calm;
}

abbrev pub empty : EngineState
empty = record { task_store = new config; executing = [] }

found : get "tg_1" approved_state.task_store ≡ ok approved
unfolding get lookup str_eq new
found = refl

gone : get "tg_1" empty.task_store ≡ err (TaskError.not_found "tg_1")
unfolding get lookup new
gone = refl

not_owner : ¬ (agent ≡ caller_of stranger)
unfolding caller_of str_eq
not_owner h =
    let same : str_eq "default" "other" ≡ true =
      subst (λ s. str_eq "default" s ≡ true) (ap (λ (p : Principal). p.namespace) h)
        (str_eq_refl "default") in
    cc

handle_task_method-isolates_example :
    let answer = handle_task_method proxy (visit stranger) task_result Value.null approved_state in
    (answer.0 ≡ approved_state)
    × (answer.1 ≡ [])
    × (answer.2 ≡ (handle_task_method proxy (visit owner) task_result Value.null empty).2)
handle_task_method-isolates_example =
    handle_task_method-isolates proxy (visit stranger) (visit owner) task_result Value.null "tg_1"
      approved approved_state empty refl refl found (another stranger not_owner) gone

handle_tasks_list-app_name_example :
    handle_tasks_list unary none (caller_of owner) empty.task_store
    ≡ handle_tasks_list unary none (caller_of stranger) empty.task_store
handle_tasks_list-app_name_example =
    handle_tasks_list-app_name unary none owner stranger empty.task_store refl
