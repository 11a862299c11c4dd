-- ===== src/Transport/Router.antt =====
-- thoughtgate-core/src/transport/router.rs: which part of ThoughtGate serves a method.
use thoughtgate.Base.{String, Bool, false, ◌||◌, Option, none, some, if◌then◌else◌, str_eq}
use thoughtgate.Base.Texts.{starts_with}
use thoughtgate.Json.{Value}
use thoughtgate.Json.Objects.{get_value, value_as_str}
use thoughtgate.Proxy.TaskMethods.{TaskMethod, get_task, task_result, list_tasks, cancel_task}
use thoughtgate.Transport.{McpRequest}

pub data RouteTarget : Type 0 where
  policy_evaluation : McpRequest → RouteTarget
  task_handler : TaskMethod → McpRequest → RouteTarget
  pass_through : McpRequest → RouteTarget
  initialize_handler : McpRequest → RouteTarget

-- `TASK_ID_PREFIX`.
abbrev pub task_id_prefix : String
task_id_prefix = "tg_"

unfoldable pub parse_task_method : String → Option TaskMethod
parse_task_method m =
    if str_eq m "tasks/get"
    then some get_task
    else if str_eq m "tasks/result"
    then some task_result
    else if str_eq m "tasks/list"
    then some list_tasks
    else if str_eq m "tasks/cancel"
    then some cancel_task
    else none

abbrev named_locally : Option Value → Bool
named_locally none = false
named_locally (some v) = elim (value_as_str v) [
  | none ↦ false
  | some id ↦ starts_with task_id_prefix id
]

-- Whether the task of the parameters is ThoughtGate's own.
unfoldable pub is_local : Option Value → Bool
unfolding starts_with
is_local none = false
is_local (some params) = named_locally (get_value "taskId" params)

abbrev pub route_task : TaskMethod → McpRequest → RouteTarget
route_task list_tasks r = task_handler list_tasks r
route_task m r = if is_local r.params then task_handler m r else pass_through r

unfoldable pub is_policed : String → Bool
unfolding starts_with
is_policed m = starts_with "tools/" m || starts_with "resources/" m || starts_with "prompts/" m

unfoldable pub route : McpRequest → RouteTarget
unfolding parse_task_method is_local is_policed
route r =
    if str_eq r.method "initialize"
    then initialize_handler r
    else elim (parse_task_method r.method) [
      | some m ↦ route_task m r
      | none ↦ if is_policed r.method then policy_evaluation r else pass_through r
    ]
