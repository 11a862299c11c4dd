-- ===== src/Proxy/TaskMethods.antt =====
-- thoughtgate-proxy/src/mcp_handler/task_methods.rs: the methods `tasks/*`, with the check that a task is
-- the caller's.
pub mod Isolation
use Prim.Native.String.{◌++◌}
use thoughtgate.Base.{
  ℕ, String, Bool, true, false, not, ◌&&◌, Option, none, some, List, [], ◌∷◌, Result, ok, err,
  if◌then◌else◌, str_eq,
}
use thoughtgate.Errors.{ThoughtGateError}
use thoughtgate.Errors
use thoughtgate.Json.{Value}
use thoughtgate.Task.Status.{Sep1686Status, display}
use thoughtgate.Task.Types.{from_policy, Principal, Task, TaskId, TaskError, ToolCallResult, Clock}
use thoughtgate.Task.Helpers.{as_secs}
use thoughtgate.Task.Store.State.{TaskStore}
use thoughtgate.Task.Store.Queries.{get}
use thoughtgate.Task.Handlers.{
  Sep1686TaskMetadata, Sep1686TaskResult, TasksListResponse, Cursors, handle_tasks_get,
  handle_tasks_result, handle_tasks_list, handle_tasks_cancel,
}
use thoughtgate.Approval.Pipeline.{McpRequest}
use thoughtgate.Approval.Engine.{ApprovalEngine, EngineState}
use thoughtgate.Approval.Engine.Execute.{Moment, Executed, execute_on_result}

-- `TaskMethod` of transport/router.rs.
pub data TaskMethod : Type 0 where
  get_task task_result list_tasks cancel_task : TaskMethod

-- What a method gives, before it is a JSON value.
pub data TaskReply : Type 0 where
  metadata : Sep1686TaskMetadata → TaskReply
  executed : ToolCallResult → TaskReply
  stored_result : Sep1686TaskResult → TaskReply
  listing : TasksListResponse → TaskReply
  cancelled : TaskId × Sep1686Status → TaskReply

-- The principal of the policy, as it is inferred from the environment.
pub record PolicyPrincipal : Type 0 where
  pub app_name : String
  pub namespace : String
  pub service_account : String
  pub roles : List String

pub data Inferred : Type 0 where
  identified : PolicyPrincipal → Inferred
  failed : (reason : String) → Inferred
  panicked : (reason : String) → Inferred

-- `serde_json::from_value` and `to_value` on the types of the methods.
pub record Serde : Type 0 where
  pub task_id_of : Value → Result TaskId String
  pub cursor_of : Value → Result (Option String) String
  pub to_value : TaskReply → Result Value String

-- The handlers, less the state that the engine and the store share.
pub record McpState : Type 0 where
  pub serde : Serde
  pub cursors : Cursors
  pub approval_engine : Option ApprovalEngine

-- What a call meets: the identity of the caller, for the check and for a list, what others do after the
-- check, the clock, and what an execution meets.
pub record Visit : Type 0 where
  pub caller : Inferred
  pub lister : Result PolicyPrincipal ThoughtGateError
  pub after_check : EngineState → EngineState
  pub changes : Clock
  pub moment : Moment

unfoldable pub caller_of : PolicyPrincipal → Principal
unfolding from_policy
caller_of p = from_policy p.app_name p.namespace p.service_account p.roles

abbrev pub text_eq : Option String → Option String → Bool
text_eq none none = true
text_eq none (some t) = false
text_eq (some s) none = false
text_eq (some s) (some t) = str_eq s t

abbrev pub texts_eq : List String → List String → Bool
texts_eq [] [] = true
texts_eq [] (t ∷ ts) = false
texts_eq (s ∷ ss) [] = false
texts_eq (s ∷ ss) (t ∷ ts) = str_eq s t && texts_eq ss ts

-- `PartialEq` of a principal.
unfoldable pub principal_eq : Principal → Principal → Bool
principal_eq p q =
    str_eq p.app_name q.app_name
    && (text_eq p.user_id q.user_id
        && (text_eq p.session_id q.session_id
            && (str_eq p.namespace q.namespace
                && (str_eq p.service_account q.service_account && texts_eq p.roles q.roles))))

unfoldable pub task_error_to_thoughtgate : TaskError → ThoughtGateError
task_error_to_thoughtgate (TaskError.not_found id) = Errors.task_not_found id
task_error_to_thoughtgate (TaskError.expired id) = Errors.task_expired id
task_error_to_thoughtgate (TaskError.already_terminal id status) =
    Errors.invalid_params
      ("Cannot cancel task " ++ id ++ ": already in terminal status '" ++ display status ++ "'")
task_error_to_thoughtgate (TaskError.invalid_transition id from to) =
    Errors.invalid_request
      ("Invalid task transition for " ++ id ++ ": " ++ display from ++ " -> " ++ display to)
task_error_to_thoughtgate (TaskError.concurrent_modification id expected actual) =
    Errors.invalid_request (
      "Concurrent modification of task "
      ++ id
      ++ ": expected "
      ++ display expected
      ++ ", found "
      ++ display actual)
task_error_to_thoughtgate (TaskError.rate_limited _ retry_after) =
    Errors.rate_limited (some (as_secs retry_after))
task_error_to_thoughtgate (TaskError.result_not_ready id) = Errors.task_result_not_ready id
task_error_to_thoughtgate TaskError.capacity_exceeded =
    Errors.service_unavailable "Task capacity exceeded"
task_error_to_thoughtgate (TaskError.internal details) =
    Errors.service_unavailable ("Internal task error: " ++ details)

abbrev pub Verified : Type 0
Verified = Result (Unit {0}) ThoughtGateError

unfoldable pub owned : TaskId → Principal → Result Task TaskError → Verified
unfolding principal_eq
owned id caller (err e) = err (task_error_to_thoughtgate e)
owned id caller (ok t) =
    if not (principal_eq t.principal caller) then err (Errors.task_not_found id) else ok tt

unfoldable pub verify_task_principal : Inferred → TaskId → TaskStore → Verified
unfolding owned
verify_task_principal (identified p) id s = owned id (caller_of p) (get id s)
verify_task_principal (failed reason) id s = err (Errors.task_not_found id)
verify_task_principal (panicked reason) id s = err (Errors.task_not_found id)

-- The state after a call, what was sent to the upstream, and the value of the response, which carries
-- the identifier of the request.
abbrev pub Served : Type 0
Served = EngineState × List McpRequest × Result Value ThoughtGateError

abbrev pub serialized : String → Result Value String → Result Value ThoughtGateError
serialized method (ok v) = ok v
serialized method (err e) =
    err (Errors.service_unavailable ("Failed to serialize " ++ method ++ " response: " ++ e))

abbrev got : McpState → EngineState → Result Sep1686TaskMetadata TaskError → Served
got v s (err e) = (s, [], err (task_error_to_thoughtgate e))
got v s (ok m) = (s, [], serialized "tasks/get" (v.serde.to_value (metadata m)))

abbrev resulted : McpState → EngineState → Result Sep1686TaskResult TaskError → Served
resulted v s (err e) = (s, [], err (task_error_to_thoughtgate e))
resulted v s (ok r) = (s, [], serialized "tasks/result" (v.serde.to_value (stored_result r)))

abbrev ran : McpState → Executed → Served
ran v (s, calls, err e) = (s, calls, err e)
ran v (s, calls, ok r) = (s, calls, serialized "tasks/result" (v.serde.to_value (executed r)))

abbrev result_by : McpState → Visit → TaskId → EngineState → Option ApprovalEngine → Served
result_by v w id s none = resulted v s (handle_tasks_result id s.task_store)
result_by v w id s (some engine) = ran v (execute_on_result engine w.moment id s)

abbrev stopped :
    McpState → EngineState → TaskStore × Result (TaskId × Sep1686Status) TaskError → Served
stopped v s (t, err e) = (record s { task_store = t }, [], err (task_error_to_thoughtgate e))
stopped v s (t, ok r) =
    (record s { task_store = t }, [], serialized "tasks/cancel" (v.serde.to_value (cancelled r)))

abbrev serve_get : McpState → TaskId → EngineState → Served
serve_get v id s = got v s (handle_tasks_get id s.task_store)

abbrev serve_result : McpState → Visit → TaskId → EngineState → Served
serve_result v w id s = result_by v w id s v.approval_engine

abbrev serve_cancel : McpState → Visit → TaskId → EngineState → Served
serve_cancel v w id s = stopped v s (handle_tasks_cancel w.changes id s.task_store)

abbrev pub if_verified : EngineState → (EngineState → Served) → Verified → Served
if_verified s next (err e) = (s, [], err e)
if_verified s next (ok _) = next s

abbrev pub method_name : TaskMethod → String
method_name get_task = "tasks/get"
method_name task_result = "tasks/result"
method_name list_tasks = "tasks/list"
method_name cancel_task = "tasks/cancel"

abbrev invalid : TaskMethod → EngineState → String → Served
invalid method s e =
    (s, [], err (Errors.invalid_params ("Invalid " ++ method_name method ++ " params: " ++ e)))

-- The check, and what follows it.
unfoldable pub with_id :
    Visit
    → TaskMethod
    → (TaskId → EngineState → Served)
    → EngineState
    → Result TaskId String
    → Served
with_id w method serve s (err e) = invalid method s e
with_id w method serve s (ok id) =
    if_verified s (λ s. serve id (w.after_check s)) (verify_task_principal w.caller id s.task_store)

abbrev listed_for :
    McpState → EngineState → Option String → Result PolicyPrincipal ThoughtGateError → Served
listed_for v s cursor (err e) = (s, [], err e)
listed_for v s cursor (ok p) = (
  s,
  [],
  serialized "tasks/list"
      (v.serde.to_value (listing (handle_tasks_list v.cursors cursor (caller_of p) s.task_store))),
)

abbrev with_cursor : McpState → Visit → EngineState → Result (Option String) String → Served
with_cursor v w s (err e) = invalid list_tasks s e
with_cursor v w s (ok cursor) = listed_for v s cursor w.lister

-- Without parameters a request has the empty object.
unfoldable pub handle_task_method : McpState → Visit → TaskMethod → Value → EngineState → Served
handle_task_method v w list_tasks params s = with_cursor v w s (v.serde.cursor_of params)
handle_task_method v w get_task params s =
    with_id w get_task (serve_get v) s (v.serde.task_id_of params)
handle_task_method v w task_result params s =
    with_id w task_result (serve_result v w) s (v.serde.task_id_of params)
handle_task_method v w cancel_task params s =
    with_id w cancel_task (serve_cancel v w) s (v.serde.task_id_of params)
