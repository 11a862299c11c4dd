-- ===== src/Task/Handlers.antt =====
-- thoughtgate-core/src/governance/handlers.rs: the methods `tasks/*` over the store, with their answers
-- of protocol/task.rs and protocol/methods.rs.
pub mod Paging
pub mod Ordered
pub mod Results
use Prim.Native.String.{◌++◌}
use thoughtgate.Base.{
  ℕ, ◌+◌, ◌/◌, ◌%◌, ltb, String, Bool, true, false, not, Option, none, some, List, map, Result, ok,
  err, if◌then◌else◌, get_or, length, take, usize_end,
}
use thoughtgate.Json.{Value, object, string, bool, field, end}
use thoughtgate.Task.Status.{TaskStatus, Sep1686Status, is_terminal, to_wire, display}
use thoughtgate.Task.Types.{
  Task, TaskId, TaskError, ToolCallResult, FailureStage, FailureInfo, ApprovalDecision,
  ApprovalRecord, Principal, Clock,
}
use thoughtgate.Task.Store.State.{TaskStore}
use thoughtgate.Task.Store.Changes.{cancel, Outcome}
use thoughtgate.Task.Store.Queries.{get, list_for_principal}

pub record Sep1686TaskMetadata : Type 0 where
  pub task_id : TaskId
  pub status : Sep1686Status
  pub status_message : Option String
  pub poll_interval : Option ℕ

-- A poll interval is given in milliseconds, as a `u64`.
unfoldable pub task_to_metadata : Task → Sep1686TaskMetadata
task_to_metadata t = record {
  task_id = t.id;
  status = to_wire t.status;
  status_message = t.status_message;
  poll_interval =
      if not (is_terminal t.status) then some (t.poll_interval / 1_000_000 % usize_end) else none;
}

abbrev pub metadata_of : Result Task TaskError → Result Sep1686TaskMetadata TaskError
metadata_of (ok t) = ok (task_to_metadata t)
metadata_of (err e) = err e

unfoldable pub handle_tasks_get : TaskId → TaskStore → Result Sep1686TaskMetadata TaskError
unfolding get
handle_tasks_get id s = metadata_of (get id s)

pub record Sep1686TaskResult : Type 0 where
  pub content : Value
  pub is_error : Bool

-- `Debug` of the stage.
unfoldable pub stage_name : FailureStage → String
stage_name FailureStage.pre_hitl_inspection = "PreHitlInspection"
stage_name FailureStage.approval_timeout = "ApprovalTimeout"
stage_name FailureStage.approval_rejected = "ApprovalRejected"
stage_name FailureStage.policy_drift = "PolicyDrift"
stage_name FailureStage.post_hitl_inspection = "PostHitlInspection"
stage_name FailureStage.transform_drift = "TransformDrift"
stage_name FailureStage.upstream_error = "UpstreamError"
stage_name FailureStage.service_shutdown = "ServiceShutdown"
stage_name FailureStage.invalid_task_state = "InvalidTaskState"

abbrev one_error : String → Value
one_error s = object (field "error" (string s) end)

unfoldable pub decision_content : ApprovalRecord → ApprovalDecision → Value
decision_content a (ApprovalDecision.rejected reason) = object (
    field "error" (string (get_or reason "Request rejected"))
      (field "decided_by" (string a.decided_by) end))
decision_content a ApprovalDecision.approved = one_error "Task did not complete successfully"

-- The failure, then the approval, then the status.
unfoldable pub error_content : TaskStatus → Option FailureInfo → Option ApprovalRecord → Value
unfolding stage_name decision_content
error_content status (some f) approval = object (
    field "error" (string f.reason)
      (field "stage" (string (stage_name f.stage)) (field "retriable" (bool f.retriable) end)))
error_content status none (some a) = decision_content a a.decision
error_content status none none = one_error ("Task ended in " ++ display status ++ " state")

abbrev pub ended_result : Task → Option ToolCallResult → Sep1686TaskResult
ended_result t (some r) = record { content = r.content; is_error = r.is_error }
ended_result t none = record {
  content = error_content t.status t.failure t.approval;
  is_error = true;
}

unfoldable pub result_of : TaskId → Result Task TaskError → Result Sep1686TaskResult TaskError
unfolding error_content
result_of id (err e) = err e
result_of id (ok t) =
    if not (is_terminal t.status)
    then err (TaskError.result_not_ready id)
    else ok (ended_result t t.result)

unfoldable pub handle_tasks_result : TaskId → TaskStore → Result Sep1686TaskResult TaskError
handle_tasks_result id s = result_of id (get id s)

pub record Sep1686TaskListEntry : Type 0 where
  pub task_id : TaskId
  pub status : Sep1686Status
  pub created_at : ℕ
  pub tool_name : String

pub record TasksListResponse : Type 0 where
  pub tasks : List Sep1686TaskListEntry
  pub next_cursor : Option String

-- `to_string` and `parse` of a `usize`.
pub record Cursors : Type 0 where
  pub print : ℕ → String
  pub parse : String → Option ℕ

abbrev pub page_size : ℕ
page_size = 20

unfoldable pub list_entry : Task → Sep1686TaskListEntry
list_entry t = record {
  task_id = t.id;
  status = to_wire t.status;
  created_at = t.created_at;
  tool_name = t.original_request.name;
}

abbrev pub offset_of : Cursors → Option String → ℕ
offset_of u none = 0
offset_of u (some c) = get_or (u.parse c) 0

-- One task more than a page tells whether there is another.
unfoldable pub page_of : Cursors → ℕ → List Task → TasksListResponse
unfolding list_entry
page_of u offset tasks = record {
  tasks = map list_entry (take page_size tasks);
  next_cursor = if ltb page_size (length tasks) then some (u.print (offset + page_size)) else none;
}

unfoldable pub handle_tasks_list :
    Cursors → Option String → Principal → TaskStore → TasksListResponse
handle_tasks_list u cursor principal s =
    let offset = offset_of u cursor in
    page_of u offset (list_for_principal principal offset (page_size + 1) s)

-- `TasksCancelResponse`, whose status is `Cancelled`.
abbrev cancelled_answer : TaskId → Outcome → TaskStore × Result (TaskId × Sep1686Status) TaskError
cancelled_answer id (s, err e) = (s, err e)
cancelled_answer id (s, ok t) = (s, ok (id, Sep1686Status.cancelled))

unfoldable pub handle_tasks_cancel :
    Clock → TaskId → TaskStore → TaskStore × Result (TaskId × Sep1686Status) TaskError
handle_tasks_cancel c id s = cancelled_answer id (cancel c id s)
