-- ===== src/Task/Store/Changes.antt =====
-- The operations of store.rs that change one task: `transition` to `cancel`.
use thoughtgate.Base.{
  ℕ, ◌+◌, String, not, ◌&&◌, Option, none, some, [], ◌∷◌, if◌then◌else◌, Result, ok, err, get_or,
}
use mathlib.Core.List.{◌++◌}
use thoughtgate.Base.Dict.{lookup}
use thoughtgate.Task.Status.{TaskStatus, is_terminal, status_eq}
use thoughtgate.Task.Types.{
  Task, TaskId, TaskError, ToolCallResult, ApprovalRecord, ApprovalDecision, FailureInfo, Clock,
  TaskTransition, Libraries,
}
use thoughtgate.Task.Methods
use thoughtgate.Task.Store.State.{TaskEntry, TaskStore, put, settle}

abbrev pub Outcome : Type 0
Outcome = TaskStore × Result Task TaskError

-- `get_mut`, with the error for a key that is not there.
abbrev pub with_entry : TaskId → TaskStore → (TaskEntry → Outcome) → Outcome
with_entry id s f = elim (lookup id s.tasks) [
  | none ↦ (s, err (TaskError.not_found id))
  | some e ↦ f e
]

-- The task was changed in place. An error leaves what was changed before it.
unfoldable pub conclude :
    Clock → TaskId → TaskEntry → TaskStore → Task × Result (Unit {0}) TaskError → Outcome
conclude c id e s (task, err x) = (put id (record e { task = task }) s, err x)
conclude c id e s (task, ok _) =
    if not (is_terminal e.task.status) && is_terminal task.status
    then (settle c.ended id (record e { task = task }) s, ok task)
    else (put id (record e { task = task }) s, ok task)

-- The same where the code does not test that the task has become terminal.
unfoldable pub conclude_terminal :
    Clock → TaskId → TaskEntry → TaskStore → Task × Result (Unit {0}) TaskError → Outcome
conclude_terminal c id e s (task, err x) = (put id (record e { task = task }) s, err x)
conclude_terminal c id e s (task, ok _) = (settle c.ended id (record e { task = task }) s, ok task)

unfoldable pub transition : Clock → TaskId → TaskStatus → Option String → TaskStore → Outcome
transition c id new_status reason s =
    with_entry id s λ e. conclude c id e s (Methods.transition c new_status reason e.task)

unfoldable pub transition_if :
    Clock → TaskId → TaskStatus → TaskStatus → Option String → TaskStore → Outcome
transition_if c id expected_status new_status reason s =
    with_entry id s
      λ e. conclude c id e s (Methods.transition_if c expected_status new_status reason e.task)

abbrev pub decided : ApprovalDecision → TaskStatus × Option String
decided ApprovalDecision.approved = (TaskStatus.executing, some "Approved")
decided (ApprovalDecision.rejected none) = (TaskStatus.rejected, some "Rejected")
decided (ApprovalDecision.rejected (some reason)) = (TaskStatus.rejected, some reason)

unfoldable pub approval_record : Libraries → ℕ → ApprovalDecision → String → ℕ → ApprovalRecord
approval_record lib now decision decided_by approval_valid_for = record {
  decision = decision;
  decided_by = decided_by;
  decided_at = now;
  approval_valid_until = now + get_or (lib.from_std approval_valid_for) 0;
  metadata = none;
}

-- `now` is the time of the decision, read before the clock of the transition.
unfoldable pub record_approval :
    Libraries → Clock → ℕ → TaskId → ApprovalDecision → String → ℕ → TaskStore → Outcome
record_approval lib c now id decision decided_by approval_valid_for s = with_entry id s λ e.
    let t = e.task in
    let approval = approval_record lib now decision decided_by approval_valid_for in
    if not (status_eq t.status TaskStatus.input_required)
    then (s, err (TaskError.concurrent_modification id TaskStatus.input_required t.status))
    else conclude c id e s (
        Methods.transition c (decided decision).0 (decided decision).1
          (record t { approval = some approval }))

unfoldable pub complete : Clock → TaskId → ToolCallResult → TaskStore → Outcome
complete c id result s = with_entry id s λ e.
    let t = e.task in
    if not (status_eq t.status TaskStatus.executing)
    then (s, err (TaskError.concurrent_modification id TaskStatus.executing t.status))
    else conclude_terminal c id e s (
        Methods.transition c TaskStatus.completed (some "Execution completed")
          (record t { result = some result }))

-- The status stays as it is; the entry in the audit trail says `Expired` whatever the status is.
unfoldable pub auto_approved : ℕ → ToolCallResult → ApprovalRecord → TaskEntry → TaskEntry
auto_approved now result approval e = record e {
  task = record e.task {
    result = some result;
    approval = some approval;
    transitions = e.task.transitions ++ entry ∷ [];
  };
}
  where
    entry : TaskTransition
    entry = record {
      from = TaskStatus.expired;
      to = TaskStatus.expired;
      at = now;
      reason = some "Auto-approved after expiration; executed successfully";
    }

unfoldable pub record_auto_approve_result :
    ℕ
    → TaskId
    → ToolCallResult
    → ApprovalRecord
    → TaskStore
    → TaskStore × Result (Unit {0}) TaskError
unfolding auto_approved
record_auto_approve_result now id result approval s = elim (lookup id s.tasks) [
  | none ↦ (s, err (TaskError.not_found id))
  | some e ↦ (put id (auto_approved now result approval e) s, ok tt)
]

unfoldable pub fail : Clock → TaskId → FailureInfo → TaskStore → Outcome
fail c id failure s = with_entry id s λ e.
    let t = e.task in
    if is_terminal t.status
    then (s, err (TaskError.already_terminal id t.status))
    else conclude_terminal c id e s (
        Methods.transition c TaskStatus.failed (some failure.reason)
          (record t { failure = some failure }))

-- The answer to a cancellation outside `InputRequired`; nothing is changed.
unfoldable pub refuse_cancel : TaskId → Task → Result Task TaskError
refuse_cancel id t =
    if is_terminal t.status
    then (if status_eq t.status TaskStatus.cancelled
        then ok t
        else err (TaskError.already_terminal id t.status))
    else err (TaskError.invalid_transition id t.status TaskStatus.cancelled)

unfoldable pub cancel : Clock → TaskId → TaskStore → Outcome
cancel c id s = with_entry id s λ e.
    let t = e.task in
    if not (status_eq t.status TaskStatus.input_required)
    then (s, refuse_cancel id t)
    else conclude_terminal c id e s
        (Methods.transition c TaskStatus.cancelled (some "Cancelled by agent") t)
