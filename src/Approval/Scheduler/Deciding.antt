-- ===== src/Approval/Scheduler/Deciding.antt =====
-- What a decision of an approver, as `handle_decision` of governance/approval/scheduler.rs takes it, does
-- to the task.
use thoughtgate.Base.{
  ℕ, ◌+◌, get_or, String, none, some, Result, ok, err, ◌≡◌, refl, ap, ◌∙◌, arith, not, Bool-cases,
  inl, inr, str_eq_refl, ◌&&◌,
}
use thoughtgate.Base.Dict.{lookup, lookup-insert_self, lookup-erase, IsDistinct}
use thoughtgate.Task.Status.{TaskStatus, is_terminal, status_eq, can_transition_to}
use thoughtgate.Task.Types.{
  Task, TaskId, TaskError, ApprovalRecord, ApprovalDecision, Clock, Libraries,
}
use thoughtgate.Task.Methods
use thoughtgate.Task.Store.State.{TaskStore, TaskEntry, put, settle}
use thoughtgate.Task.Store.Changes.{conclude, record_approval, approval_record, decided}
use thoughtgate.Task.Store.Queries
use thoughtgate.Approval.Engine.Once.{get-found, found-lookup}
use thoughtgate.Approval.Scheduler.{
  PollingScheduler, SchedulerState, PollResult, PollDecision, approved, rejected,
}
use thoughtgate.Approval.Scheduler.Operations.{decision_of, handle_decision}

conclude-get :
    (c : Clock) (id : TaskId) (e : TaskEntry) (s : TaskStore)
    (m : Task × Result (Unit {0}) TaskError)
    → Queries.get id (conclude c id e s m).0 ≡ ok m.0
unfolding conclude settle put
conclude-get c id e s (task, err x) = get-found id _ _ (lookup-insert_self id _ s.tasks)
conclude-get c id e s (task, ok u) =
    elim (Bool-cases (not (is_terminal e.task.status) && is_terminal task.status)) [
      | inl ended ↦ rw ended (get-found id _ _ (lookup-insert_self id _ _))
      | inr going ↦ rw going (get-found id _ _ (lookup-insert_self id _ s.tasks))
    ]

-- The status that a decision leads to.
abbrev pub decided_status : PollDecision → TaskStatus
decided_status approved = TaskStatus.executing
decided_status rejected = TaskStatus.rejected

-- A task with its decision.
pub record IsDecided (v : PollingScheduler) (now : ℕ) (id : TaskId) (r : PollResult) (t : Task)
    (s : TaskStore) : Type 0 where
  pub task : Task
  pub stored : Queries.get id s ≡ ok task
  pub has_status : task.status ≡ decided_status r.decision
  pub kept : ApprovalRecord
  pub has_record : task.approval ≡ some kept
  pub says : kept.decision ≡ decision_of v.describe r
  pub by_whom : kept.decided_by ≡ r.decided_by
  pub at_time : kept.decided_at ≡ now
  pub holds_until :
      kept.approval_valid_until ≡ now + get_or (v.lib.from_std v.config.approval_valid_for) 0
  pub same_request : task.original_request ≡ t.original_request
  pub same_shown : task.pre_approval_transformed ≡ t.pre_approval_transformed
  pub same_hash : task.request_hash ≡ t.request_hash

record_approval-get :
    (lib : Libraries) (c : Clock) (now : ℕ) (id : TaskId) (d : ApprovalDecision) (by : String)
    (n : ℕ) (e : TaskEntry) (s : TaskStore)
    → lookup id s.tasks ≡ some e
    → e.task.status ≡ TaskStatus.input_required
    → Queries.get id (record_approval lib c now id d by n s).0
      ≡ ok
          (Methods.transition c
            (decided d).0
            (decided d).1
            (record e.task { approval = some (approval_record lib now d by n) })).0
unfolding record_approval status_eq
record_approval-get lib c now id d by n e s there h = ground (
  arith,
  there,
  h,
  conclude-get c id e s (
      Methods.transition c (decided d).0 (decided d).1
        (record e.task { approval = some (approval_record lib now d by n) })),
)

transition-decides :
    (v : PollingScheduler) (c : Clock) (now : ℕ) (r : PollResult) (p : PollDecision) (t : Task)
    → r.decision ≡ p
    → t.status ≡ TaskStatus.input_required
    → let d = decision_of v.describe r in
      let a = approval_record v.lib now d r.decided_by v.config.approval_valid_for in
      let u =
        (Methods.transition c (decided d).0 (decided d).1 (record t { approval = some a })).0 in
      (u.status ≡ decided_status p)
      × (u.approval ≡ some a)
      × (u.original_request ≡ t.original_request)
      × (u.pre_approval_transformed ≡ t.pre_approval_transformed)
      × (u.request_hash ≡ t.request_hash)
unfolding Methods.transition is_terminal can_transition_to
transition-decides v c now r approved t e h = rw (e, h) (refl, refl, refl, refl, refl)
transition-decides v c now r rejected t e h = rw (e, h) (refl, refl, refl, refl, refl)

-- For a task that waits for its decision, the decision of the approver takes the approval off the polls
-- and takes the task to `Executing` where it approves and to `Rejected` where it rejects, with a record
-- of who decided, of the time, and of the time until which an approval holds, which is later by the
-- configured validity if that can be converted; the request and its hash stay as they were.
pub handle_decision-IsDecided :
    (v : PollingScheduler) (c : Clock) (now : ℕ) (id : TaskId) (r : PollResult) (s : SchedulerState)
    (t : Task)
    → Queries.get id s.task_store ≡ ok t
    → t.status ≡ TaskStatus.input_required
    → IsDistinct s.references
    → let after = handle_decision v c now id r s in
      (lookup id after.references ≡ none) × IsDecided v now id r t after.task_store
unfolding handle_decision approval_record
handle_decision-IsDecided v c now id r s t found h distinct =
    let there = found-lookup id t s.task_store found in
    let d = decision_of v.describe r in
    let waits = ap (λ (u : Task). u.status) there.2 ∙ h in
    let w = transition-decides v c now r r.decision there.0.task refl waits in
    (
      lookup-erase id id s.references distinct ∙ rw (str_eq_refl id) refl,
      record {
        task = _;
        stored =
            record_approval-get v.lib c now id d r.decided_by v.config.approval_valid_for there.0
              s.task_store there.1 waits;
        has_status = w.0;
        kept = approval_record v.lib now d r.decided_by v.config.approval_valid_for;
        has_record = w.1;
        says = refl;
        by_whom = refl;
        at_time = refl;
        holds_until = refl;
        same_request = w.2 ∙ ap (λ (u : Task). u.original_request) there.2;
        same_shown = w.3 ∙ ap (λ (u : Task). u.pre_approval_transformed) there.2;
        same_hash = w.4 ∙ ap (λ (u : Task). u.request_hash) there.2;
      },
    )
