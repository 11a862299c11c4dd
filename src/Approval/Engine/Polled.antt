-- ===== src/Approval/Engine/Polled.antt =====
-- What a poll of `wait_and_execute` of governance/engine.rs comes to: it is answered, or it has sent
-- nothing.
use thoughtgate.Base.{
  String, Option, none, some, [], Result, ok, err, ◌≡◌, refl, ◌⊎◌, inl, inr, Bool-cases, ◌||◌,
}
use thoughtgate.Base.Texts.{contains}
use thoughtgate.Task.Status.{TaskStatus}
use thoughtgate.Task.Types.{
  Task, TaskId, ApprovalRecord, TimeoutAction, TaskError, FailureStage, Clock,
}
use thoughtgate.Task.Store.State.{TaskStore}
use thoughtgate.Approval.Pipeline.{PipelineResult, success, failure}
use thoughtgate.Approval.Engine.{ApprovalEngine, EngineState}
use thoughtgate.Approval.Engine.Execute.{
  Moment, Timer, in_time, elapsed, Executed, Reply, is_executing, map_pipeline_failure,
  handle_pipeline_result, auto_approve_result, auto_approve, handle_expired_task, execute_with,
  execute_executing, by_status, with_task, execute_on_result,
}
use thoughtgate.Approval.Engine.Wait.{poll_answer}

-- A poll that is answered, or that has sent nothing.
abbrev pub Settles : ApprovalEngine → Executed → Type 0
Settles v run = (run.1 ≡ []) ⊎ ((x : Reply) × (poll_answer v.pipeline.decimal run.2 ≡ some x))

Answers : ApprovalEngine → Reply → Type 0
Answers v r = (x : Reply) × (poll_answer v.pipeline.decimal r ≡ some x)

map_pipeline_failure-Answers :
    (v : ApprovalEngine) (stage : FailureStage) (reason : String) (t : Task)
    → Answers v (err (map_pipeline_failure v stage reason t))
unfolding map_pipeline_failure poll_answer Answers
map_pipeline_failure-Answers v FailureStage.approval_timeout reason t = (_, refl)
map_pipeline_failure-Answers v FailureStage.approval_rejected reason t = (_, refl)
map_pipeline_failure-Answers v FailureStage.policy_drift reason t = (_, refl)
map_pipeline_failure-Answers v FailureStage.transform_drift reason t = (_, refl)
map_pipeline_failure-Answers v FailureStage.upstream_error reason t =
    elim (Bool-cases (contains "timeout" reason || contains "timed out" reason)) [
      | inl e ↦ rw e (_, refl)
      | inr e ↦ rw e (_, refl)
    ]
map_pipeline_failure-Answers v other reason t = (_, refl)

handle_pipeline_result-Answers :
    (v : ApprovalEngine) (c : Clock) (p : PipelineResult) (id : TaskId) (t : Task) (s : TaskStore)
    → Answers v (handle_pipeline_result v c p id t s).1
unfolding handle_pipeline_result poll_answer Answers
handle_pipeline_result-Answers v c (success r) id t s = (_, refl)
handle_pipeline_result-Answers v c (failure stage reason retriable) id t s =
    map_pipeline_failure-Answers v stage reason t

auto_approve_result-Answers :
    (v : ApprovalEngine) (m : Moment) (id : TaskId) (p : PipelineResult) (s : TaskStore)
    → Answers v (auto_approve_result v m id p s).1
unfolding auto_approve_result poll_answer Answers
auto_approve_result-Answers v m id (success r) s = (_, refl)
auto_approve_result-Answers v m id (failure stage reason retriable) s = (_, refl)

auto_approve-Settles :
    (v : ApprovalEngine) (m : Moment) (id : TaskId) (t : Task) (s : EngineState) (timer : Timer)
    → m.timer ≡ timer
    → Settles v (auto_approve v m id t s)
unfolding auto_approve poll_answer Answers
auto_approve-Settles v m id t s in_time e = elim (Bool-cases (is_executing id s.executing)) [
  | inl busy ↦ inl (rw busy refl)
  | inr alone ↦ rw (alone, e) (inr (auto_approve_result-Answers v _ id _ _))
]
auto_approve-Settles v m id t s (elapsed b) e = elim (Bool-cases (is_executing id s.executing)) [
  | inl busy ↦ inl (rw busy refl)
  | inr alone ↦ rw (alone, e) (inr (_, refl))
]

executing-Settles :
    (v : ApprovalEngine) (m : Moment) (id : TaskId) (t : Task) (s : EngineState)
    (o : Option ApprovalRecord)
    → Settles v (execute_with v m id t s o)
unfolding execute_with Answers
executing-Settles v m id t s none = inl refl
executing-Settles v m id t s (some a) = inr (handle_pipeline_result-Answers v m.ends _ id t _)

execute_executing-Settles :
    (v : ApprovalEngine) (m : Moment) (id : TaskId) (t : Task) (s : EngineState)
    → Settles v (execute_executing v m id t s)
unfolding execute_executing
execute_executing-Settles v m id t s = elim (Bool-cases (is_executing id s.executing)) [
  | inl busy ↦ inl (rw busy refl)
  | inr alone ↦ rw alone (executing-Settles v m id t s t.approval)
]

handle_expired_task-Settles :
    (v : ApprovalEngine) (m : Moment) (id : TaskId) (t : Task) (s : EngineState) (a : TimeoutAction)
    → Settles v (handle_expired_task v m id t s a)
unfolding handle_expired_task
handle_expired_task-Settles v m id t s TimeoutAction.deny = inl refl
handle_expired_task-Settles v m id t s TimeoutAction.approve =
    auto_approve-Settles v m id t s m.timer refl

by_status-Settles :
    (v : ApprovalEngine) (m : Moment) (id : TaskId) (t : Task) (s : EngineState) (st : TaskStatus)
    → Settles v (by_status v m id t s st)
unfolding by_status
by_status-Settles v m id t s TaskStatus.executing = execute_executing-Settles v m id t s
by_status-Settles v m id t s TaskStatus.expired =
    handle_expired_task-Settles v m id t s t.on_timeout
by_status-Settles v m id t s other = inl refl

with_task-Settles :
    (v : ApprovalEngine) (m : Moment) (id : TaskId) (s : EngineState) (r : Result Task TaskError)
    → Settles v (with_task v m id s r)
unfolding with_task
with_task-Settles v m id s (err e) = inl refl
with_task-Settles v m id s (ok t) = by_status-Settles v m id t _ t.status

pub execute_on_result-Settles :
    (v : ApprovalEngine) (m : Moment) (id : TaskId) (s : EngineState)
    → Settles v (execute_on_result v m id s)
unfolding execute_on_result
execute_on_result-Settles v m id s = with_task-Settles v m id s _
