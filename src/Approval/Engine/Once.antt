-- ===== src/Approval/Engine/Once.antt =====
-- Calls of `execute_on_result` of governance/engine.rs for an approved task, one after the other.
use thoughtgate.Base.{
  String, true, false, not, Option, none, some, List, [], ◌∷◌, any, filter, Result, ok, err, ◌≡◌,
  refl, inl, inr, arith, Option-cases, str_eq, subst, sym, ap, ◌∙◌,
}
use thoughtgate.Base.Dict.{lookup, lookup-insert_self}
use thoughtgate.Errors.{ThoughtGateError}
use thoughtgate.Task.Status.{TaskStatus, status_eq, is_terminal, can_transition_to}
use thoughtgate.Task.Types.{
  Task, TaskId, ToolCallResult, ApprovalRecord, FailureInfo, TaskError, Clock,
}
use thoughtgate.Task.Methods
use thoughtgate.Task.Store.State.{TaskStore, TaskEntry, put, settle}
use thoughtgate.Task.Store.Changes.{complete, fail, conclude_terminal}
use thoughtgate.Task.Store.Queries
use thoughtgate.Approval.Pipeline.{PipelineResult, success, failure}
use thoughtgate.Approval.Engine.{ApprovalEngine, EngineState}
use thoughtgate.Approval.Engine.Execute.{
  Moment, Executed, Reply, acquire, release, is_executing, handle_pipeline_result,
  run_pipeline_with_timeout, execute_with, execute_executing, by_status, with_task, failed_reply,
  execute_on_result,
}

-- What a later call answers: the same result, or an error again.
abbrev pub Repeats : Reply → Reply → Type 0
Repeats (ok result) again = again ≡ ok result
Repeats (err _) again = (e : ThoughtGateError) × (again ≡ err e)

-- What each later call does that finds the task as it was left.
abbrev pub IsOver : ApprovalEngine → TaskId → Reply → EngineState → Type 0
IsOver v id first s =
    (m : Moment)
    → let again = execute_on_result v m id s in
      (again.0 ≡ m.after_read s) × (again.1 ≡ []) × Repeats first again.2

pub get-found :
    (id : TaskId) (e : TaskEntry) (s : TaskStore)
    → lookup id s.tasks ≡ some e
    → Queries.get id s ≡ ok e.task
unfolding Queries.get
get-found id e s h =
    subst (λ o. elim o [ none ↦ err (TaskError.not_found id) | some e ↦ ok e.task ] ≡ ok e.task)
      (sym h) refl

pub found-lookup :
    (id : TaskId) (t : Task) (s : TaskStore)
    → Queries.get id s ≡ ok t
    → (e : TaskEntry) × (lookup id s.tasks ≡ some e) × (e.task ≡ t)
unfolding Queries.get
found-lookup id t s h = elim (Option-cases (lookup id s.tasks)) [
  | inl e ↦ ground (arith)
  | inr (x, e) ↦ (x, e, ground (arith))
]

conclude_terminal-get :
    (c : Clock) (id : TaskId) (e : TaskEntry) (s : TaskStore)
    (m : Task × Result (Unit {0}) TaskError)
    → Queries.get id (conclude_terminal c id e s m).0 ≡ ok m.0
unfolding conclude_terminal settle put
conclude_terminal-get c id e s (task, err x) =
    get-found id (record e { task = task }) _ (lookup-insert_self id _ s.tasks)
conclude_terminal-get c id e s (task, ok u) = get-found id _ _ (lookup-insert_self id _ _)

complete-get :
    (c : Clock) (id : TaskId) (r : ToolCallResult) (e : TaskEntry) (s : TaskStore)
    → lookup id s.tasks ≡ some e
    → e.task.status ≡ TaskStatus.executing
    → Queries.get id (complete c id r s).0
      ≡ ok
          (Methods.transition c TaskStatus.completed
            (some "Execution completed")
            (record e.task { result = some r })).0
unfolding complete status_eq
complete-get c id r e s there h = ground (
  arith,
  there,
  h,
  conclude_terminal-get c id e s (
      Methods.transition c TaskStatus.completed (some "Execution completed")
        (record e.task { result = some r })),
)

fail-get :
    (c : Clock) (id : TaskId) (f : FailureInfo) (e : TaskEntry) (s : TaskStore)
    → lookup id s.tasks ≡ some e
    → e.task.status ≡ TaskStatus.executing
    → Queries.get id (fail c id f s).0
      ≡ ok
          (Methods.transition c TaskStatus.failed
            (some f.reason)
            (record e.task { failure = some f })).0
unfolding fail is_terminal
fail-get c id f e s there h = ground (
  arith,
  there,
  h,
  conclude_terminal-get c id e s
      (Methods.transition c TaskStatus.failed (some f.reason) (record e.task { failure = some f })),
)

transition-final :
    (c : Clock) (st : TaskStatus) (reason : Option String) (t : Task)
    → t.status ≡ TaskStatus.executing
    → can_transition_to TaskStatus.executing st ≡ true
    → ((Methods.transition c st reason t).0.status ≡ st)
      × ((Methods.transition c st reason t).0.result ≡ t.result)
unfolding Methods.transition is_terminal
transition-final c st reason t h can = ground (arith)

-- A task that has ended, with the answer that it leaves.
data Ended (id : TaskId) (s : TaskStore) : Reply → Type 0 where
  completed :
      (t : Task) (r : ToolCallResult)
      → Queries.get id s ≡ ok t
      → t.status ≡ TaskStatus.completed
      → t.result ≡ some r
      → Ended id s (ok r)
  failed :
      (t : Task) (e : ThoughtGateError)
      → Queries.get id s ≡ ok t
      → t.status ≡ TaskStatus.failed
      → Ended id s (err e)

handle_pipeline_result-Ended :
    (v : ApprovalEngine) (c : Clock) (p : PipelineResult) (id : TaskId) (t : Task) (e : TaskEntry)
    (s : TaskStore)
    → lookup id s.tasks ≡ some e
    → e.task.status ≡ TaskStatus.executing
    → Ended id (handle_pipeline_result v c p id t s).0 (handle_pipeline_result v c p id t s).1
unfolding handle_pipeline_result can_transition_to
handle_pipeline_result-Ended v c (success r) id t e s there h =
    let f =
      transition-final c TaskStatus.completed (some "Execution completed")
        (record e.task { result = some r }) h refl in
    completed _ r (complete-get c id r e s there h) f.0 f.1
handle_pipeline_result-Ended v c (failure stage reason retriable) id t e s there h =
    let i : FailureInfo = record { stage = stage; reason = reason; retriable = retriable } in
    let f =
      transition-final c TaskStatus.failed (some reason) (record e.task { failure = some i }) h
        refl in
    failed _ _ (fail-get c id i e s there h) f.0

failed_reply-err : (o : Option FailureInfo) → (e : ThoughtGateError) × (failed_reply o ≡ err e)
failed_reply-err none = (_, refl)
failed_reply-err (some f) = (_, refl)

by_status-failed :
    (v : ApprovalEngine) (id : TaskId) (s : EngineState) (m : Moment) (t : Task)
    → Queries.get id s.task_store ≡ ok t
    → t.status ≡ TaskStatus.failed
    → execute_on_result v m id s ≡ (m.after_read s, [], failed_reply t.failure)
unfolding execute_on_result by_status with_task
by_status-failed v id s m t g st =
    ap (with_task v m id s) g ∙ ap (by_status v m id t (m.after_read s)) st

Ended-IsOver :
    (v : ApprovalEngine) (id : TaskId) (first : Reply) (s : EngineState)
    → Ended id s.task_store first
    → IsOver v id first s
unfolding execute_on_result by_status with_task
Ended-IsOver v id _ s (completed t r g st res) m = ground (arith)
Ended-IsOver v id _ s (failed t e g st) m =
    let r = by_status-failed v id s m t g st in
    let x = failed_reply-err t.failure in
    (ap (λ r. r.0) r, ap (λ r. r.1) r, (x.0, ap (λ r. r.2) r ∙ x.1))

executed :
    (v : ApprovalEngine) (m : Moment) (id : TaskId) (s : EngineState) (t : Task)
    (a : ApprovalRecord)
    → Queries.get id s.task_store ≡ ok t
    → t.status ≡ TaskStatus.executing
    → t.approval ≡ some a
    → is_executing id (m.after_read s).executing ≡ false
    → execute_on_result v m id s ≡ execute_with v m id t (m.after_read s) (some a)
unfolding execute_on_result with_task by_status execute_executing
executed v m id s t a found st appr alone =
    ap (with_task v m id s) found
    ∙ ap (by_status v m id t (m.after_read s)) st
    ∙ rw alone (ap (execute_with v m id t (m.after_read s)) appr)

-- For a task that is approved and not running, where the result is recorded in a store that holds the
-- task as it was read: whatever becomes of the execution, each later call that finds the task as it was
-- left answers the same result, or an error where the first call did, and sends nothing.
pub execute_on_result-IsOver :
    (v : ApprovalEngine) (m : Moment) (id : TaskId) (s : EngineState) (t : Task)
    (a : ApprovalRecord)
    → Queries.get id s.task_store ≡ ok t
    → t.status ≡ TaskStatus.executing
    → t.approval ≡ some a
    → is_executing id (m.after_read s).executing ≡ false
    → Queries.get id (m.meanwhile (acquire id (m.after_read s))).task_store ≡ ok t
    → let run = execute_on_result v m id s in IsOver v id run.2 run.0
unfolding execute_with release
execute_on_result-IsOver v m id s t a found st appr alone left =
    let later = (m.meanwhile (acquire id (m.after_read s))).task_store in
    let there = found-lookup id t later left in
    let p = run_pipeline_with_timeout v m t a in
    subst (λ (x : Executed). IsOver v id x.2 x.0) (sym (executed v m id s t a found st appr alone))
      (Ended-IsOver v id _ _ (
        handle_pipeline_result-Ended v m.ends p.1 id t there.0 later there.1
          (ap (λ (t : Task). t.status) there.2 ∙ st)))

filtered :
    (id : TaskId) (l : List TaskId)
    → any (λ j. str_eq j id) (filter (λ j. not (str_eq j id)) l) ≡ false
filtered id [] = refl
filtered id (j ∷ l) = ground (arith, filtered id l)

release-is_executing :
    (id : TaskId) (s : EngineState) → is_executing id (release id s).executing ≡ false
unfolding is_executing release
release-is_executing id s = filtered id s.executing

finish-is_executing :
    (v : ApprovalEngine) (m : Moment) (id : TaskId) (t : Task) (s : EngineState)
    (a : ApprovalRecord)
    → is_executing id (execute_with v m id t s (some a)).0.executing ≡ false
unfolding execute_with
finish-is_executing v m id t s a = release-is_executing id _

-- Two calls that both read an approved task, of which the second takes its place only when the first
-- has ended, both send what the pipeline sends for it: the task is not read again under the guard.
pub execute_on_result-twice :
    (v : ApprovalEngine) (m n : Moment) (id : TaskId) (s : EngineState) (t : Task)
    (a : ApprovalRecord)
    → Queries.get id s.task_store ≡ ok t
    → t.status ≡ TaskStatus.executing
    → t.approval ≡ some a
    → is_executing id (m.after_read s).executing ≡ false
    → n.after_read s ≡ (execute_on_result v m id s).0
    → ((execute_on_result v m id s).1 ≡ (run_pipeline_with_timeout v m t a).0)
      × ((execute_on_result v n id s).1 ≡ (run_pipeline_with_timeout v n t a).0)
unfolding execute_with
execute_on_result-twice v m n id s t a found st appr alone second =
    let first = executed v m id s t a found st appr alone in
    let free =
      ap (λ x. is_executing id x.executing) (second ∙ ap (λ (x : Executed). x.0) first)
      ∙ finish-is_executing v m id t (m.after_read s) a in
    (
      ap (λ (x : Executed). x.1) first,
      ap (λ (x : Executed). x.1) (executed v n id s t a found st appr free),
    )
