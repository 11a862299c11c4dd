-- ===== src/Approval/Engine/Again.antt =====
-- Calls of `execute_on_result` of governance/engine.rs for an expired task that its timeout approves,
-- one after the other.
use thoughtgate.Base.{
  ℕ, String, false, Option, none, some, List, Result, ok, err, ◌≡◌, refl, inl, inr, arith,
  Result-cases, subst, ap, ◌∙◌,
}
use thoughtgate.Base.Dict.{lookup, lookup-insert_self}
use thoughtgate.Task.Status.{TaskStatus}
use thoughtgate.Task.Types.{
  Task, TaskId, ToolCallResult, ApprovalRecord, ToolCallRequest, TimeoutAction, TaskError,
}
use thoughtgate.Task.Store.State.{TaskStore, TaskEntry, put}
use thoughtgate.Task.Store.Changes.{
  record_auto_approve_result, auto_approved as auto_approved_entry,
}
use thoughtgate.Task.Store.Queries
use thoughtgate.Approval.Pipeline.{
  PipelineResult, success, failure, McpRequest, TransformDriftMode, strict, permissive,
}
use thoughtgate.Task.Helpers.{hash_request}
use thoughtgate.Approval.Pipeline.Inspect.{run_inspector_chain}
use thoughtgate.Approval.Pipeline.Execute.{
  execute_approved, validate_approval, reevaluate_policy, post_approval_amber, compare_hash,
  drifted, grant_of, ApprovalPipeline, phase, forward_to_upstream,
}
use thoughtgate.Approval.Engine.{ApprovalEngine, EngineState}
use thoughtgate.Approval.Engine.Execute.{
  Moment, in_time, Executed, acquire, release, is_executing, finish, by_status, with_task,
  auto_approve, handle_expired_task, auto_approve_result, synthetic_approval, execute_on_result,
}
use thoughtgate.Approval.Engine.Once.{get-found, found-lookup}

expired_run :
    (v : ApprovalEngine) (m : Moment) (id : TaskId) (s : EngineState) (t : Task)
    → Queries.get id s.task_store ≡ ok t
    → t.status ≡ TaskStatus.expired
    → t.on_timeout ≡ TimeoutAction.approve
    → execute_on_result v m id s ≡ auto_approve v m id t (m.after_read s)
unfolding execute_on_result with_task by_status handle_expired_task
expired_run v m id s t found st on =
    ap (with_task v m id s) found
    ∙ ap (by_status v m id t (m.after_read s)) st
    ∙ ap (handle_expired_task v m id t (m.after_read s)) on

-- What an automatic approval runs.
abbrev pub auto_run : ApprovalEngine → Moment → Task → List McpRequest × PipelineResult
auto_run v m t =
    execute_approved v.pipeline m.now (record t { status = TaskStatus.executing })
      (synthetic_approval v m.approved_at)

-- A task that differs only in its results and its audit trail.
pub record SameRequest (t u : Task) : Type 0 where
  pub same_status : u.status ≡ t.status
  pub same_action : u.on_timeout ≡ t.on_timeout
  pub same_run : (v : ApprovalEngine) (m : Moment) → auto_run v m u ≡ auto_run v m t

-- What the record of an automatic approval leaves of the task.
Left : ℕ → TaskId → ToolCallResult → ApprovalRecord → TaskStore → Task → Type 0
Left now id r a s t =
    (u : Task) × (Queries.get id (record_auto_approve_result now id r a s).0 ≡ ok u)
    × SameRequest t u

recorded_store :
    (now : ℕ) (id : TaskId) (r : ToolCallResult) (a : ApprovalRecord) (e : TaskEntry)
    (s : TaskStore)
    → lookup id s.tasks ≡ some e
    → (record_auto_approve_result now id r a s).0 ≡ put id (auto_approved_entry now r a e) s
unfolding record_auto_approve_result
recorded_store now id r a e s there =
    ap
      (λ (o : Option TaskEntry).
        let x : TaskStore × Result (Unit {0}) TaskError = elim o [
          | none ↦ (s, err (TaskError.not_found id))
          | some e ↦ (put id (auto_approved_entry now r a e) s, ok tt)
        ] in
        x.0)
      there

compare_hash-same :
    (mode : TransformDriftMode) (t u : Task) (r : ToolCallRequest) (h : Result String String)
    → u.pre_approval_transformed ≡ t.pre_approval_transformed
    → u.request_hash ≡ t.request_hash
    → compare_hash mode u r h ≡ compare_hash mode t r h
unfolding compare_hash drifted
compare_hash-same mode t u r (err e) p q = refl
compare_hash-same strict t u r (ok n) p q = rw q refl
compare_hash-same permissive t u r (ok n) p q = rw (p, q) refl

post_approval_amber-same :
    (v : ApprovalPipeline) (t u : Task)
    → u.original_request ≡ t.original_request
    → u.pre_approval_transformed ≡ t.pre_approval_transformed
    → u.request_hash ≡ t.request_hash
    → post_approval_amber v u ≡ post_approval_amber v t
unfolding post_approval_amber
post_approval_amber-same v t u o p q =
    elim (Result-cases (run_inspector_chain v.wire v.config v.inspectors t.original_request)) [
      | inl (r, e) ↦
          ground (
            arith,
            compare_hash-same v.config.transform_drift_mode t u r (hash_request v.lib r) p q,
          )
      | inr (x, e) ↦ ground (arith)
    ]

auto_run-same :
    (v : ApprovalEngine) (m : Moment) (now : ℕ) (r : ToolCallResult) (a : ApprovalRecord)
    (e : TaskEntry)
    → auto_run v m (auto_approved_entry now r a e).task ≡ auto_run v m e.task
unfolding execute_approved validate_approval reevaluate_policy grant_of auto_approved_entry
auto_run-same v m now r a e =
    let t : Task = record e.task { status = TaskStatus.executing } in
    let by = synthetic_approval v m.approved_at in
    ap
      (λ x. phase (validate_approval m.now t by) λ _.
        phase (reevaluate_policy v.pipeline t by) λ _. phase x (forward_to_upstream v.pipeline))
      (post_approval_amber-same v.pipeline t
        (record (auto_approved_entry now r a e).task { status = TaskStatus.executing }) refl refl
        refl)

recorded_entry :
    (now : ℕ) (id : TaskId) (r : ToolCallResult) (a : ApprovalRecord) (e : TaskEntry)
    (s : TaskStore)
    → lookup id s.tasks ≡ some e
    → Left now id r a s e.task
unfolding put Left auto_approved_entry
recorded_entry now id r a e s there = (
  (auto_approved_entry now r a e).task,
  ap (Queries.get id) (recorded_store now id r a e s there)
      ∙ get-found id _ _ (lookup-insert_self id _ s.tasks),
  record { same_status = refl; same_action = refl; same_run = λ v m. auto_run-same v m now r a e },
)

recorded :
    (now : ℕ) (id : TaskId) (r : ToolCallResult) (a : ApprovalRecord) (t : Task) (s : TaskStore)
    → Queries.get id s ≡ ok t
    → Left now id r a s t
recorded now id r a t s found =
    let there = found-lookup id t s found in
    subst (Left now id r a s) there.2 (recorded_entry now id r a there.0 s there.1)

auto_ran :
    (v : ApprovalEngine) (m : Moment) (id : TaskId) (s : EngineState) (t : Task)
    → Queries.get id s.task_store ≡ ok t
    → t.status ≡ TaskStatus.expired
    → t.on_timeout ≡ TimeoutAction.approve
    → is_executing id (m.after_read s).executing ≡ false
    → m.timer ≡ in_time
    → execute_on_result v m id s
      ≡ finish id
          (m.meanwhile (acquire id (m.after_read s)))
          (auto_run v m t).0
          (auto_approve_result v m id (auto_run v m t).1)
unfolding auto_approve auto_approve_result
auto_ran v m id s t found st on alone e = expired_run v m id s t found st on ∙ rw (alone, e) refl

auto_approve_result-SameRequest :
    (v : ApprovalEngine) (m : Moment) (id : TaskId) (p : PipelineResult) (t : Task) (s : TaskStore)
    → Queries.get id s ≡ ok t
    → (u : Task) × (Queries.get id (auto_approve_result v m id p s).0 ≡ ok u) × SameRequest t u
unfolding auto_approve_result Left
auto_approve_result-SameRequest v m id (success r) t s found =
    recorded m.recorded_at id r (synthetic_approval v m.approved_at) t s found
auto_approve_result-SameRequest v m id (failure stage reason retriable) t s found =
    (t, found, record { same_status = refl; same_action = refl; same_run = λ v m. refl })

-- Two calls, one after the other, for an expired task with the timeout action `Approve`: neither finds
-- an execution of the task running, both pipelines end in time, the task is as it was when the first
-- pipeline ends, and the second call starts in the state that the first has left. Whether the pipeline
-- of the first call succeeds or fails, both calls send what the pipeline sends for the task as it was
-- at first: a stored result is not used.
pub execute_on_result-again :
    (v : ApprovalEngine) (m n : Moment) (id : TaskId) (s : EngineState) (t : Task)
    → Queries.get id s.task_store ≡ ok t
    → t.status ≡ TaskStatus.expired
    → t.on_timeout ≡ TimeoutAction.approve
    → is_executing id (m.after_read s).executing ≡ false
    → Queries.get id (m.meanwhile (acquire id (m.after_read s))).task_store ≡ ok t
    → m.timer ≡ in_time
    → n.timer ≡ in_time
    → let first = execute_on_result v m id s in
      is_executing id (n.after_read first.0).executing ≡ false
      → ((execute_on_result v m id s).1 ≡ (auto_run v m t).0)
        × ((execute_on_result v n id (execute_on_result v m id s).0).1 ≡ (auto_run v n t).0)
unfolding release
execute_on_result-again v m n id s t found st on alone left intime intime' alone' =
    let first = auto_ran v m id s t found st on alone intime in
    let p = (auto_run v m t).1 in
    let k =
      auto_approve_result-SameRequest v m id p t
        (m.meanwhile (acquire id (m.after_read s))).task_store left in
    let same = k.2 in
    let second =
      auto_ran v n id (execute_on_result v m id s).0 k.0
        (ap (λ (x : Executed). Queries.get id x.0.task_store) first ∙ k.1) (same.same_status ∙ st)
        (same.same_action ∙ on) alone' intime' in
    (
      ap (λ (x : Executed). x.1) first,
      ap (λ (x : Executed). x.1) second
          ∙ ap (λ (x : List McpRequest × PipelineResult). x.0) (same.same_run v n),
    )
