-- ===== src/Approval/Engine/Sending.antt =====
-- What a call of `execute_on_result` of governance/engine.rs sends to the upstream, and when.
use thoughtgate.Base.{
  ℕ, String, Bool, true, false, Option, none, some, List, [], ◌∷◌, ok, ◌≡◌, refl, ◌⊎◌, inl, inr,
  Bool-cases, subst, sym,
}
use thoughtgate.Task.Status.{TaskStatus}
use thoughtgate.Task.Types.{Task, TaskId, ToolCallRequest, ApprovalRecord, TimeoutAction, Libraries}
use thoughtgate.Task.Helpers.{hash_request}
use thoughtgate.Task.Store.Queries
use thoughtgate.Approval.Pipeline.{McpRequest, to_mcp_request}
use thoughtgate.Approval.Pipeline.Execute.{execute_approved}
use thoughtgate.Approval.Pipeline.Forwarding.{execute_approved-IsSent}
use thoughtgate.Approval.Engine.{ApprovalEngine, EngineState}
use thoughtgate.Approval.Engine.Execute.{
  Moment, Timer, in_time, elapsed, Executed, cut, is_executing, run_pipeline_with_timeout,
  synthetic_approval, auto_approve, handle_expired_task, execute_with, execute_executing, by_status,
  with_task, execute_on_result,
}

-- The hash that a task keeps is that of its approved request.
abbrev pub HasHash : Libraries → Task → Type 0
HasHash lib t = hash_request lib t.pre_approval_transformed ≡ ok t.request_hash

-- A status and a record by which a task may be executed: it is approved, or it has expired and its
-- timeout approves it.
pub IsAuthorized : Task → Type 0
IsAuthorized t =
    ((t.status ≡ TaskStatus.executing) × (a : ApprovalRecord) × (t.approval ≡ some a))
    ⊎ ((t.status ≡ TaskStatus.expired) × (t.on_timeout ≡ TimeoutAction.approve))

-- One request, with a hash.
pub record SendsOne (lib : Libraries) (hash : String) (calls : List McpRequest) : Type 0 where
  pub sent : ToolCallRequest
  pub one_call : calls ≡ to_mcp_request sent ∷ []
  pub same_hash : hash_request lib sent ≡ ok hash

abbrev pub AtMostOne : Libraries → String → List McpRequest → Type 0
AtMostOne lib hash calls = (calls ≡ []) ⊎ SendsOne lib hash calls

execute_approved-AtMostOne :
    (v : ApprovalEngine) (now : ℕ) (t : Task) (a : ApprovalRecord)
    → HasHash v.pipeline.lib t
    → AtMostOne v.pipeline.lib t.request_hash (execute_approved v.pipeline now t a).0
execute_approved-AtMostOne v now t a h = elim (execute_approved-IsSent v.pipeline now t a h) [
  | inl nothing ↦ inl nothing.0
  | inr s ↦ inr (record { sent = s.sent; one_call = s.one_call; same_hash = s.same_hash })
]

cut-AtMostOne :
    (lib : Libraries) (t : String) (b : Bool) (calls : List McpRequest)
    → AtMostOne lib t calls
    → AtMostOne lib t (cut b calls)
cut-AtMostOne lib t true calls h = h
cut-AtMostOne lib t false calls h = inl refl

run_pipeline-AtMostOne :
    (v : ApprovalEngine) (m : Moment) (timer : Timer) (t : Task) (a : ApprovalRecord)
    → m.timer ≡ timer
    → HasHash v.pipeline.lib t
    → AtMostOne v.pipeline.lib t.request_hash (run_pipeline_with_timeout v m t a).0
unfolding run_pipeline_with_timeout
run_pipeline-AtMostOne v m in_time t a e h = rw e (execute_approved-AtMostOne v m.now t a h)
run_pipeline-AtMostOne v m (elapsed b) t a e h =
    rw e
      (cut-AtMostOne v.pipeline.lib t.request_hash b _ (execute_approved-AtMostOne v m.now t a h))

-- What a call sends for a task, and what it has.
pub record IsExecution (v : ApprovalEngine) (id : TaskId) (task : Task) (s : EngineState)
    (calls : List McpRequest) : Type 0 where
  pub authorized : IsAuthorized task
  pub alone : is_executing id s.executing ≡ false
  pub sends : SendsOne v.pipeline.lib task.request_hash calls

Outgoing : ApprovalEngine → TaskId → Task → EngineState → Executed → Type 0
Outgoing v id t s run = (run.1 ≡ []) ⊎ IsExecution v id t s run.1

execution :
    (v : ApprovalEngine) (id : TaskId) (s : EngineState) (t : Task) (calls : List McpRequest)
    → IsAuthorized t
    → is_executing id s.executing ≡ false
    → AtMostOne v.pipeline.lib t.request_hash calls
    → (calls ≡ []) ⊎ IsExecution v id t s calls
execution v id s t calls auth alone (inl e) = inl e
execution v id s t calls auth alone (inr one) =
    inr (record { authorized = auth; alone = alone; sends = one })

executing-Outgoing :
    (v : ApprovalEngine) (m : Moment) (id : TaskId) (t : Task) (s : EngineState)
    (o : Option ApprovalRecord)
    → t.approval ≡ o
    → t.status ≡ TaskStatus.executing
    → is_executing id s.executing ≡ false
    → HasHash v.pipeline.lib t
    → Outgoing v id t s (execute_with v m id t s o)
unfolding Outgoing execute_with IsAuthorized
executing-Outgoing v m id t s none e st alone h = inl refl
executing-Outgoing v m id t s (some a) e st alone h =
    execution v id s t _ (inl (st, a, e)) alone (run_pipeline-AtMostOne v m m.timer t a refl h)

expired-Outgoing :
    (v : ApprovalEngine) (m : Moment) (timer : Timer) (id : TaskId) (t : Task) (s : EngineState)
    → m.timer ≡ timer
    → IsAuthorized t
    → is_executing id s.executing ≡ false
    → HasHash v.pipeline.lib t
    → Outgoing v id t s (auto_approve v m id t s)
unfolding Outgoing auto_approve
expired-Outgoing v m in_time id t s e auth alone h =
    rw (alone, e)
      (execution v id s t _ auth alone (
        execute_approved-AtMostOne v m.now (record t { status = TaskStatus.executing })
          (synthetic_approval v m.approved_at) h))
expired-Outgoing v m (elapsed b) id t s e auth alone h =
    rw (alone, e)
      (execution v id s t _ auth alone (
        cut-AtMostOne v.pipeline.lib t.request_hash b _ (
          execute_approved-AtMostOne v m.now (record t { status = TaskStatus.executing })
            (synthetic_approval v m.approved_at) h)))

executing_alone-Outgoing :
    (v : ApprovalEngine) (m : Moment) (id : TaskId) (t : Task) (s : EngineState)
    → t.status ≡ TaskStatus.executing
    → HasHash v.pipeline.lib t
    → Outgoing v id t s (execute_executing v m id t s)
unfolding Outgoing execute_executing
executing_alone-Outgoing v m id t s st h = elim (Bool-cases (is_executing id s.executing)) [
  | inl busy ↦ inl (rw busy refl)
  | inr alone ↦ rw alone (executing-Outgoing v m id t s t.approval refl st alone h)
]

expired_by-Outgoing :
    (v : ApprovalEngine) (m : Moment) (id : TaskId) (t : Task) (s : EngineState) (a : TimeoutAction)
    → t.on_timeout ≡ a
    → t.status ≡ TaskStatus.expired
    → HasHash v.pipeline.lib t
    → Outgoing v id t s (handle_expired_task v m id t s a)
unfolding Outgoing handle_expired_task IsAuthorized auto_approve
expired_by-Outgoing v m id t s TimeoutAction.deny e st h = inl refl
expired_by-Outgoing v m id t s TimeoutAction.approve e st h =
    elim (Bool-cases (is_executing id s.executing)) [
      | inl busy ↦ inl (rw busy refl)
      | inr alone ↦ expired-Outgoing v m m.timer id t s refl (inr (st, e)) alone h
    ]

by_status-Outgoing :
    (v : ApprovalEngine) (m : Moment) (id : TaskId) (t : Task) (s : EngineState) (st : TaskStatus)
    → t.status ≡ st
    → HasHash v.pipeline.lib t
    → Outgoing v id t s (by_status v m id t s st)
unfolding Outgoing by_status
by_status-Outgoing v m id t s TaskStatus.input_required e h = inl refl
by_status-Outgoing v m id t s TaskStatus.working e h = inl refl
by_status-Outgoing v m id t s TaskStatus.executing e h = executing_alone-Outgoing v m id t s e h
by_status-Outgoing v m id t s TaskStatus.rejected e h = inl refl
by_status-Outgoing v m id t s TaskStatus.expired e h =
    expired_by-Outgoing v m id t s t.on_timeout refl e h
by_status-Outgoing v m id t s TaskStatus.failed e h = inl refl
by_status-Outgoing v m id t s TaskStatus.cancelled e h = inl refl
by_status-Outgoing v m id t s TaskStatus.completed e h = inl refl

-- For a task that keeps the hash of its approved request, a call that reads it from the store sends
-- nothing, or it sends one request with that hash: then the task, as it was read, was approved or is
-- approved by its timeout, and no execution was running when the call took its place, after whatever
-- others had done since the reading.
pub execute_on_result-IsExecution :
    (v : ApprovalEngine) (m : Moment) (id : TaskId) (s : EngineState) (t : Task)
    → Queries.get id s.task_store ≡ ok t
    → HasHash v.pipeline.lib t
    → let run = execute_on_result v m id s in
      (run.1 ≡ []) ⊎ IsExecution v id t (m.after_read s) run.1
unfolding execute_on_result Outgoing with_task
execute_on_result-IsExecution v m id s t found h =
    subst (λ r. Outgoing v id t (m.after_read s) (with_task v m id s r)) (sym found)
      (by_status-Outgoing v m id t (m.after_read s) t.status refl h)
