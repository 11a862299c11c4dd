-- ===== src/Task/Handlers/Results.antt =====
-- How the answers of `tasks/get` and `tasks/result` of governance/handlers.rs agree.
use thoughtgate.Base.{
  ℕ, ◌/◌, ◌%◌, usize_end, true, false, none, some, Result, ok, err, ◌≡◌, refl, ap, ◌∙◌, ◌⊎◌, inl,
  inr, err-ne-ok, Bool-cases, subst,
}
use thoughtgate.Task.Status.{TaskStatus, is_terminal, wire_is_terminal, to_wire}
use thoughtgate.Task.Types.{Task, TaskId, TaskError}
use thoughtgate.Task.Store.State.{TaskStore}
use thoughtgate.Task.Store.Queries.{get}
use thoughtgate.Task.Handlers.{
  Sep1686TaskMetadata, Sep1686TaskResult, task_to_metadata, metadata_of, handle_tasks_get,
  result_of, ended_result, handle_tasks_result,
}

-- What an agent learns of a task, and what it gets when it asks for the result at once.
abbrev pub Agree : TaskId → Sep1686TaskMetadata → Result Sep1686TaskResult TaskError → Type 0
Agree id m r =
    ((wire_is_terminal m.status ≡ true)
      × (m.poll_interval ≡ none)
      × ((x : Sep1686TaskResult) × (r ≡ ok x)))
    ⊎ ((wire_is_terminal m.status ≡ false)
        × ((n : ℕ) × (m.poll_interval ≡ some n))
        × (r ≡ err (TaskError.result_not_ready id)))

wire-is_terminal : (s : TaskStatus) → wire_is_terminal (to_wire s) ≡ is_terminal s
unfolding wire_is_terminal to_wire is_terminal
wire-is_terminal TaskStatus.working = refl
wire-is_terminal TaskStatus.input_required = refl
wire-is_terminal TaskStatus.executing = refl
wire-is_terminal TaskStatus.completed = refl
wire-is_terminal TaskStatus.failed = refl
wire-is_terminal TaskStatus.rejected = refl
wire-is_terminal TaskStatus.cancelled = refl
wire-is_terminal TaskStatus.expired = refl

task-Agree : (id : TaskId) (t : Task) → Agree id (task_to_metadata t) (result_of id (ok t))
unfolding task_to_metadata result_of
task-Agree id t = elim (Bool-cases (is_terminal t.status)) [
  | inl over ↦
      inl (wire-is_terminal t.status ∙ over, rw over refl, (ended_result t t.result, rw over refl))
  | inr going ↦ inr (
    wire-is_terminal t.status ∙ going,
    (t.poll_interval / 1_000_000 % usize_end, rw going refl),
    rw going refl,
  )
]

abbrev metadata_or :
    Sep1686TaskMetadata → Result Sep1686TaskMetadata TaskError → Sep1686TaskMetadata
metadata_or m (ok n) = n
metadata_or m (err _) = m

found-Agree :
    (id : TaskId) (m : Sep1686TaskMetadata) (r : Result Task TaskError)
    → metadata_of r ≡ ok m
    → Agree id m (result_of id r)
found-Agree id m (err e) h = elim (err-ne-ok h) [ ]
found-Agree id m (ok t) h =
    let same : task_to_metadata t ≡ m =
      ap (λ (r : Result Sep1686TaskMetadata TaskError). metadata_or m r) h in
    subst (λ x. Agree id x (result_of id (ok t))) same (task-Agree id t)

-- Where `tasks/get` answers: it says a terminal status and no poll interval, and `tasks/result` gives a
-- result; or it says that the task goes on and how often to poll, and `tasks/result` says that the
-- result is not ready.
pub handle_tasks_get-Agree :
    (id : TaskId) (s : TaskStore) (m : Sep1686TaskMetadata)
    → handle_tasks_get id s ≡ ok m
    → Agree id m (handle_tasks_result id s)
unfolding handle_tasks_get handle_tasks_result
handle_tasks_get-Agree id s m h = found-Agree id m (get id s) h
