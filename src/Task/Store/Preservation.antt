-- ===== src/Task/Store/Preservation.antt =====
-- Every operation of store.rs that changes one task keeps the invariant.
use thoughtgate.Base.{
  ℕ, ◌≡◌, refl, String, true, false, not, ◌&&◌, Option, some, inl, inr, Result, ok, err, is_ok,
  arith, Bool-cases, Option-cases,
}
use thoughtgate.Base.Dict.{lookup}
use thoughtgate.Task.Status.{TaskStatus, is_terminal, status_eq}
use thoughtgate.Task.Types.{
  Task, TaskId, TaskError, ToolCallResult, ApprovalRecord, ApprovalDecision, FailureInfo, Clock,
  Libraries,
}
use thoughtgate.Task.Methods
use thoughtgate.Task.Store.State.{TaskEntry, TaskStore}
use thoughtgate.Task.Store.Changes.{
  Outcome, with_entry, conclude, conclude_terminal, transition, transition_if, approval_record,
  decided, record_approval, complete, record_auto_approve_result, fail, cancel,
}
use thoughtgate.Task.Store.Invariant.{Inv}
use thoughtgate.Task.Store.Upkeep.{put-Inv, settle-Inv}

-- What a method of the task leaves alone: an error keeps the status, and success needs a task that
-- was not terminal.
pub record IsChange (t : Task) (m : Task × Result (Unit {0}) TaskError) : Type 0 where
  pub same_id : m.0.id ≡ t.id
  pub same_principal : m.0.principal ≡ t.principal
  pub on_err : is_ok m.1 ≡ false → m.0.status ≡ t.status
  pub on_ok : is_ok m.1 ≡ true → is_terminal t.status ≡ false

pub transition-IsChange :
    (c : Clock) (st : TaskStatus) (reason : Option String) (t : Task)
    → IsChange t (Methods.transition c st reason t)
unfolding Methods.transition
transition-IsChange c st reason t = ground arith

transition_if-IsChange :
    (c : Clock) (old st : TaskStatus) (reason : Option String) (t : Task)
    → IsChange t (Methods.transition_if c old st reason t)
unfolding Methods.transition_if
transition_if-IsChange c old st reason t = ground (arith, transition-IsChange c st reason t)

-- A successful transition ends in the status that was asked for.
pub transition-status :
    (c : Clock) (st : TaskStatus) (reason : Option String) (t : Task)
    → is_ok (Methods.transition c st reason t).1 ≡ true
    → (Methods.transition c st reason t).0.status ≡ st
unfolding Methods.transition
transition-status c st reason t h = ground arith

module _ (id : TaskId) (e : TaskEntry) (s : TaskStore) (there : lookup id s.tasks ≡ some e)
    (inv : Inv s) where
  conclude-Inv :
      (c : Clock) (m : Task × Result (Unit {0}) TaskError)
      → IsChange e.task m
      → Inv (conclude c id e s m).0
  unfolding conclude
  conclude-Inv c (task, err x) change = put-Inv id e s there _ (ground arith) inv
  conclude-Inv c (task, ok _) change =
      elim (Bool-cases (not (is_terminal e.task.status) && is_terminal task.status)) [
        | inl ended ↦ rw ended (settle-Inv id e s there _ (ground arith) inv c.ended)
        | inr still ↦ rw still (put-Inv id e s there _ (ground arith) inv)
      ]

  conclude_terminal-Inv :
      (c : Clock) (m : Task × Result (Unit {0}) TaskError)
      → IsChange e.task m
      → (is_ok m.1 ≡ true → is_terminal m.0.status ≡ true)
      → Inv (conclude_terminal c id e s m).0
  unfolding conclude_terminal
  conclude_terminal-Inv c (task, err x) change ends = put-Inv id e s there _ (ground arith) inv
  conclude_terminal-Inv c (task, ok _) change ends =
      settle-Inv id e s there _ (ground arith) inv c.ended

  -- The same for a task whose other fields were written before the transition.
  changed-Inv :
      (c : Clock) (st : TaskStatus) (reason : Option String) (u : Task)
      → u.id ≡ e.task.id
      → u.principal ≡ e.task.principal
      → u.status ≡ e.task.status
      → Inv (conclude c id e s (Methods.transition c st reason u)).0
  changed-Inv c st reason u i p q =
      conclude-Inv c _ (ground (arith, transition-IsChange c st reason u))

  ended-Inv :
      (c : Clock) (st : TaskStatus) (reason : Option String) (u : Task)
      → is_terminal st ≡ true
      → u.id ≡ e.task.id
      → u.principal ≡ e.task.principal
      → u.status ≡ e.task.status
      → Inv (conclude_terminal c id e s (Methods.transition c st reason u)).0
  ended-Inv c st reason u final i p q =
      conclude_terminal-Inv c _ (ground (arith, transition-IsChange c st reason u))
        (λ done. rw (transition-status c st reason u done) final)

-- The first step of each operation: a key that is not there changes nothing.
with_entry-Inv :
    (id : TaskId) (s : TaskStore) (f : TaskEntry → Outcome)
    → Inv s
    → ((e : TaskEntry) → lookup id s.tasks ≡ some e → Inv (f e).0)
    → Inv (with_entry id s f).0
with_entry-Inv id s f inv each = elim (Option-cases (lookup id s.tasks)) [
  | inl missing ↦ rw (missing, with_entry) inv
  | inr (e, there) ↦ rw (there, with_entry) (each e there)
]

module _ (c : Clock) (id : TaskId) (s : TaskStore) (inv : Inv s) where
  pub transition-Inv :
      (st : TaskStatus) (reason : Option String) → Inv (transition c id st reason s).0
  unfolding transition
  transition-Inv st reason =
      with_entry-Inv id s _ inv
        λ e there. changed-Inv id e s there inv c st reason e.task refl refl refl

  pub transition_if-Inv :
      (old st : TaskStatus) (reason : Option String) → Inv (transition_if c id old st reason s).0
  unfolding transition_if
  transition_if-Inv old st reason =
      with_entry-Inv id s _ inv
        λ e there. conclude-Inv id e s there inv c _ (transition_if-IsChange c old st reason e.task)

  pub record_approval-Inv :
      (lib : Libraries) (now : ℕ) (d : ApprovalDecision) (by : String) (valid_for : ℕ)
      → Inv (record_approval lib c now id d by valid_for s).0
  unfolding record_approval
  record_approval-Inv lib now d by valid_for = with_entry-Inv id s _ inv λ e there.
      let u = record e.task { approval = some (approval_record lib now d by valid_for) } in
      elim (Bool-cases (not (status_eq e.task.status TaskStatus.input_required))) [
        | inl refused ↦ rw refused inv
        | inr taken ↦
            rw taken (changed-Inv id e s there inv c (decided d).0 (decided d).1 u refl refl refl)
      ]

  pub complete-Inv : (result : ToolCallResult) → Inv (complete c id result s).0
  unfolding complete is_terminal
  complete-Inv result = with_entry-Inv id s _ inv λ e there.
      let u = record e.task { result = some result } in
      elim (Bool-cases (not (status_eq e.task.status TaskStatus.executing))) [
        | inl refused ↦ rw refused inv
        | inr taken ↦
            rw taken (ended-Inv id e s there inv c TaskStatus.completed _ u refl refl refl refl)
      ]

  pub fail-Inv : (failure : FailureInfo) → Inv (fail c id failure s).0
  unfolding fail is_terminal
  fail-Inv failure = with_entry-Inv id s _ inv λ e there.
      let u = record e.task { failure = some failure } in
      elim (Bool-cases (is_terminal e.task.status)) [
        | inl refused ↦ rw refused inv
        | inr taken ↦
            rw taken (ended-Inv id e s there inv c TaskStatus.failed _ u refl refl refl refl)
      ]

  pub cancel-Inv : Inv (cancel c id s).0
  unfolding cancel is_terminal
  cancel-Inv = with_entry-Inv id s _ inv λ e there.
      elim (Bool-cases (not (status_eq e.task.status TaskStatus.input_required))) [
        | inl refused ↦ rw refused inv
        | inr taken ↦
            rw taken
              (ended-Inv id e s there inv c TaskStatus.cancelled _ e.task refl refl refl refl)
      ]

pub record_auto_approve_result-Inv :
    (id : TaskId) (s : TaskStore) (now : ℕ) (result : ToolCallResult) (approval : ApprovalRecord)
    → Inv s
    → Inv (record_auto_approve_result now id result approval s).0
unfolding record_auto_approve_result
record_auto_approve_result-Inv id s now result approval inv =
    elim (Option-cases (lookup id s.tasks)) [
      | inl missing ↦ rw (missing, record_auto_approve_result) inv
      | inr (e, there) ↦
          rw (there, record_auto_approve_result)
            (put-Inv id e s there _
              (record {
                same_id = refl;
                same_terminal = refl;
                same_end = refl;
                same_principal = refl;
                same_bytes = refl;
              })
              inv)
    ]
