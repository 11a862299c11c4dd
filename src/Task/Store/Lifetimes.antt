-- ===== src/Task/Store/Lifetimes.antt =====
-- Every operation of store.rs, and the tasks that were there before it.
use thoughtgate.Base.{
  ℕ, zero, ◌≡◌, refl, sym, ◌∙◌, String, true, Option, none, some, List, [], ◌∷◌, ◌⊎◌, inl, inr,
  Result, ok, err, arith, ap, Bool-cases, Option-cases, str_eq, str_eq→eq, not, ltb, leb,
  wrapping_add, get_or,
}
use mathlib.Core.Option.{some-injective}
use thoughtgate.Base.Dict.{Dict, lookup, insert, lookup-insert, erase-IsDistinct, IsDistinct}
use thoughtgate.Task.Status.{TaskStatus, is_terminal, status_eq}
use thoughtgate.Task.Status.Machine.{StatusPath, start, step, is_terminal-final}
use thoughtgate.Task.Types.{
  Task, TaskId, TaskError, ToolCallRequest, ToolCallResult, Principal, TimeoutAction,
  ApprovalRecord, ApprovalDecision, FailureInfo, Clock, Libraries,
}
use thoughtgate.Task.Methods.{rate_limit_key}
use thoughtgate.Task.Store.State.{
  TaskStore, TaskStoreConfig, TaskEntry, principal_count, settle, put,
}
use thoughtgate.Task.Store.Create.{
  create, reserve, rollback, enter, admit, fresh_entry, estimate, clamp,
}
use thoughtgate.Task.Store.Changes.{
  Outcome, transition, transition_if, record_approval, approval_record, decided, complete,
  record_auto_approve_result, fail, cancel, with_entry,
}
use thoughtgate.Task.Store.Sweeps.{
  Sweep, expire_overdue, cleanup_terminal, fail_all_pending, expire_one, expire_all, remove_one,
  remove_all, fail_all, expired_to, shutdown_failure, ids_where, is_pending, is_overdue,
}
use thoughtgate.Task.Store.Invariant.{Inv, IsSized}
use thoughtgate.Task.Store.Admission.{new-IsNewTask}
use thoughtgate.Task.Store.Sweeps.Upkeep.{remove_one-lookup}
use thoughtgate.Task.Store.Evolution.{
  Evolves, Keeps, Keeps-refl, Keeps-trans, insert-Keeps, transition-Evolves, transition_if-Evolves,
  conclude-Keeps, conclude_terminal-Keeps,
}
use thoughtgate.Task.Store.History.{
  Operation, creates, transitions, transitions_if, approves, completes, auto_approves, fails,
  cancels, expires, cleans_up, shuts_down, run, IsAdmissible, Reach, Reach-Inv,
}

with_entry-Keeps :
    (id : TaskId) (s : TaskStore) (f : TaskEntry → Outcome)
    → ((e : TaskEntry) → lookup id s.tasks ≡ some e → Keeps s.tasks (f e).0.tasks)
    → Keeps s.tasks (with_entry id s f).0.tasks
with_entry-Keeps id s f each = elim (Option-cases (lookup id s.tasks)) [
  | inl missing ↦ rw (missing, with_entry) (Keeps-refl s.tasks)
  | inr (e, there) ↦ rw (there, with_entry) (each e there)
]

module _ (c : Clock) (id : TaskId) (s : TaskStore) where
  transition-Keeps :
      (st : TaskStatus) (reason : Option String)
      → Keeps s.tasks (transition c id st reason s).0.tasks
  unfolding transition
  transition-Keeps st reason =
      with_entry-Keeps id s _
        λ e there. conclude-Keeps id e s there c _ (transition-Evolves c st reason e.task)

  transition_if-Keeps :
      (old st : TaskStatus) (reason : Option String)
      → Keeps s.tasks (transition_if c id old st reason s).0.tasks
  unfolding transition_if
  transition_if-Keeps old st reason =
      with_entry-Keeps id s _
        λ e there. conclude-Keeps id e s there c _ (transition_if-Evolves c old st reason e.task)

  record_approval-Keeps :
      (lib : Libraries) (now : ℕ) (d : ApprovalDecision) (by : String) (valid_for : ℕ)
      → Keeps s.tasks (record_approval lib c now id d by valid_for s).0.tasks
  unfolding record_approval
  record_approval-Keeps lib now d by valid_for = with_entry-Keeps id s _ λ e there.
      let u = record e.task { approval = some (approval_record lib now d by valid_for) } in
      elim (Bool-cases (not (status_eq e.task.status TaskStatus.input_required))) [
        | inl refused ↦ rw refused (Keeps-refl s.tasks)
        | inr taken ↦
            rw taken
              (conclude-Keeps id e s there c _ (transition-Evolves c (decided d).0 (decided d).1 u))
      ]

  complete-Keeps : (result : ToolCallResult) → Keeps s.tasks (complete c id result s).0.tasks
  unfolding complete
  complete-Keeps result = with_entry-Keeps id s _ λ e there.
      let u = record e.task { result = some result } in
      elim (Bool-cases (not (status_eq e.task.status TaskStatus.executing))) [
        | inl refused ↦ rw refused (Keeps-refl s.tasks)
        | inr taken ↦ rw taken (
            conclude_terminal-Keeps id e s there c _
              (transition-Evolves c TaskStatus.completed _ u))
      ]

  fail-Keeps : (failure : FailureInfo) → Keeps s.tasks (fail c id failure s).0.tasks
  unfolding fail
  fail-Keeps failure = with_entry-Keeps id s _ λ e there.
      let u = record e.task { failure = some failure } in
      elim (Bool-cases (is_terminal e.task.status)) [
        | inl refused ↦ rw refused (Keeps-refl s.tasks)
        | inr taken ↦
            rw taken (
              conclude_terminal-Keeps id e s there c _ (transition-Evolves c TaskStatus.failed _ u))
      ]

  cancel-Keeps : Keeps s.tasks (cancel c id s).0.tasks
  unfolding cancel
  cancel-Keeps = with_entry-Keeps id s _ λ e there.
      elim (Bool-cases (not (status_eq e.task.status TaskStatus.input_required))) [
        | inl refused ↦ rw refused (Keeps-refl s.tasks)
        | inr taken ↦ rw taken (
            conclude_terminal-Keeps id e s there c _
              (transition-Evolves c TaskStatus.cancelled _ e.task))
      ]

record_auto_approve_result-Keeps :
    (now : ℕ) (id : TaskId) (result : ToolCallResult) (approval : ApprovalRecord) (s : TaskStore)
    → Keeps s.tasks (record_auto_approve_result now id result approval s).0.tasks
unfolding record_auto_approve_result put
record_auto_approve_result-Keeps now id result approval s =
    elim (Option-cases (lookup id s.tasks)) [
      | inl missing ↦ rw (missing, record_auto_approve_result) (Keeps-refl s.tasks)
      | inr (e, there) ↦
          rw (there, record_auto_approve_result) (insert-Keeps id e _ s.tasks there (zero, start))
    ]

expired_to-Keeps :
    (now : ℕ) (id : TaskId) (e : TaskEntry) (s : TaskStore) (n : ℕ)
    (m : Task × Result (Unit {0}) TaskError)
    → lookup id s.tasks ≡ some e
    → Evolves e.task.status m.0.status
    → Keeps s.tasks (expired_to now id e (s, n) m).0.tasks
unfolding expired_to settle put
expired_to-Keeps now id e s n (task, err x) there p =
    insert-Keeps id e (record e { task = task }) s.tasks there p
expired_to-Keeps now id e s n (task, ok u) there p = insert-Keeps id e _ s.tasks there p

expire_one-Keeps :
    (now : ℕ) (c : Clock) (id : TaskId) (s : TaskStore) (n : ℕ)
    → Keeps s.tasks (expire_one now c id (s, n)).0.tasks
unfolding expire_one
expire_one-Keeps now c id s n = elim (Option-cases (lookup id s.tasks)) [
  | inl missing ↦ rw (missing, expire_one) (Keeps-refl s.tasks)
  | inr (e, there) ↦
      rw (there, expire_one)
        (elim (Bool-cases (is_overdue now e)) [
          | inl late ↦ rw late (
              expired_to-Keeps now id e s n _ there
                (transition-Evolves c TaskStatus.expired (some "TTL exceeded") e.task))
          | inr fine ↦ rw fine (Keeps-refl s.tasks)
        ])
]

expire_all-Keeps :
    (now : ℕ) (clock : TaskId → Clock) (ids : List TaskId) (r : Sweep)
    → Keeps r.0.tasks (expire_all now clock ids r).0.tasks
unfolding expire_all
expire_all-Keeps now clock [] r = Keeps-refl r.0.tasks
expire_all-Keeps now clock (id ∷ ids) (s, n) =
    Keeps-trans _ _ _ (expire_one-Keeps now (clock id) id s n) (expire_all-Keeps now clock ids _)

fail_all-Keeps :
    (clock : TaskId → Clock) (f : FailureInfo) (ids : List TaskId) (s : TaskStore) (n : ℕ)
    → Keeps s.tasks (fail_all clock f ids (s, n)).0.tasks
unfolding fail_all
fail_all-Keeps clock f [] s n = Keeps-refl s.tasks
fail_all-Keeps clock f (id ∷ ids) s n =
    Keeps-trans _ _ _ (fail-Keeps (clock id) id s f) (fail_all-Keeps clock f ids _ _)

insert_new-Keeps :
    (id : TaskId) (e : TaskEntry) (d : Dict TaskEntry)
    → lookup id d ≡ none
    → Keeps d (insert id e d)
insert_new-Keeps id e d new j x there = elim (Bool-cases (str_eq id j)) [
  | inl same ↦ absurd (cc (new, there, str_eq→eq id j same))
  | inr other ↦ (x, rw (lookup-insert id j e d, other) there, (zero, start))
]

admit-Keeps :
    (r : Result Task String) (bytes : ℕ) (key : String) (s : TaskStore)
    → ((t : Task) → r ≡ ok t → lookup t.id s.tasks ≡ none)
    → Keeps s.tasks (admit r bytes key (reserve key s)).0.tasks
unfolding admit rollback enter reserve put
admit-Keeps (err e) bytes key s new = Keeps-refl s.tasks
admit-Keeps (ok t) bytes key s new =
    elim (Bool-cases (ltb s.config.max_pending_bytes (wrapping_add s.pending_bytes bytes))) [
      | inl full ↦ rw full (Keeps-refl s.tasks)
      | inr fits ↦ rw fits (insert_new-Keeps t.id (fresh_entry t bytes) s.tasks (new t refl))
    ]

create-Keeps :
    (lib : Libraries) (id : TaskId) (now : ℕ) (o r : ToolCallRequest) (p : Principal)
    (ttl : Option ℕ) (ot : TimeoutAction) (s : TaskStore)
    → lookup id s.tasks ≡ none
    → Keeps s.tasks (create lib id now o r p ttl ot s).0.tasks
unfolding create rollback reserve
create-Keeps lib id now o r p ttl ot s new =
    elim (Bool-cases (leb s.config.max_pending_global s.pending_count)) [
      | inl full ↦ rw full (Keeps-refl s.tasks)
      | inr room ↦ rw room (elim (Bool-cases (leb s.config.max_pending_per_principal mine)) [
        | inl limited ↦ rw limited (Keeps-refl s.tasks)
        | inr free ↦ rw free (
            admit-Keeps _ (estimate lib o) (rate_limit_key p) s
              (λ t e. rw (new-IsNewTask lib id now o r p bounded ot t e).has_id new))
      ])
    ]
  where
    mine : ℕ
    mine = principal_count (rate_limit_key p) s.pending_by_principal

    bounded : ℕ
    bounded = clamp s.config.min_ttl s.config.max_ttl (get_or ttl s.config.default_ttl)

remove_one-IsDistinct :
    (id : TaskId) (s : TaskStore) → IsDistinct s.tasks → IsDistinct (remove_one id s).tasks
unfolding remove_one
remove_one-IsDistinct id s h = ground (arith, erase-IsDistinct id s.tasks h)

remove_all-lookup :
    (ids : List TaskId) (j : TaskId) (s : TaskStore) (e : TaskEntry)
    → IsDistinct s.tasks
    → lookup j (remove_all ids s).tasks ≡ some e
    → lookup j s.tasks ≡ some e
unfolding remove_all
remove_all-lookup [] j s e distinct there = there
remove_all-lookup (id ∷ ids) j s e distinct there =
    remove_one-lookup id j s e distinct
      (remove_all-lookup ids j (remove_one id s) e (remove_one-IsDistinct id s distinct) there)

-- After an operation a task that was there is gone or has a status that it can have evolved to.
abbrev pub Lives : Dict TaskEntry → Dict TaskEntry → Type 0
Lives d d' =
    (j : TaskId) (e : TaskEntry)
    → lookup j d ≡ some e
    → (lookup j d' ≡ none)
      ⊎ ((e' : TaskEntry) × (lookup j d' ≡ some e') × Evolves e.task.status e'.task.status)

Keeps-Lives : (d d' : Dict TaskEntry) → Keeps d d' → Lives d d'
Keeps-Lives d d' k j e there = inr (k j e there)

remove_all-Lives :
    (ids : List TaskId) (s : TaskStore)
    → IsDistinct s.tasks
    → Lives s.tasks (remove_all ids s).tasks
remove_all-Lives ids s distinct j e there =
    elim (Option-cases (lookup j (remove_all ids s).tasks)) [
      | inl gone ↦ inl gone
      | inr (e', left) ↦
          let was = remove_all-lookup ids j s e' distinct left in
          let same : e' ≡ e = some-injective e' e (sym was ∙ there) in
          inr (e, left ∙ ap some same, (zero, start))
    ]

run-Lives :
    (op : Operation) (s : TaskStore) → Inv s → IsAdmissible op s → Lives s.tasks (run op s).tasks
unfolding run expire_overdue cleanup_terminal fail_all_pending
run-Lives (creates lib id now o r p ttl ot) s inv can =
    Keeps-Lives s.tasks _ (create-Keeps lib id now o r p ttl ot s can.0)
run-Lives (transitions c id st reason) s inv can =
    Keeps-Lives s.tasks _ (transition-Keeps c id s st reason)
run-Lives (transitions_if c id old st reason) s inv can =
    Keeps-Lives s.tasks _ (transition_if-Keeps c id s old st reason)
run-Lives (approves lib c now id d by valid_for) s inv can =
    Keeps-Lives s.tasks _ (record_approval-Keeps c id s lib now d by valid_for)
run-Lives (completes c id result) s inv can = Keeps-Lives s.tasks _ (complete-Keeps c id s result)
run-Lives (auto_approves now id result approval) s inv can =
    Keeps-Lives s.tasks _ (record_auto_approve_result-Keeps now id result approval s)
run-Lives (fails c id failure) s inv can = Keeps-Lives s.tasks _ (fail-Keeps c id s failure)
run-Lives (cancels c id) s inv can = Keeps-Lives s.tasks _ (cancel-Keeps c id s)
run-Lives (expires now clock) s inv can =
    Keeps-Lives s.tasks _ (expire_all-Keeps now clock (ids_where (is_overdue now) s.tasks) (s, 0))
run-Lives (cleans_up lib now) s inv can = remove_all-Lives _ s inv.tasks_distinct
run-Lives (shuts_down clock reason) s inv can =
    Keeps-Lives s.tasks _
      (fail_all-Keeps clock (shutdown_failure reason) (ids_where is_pending s.tasks) s 0)

terminal-Evolves : {s t : TaskStatus} {n : ℕ} → is_terminal s ≡ true → StatusPath s t n → t ≡ s
terminal-Evolves h start = refl
terminal-Evolves {s} h (step {t = t} {u = u} p allowed) =
    absurd (cc (allowed, (is_terminal-final s).0 h u, terminal-Evolves h p))

-- In every store that a history leads to, no operation changes the status of a terminal task: the
-- task is still there with its status, or it is gone.
pub run-terminal :
    {c : TaskStoreConfig} {s : TaskStore} (op : Operation) (j : TaskId) (e : TaskEntry)
    → IsSized c
    → Reach c s
    → IsAdmissible op s
    → lookup j s.tasks ≡ some e
    → is_terminal e.task.status ≡ true
    → (lookup j (run op s).tasks ≡ none)
      ⊎ ((e' : TaskEntry) × (lookup j (run op s).tasks ≡ some e')
          × (e'.task.status ≡ e.task.status))
run-terminal {s = s} op j e sized r can there h =
    elim (run-Lives op s (Reach-Inv sized r) can j e there) [
      | inl gone ↦ inl gone
      | inr (e', there', (n, p)) ↦ inr (e', there', terminal-Evolves h p)
    ]
