-- ===== src/Task/Store/Shutdown.antt =====
-- What `fail` and `fail_all_pending` of store.rs do to each task.
use thoughtgate.Base.{
  ℕ, ◌≡◌, refl, sym, ◌∙◌, String, Bool, true, false, Option, some, List, [], ◌∷◌, inl, inr, Result,
  ok, err, arith, Bool-cases, str_eq, str_eq→eq, if◌then◌else◌, any,
}
use thoughtgate.Base.Dict.{Dict, lookup, lookup-insert, lookup-insert_self, AllEntries}
use thoughtgate.Task.Status.{TaskStatus, is_terminal, can_transition_to}
use thoughtgate.Task.Types.{Task, TaskId, TaskError, FailureInfo, Clock}
use thoughtgate.Task.Methods
use thoughtgate.Task.Store.State.{TaskStore, TaskStoreConfig, TaskEntry, settle, put}
use thoughtgate.Task.Store.Changes.{fail, with_entry, conclude_terminal}
use thoughtgate.Task.Store.Sweeps.{
  fail_all, fail_all_pending, ids_where, is_pending, shutdown_failure,
}
use thoughtgate.Task.Store.Invariant.{IsKept, IsSized}
use thoughtgate.Task.Store.History.{Reach, Reach-Inv}

-- The status of a task after it was asked to fail.
abbrev pub failed_from : TaskStatus → TaskStatus
failed_from TaskStatus.working = TaskStatus.failed
failed_from TaskStatus.executing = TaskStatus.failed
failed_from s = s

-- The entry of a key, with a given status of its task.
abbrev pub HasStatus : TaskStore → TaskId → TaskStatus → Type 0
HasStatus s j st = (e : TaskEntry) × (lookup j s.tasks ≡ some e) × (e.task.status ≡ st)

conclude_terminal-lookup :
    (c : Clock) (id : TaskId) (e : TaskEntry) (s : TaskStore)
    (m : Task × Result (Unit {0}) TaskError)
    → HasStatus (conclude_terminal c id e s m).0 id m.0.status
unfolding conclude_terminal settle put
conclude_terminal-lookup c id e s (task, err x) = (_, lookup-insert_self id _ s.tasks, refl)
conclude_terminal-lookup c id e s (task, ok u) = (_, lookup-insert_self id _ s.tasks, refl)

conclude_terminal-lookup_other :
    (c : Clock) (id j : TaskId) (e : TaskEntry) (s : TaskStore)
    (m : Task × Result (Unit {0}) TaskError)
    → str_eq id j ≡ false
    → lookup j (conclude_terminal c id e s m).0.tasks ≡ lookup j s.tasks
unfolding conclude_terminal settle put
conclude_terminal-lookup_other c id j e s (task, err x) h = rw (lookup-insert id j _ s.tasks, h)
conclude_terminal-lookup_other c id j e s (task, ok u) h = rw (lookup-insert id j _ s.tasks, h)

transition_failed :
    (c : Clock) (reason : Option String) (t : Task)
    → (Methods.transition c TaskStatus.failed reason t).0.status ≡ failed_from t.status
unfolding Methods.transition is_terminal can_transition_to
transition_failed c reason t = ground arith

fail-terminal : (st : TaskStatus) → is_terminal st ≡ true → failed_from st ≡ st
unfolding is_terminal
fail-terminal st h = ground arith

module _ (c : Clock) (id : TaskId) (f : FailureInfo) (s : TaskStore) (e : TaskEntry)
    (there : lookup id s.tasks ≡ some e) where
  pub fail-terminal_lem :
      is_terminal e.task.status ≡ true
      → fail c id f s ≡ (s, err (TaskError.already_terminal id e.task.status))
  unfolding fail
  fail-terminal_lem over = rw (there, fail, with_entry) (rw over)

  pub fail-pending_lem :
      is_terminal e.task.status ≡ false
      → fail c id f s
        ≡ conclude_terminal c id e s (
            Methods.transition c TaskStatus.failed
              (some f.reason)
              (record e.task { failure = some f }))
  unfolding fail
  fail-pending_lem live = rw (there, fail, with_entry) (rw live)

  fail-HasStatus : HasStatus (fail c id f s).0 id (failed_from e.task.status)
  fail-HasStatus = elim (Bool-cases (is_terminal e.task.status)) [
    | inl over ↦ rw (fail-terminal_lem over) (e, there, sym (fail-terminal e.task.status over))
    | inr live ↦
        let u = record e.task { failure = some f } in
        let m = Methods.transition c TaskStatus.failed (some f.reason) u in
        let (e', there', same) = conclude_terminal-lookup c id e s m in
        rw (fail-pending_lem live) (e', there', same ∙ transition_failed c (some f.reason) u)
  ]

fail-lookup_other :
    (c : Clock) (id j : TaskId) (f : FailureInfo) (s : TaskStore)
    → str_eq id j ≡ false
    → lookup j (fail c id f s).0.tasks ≡ lookup j s.tasks
unfolding fail
fail-lookup_other c id j f s h = grind (arith, conclude_terminal-lookup_other)

-- Whether a task is among the identifiers.
abbrev pub is_listed : TaskId → List TaskId → Bool
is_listed j ids = any (λ id. str_eq id j) ids

failed_twice :
    (b : Bool) (st : TaskStatus)
    → (if b then failed_from (failed_from st) else failed_from st) ≡ failed_from st
failed_twice b st = ground arith

failed_when_terminal :
    (b : Bool) (st : TaskStatus)
    → is_terminal st ≡ true
    → (if b then failed_from st else st) ≡ failed_from st
failed_when_terminal b st h = ground (arith, fail-terminal st h)

fail_all-HasStatus :
    (clock : TaskId → Clock) (f : FailureInfo) (ids : List TaskId) (j : TaskId) (s : TaskStore)
    (n : ℕ) (st : TaskStatus)
    → HasStatus s j st
    → HasStatus (fail_all clock f ids (s, n)).0 j (if is_listed j ids then failed_from st else st)
unfolding fail_all
fail_all-HasStatus clock f [] j s n st at_j = at_j
fail_all-HasStatus clock f (id ∷ ids) j s n st (e, there, same) = elim (Bool-cases (str_eq id j)) [
  | inl hit ↦
      let first = fail-HasStatus (clock id) id f s e (rw (str_eq→eq id j hit) there) in
      let rest =
        fail_all-HasStatus clock f ids j (fail (clock id) id f s).0 _ (failed_from st)
          (rw (← same, ← str_eq→eq id j hit) first) in
      rw (hit, ← failed_twice (is_listed j ids) st) rest
  | inr miss ↦
      let kept = fail-lookup_other (clock id) id j f s miss ∙ there in
      rw miss (fail_all-HasStatus clock f ids j (fail (clock id) id f s).0 _ st (e, kept, same))
]

-- Every entry that passes the test is collected.
ids_where_listed :
    (p : TaskEntry → Bool) (d : Dict TaskEntry) (j : TaskId) (e : TaskEntry)
    → AllEntries IsKept d
    → lookup j d ≡ some e
    → p e ≡ true
    → is_listed j (ids_where p d) ≡ true
unfolding ids_where lookup
ids_where_listed p [] j e kept there h = cc
ids_where_listed p ((k, x) ∷ d) j e kept there h = ground (
  arith,
  kept.0.under_id,
  ids_where_listed p d j e kept.1,
  Bool-cases (is_listed j (ids_where p d)),
)

-- At shutdown every task that is `Working` or `Executing` becomes `Failed`, and every other task keeps
-- its status; a task that awaits its approval stays `InputRequired`.
pub fail_all_pending_statuses :
    {c : TaskStoreConfig} {s : TaskStore} (clock : TaskId → Clock) (reason : String) (j : TaskId)
    (e : TaskEntry)
    → IsSized c
    → Reach c s
    → lookup j s.tasks ≡ some e
    → HasStatus (fail_all_pending clock reason s).0 j (failed_from e.task.status)
unfolding fail_all_pending
fail_all_pending_statuses {s = s} clock reason j e sized r there =
    let f = shutdown_failure reason in
    let ids = ids_where is_pending s.tasks in
    let statuses = fail_all-HasStatus clock f ids j s 0 e.task.status (e, there, refl) in
    elim (Bool-cases (is_terminal e.task.status)) [
      | inl over ↦ rw (failed_when_terminal (is_listed j ids) e.task.status over) at statuses
      | inr live ↦
          rw (ids_where_listed is_pending s.tasks j e (Reach-Inv sized r).kept there (rw live)) at
            statuses
    ]
