-- ===== src/Task/Store/Sweeps.antt =====
-- The operations of store.rs that go through all tasks: expiry, cleanup and shutdown.
-- `clock` gives the readings that the change of one task makes.
pub mod Upkeep
use thoughtgate.Base.{
  ℕ, suc, ◌+◌, String, Bool, true, false, not, ◌&&◌, Option, none, some, List, [], ◌∷◌, ltb,
  if◌then◌else◌, str_eq, Result, ok, err, is_ok, get_or, length, filter,
}
use thoughtgate.Base.Dict.{Dict, lookup, insert, erase}
use thoughtgate.Task.Status.{TaskStatus, is_terminal}
use thoughtgate.Task.Types.{Task, TaskId, TaskError, FailureInfo, FailureStage, Clock, Libraries}
use thoughtgate.Task.Methods
use thoughtgate.Task.Methods.{rate_limit_key}
use thoughtgate.Task.Store.State.{TaskEntry, TaskStore, Metrics, put, settle}
use thoughtgate.Task.Store.Changes.{fail}

-- `filter_map` over the entries, with the identifier that the task holds.
unfoldable pub ids_where : (TaskEntry → Bool) → Dict TaskEntry → List TaskId
ids_where p [] = []
ids_where p ((_, e) ∷ d) = if p e then e.task.id ∷ ids_where p d else ids_where p d

unfoldable pub is_overdue : ℕ → TaskEntry → Bool
is_overdue now e = not (is_terminal e.task.status) && ltb e.task.expires_at now

abbrev pub count_expired : Option Metrics → Option Metrics
count_expired none = none
count_expired (some m) = some (record m { tasks_expired = suc m.tasks_expired })

abbrev pub Sweep : Type 0
Sweep = TaskStore × ℕ

-- A transition that is refused leaves the entry as it was.
unfoldable pub expired_to :
    ℕ → TaskId → TaskEntry → Sweep → Task × Result (Unit {0}) TaskError → Sweep
expired_to now id e (s, n) (task, err x) = (put id (record e { task = task }) s, n)
expired_to now id e (s, n) (task, ok _) =
    let settled = settle now id (record e { task = task }) s in
    (record settled { tg_metrics = count_expired settled.tg_metrics }, suc n)

unfoldable pub expire_one : ℕ → Clock → TaskId → Sweep → Sweep
unfolding expired_to is_overdue
expire_one now c id (s, n) = elim (lookup id s.tasks) [
  | none ↦ (s, n)
  | some e ↦
      if is_overdue now e
      then expired_to now id e (s, n)
          (Methods.transition c TaskStatus.expired (some "TTL exceeded") e.task)
      else (s, n)
]

unfoldable pub expire_all : ℕ → (TaskId → Clock) → List TaskId → Sweep → Sweep
expire_all now clock [] r = r
expire_all now clock (id ∷ ids) r = expire_all now clock ids (expire_one now (clock id) id r)

unfoldable pub expire_overdue : ℕ → (TaskId → Clock) → TaskStore → Sweep
expire_overdue now clock s = expire_all now clock (ids_where (is_overdue now) s.tasks) (s, 0)

-- The difference of the times is signed in the source: the grace period goes to the other side.
unfoldable pub is_stale : ℕ → ℕ → TaskEntry → Bool
is_stale now grace e = elim e.terminal_at [
  | none ↦ false
  | some terminal_at ↦ ltb (terminal_at + grace) now
]

-- `retain`, and `remove_if` for the empty list.
abbrev pub drop_id : TaskId → String → Dict (List TaskId) → Dict (List TaskId)
drop_id id key d = elim (lookup key d) [
  | none ↦ d
  | some ids ↦ elim (filter (λ i. not (str_eq i id)) ids) [
    | [] ↦ erase key d
    | i ∷ rest ↦ insert key (i ∷ rest) d
  ]
]

unfoldable pub remove_one : TaskId → TaskStore → TaskStore
remove_one id s = elim (lookup id s.tasks) [
  | none ↦ s
  | some e ↦ record s {
    tasks = erase id s.tasks;
    by_principal = drop_id id (rate_limit_key e.task.principal) s.by_principal;
  }
]

unfoldable pub remove_all : List TaskId → TaskStore → TaskStore
unfolding remove_one
remove_all [] s = s
remove_all (id ∷ ids) s = remove_all ids (remove_one id s)

unfoldable pub cleanup_terminal : Libraries → ℕ → TaskStore → Sweep
cleanup_terminal lib now s =
    let grace = get_or (lib.from_std s.config.terminal_grace_period) 0 in
    let to_remove = ids_where (is_stale now grace) s.tasks in
    (remove_all to_remove s, length to_remove)

abbrev pub is_pending : TaskEntry → Bool
is_pending e = not (is_terminal e.task.status)

abbrev pub shutdown_failure : String → FailureInfo
shutdown_failure reason = record {
  stage = FailureStage.service_shutdown;
  reason = reason;
  retriable = true;
}

abbrev pub tally : TaskStore × Result Task TaskError → ℕ → Sweep
tally r n = (r.0, if is_ok r.1 then suc n else n)

unfoldable pub fail_all : (TaskId → Clock) → FailureInfo → List TaskId → Sweep → Sweep
fail_all clock failure [] r = r
fail_all clock failure (id ∷ ids) (s, n) =
    fail_all clock failure ids (tally (fail (clock id) id failure s) n)

unfoldable pub fail_all_pending : (TaskId → Clock) → String → TaskStore → Sweep
unfolding fail_all
fail_all_pending clock reason s =
    fail_all clock (shutdown_failure reason) (ids_where is_pending s.tasks) (s, 0)
