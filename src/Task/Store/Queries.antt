-- ===== src/Task/Store/Queries.antt =====
-- The operations of store.rs that only read: `get`, `list_for_principal` and `wait_for_terminal`.
use thoughtgate.Base.{
  ℕ, Bool, Option, none, some, List, [], ◌∷◌, leb, if◌then◌else◌, Result, ok, err, take, drop,
}
use thoughtgate.Base.Dict.{Dict, lookup}
use thoughtgate.Task.Status.{is_terminal}
use thoughtgate.Task.Types.{Task, TaskId, TaskError, Principal}
use thoughtgate.Task.Methods.{rate_limit_key}
use thoughtgate.Task.Store.State.{TaskEntry, TaskStore}

unfoldable pub get : TaskId → TaskStore → Result Task TaskError
get id s = elim (lookup id s.tasks) [ none ↦ err (TaskError.not_found id) | some e ↦ ok e.task ]

-- `filter_map` of a lookup over the identifiers.
unfoldable pub found : List TaskId → Dict TaskEntry → List Task
found [] d = []
found (id ∷ ids) d = elim (lookup id d) [ none ↦ found ids d | some e ↦ e.task ∷ found ids d ]

-- `sort_by` is stable: a task goes in front of the later tasks that are not newer.
unfoldable pub insert_newest : Task → List Task → List Task
insert_newest t [] = t ∷ []
insert_newest t (u ∷ us) =
    if leb u.created_at t.created_at then t ∷ u ∷ us else u ∷ insert_newest t us

unfoldable pub newest_first : List Task → List Task
unfolding insert_newest
newest_first [] = []
newest_first (t ∷ ts) = insert_newest t (newest_first ts)

unfoldable pub page : ℕ → ℕ → TaskStore → Option (List TaskId) → List Task
unfolding found newest_first
page offset limit s none = []
page offset limit s (some ids) = take limit (drop offset (newest_first (found ids s.tasks)))

unfoldable pub list_for_principal : Principal → ℕ → ℕ → TaskStore → List Task
unfolding page
list_for_principal principal offset limit s =
    page offset limit s (lookup (rate_limit_key principal) s.by_principal)

-- What one round of the loop of `wait_for_terminal` meets: the store when the handle is taken, the
-- store when the status is read, the time, and whether a notification came before the time was up,
-- with the store that is read after a timeout.
pub record Round : Type 0 where
  pub at_handle : TaskStore
  pub at_status : TaskStore
  pub now : ℕ
  pub notified : Bool
  pub at_timeout : TaskStore

-- The status of the task, or what the loop goes on to do.
unfoldable pub terminal_or : TaskId → TaskStore → Result Task TaskError → Result Task TaskError
terminal_or id s other = elim (lookup id s.tasks) [
  | none ↦ err (TaskError.not_found id)
  | some e ↦ if is_terminal e.task.status then ok e.task else other
]

-- The loop ends with the rounds given, and `none` says that it would go on waiting.
unfoldable pub wait_for_terminal : TaskId → ℕ → List Round → Option (Result Task TaskError)
wait_for_terminal id deadline [] = none
wait_for_terminal id deadline (r ∷ rounds) =
    let rest = wait_for_terminal id deadline rounds in
    elim (lookup id r.at_handle.tasks) [
      | none ↦ some (err (TaskError.not_found id))
      | some _ ↦ elim (lookup id r.at_status.tasks) [
        | none ↦ some (err (TaskError.not_found id))
        | some e ↦
            if is_terminal e.task.status
            then some (ok e.task)
            else if leb deadline r.now
            then some (err (TaskError.result_not_ready id))
            else if r.notified
            then rest
            else some (terminal_or id r.at_timeout (err (TaskError.result_not_ready id)))
      ]
    ]
