-- ===== src/Task/Handlers/Ordered.antt =====
-- The order of the entries of `tasks/list`: governance/handlers.rs with task/store.rs.
use thoughtgate.Base.{
  ℕ, ◌*◌, ◌≤◌, ◌<◌, Option, none, some, List, [], ◌∷◌, map, length, get_or, usize_end, ◌≡◌, refl,
  sym, subst,
}
use mathlib.Core.List.{Perm}
use mathlib.Core.List.Perm
use mathlib.Core.List.Pairwise
use thoughtgate.Base.Dict.{lookup}
use thoughtgate.Task.Status.{to_wire}
use thoughtgate.Task.Types.{Task, TaskId, Principal}
use thoughtgate.Task.Methods.{rate_limit_key}
use thoughtgate.Task.Store.State.{TaskStore}
use thoughtgate.Task.Store.Queries.{found}
use thoughtgate.Task.Store.Newest.{
  TasksUnder, none_left, IsNewestFirst, found-TasksUnder, newest_first-Perm,
  newest_first-IsNewestFirst,
}
use thoughtgate.Task.Handlers.{Sep1686TaskListEntry, Cursors, page_size, list_entry}
use thoughtgate.Task.Handlers.Paging.{tasks_of, listed, follow, follow-tasks_of}

-- The entries, one for each task, with what they say of it.
abbrev pub ShowsEach : List Task → List Sep1686TaskListEntry → Type 0
ShowsEach [] [] = Unit
ShowsEach (t ∷ ts) (e ∷ es) =
    ((e.task_id ≡ t.id)
      × (e.status ≡ to_wire t.status)
      × (e.created_at ≡ t.created_at)
      × (e.tool_name ≡ t.original_request.name))
    × ShowsEach ts es
ShowsEach _ _ = ⊥

-- The entries show the tasks that the store has for the principal, each as often as the index of the
-- store names it, and no task comes before one that is newer.
pub record Reads (ids : List TaskId) (s : TaskStore) (entries : List Sep1686TaskListEntry)
    : Type 0 where
  pub shown_tasks : List Task
  pub shows : ShowsEach shown_tasks entries
  pub newest : IsNewestFirst shown_tasks
  pub indexed : List Task
  pub of_principal : TasksUnder s.tasks ids indexed
  pub same_tasks : Perm shown_tasks indexed

-- The identifiers that the index of the store has for a principal.
abbrev pub ids_of : Principal → TaskStore → List TaskId
ids_of p s = get_or (lookup (rate_limit_key p) s.by_principal) []

map-ShowsEach : (ts : List Task) → ShowsEach ts (map list_entry ts)
unfolding list_entry
map-ShowsEach [] = tt
map-ShowsEach (t ∷ ts) = ((refl, refl, refl, refl), map-ShowsEach ts)

listed-Reads :
    (s : TaskStore) (o : Option (List TaskId)) → Reads (get_or o []) s (map list_entry (listed s o))
listed-Reads s none = record {
  shown_tasks = [];
  shows = tt;
  newest = Pairwise.nil;
  indexed = [];
  of_principal = none_left;
  same_tasks = Perm.rfl;
}
listed-Reads s (some ids) = record {
  shown_tasks = listed s (some ids);
  shows = map-ShowsEach (listed s (some ids));
  newest = newest_first-IsNewestFirst (found ids s.tasks);
  indexed = found ids s.tasks;
  of_principal = found-TasksUnder ids s.tasks;
  same_tasks = newest_first-Perm (found ids s.tasks);
}

-- Where a number is read back as it was printed, and a principal has fewer tasks than a `usize` counts:
-- an agent that follows the cursors from the start, for as many pages as the tasks take, gets one entry
-- for each identifier that the index of the store has for the principal and that has a task, with the
-- identifier, the status, the time and the tool of the task; and no entry comes before one of a newer
-- task.
pub follow-Reads :
    (u : Cursors) (p : Principal) (s : TaskStore) (n : ℕ)
    → ((k : ℕ) → k < usize_end → u.parse (u.print k) ≡ some k)
    → length (tasks_of p s) < usize_end
    → length (tasks_of p s) ≤ page_size * n
    → Reads (ids_of p s) s (follow u p s n none)
follow-Reads u p s n law small enough =
    subst (Reads (ids_of p s) s) (sym (follow-tasks_of u p s n law small enough))
      (listed-Reads s (lookup (rate_limit_key p) s.by_principal))
