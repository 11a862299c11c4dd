-- ===== src/Task/Store/Invariant.antt =====
-- What holds of the store between two operations: the counters agree with the tasks, and they stay
-- within the limits of the configuration.
use thoughtgate.Base.{
  ℕ, ◌≤◌, ◌<◌, ◌≡◌, refl, String, Bool, true, false, Option, none, some, if◌then◌else◌, str_eq,
  usize_end, arith,
}
use thoughtgate.Base.Dict.{lookup, total, AllEntries, IsDistinct}
use thoughtgate.Task.Status.{is_terminal}
use thoughtgate.Task.Methods.{rate_limit_key}
use thoughtgate.Task.Store.State.{TaskEntry, TaskStoreConfig, TaskStore, new, principal_count}

-- What one entry adds to the counters: nothing, once its task is terminal.
abbrev pub pending_weight : TaskEntry → ℕ
pending_weight e = if is_terminal e.task.status then 0 else 1

abbrev pub bytes_weight : TaskEntry → ℕ
bytes_weight e = if is_terminal e.task.status then 0 else e.estimated_bytes

abbrev pub key_weight : String → TaskEntry → ℕ
key_weight key e =
    if is_terminal e.task.status
    then 0
    else if str_eq (rate_limit_key e.task.principal) key
    then 1
    else 0

-- An entry stands under the identifier of its task, and has an end exactly when the task is terminal.
abbrev pub EndsWhenTerminal : Option ℕ → Bool → Type 0
EndsWhenTerminal none b = b ≡ false
EndsWhenTerminal (some _) b = b ≡ true

pub record IsKept (id : String) (e : TaskEntry) : Type 0 where
  pub under_id : e.task.id ≡ id
  pub ended : EndsWhenTerminal e.terminal_at (is_terminal e.task.status)

-- The limits are values of `usize`.
pub record IsSized (c : TaskStoreConfig) : Type 0 where
  pub global_small : c.max_pending_global < usize_end
  pub principal_small : c.max_pending_per_principal < usize_end
  pub bytes_small : c.max_pending_bytes < usize_end

pub record Inv (s : TaskStore) : Type 0 where
  pub sized : IsSized s.config
  pub counted : s.pending_count ≡ total pending_weight s.tasks
  pub weighed : s.pending_bytes ≡ total bytes_weight s.tasks
  pub counted_by_key :
      (key : String) → principal_count key s.pending_by_principal ≡ total (key_weight key) s.tasks
  pub count_bounded : s.pending_count ≤ s.config.max_pending_global
  pub key_bounded :
      (key : String)
      → principal_count key s.pending_by_principal ≤ s.config.max_pending_per_principal
  pub bytes_bounded : s.pending_bytes ≤ s.config.max_pending_bytes
  pub tasks_distinct : IsDistinct s.tasks
  pub counts_distinct : IsDistinct s.pending_by_principal
  pub kept : AllEntries IsKept s.tasks

-- An empty store satisfies the invariant.
pub new-Inv : (c : TaskStoreConfig) → IsSized c → Inv (new c)
unfolding new principal_count total lookup
new-Inv c h = record {
  sized = h;
  counted = refl;
  weighed = refl;
  counted_by_key = λ key. refl;
  count_bounded = omega arith;
  key_bounded = λ key. omega arith;
  bytes_bounded = omega arith;
  tasks_distinct = tt;
  counts_distinct = tt;
  kept = tt;
}

-- Two entries that weigh the same.
pub record SameWeight (e e' : TaskEntry) : Type 0 where
  pub same_id : e'.task.id ≡ e.task.id
  pub same_terminal : is_terminal e'.task.status ≡ is_terminal e.task.status
  pub same_end : e'.terminal_at ≡ e.terminal_at
  pub same_principal : e'.task.principal ≡ e.task.principal
  pub same_bytes : e'.estimated_bytes ≡ e.estimated_bytes

-- A task that was pending and has become terminal.
pub record HasEnded (e e' : TaskEntry) : Type 0 where
  pub was_pending : is_terminal e.task.status ≡ false
  pub now_terminal : is_terminal e'.task.status ≡ true
  pub same_id : e'.task.id ≡ e.task.id
  pub same_principal : e'.task.principal ≡ e.task.principal
  pub same_bytes : e'.estimated_bytes ≡ e.estimated_bytes
