-- ===== src/Task/Store/State.antt =====
-- The state of store.rs: `TaskStoreConfig`, `TaskEntry`, `TaskStore`, and its counters.
use thoughtgate.Base.{
  ℕ, suc, String, Option, none, some, List, [], ◌==◌, if◌then◌else◌, wrapping_sub, get_or,
}
use thoughtgate.Base.Dict.{Dict, lookup, insert, erase}
use thoughtgate.Task.Helpers.{seconds}
use thoughtgate.Task.Types.{Task, TaskId}
use thoughtgate.Task.Methods.{rate_limit_key}

pub record TaskStoreConfig : Type 0 where
  pub default_ttl : ℕ
  pub max_ttl : ℕ
  pub min_ttl : ℕ
  pub cleanup_interval : ℕ
  pub max_pending_per_principal : ℕ
  pub max_pending_global : ℕ
  pub terminal_grace_period : ℕ
  pub max_pending_bytes : ℕ

-- `Default`; the argument is what the variable THOUGHTGATE_MAX_PENDING_BYTES parses to.
abbrev pub default_config : Option ℕ → TaskStoreConfig
default_config max_bytes = record {
  default_ttl = seconds 600;
  max_ttl = seconds 86400;
  min_ttl = seconds 60;
  cleanup_interval = seconds 60;
  max_pending_per_principal = 10;
  max_pending_global = 1000;
  terminal_grace_period = seconds 3600;
  max_pending_bytes = get_or max_bytes 268_435_456;
}

-- `notify` counts the calls of `notify_waiters`.
pub record TaskEntry : Type 0 where
  pub task : Task
  pub terminal_at : Option ℕ
  pub notify : ℕ
  pub estimated_bytes : ℕ

-- The metrics that the store writes: the gauge of pending tasks, and the completions with the outcome
-- "expired".
pub record Metrics : Type 0 where
  pub tasks_pending : ℕ
  pub tasks_expired : ℕ

pub record TaskStore : Type 0 where
  pub tasks : Dict TaskEntry
  pub by_principal : Dict (List TaskId)
  pub config : TaskStoreConfig
  pub pending_count : ℕ
  pub pending_by_principal : Dict ℕ
  pub pending_bytes : ℕ
  pub tg_metrics : Option Metrics

unfoldable pub new : TaskStoreConfig → TaskStore
new c = record {
  tasks = [];
  by_principal = [];
  config = c;
  pending_count = 0;
  pending_by_principal = [];
  pending_bytes = 0;
  tg_metrics = none;
}

unfoldable pub with_metrics : TaskStoreConfig → Metrics → TaskStore
unfolding new
with_metrics c m = record (new c) { tg_metrics = some m }

-- What `pending_by_principal` holds for a key; a key that is not there has no pending task.
unfoldable pub principal_count : String → Dict ℕ → ℕ
principal_count key d = get_or (lookup key d) 0

-- The gauge is set to the count, if metrics are wired.
abbrev pub set_gauge : ℕ → Option Metrics → Option Metrics
set_gauge n none = none
set_gauge n (some m) = some (record m { tasks_pending = n })

-- DashMap's `remove_if` for the test that the counter is zero.
abbrev pub remove_if_zero : String → Dict ℕ → Dict ℕ
remove_if_zero key d = elim (lookup key d) [ none ↦ d | some n ↦ if n == 0 then erase key d else d ]

unfoldable pub lower : String → Dict ℕ → Option ℕ → Dict ℕ
lower key d none = d
lower key d (some prev) =
    let lowered = insert key (wrapping_sub prev 1) d in
    if prev == 1 then remove_if_zero key lowered else lowered

unfoldable pub decrement_pending_counters : Task → ℕ → TaskStore → TaskStore
unfolding lower
decrement_pending_counters task estimated_bytes s =
    let key = rate_limit_key task.principal in
    let new_count = wrapping_sub s.pending_count 1 in
    record s {
      pending_count = new_count;
      pending_bytes = wrapping_sub s.pending_bytes estimated_bytes;
      tg_metrics = set_gauge new_count s.tg_metrics;
      pending_by_principal = lower key s.pending_by_principal (lookup key s.pending_by_principal);
    }

-- An entry is written back under its key.
unfoldable pub put : TaskId → TaskEntry → TaskStore → TaskStore
put id e s = record s { tasks = insert id e s.tasks }

-- What follows when a task has become terminal: the time is noted, the counters are lowered, and the
-- waiters are told.
unfoldable pub settle : ℕ → TaskId → TaskEntry → TaskStore → TaskStore
unfolding put decrement_pending_counters
settle now id e s =
    put id (record e { terminal_at = some now; notify = suc e.notify })
      (decrement_pending_counters e.task e.estimated_bytes s)
