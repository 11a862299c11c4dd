-- ===== src/Approval/Scheduler.antt =====
-- governance/approval/mod.rs and scheduler.rs: the adapter's data, the configuration of the polls,
-- and the state of the scheduler. A reference goes into the map first and into the queue under a lock;
-- `entering` holds the entries that wait for this lock.
pub mod Operations
pub mod Backoff
pub mod Tracking
pub mod Interleaving
pub mod Deciding
use Prim.Native.String.{◌++◌}
use thoughtgate.Base.{
  ℕ, ◌+◌, ◌*◌, ◌%◌, ◌^◌, ◌==◌, min, ltb, leb, ◌&&◌, ◌||◌, String, Bool, true, false, Option, none,
  some, List, [], ◌∷◌, Result, ok, err, if◌then◌else◌, str_eq, get_or, length,
}
use mathlib.Core.List.{◌++◌ as append}
use thoughtgate.Base.Dict.{Dict, lookup, insert, erase}
use thoughtgate.Lifecycle.Config.{Environment}
use thoughtgate.Task.Status.{TaskStatus, is_terminal}
use thoughtgate.Task.Types.{Task, TaskId, ApprovalDecision, TaskError, Libraries, Clock}
use thoughtgate.Task.Helpers.{seconds}
use thoughtgate.Task.Methods.{is_expired}
use thoughtgate.Task.Store.State.{TaskStore}
use thoughtgate.Task.Store.Changes.{transition, record_approval}
use thoughtgate.Task.Store.Queries
use thoughtgate.Governance.Gates.{ApprovalRequest}

pub record ApprovalReference : Type 0 where
  pub task_id : TaskId
  pub external_id : String
  pub channel : String
  pub posted_at : ℕ
  pub next_poll_at : ℕ
  pub poll_count : ℕ

pub data PollDecision : Type 0 where
  approved rejected : PollDecision

pub data DecisionMethod : Type 0 where
  reaction : (emoji : String) → DecisionMethod
  reply : (text : String) → DecisionMethod

-- `preview` is the first thirty characters, and `is_long` says that a text has more than thirty bytes.
unfoldable pub description : (String → String) → (String → Bool) → DecisionMethod → String
description preview is_long (reaction emoji) = ":" ++ emoji ++ ": reaction"
description preview is_long (reply text) =
    if is_long text
    then "reply \"" ++ preview text ++ "...\""
    else "reply \"" ++ preview text ++ "\""

pub record PollResult : Type 0 where
  pub decision : PollDecision
  pub decided_by : String
  pub decided_at : ℕ
  pub method : DecisionMethod

pub data AdapterError : Type 0 where
  post_failed : (reason : String) (retriable : Bool) → AdapterError
  poll_failed : (reason : String) (retriable : Bool) → AdapterError
  rate_limited : (retry_after : ℕ) → AdapterError
  invalid_token : AdapterError
  channel_not_found : (channel : String) → AdapterError
  message_not_found : (ts : String) → AdapterError

unfoldable pub is_retriable : AdapterError → Bool
is_retriable (post_failed _ retriable) = retriable
is_retriable (poll_failed _ retriable) = retriable
is_retriable (rate_limited _) = true
is_retriable invalid_token = false
is_retriable (channel_not_found _) = false
is_retriable (message_not_found _) = false

-- `PollingConfig`, less the rate of the limiter, which is a float.
pub record PollingConfig : Type 0 where
  pub base_interval : ℕ
  pub max_interval : ℕ
  pub max_concurrent : ℕ
  pub approval_valid_for : ℕ

abbrev pub default_polling : PollingConfig
default_polling = record {
  base_interval = seconds 5;
  max_interval = seconds 30;
  max_concurrent = 100;
  approval_valid_for = seconds 60;
}

-- `.ok().and_then(parse).unwrap_or`; a `usize` is a `u64`.
abbrev number_or : Environment → String → ℕ → ℕ
number_or e name d = elim (e.var name) [ none ↦ d | some s ↦ get_or (e.parse_u64 s) d ]

unfoldable pub polling_from_env : Environment → PollingConfig
polling_from_env e = record {
  base_interval = seconds (number_or e "THOUGHTGATE_APPROVAL_POLL_INTERVAL_SECS" 5);
  max_interval = seconds (number_or e "THOUGHTGATE_APPROVAL_POLL_MAX_INTERVAL_SECS" 30);
  max_concurrent = number_or e "THOUGHTGATE_MAX_CONCURRENT_POLLS" 100;
  approval_valid_for = seconds 60;
}

-- The longest `Duration`, in nanoseconds, at which `saturating_mul` stops.
abbrev pub duration_max : ℕ
duration_max = 18_446_744_073_709_551_615_999_999_999

unfoldable pub backoff_interval : PollingConfig → ℕ → ℕ
backoff_interval c poll_count =
    min (min duration_max (c.base_interval * 2 ^ min poll_count 3)) c.max_interval

abbrev pub Entry : Type 0
Entry = ℕ × TaskId

-- The adapter: Slack, or another service.
pub record ApprovalAdapter : Type 0 where
  pub post_approval_request : ApprovalRequest → Result ApprovalReference AdapterError
  pub poll_for_decision : ApprovalReference → Result (Option PollResult) AdapterError

-- The scheduler, less the state below; `id_before` is the order of the identifiers.
pub record PollingScheduler : Type 0 where
  pub adapter : ApprovalAdapter
  pub config : PollingConfig
  pub lib : Libraries
  pub id_before : TaskId → TaskId → Bool
  pub describe : DecisionMethod → String

pub record SchedulerState : Type 0 where
  pub task_store : TaskStore
  pub pending : List Entry
  pub references : Dict ApprovalReference
  pub entering : List Entry
