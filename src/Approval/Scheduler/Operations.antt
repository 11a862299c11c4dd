-- ===== src/Approval/Scheduler/Operations.antt =====
-- governance/approval/scheduler.rs: the operations of the polling scheduler.
use Prim.Native.String.{◌++◌}
use thoughtgate.Base.{
  ℕ, ◌+◌, ◌%◌, ◌==◌, ltb, leb, ◌&&◌, ◌||◌, String, Bool, true, false, Option, none, some, List, [],
  ◌∷◌, Result, ok, err, if◌then◌else◌, str_eq, length,
}
use mathlib.Core.List.{◌++◌ as append}
use thoughtgate.Base.Dict.{lookup, insert, erase}
use thoughtgate.Task.Status.{TaskStatus, is_terminal}
use thoughtgate.Task.Types.{Task, TaskId, ApprovalDecision, TaskError, Clock}
use thoughtgate.Task.Helpers.{seconds}
use thoughtgate.Task.Methods.{is_expired}
use thoughtgate.Task.Store.Changes.{transition, record_approval}
use thoughtgate.Task.Store.Queries
use thoughtgate.Governance.Gates.{ApprovalRequest}
use thoughtgate.Approval.Scheduler.{
  ApprovalReference, approved, rejected, DecisionMethod, PollResult, AdapterError, rate_limited,
  message_not_found, is_retriable, backoff_interval, PollingScheduler, SchedulerState, Entry,
}

-- `BTreeMap::insert`, in the order of the times and then of the identifiers.
unfoldable pub queue_insert : (TaskId → TaskId → Bool) → Entry → List Entry → List Entry
queue_insert before e [] = e ∷ []
queue_insert before e (f ∷ q) =
    if e.0 == f.0 && str_eq e.1 f.1
    then e ∷ q
    else if ltb e.0 f.0 || (e.0 == f.0 && before e.1 f.1)
    then e ∷ f ∷ q
    else f ∷ queue_insert before e q

unfoldable pub reschedule : TaskId → ApprovalReference → SchedulerState → SchedulerState
reschedule id r s = record s {
  references = insert id r s.references;
  entering = append s.entering ((r.next_poll_at, id) ∷ []);
}

-- The lock is taken in the order in which it was asked for.
unfoldable pub enter_first : PollingScheduler → SchedulerState → List Entry → SchedulerState
unfolding queue_insert
enter_first v s [] = s
enter_first v s (e ∷ es) = record s {
  pending = queue_insert v.id_before e s.pending;
  entering = es;
}

unfoldable pub enter_queue : PollingScheduler → SchedulerState → SchedulerState
enter_queue v s = enter_first v s s.entering

-- What others do while a submission waits: for the limiter and the post, and for the lock.
pub record Submission : Type 0 where
  pub posting : SchedulerState → SchedulerState
  pub locking : SchedulerState → SchedulerState

unfoldable pub submit :
    PollingScheduler
    → Submission
    → ApprovalRequest
    → SchedulerState
    → SchedulerState × Result (Unit {0}) AdapterError
unfolding reschedule enter_queue
submit v w request s =
    if leb v.config.max_concurrent (length s.references)
    then (s, err (rate_limited (seconds 5)))
    else elim (v.adapter.post_approval_request request) [
      | err e ↦ (w.posting s, err e)
      | ok r ↦ (enter_queue v (w.locking (reschedule r.task_id r (w.posting s))), ok tt)
    ]

abbrev pub Due : Type 0
Due = SchedulerState × Option (TaskId × ApprovalReference)

abbrev pub with_reference : TaskId → Option ApprovalReference → Option (TaskId × ApprovalReference)
with_reference id none = none
with_reference id (some r) = some (id, r)

-- The first entry of the queue, where it is due.
unfoldable pub first_due : ℕ → SchedulerState → List Entry → Due
first_due now s [] = (s, none)
first_due now s ((at, id) ∷ rest) =
    if ltb now at
    then (s, none)
    else (record s { pending = rest }, with_reference id (lookup id s.references))

unfoldable pub get_next_due : ℕ → SchedulerState → Due
get_next_due now s = first_due now s s.pending

-- `references.remove`; the message of the adapter is cancelled where the call is `cancel`.
abbrev pub forget : TaskId → SchedulerState → SchedulerState
forget id s = record s { references = erase id s.references }

-- Whether the task is still to be polled.
unfoldable pub if_pending :
    ℕ → Clock → TaskId → SchedulerState → Result Task TaskError → SchedulerState × Bool
if_pending now c id s (err _) = (forget id s, false)
if_pending now c id s (ok t) =
    if is_terminal t.status
    then (forget id s, false)
    else if is_expired now t
    then (
      record (forget id s) {
        task_store = (transition c id TaskStatus.expired (some "TTL exceeded") s.task_store).0;
      },
      false,
    )
    else (s, true)

unfoldable pub still_pending : ℕ → Clock → TaskId → SchedulerState → SchedulerState × Bool
still_pending now c id s = if_pending now c id s (Queries.get id s.task_store)

abbrev pub decision_of : (DecisionMethod → String) → PollResult → ApprovalDecision
decision_of describe r = elim r.decision [
  | approved ↦ ApprovalDecision.approved
  | rejected ↦
      ApprovalDecision.rejected
        (some ("Rejected via " ++ describe r.method ++ " by " ++ r.decided_by))
]

-- An error of the store is only logged.
unfoldable pub handle_decision :
    PollingScheduler → Clock → ℕ → TaskId → PollResult → SchedulerState → SchedulerState
handle_decision v c now id r s = record (forget id s) {
  task_store =
      (record_approval v.lib c now id (decision_of v.describe r) r.decided_by
        v.config.approval_valid_for s.task_store).0;
}

abbrev pub u32_end : ℕ
u32_end = 4_294_967_296

abbrev pub polled_again : ApprovalReference → ApprovalReference
polled_again r = record r { poll_count = (r.poll_count + 1) % u32_end }

unfoldable pub reschedule_with_backoff :
    PollingScheduler → ℕ → TaskId → ApprovalReference → SchedulerState → SchedulerState
unfolding reschedule backoff_interval
reschedule_with_backoff v now id r s =
    reschedule id (record r { next_poll_at = now + backoff_interval v.config r.poll_count }) s

-- What follows an answer of the adapter; `now` is the time of the decision or of the new schedule.
unfoldable pub after_answer :
    PollingScheduler
    → Clock
    → ℕ
    → TaskId
    → ApprovalReference
    → Result (Option PollResult) AdapterError
    → SchedulerState
    → SchedulerState
unfolding handle_decision reschedule_with_backoff is_retriable reschedule
after_answer v c now id r (ok (some result)) s = handle_decision v c now id result s
after_answer v c now id r (ok none) s = reschedule_with_backoff v now id (polled_again r) s
after_answer v c now id r (err (rate_limited retry_after)) s =
    reschedule id (record (polled_again r) { next_poll_at = now + retry_after }) s
after_answer v c now id r (err (message_not_found ts)) s = forget id s
after_answer v c now id r (err e) s =
    if is_retriable e then reschedule_with_backoff v now id (polled_again r) s else forget id s

-- What a poll meets: the times that it reads, and what others do while it waits for the limiter and the
-- adapter, and for the lock.
pub record Poll : Type 0 where
  pub now : ℕ
  pub checked_at : ℕ
  pub changes : Clock
  pub answered_at : ℕ
  pub meanwhile : SchedulerState → SchedulerState
  pub locking : SchedulerState → SchedulerState

abbrev polled :
    PollingScheduler → Poll → TaskId → ApprovalReference → SchedulerState × Bool → SchedulerState
polled v p id r (s, false) = s
polled v p id r (s, true) = enter_queue v (
    p.locking
      (after_answer v p.changes p.answered_at id r (v.adapter.poll_for_decision r) (p.meanwhile s)))

abbrev poll_due : PollingScheduler → Poll → Due → SchedulerState
poll_due v p (s, none) = s
poll_due v p (s, some (id, r)) = polled v p id r (still_pending p.checked_at p.changes id s)

unfoldable pub poll_next : PollingScheduler → Poll → SchedulerState → SchedulerState
poll_next v p s = poll_due v p (get_next_due p.now s)

-- `cancel`, and one round of `drain_pending`; an error of the adapter is only logged.
unfoldable pub cancel : TaskId → SchedulerState → SchedulerState
cancel id s = forget id s

unfoldable pub drain_pending : List TaskId → SchedulerState → SchedulerState
drain_pending [] s = s
drain_pending (id ∷ ids) s = drain_pending ids (forget id s)
