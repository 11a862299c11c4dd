-- ===== src/Approval/Scheduler/Tracking.antt =====
-- Which approvals the scheduler of governance/approval/scheduler.rs goes on to poll.
use thoughtgate.Base.{
  ℕ, ltb, Bool, true, false, ◌||◌, Option, none, some, List, [], ◌∷◌, ◌++◌, Result, ok, err, ◌≡◌,
  refl, inl, inr, arith, Bool-cases, str_eq, str_eq→eq, any, ap,
}
use thoughtgate.Base.Dict.{
  Dict, lookup, lookup-insert, lookup-erase, insert-IsDistinct, erase-IsDistinct, IsDistinct,
}
use thoughtgate.Task.Status.{is_terminal}
use thoughtgate.Task.Types.{Task, TaskError, TaskId, Clock}
use thoughtgate.Task.Methods.{is_expired}
use thoughtgate.Task.Store.State.{TaskStore}
use thoughtgate.Approval.Scheduler.{
  ApprovalReference, PollResult, AdapterError, PollingScheduler, SchedulerState, Entry,
  is_retriable, post_failed, poll_failed, rate_limited, invalid_token, channel_not_found,
  message_not_found,
}
use thoughtgate.Approval.Scheduler.Operations.{
  queue_insert, reschedule, first_due, with_reference, forget, if_pending, enter_first,
  after_answer, handle_decision, reschedule_with_backoff,
}

-- What a poll in progress holds.
abbrev pub InHand : Type 0
InHand = Option (TaskId × ApprovalReference)

abbrev pub queued : TaskId → List Entry → Bool
queued id q = any (λ e. str_eq e.1 id) q

abbrev pub holds : TaskId → InHand → Bool
holds id none = false
holds id (some (i, _)) = str_eq i id

-- The identifier is in the queue, or on its way into it, or polled just now.
abbrev pub tracked : TaskId → SchedulerState → InHand → Bool
tracked id s hand = queued id s.pending || (queued id s.entering || holds id hand)

abbrev pub has_reference : TaskId → Dict ApprovalReference → Bool
has_reference id d = elim (lookup id d) [ none ↦ false | some _ ↦ true ]

pub record IsTracked (s : SchedulerState) (hand : InHand) : Type 0 where
  pub distinct : IsDistinct s.references
  pub all_tracked : (id : TaskId) → has_reference id s.references ≡ true → tracked id s hand ≡ true

queued-queue_insert :
    (before : TaskId → TaskId → Bool) (e : Entry) (q : List Entry) (id : TaskId)
    → queued id (queue_insert before e q) ≡ (str_eq e.1 id || queued id q)
unfolding queue_insert
queued-queue_insert before e [] id = refl
queued-queue_insert before e (f ∷ q) id =
    ground (arith, queued-queue_insert before e q id, str_eq→eq e.1 f.1)

queued-append : (p q : List Entry) (id : TaskId) → queued id (p ++ q) ≡ (queued id p || queued id q)
queued-append [] q id = refl
queued-append (e ∷ p) q id = ground (arith, queued-append p q id)

-- What is tracked of a state that registers one identifier more, or fewer.
pub reschedule-IsTracked :
    (id : TaskId) (r : ApprovalReference) (s : SchedulerState) (hand hand' : InHand)
    → IsTracked s hand
    → ((j : TaskId) → holds j hand ≡ true → (str_eq id j || holds j hand') ≡ true)
    → IsTracked (reschedule id r s) hand'
unfolding reschedule
reschedule-IsTracked id r s hand hand' inv passes = record {
  distinct = insert-IsDistinct id r s.references inv.distinct;
  all_tracked = λ j h. ground (
    arith,
    lookup-insert id j r s.references,
    queued-append s.entering ((r.next_poll_at, id) ∷ []) j,
    inv.all_tracked j,
    passes j,
  );
}

pub forget-IsTracked :
    (id : TaskId) (s : SchedulerState) (hand hand' : InHand)
    → IsTracked s hand
    → ((j : TaskId) → holds j hand ≡ true → (str_eq id j || holds j hand') ≡ true)
    → IsTracked (forget id s) hand'
forget-IsTracked id s hand hand' inv passes = record {
  distinct = erase-IsDistinct id s.references inv.distinct;
  all_tracked = λ j h.
      ground (arith, lookup-erase id j s.references inv.distinct, inv.all_tracked j, passes j);
}

pub enter_first-IsTracked :
    (v : PollingScheduler) (s : SchedulerState) (es : List Entry) (hand : InHand)
    → s.entering ≡ es
    → IsTracked s hand
    → IsTracked (enter_first v s es) hand
unfolding enter_first
enter_first-IsTracked v s [] hand e inv = inv
enter_first-IsTracked v s (f ∷ es) hand e inv = record {
  distinct = inv.distinct;
  all_tracked = λ j h.
      ground
        (arith, queued-queue_insert v.id_before f s.pending j, inv.all_tracked j, ap (queued j) e);
}

-- A due entry leaves the queue.
taken-IsTracked :
    (id : TaskId) (s : SchedulerState) (q : List Entry) (at : ℕ) (o : Option ApprovalReference)
    → s.pending ≡ (at, id) ∷ q
    → lookup id s.references ≡ o
    → IsTracked s none
    → IsTracked (record s { pending = q }) (with_reference id o)
taken-IsTracked id s q at none e l inv = record {
  distinct = inv.distinct;
  all_tracked = λ j h. ground (arith, inv.all_tracked j, ap (queued j) e, str_eq→eq id j, l);
}
taken-IsTracked id s q at (some r) e l inv = record {
  distinct = inv.distinct;
  all_tracked = λ j h. ground (arith, inv.all_tracked j, ap (queued j) e, str_eq→eq id j, l);
}

pub other_store-IsTracked :
    (s : SchedulerState) (t : TaskStore) (hand : InHand)
    → IsTracked s hand
    → IsTracked (record s { task_store = t }) hand
other_store-IsTracked s t hand inv = record {
  distinct = inv.distinct;
  all_tracked = inv.all_tracked;
}

dropped-IsTracked :
    (id : TaskId) (r : ApprovalReference) (s : SchedulerState)
    → IsTracked s (some (id, r))
    → IsTracked (forget id s) none
dropped-IsTracked id r s inv = forget-IsTracked id s (some (id, r)) none inv λ j h. ground arith

pub first_due-IsTracked :
    (now : ℕ) (s : SchedulerState) (q : List Entry)
    → s.pending ≡ q
    → IsTracked s none
    → IsTracked (first_due now s q).0 (first_due now s q).1
unfolding first_due
first_due-IsTracked now s [] e inv = inv
first_due-IsTracked now s ((at, id) ∷ rest) e inv = elim (Bool-cases (ltb now at)) [
  | inl early ↦ rw early inv
  | inr late ↦ rw late (taken-IsTracked id s rest at _ e refl inv)
]

-- What becomes of a poll that goes on, or not.
abbrev pub kept : TaskId → ApprovalReference → Bool → InHand
kept id r true = some (id, r)
kept id r false = none

pub if_pending-IsTracked :
    (now : ℕ) (c : Clock) (id : TaskId) (r : ApprovalReference) (s : SchedulerState)
    (t : Result Task TaskError)
    → IsTracked s (some (id, r))
    → let x = if_pending now c id s t in IsTracked x.0 (kept id r x.1)
unfolding if_pending
if_pending-IsTracked now c id r s (err e) inv = dropped-IsTracked id r s inv
if_pending-IsTracked now c id r s (ok t) inv = elim (Bool-cases (is_terminal t.status)) [
  | inl over ↦ rw over (dropped-IsTracked id r s inv)
  | inr going ↦ rw going (elim (Bool-cases (is_expired now t)) [
    | inl late ↦ rw late (other_store-IsTracked (forget id s) _ none (dropped-IsTracked id r s inv))
    | inr early ↦ rw early inv
  ])
]

again-IsTracked :
    (id : TaskId) (r r' : ApprovalReference) (s : SchedulerState)
    → IsTracked s (some (id, r))
    → IsTracked (reschedule id r' s) none
again-IsTracked id r r' s inv =
    reschedule-IsTracked id r' s (some (id, r)) none inv λ j h. ground arith

pub after_answer-IsTracked :
    (v : PollingScheduler) (c : Clock) (now : ℕ) (id : TaskId) (r : ApprovalReference)
    (a : Result (Option PollResult) AdapterError) (s : SchedulerState)
    → IsTracked s (some (id, r))
    → IsTracked (after_answer v c now id r a s) none
unfolding after_answer handle_decision reschedule_with_backoff is_retriable
after_answer-IsTracked v c now id r (ok (some d)) s inv =
    other_store-IsTracked (forget id s) _ none (dropped-IsTracked id r s inv)
after_answer-IsTracked v c now id r (ok none) s inv = again-IsTracked id r _ s inv
after_answer-IsTracked v c now id r (err (rate_limited d)) s inv = again-IsTracked id r _ s inv
after_answer-IsTracked v c now id r (err (message_not_found t)) s inv = dropped-IsTracked id r s inv
after_answer-IsTracked v c now id r (err (post_failed w true)) s inv = again-IsTracked id r _ s inv
after_answer-IsTracked v c now id r (err (post_failed w false)) s inv = dropped-IsTracked id r s inv
after_answer-IsTracked v c now id r (err (poll_failed w true)) s inv = again-IsTracked id r _ s inv
after_answer-IsTracked v c now id r (err (poll_failed w false)) s inv = dropped-IsTracked id r s inv
after_answer-IsTracked v c now id r (err invalid_token) s inv = dropped-IsTracked id r s inv
after_answer-IsTracked v c now id r (err (channel_not_found t)) s inv = dropped-IsTracked id r s inv
