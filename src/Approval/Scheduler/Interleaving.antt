-- ===== src/Approval/Scheduler/Interleaving.antt =====
-- The threads that share the scheduler of governance/approval/scheduler.rs, one step after the other.
use thoughtgate.Base.{
  ℕ, ltb, true, false, str_eq_refl, Option, none, some, List, ◌∷◌, Result, ◌≡◌, refl, ◌∙◌, arith,
  ap,
}
use thoughtgate.Base.Dict.{lookup}
use thoughtgate.Task.Types.{TaskId, Clock}
use thoughtgate.Task.Store.State.{TaskStore}
use thoughtgate.Approval.Scheduler.{
  ApprovalReference, PollResult, AdapterError, PollingScheduler, SchedulerState, Entry,
}
use thoughtgate.Approval.Scheduler.Operations.{
  Due, reschedule, enter_queue, get_next_due, first_due, with_reference, still_pending,
  after_answer, cancel,
}
use thoughtgate.Approval.Scheduler.Tracking.{
  InHand, IsTracked, kept, queued, reschedule-IsTracked, forget-IsTracked, enter_first-IsTracked,
  tracked, first_due-IsTracked, if_pending-IsTracked, after_answer-IsTracked, other_store-IsTracked,
}

-- A step of the threads that share the scheduler: a submission that registers its reference or enters
-- the queue, the run loop with its poll, a cancellation, and any change of the task store.
pub data Step (v : PollingScheduler)
    : SchedulerState → InHand → SchedulerState → InHand → Type 0 where
  registers :
      (r : ApprovalReference) (s : SchedulerState) (hand : InHand)
      → Step v s hand (reschedule r.task_id r s) hand
  enters : (s : SchedulerState) (hand : InHand) → Step v s hand (enter_queue v s) hand
  takes :
      (now : ℕ) (s : SchedulerState) → Step v s none (get_next_due now s).0 (get_next_due now s).1
  checks :
      (now : ℕ) (c : Clock) (id : TaskId) (r : ApprovalReference) (s : SchedulerState)
      → Step v s
          (some (id, r))
          (still_pending now c id s).0
          (kept id r (still_pending now c id s).1)
  answers :
      (c : Clock) (now : ℕ) (id : TaskId) (r : ApprovalReference)
      (a : Result (Option PollResult) AdapterError) (s : SchedulerState)
      → Step v s (some (id, r)) (after_answer v c now id r a s) none
  cancels : (id : TaskId) (s : SchedulerState) (hand : InHand) → Step v s hand (cancel id s) hand
  changes :
      (t : TaskStore) (s : SchedulerState) (hand : InHand)
      → Step v s hand (record s { task_store = t }) hand

pub data Steps (v : PollingScheduler) (s : SchedulerState) (hand : InHand)
    : SchedulerState → InHand → Type 0 where
  stays : Steps v s hand s hand
  then_ :
      (u : SchedulerState) (h : InHand) {w : SchedulerState} {k : InHand}
      → Steps v s hand u h
      → Step v u h w k
      → Steps v s hand w k

Step-IsTracked :
    (v : PollingScheduler) (s u : SchedulerState) (hand h : InHand)
    → Step v s hand u h
    → IsTracked s hand
    → IsTracked u h
unfolding get_next_due still_pending enter_queue cancel
Step-IsTracked v s u hand h (registers r _ _) inv =
    reschedule-IsTracked r.task_id r s hand hand inv λ j p. ground arith
Step-IsTracked v s u hand h (enters _ _) inv = enter_first-IsTracked v s s.entering hand refl inv
Step-IsTracked v s u hand h (takes now _) inv = first_due-IsTracked now s s.pending refl inv
Step-IsTracked v s u hand h (checks now c id r _) inv = if_pending-IsTracked now c id r s _ inv
Step-IsTracked v s u hand h (answers c now id r a _) inv =
    after_answer-IsTracked v c now id r a s inv
Step-IsTracked v s u hand h (cancels id _ _) inv =
    forget-IsTracked id s hand hand inv λ j p. ground arith
Step-IsTracked v s u hand h (changes t _ _) inv = other_store-IsTracked s t hand inv

-- Where every approval that has a reference is in the queue, on its way into it, or polled just now, and
-- the keys of the references are distinct, it stays so, however the threads interleave, as long as no
-- poll is dropped before it has dealt with its answer.
pub Steps-IsTracked :
    (v : PollingScheduler) (s : SchedulerState) (hand : InHand) (u : SchedulerState) (h : InHand)
    → Steps v s hand u h
    → IsTracked s hand
    → IsTracked u h
Steps-IsTracked v s hand u h stays inv = inv
Steps-IsTracked v s hand u h (then_ w k before last) inv =
    Step-IsTracked v w u k h last (Steps-IsTracked v s hand w k before inv)

-- Where the first entry is due, is the only one of its approval, and the approval has a reference: if
-- the poll is dropped after it has taken the entry, the reference is there, and its identifier is
-- neither in the queue nor on its way into it, where it was tracked before the poll.
pub get_next_due-dropped :
    (now at : ℕ) (id : TaskId) (rest : List Entry) (r : ApprovalReference) (s : SchedulerState)
    → s.pending ≡ (at, id) ∷ rest
    → ltb now at ≡ false
    → lookup id s.references ≡ some r
    → queued id rest ≡ false
    → queued id s.entering ≡ false
    → (tracked id s none ≡ true)
      × ((get_next_due now s).1 ≡ some (id, r))
      × (lookup id (get_next_due now s).0.references ≡ some r)
      × (tracked id (get_next_due now s).0 none ≡ false)
unfolding get_next_due first_due
get_next_due-dropped now at id rest r s e late l q w =
    let gone : first_due now s ((at, id) ∷ rest)
        ≡ (record s { pending = rest }, with_reference id (lookup id s.references)) =
      rw late refl in
    let same = ap (first_due now s) e ∙ gone in
    (
      ground (arith, ap (queued id) e, str_eq_refl id),
      ap (λ (x : Due). x.1) same ∙ ap (with_reference id) l,
      ap (λ (x : Due). lookup id x.0.references) same ∙ l,
      ap (λ (x : Due). tracked id x.0 none) same ∙ ground (arith, q, w),
    )
