-- ===== src/Tests/Scheduler.antt =====
-- The polling scheduler at concrete inputs.
use thoughtgate.Base.{
  true, false, ◌<◌, ◌*◌, ◌⊎◌, min, ◌≤◌, none, some, [], ◌∷◌, ok, ◌≡◌, refl, arith, str_eq,
}
use thoughtgate.Base.Dict.{lookup}
use thoughtgate.Task.Status.{TaskStatus}
use thoughtgate.Task.Store.Queries
use thoughtgate.Task.Store.State.{new}
use thoughtgate.Approval.Scheduler.{
  ApprovalReference, PollingScheduler, SchedulerState, PollResult, PollDecision, reaction,
  default_polling, backoff_interval,
}
use thoughtgate.Approval.Scheduler.Operations.{
  get_next_due, handle_decision, after_answer, reschedule,
}
use thoughtgate.Approval.Scheduler.Operations
use thoughtgate.Approval.Scheduler.Backoff.{backoff_interval-bounds}
use thoughtgate.Approval.Scheduler.Tracking.{IsTracked, tracked}
use thoughtgate.Approval.Scheduler.Interleaving.{
  stays, then_, registers, enters, takes, Steps-IsTracked, get_next_due-dropped,
}
use thoughtgate.Approval.Scheduler.Deciding.{IsDecided, handle_decision-IsDecided}
use thoughtgate.Tests.Store.{lib, clock}
use thoughtgate.Tests.Approval.{state, task}

backoff_interval-bounds_example :
    (default_polling.base_interval ≤ backoff_interval default_polling 1)
    × (backoff_interval default_polling 1 ≤ backoff_interval default_polling 4)
    × (backoff_interval default_polling 4 ≤ default_polling.max_interval)
    × (((1 < 3)
          × (backoff_interval default_polling 2
              ≡ min (2 * backoff_interval default_polling 1) default_polling.max_interval))
        ⊎ ((3 ≤ 1) × (backoff_interval default_polling 4 ≡ backoff_interval default_polling 1)))
backoff_interval-bounds_example =
    backoff_interval-bounds default_polling 1 4 (omega arith) (omega arith) (omega arith)

abbrev reference : ApprovalReference
reference = record {
  task_id = "tg_1";
  external_id = "17.5";
  channel = "C1";
  posted_at = 4;
  next_poll_at = 9;
  poll_count = 0;
}

abbrev scheduler : PollingScheduler
scheduler = record {
  adapter = record { post_approval_request = λ r. ok reference; poll_for_decision = λ r. ok none };
  config = default_polling;
  lib = lib;
  id_before = λ i j. false;
  describe = λ m. ":+1: reaction";
}

abbrev idle : SchedulerState
idle = record {
  task_store = (state TaskStatus.input_required none).task_store;
  pending = [];
  references = [];
  entering = [];
}

idle-IsTracked : IsTracked idle none
unfolding lookup
idle-IsTracked = record { distinct = tt; all_tracked = λ id h. ground arith }

abbrev registered : SchedulerState
registered = reschedule "tg_1" reference idle

abbrev entered : SchedulerState
entered = Operations.enter_queue scheduler registered

Steps-IsTracked_example : IsTracked (get_next_due 10 entered).0 (get_next_due 10 entered).1
Steps-IsTracked_example =
    Steps-IsTracked scheduler idle none (get_next_due 10 entered).0 (get_next_due 10 entered).1
      (then_ entered none
        (then_ registered none (then_ idle none stays (registers reference idle none))
          (enters registered none))
        (takes 10 entered))
      idle-IsTracked

abbrev polled : SchedulerState
polled = record idle { pending = (9, "tg_1") ∷ []; references = ("tg_1", reference) ∷ [] }

polled_reference : lookup "tg_1" polled.references ≡ some reference
unfolding lookup str_eq
polled_reference = refl

get_next_due-dropped_example :
    (tracked "tg_1" polled none ≡ true)
    × ((get_next_due 10 polled).1 ≡ some ("tg_1", reference))
    × (lookup "tg_1" (get_next_due 10 polled).0.references ≡ some reference)
    × (tracked "tg_1" (get_next_due 10 polled).0 none ≡ false)
get_next_due-dropped_example =
    get_next_due-dropped 10 9 "tg_1" [] reference polled refl refl polled_reference refl refl

abbrev decision : PollResult
decision = record {
  decision = PollDecision.approved;
  decided_by = "ann";
  decided_at = 12;
  method = reaction "+1";
}

found : Queries.get "tg_1" polled.task_store ≡ ok (task TaskStatus.input_required none)
unfolding Queries.get lookup str_eq new
found = refl

handle_decision-IsDecided_example :
    let after = handle_decision scheduler clock 13 "tg_1" decision polled in
    (lookup "tg_1" after.references ≡ none)
    × IsDecided scheduler 13 "tg_1" decision (task TaskStatus.input_required none) after.task_store
unfolding lookup
handle_decision-IsDecided_example =
    handle_decision-IsDecided scheduler clock 13 "tg_1" decision polled
      (task TaskStatus.input_required none) found refl (refl, tt)
