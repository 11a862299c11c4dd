-- ===== src/Tests/Lifecycle.antt =====
-- Concrete runs of Lifecycle.
use Prim.Native.Nat.{◌+◌, ◌%◌, ◌≤◌}
use Prim.Native.String.{String}
use thoughtgate.Base.{
  inl, ◌≡◌, refl, true, Option, none, some, List, [], ◌∷◌, arith, if◌then◌else◌, max, usize_end,
  str_eq,
}
use thoughtgate.Task.Helpers.{seconds}
use thoughtgate.Lifecycle.Config.{
  Environment, default_lifecycle, from_env, from_env-drain_bounds, adjust_drain, parse_duration_env,
}
use thoughtgate.Lifecycle.Manager.{
  LifecycleManager, new, mark_ready, mark_config_loaded, mark_approval_store_initialized,
  update_upstream_health, begin_shutdown, is_ready, is_shutting_down, raise_active,
}
use thoughtgate.Lifecycle.Health.{serving}
use thoughtgate.Lifecycle.Drain.{
  Poll, DrainResult, drain_requests, drain_requests-Ends, Ends, Spaced,
}
use thoughtgate.Lifecycle.Requests.{
  System, Step, Steps, Draining, initial, Steps-counted, Draining-no_more,
}

-- A shutdown timeout of ten seconds and nothing else.
abbrev ten : String → Option String
ten name = if str_eq name "THOUGHTGATE_SHUTDOWN_TIMEOUT_SECS" then some "10" else none

abbrev ten_seconds : Environment
ten_seconds = record {
  var = ten;
  parse_u64 = λ s. if str_eq s "10" then some 10 else none;
  eq_ignore_ascii_case = str_eq;
}

shortened : (from_env ten_seconds).drain_timeout ≡ seconds 8
unfolding from_env parse_duration_env adjust_drain str_eq
shortened = refl

from_env-drain_bounds_example :
    (seconds 1 ≤ (from_env ten_seconds).drain_timeout)
    × ((from_env ten_seconds).drain_timeout + seconds 1
        ≤ max (from_env ten_seconds).shutdown_timeout (seconds 2))
from_env-drain_bounds_example = from_env-drain_bounds ten_seconds

abbrev begun : LifecycleManager
begun = new default_lifecycle "0.2.0" 0

abbrev served : LifecycleManager
served = mark_ready (
    update_upstream_health true none 7 (mark_approval_store_initialized (mark_config_loaded begun)))

serves : serving served ≡ true
unfolding new mark_ready update_upstream_health mark_approval_store_initialized mark_config_loaded
    is_ready
serves = refl

abbrev polls : List Poll
polls =
    record { active = 2; now = 0 }
    ∷ record { active = 1; now = 100_000_000 }
    ∷ record { active = 1; now = 250_000_000 }
    ∷ record { active = 0; now = 350_000_000 }
    ∷ []

polls-Spaced : Spaced 0 polls
unfolding Spaced
polls-Spaced = (omega arith, (omega arith, (omega arith, (omega arith, tt))))

timed_out : drain_requests 200_000_000 0 polls ≡ some (DrainResult.timeout 1)
unfolding drain_requests
timed_out = refl

drain_requests-Ends_example :
    (r : DrainResult) × (drain_requests 200_000_000 0 polls ≡ some r)
    × Ends (0 + 200_000_000) polls r
drain_requests-Ends_example = drain_requests-Ends 200_000_000 0 polls polls-Spaced (omega arith)

abbrev admitted : System
admitted = record { manager = begun; entering = 1; guards = 0 }

abbrev one_guard : System
one_guard = record { manager = raise_active begun; entering = 0; guards = 1 }

one_guard-Steps : Steps (initial default_lifecycle "0.2.0" 0) one_guard
unfolding new is_shutting_down
one_guard-Steps = Steps.go (Steps.go Steps.stay (Step.reads refl)) (Step.enters refl)

Steps-counted_example : one_guard.manager.active_requests ≡ one_guard.guards % usize_end
Steps-counted_example = Steps-counted default_lifecycle "0.2.0" 0 one_guard-Steps

abbrev leaving : System
leaving = record { manager = begin_shutdown begun; entering = 1; guards = 0 }

abbrev left_behind : System
left_behind = record { manager = raise_active (begin_shutdown begun); entering = 0; guards = 1 }

-- The counter of `leaving` is zero, and yet a request follows.
late_request : Draining leaving left_behind
unfolding begin_shutdown is_shutting_down new
late_request = Draining.go Draining.stay (inl refl) (Step.enters refl)

Draining-no_more_example :
    left_behind.entering + left_behind.guards ≤ leaving.entering + leaving.guards
Draining-no_more_example = Draining-no_more late_request
