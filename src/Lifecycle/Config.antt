-- ===== src/Lifecycle/Config.antt =====
-- `LifecycleConfig` of lifecycle/mod.rs: the defaults, the environment, and the adjustment of the
-- drain timeout. Durations are nanoseconds; `as_secs` drops the part of a second.
use thoughtgate.Base.{
  ℕ, ◌+◌, ◌-◌, ◌*◌, ◌/◌, ◌%◌, ◌≤◌, ◌<◌, ◌≡◌, ◌↔◌, min, max, String, Bool, false, ◌||◌, Option, none,
  some, ltb, leb, if◌then◌else◌, str_eq, usize_end, arith,
}
use thoughtgate.Task.Helpers.{seconds, as_secs}

pub record LifecycleConfig : Type 0 where
  pub shutdown_timeout : ℕ
  pub drain_timeout : ℕ
  pub startup_timeout : ℕ
  pub require_upstream_at_startup : Bool
  pub upstream_health_interval : ℕ

-- `Default`.
abbrev pub default_lifecycle : LifecycleConfig
default_lifecycle = record {
  shutdown_timeout = seconds 30;
  drain_timeout = seconds 25;
  startup_timeout = seconds 15;
  require_upstream_at_startup = false;
  upstream_health_interval = seconds 30;
}

-- What the code reads from the process and from std: the variables of the environment, and the two
-- functions on texts.
pub record Environment : Type 0 where
  pub var : String → Option String
  pub parse_u64 : String → Option ℕ
  pub eq_ignore_ascii_case : String → String → Bool

abbrev parsed_duration : Option ℕ → ℕ → ℕ
parsed_duration none d = d
parsed_duration (some secs) d = seconds secs

unfoldable pub parse_duration_env : Environment → String → ℕ → ℕ
parse_duration_env e name d = elim (e.var name) [
  | none ↦ d
  | some value ↦ parsed_duration (e.parse_u64 value) d
]

abbrev min_drain_timeout : ℕ
min_drain_timeout = seconds 1

-- `saturating_sub` of one second, in whole seconds.
abbrev pub max_drain : ℕ → ℕ
max_drain shutdown_timeout = seconds (as_secs shutdown_timeout - 1)

-- Four fifths of the shutdown timeout; the product is a `u64`.
abbrev pub four_fifths : ℕ → ℕ
four_fifths shutdown_timeout = seconds (as_secs shutdown_timeout * 4 % usize_end / 5)

unfoldable pub adjust_drain : ℕ → ℕ → ℕ
adjust_drain shutdown_timeout drain_timeout =
    if leb shutdown_timeout drain_timeout
    then max (min (four_fifths shutdown_timeout) (max_drain shutdown_timeout)) min_drain_timeout
    else if ltb (max_drain shutdown_timeout) drain_timeout
    then max (max_drain shutdown_timeout) min_drain_timeout
    else if ltb drain_timeout min_drain_timeout
    then min_drain_timeout
    else drain_timeout

abbrev parsed_flag : Environment → Option String → Bool → Bool
parsed_flag e none d = d
parsed_flag e (some s) d = e.eq_ignore_ascii_case s "true" || str_eq s "1"

unfoldable pub from_env : Environment → LifecycleConfig
unfolding parse_duration_env adjust_drain
from_env e =
    let shutdown =
      parse_duration_env e "THOUGHTGATE_SHUTDOWN_TIMEOUT_SECS" default_lifecycle.shutdown_timeout in
    let drain =
      parse_duration_env e "THOUGHTGATE_DRAIN_TIMEOUT_SECS" default_lifecycle.drain_timeout in
    record {
      shutdown_timeout = shutdown;
      drain_timeout = adjust_drain shutdown drain;
      startup_timeout =
          parse_duration_env e "THOUGHTGATE_STARTUP_TIMEOUT_SECS" default_lifecycle.startup_timeout;
      require_upstream_at_startup =
          parsed_flag e (e.var "THOUGHTGATE_REQUIRE_UPSTREAM_AT_STARTUP")
            default_lifecycle.require_upstream_at_startup;
      upstream_health_interval =
          parse_duration_env e "THOUGHTGATE_UPSTREAM_HEALTH_INTERVAL_SECS"
            default_lifecycle.upstream_health_interval;
    }

adjust_drain-bounds :
    (s d : ℕ) → (seconds 1 ≤ adjust_drain s d) × (adjust_drain s d + seconds 1 ≤ max s (seconds 2))
unfolding adjust_drain
adjust_drain-bounds s d = ground arith

-- Whatever the environment holds, the drain timeout is at least a second, and it ends a second
-- before the shutdown timeout or before two seconds, whichever is later.
pub from_env-drain_bounds :
    (e : Environment)
    → (seconds 1 ≤ (from_env e).drain_timeout)
      × ((from_env e).drain_timeout + seconds 1 ≤ max (from_env e).shutdown_timeout (seconds 2))
unfolding from_env
from_env-drain_bounds e = adjust_drain-bounds _ _

-- With a shutdown timeout of at least two seconds, a drain timeout below it is kept exactly when it is
-- at least a second and at most the whole seconds of the shutdown timeout less one.
pub adjust_drain-kept_iff :
    (s d : ℕ)
    → seconds 2 ≤ s
    → d < s
    → (adjust_drain s d ≡ d) ↔ ((seconds 1 ≤ d) × (d ≤ max_drain s))
unfolding adjust_drain
adjust_drain-kept_iff s d two below = (λ h. ground arith, λ h. ground arith)
