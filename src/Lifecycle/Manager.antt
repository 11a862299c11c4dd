-- ===== src/Lifecycle/Manager.antt =====
-- `LifecycleManager` of lifecycle/mod.rs: its state and its operations. A store or a counter that is
-- atomic in the code is one step here; times are nanoseconds that the caller hands over.
use thoughtgate.Base.{
  ℕ, ◌-◌, String, Bool, true, false, ◌||◌, ◌&&◌, Option, none, some, Result, ok, err, str_eq,
  wrapping_add, wrapping_sub, if◌then◌else◌, get_or,
}
use thoughtgate.Task.Helpers.{as_secs}
use thoughtgate.Lifecycle.Config.{LifecycleConfig, Environment}

pub data LifecycleState : Type 0 where
  starting ready shutting_down stopped : LifecycleState

-- `Display`.
unfoldable pub state_text : LifecycleState → String
state_text LifecycleState.starting = "starting"
state_text LifecycleState.ready = "ready"
state_text LifecycleState.shutting_down = "shutting_down"
state_text LifecycleState.stopped = "stopped"

pub record UpstreamHealthStatus : Type 0 where
  pub is_healthy : Bool
  pub last_check : ℕ
  pub last_error : Option String

-- `Default`, at a time.
abbrev pub unchecked : ℕ → UpstreamHealthStatus
unchecked now = record { is_healthy = false; last_check = now; last_error = some "Not checked yet" }

-- The two gauges that the manager writes.
pub record Gauges : Type 0 where
  pub lifecycle_state : Option String
  pub upstream_health : Option Bool

pub record LifecycleManager : Type 0 where
  pub state : LifecycleState
  pub started_at : ℕ
  pub shutdown_token : Bool
  pub active_requests : ℕ
  pub upstream_health : UpstreamHealthStatus
  pub config_loaded : Bool
  pub approval_store_initialized : Bool
  pub config : LifecycleConfig
  pub version : String
  pub tg_metrics : Option Gauges

unfoldable pub new : LifecycleConfig → String → ℕ → LifecycleManager
new c version now = record {
  state = LifecycleState.starting;
  started_at = now;
  shutdown_token = false;
  active_requests = 0;
  upstream_health = unchecked now;
  config_loaded = false;
  approval_store_initialized = false;
  config = c;
  version = version;
  tg_metrics = none;
}

unfoldable pub set_metrics : Gauges → LifecycleManager → LifecycleManager
set_metrics g m = record m { tg_metrics = some g }

unfoldable pub is_ready : LifecycleState → Bool
is_ready LifecycleState.ready = true
is_ready _ = false

unfoldable pub is_shutting_down : LifecycleState → Bool
is_shutting_down LifecycleState.shutting_down = true
is_shutting_down LifecycleState.stopped = true
is_shutting_down _ = false

abbrev pub set_state_gauge : String → Option Gauges → Option Gauges
set_state_gauge text none = none
set_state_gauge text (some g) = some (record g { lifecycle_state = some text })

abbrev pub set_health_gauge : Bool → Option Gauges → Option Gauges
set_health_gauge healthy none = none
set_health_gauge healthy (some g) = some (record g { upstream_health = some healthy })

unfoldable pub mark_ready : LifecycleManager → LifecycleManager
mark_ready m = record m {
  state = LifecycleState.ready;
  tg_metrics = set_state_gauge "ready" m.tg_metrics;
}

unfoldable pub mark_config_loaded : LifecycleManager → LifecycleManager
mark_config_loaded m = record m { config_loaded = true }

unfoldable pub mark_approval_store_initialized : LifecycleManager → LifecycleManager
mark_approval_store_initialized m = record m { approval_store_initialized = true }

unfoldable pub update_upstream_health :
    Bool → Option String → ℕ → LifecycleManager → LifecycleManager
update_upstream_health healthy error now m = record m {
  upstream_health = record { is_healthy = healthy; last_check = now; last_error = error };
  tg_metrics = set_health_gauge healthy m.tg_metrics;
}

unfoldable pub begin_shutdown : LifecycleManager → LifecycleManager
begin_shutdown m = record m {
  state = LifecycleState.shutting_down;
  tg_metrics = set_state_gauge "shutting_down" m.tg_metrics;
  shutdown_token = true;
}

unfoldable pub mark_stopped : LifecycleManager → LifecycleManager
mark_stopped m = record m {
  state = LifecycleState.stopped;
  tg_metrics = set_state_gauge "stopped" m.tg_metrics;
}

-- `track_request` in its two atomic parts: the state is read, and later the counter is raised. Whoever
-- calls it alone sees both at once.
unfoldable pub raise_active : LifecycleManager → LifecycleManager
raise_active m = record m { active_requests = wrapping_add m.active_requests 1 }

-- The answer says whether there is a guard.
unfoldable pub track_request : LifecycleManager → LifecycleManager × Bool
unfolding raise_active
track_request m = if is_shutting_down m.state then (m, false) else (raise_active m, true)

-- `Drop` of the guard.
unfoldable pub drop_guard : LifecycleManager → LifecycleManager
drop_guard m = record m { active_requests = wrapping_sub m.active_requests 1 }

unfoldable pub uptime_seconds : ℕ → LifecycleManager → ℕ
uptime_seconds now m = as_secs (now - m.started_at)

-- The check of the upstream's answer to a HEAD request: the code of a response, or the error's text.
-- `status_text` prints the code with "HTTP" before it.
unfoldable pub health_check :
    (ℕ → String) → (ℕ → Bool) → Result ℕ String → ℕ → LifecycleManager → LifecycleManager
unfolding update_upstream_health
health_check status_text is_server_error (ok code) now m =
    if is_server_error code
    then update_upstream_health false (some (status_text code)) now m
    else update_upstream_health true none now m
health_check status_text is_server_error (err text) now m =
    update_upstream_health false (some text) now m

abbrev pub var_is : Environment → String → String → Bool
var_is e name text = elim (e.var name) [ none ↦ false | some s ↦ str_eq s text ]

unfoldable pub is_production : Environment → Bool
is_production e =
    let environment = get_or (e.var "THOUGHTGATE_ENVIRONMENT") "production" in
    str_eq environment "production" || str_eq environment "prod" || str_eq environment ""

abbrev pub dev_mode_refused : String
dev_mode_refused =
    "THOUGHTGATE_DEV_MODE=true is not allowed in production. Set THOUGHTGATE_ENVIRONMENT=development to use dev mode."

abbrev pub mock_refused : String
mock_refused =
    "THOUGHTGATE_APPROVAL_ADAPTER=mock is not allowed in production. Set THOUGHTGATE_ENVIRONMENT=development to use the mock adapter."

unfoldable pub validate_environment : Environment → Result (Unit {0}) String
unfolding is_production
validate_environment e =
    if var_is e "THOUGHTGATE_DEV_MODE" "true" && is_production e
    then err dev_mode_refused
    else if var_is e "THOUGHTGATE_APPROVAL_ADAPTER" "mock" && is_production e
    then err mock_refused
    else ok tt
