-- ===== src/Lifecycle/Health.antt =====
-- lifecycle/health.rs: the two probes.
use thoughtgate.Base.{
  ℕ, String, Bool, true, false, not, ◌&&◌, ◌≡◌, refl, Option, none, some, if◌then◌else◌, arith,
}
use Prim.Native.String.{◌++◌}
use thoughtgate.Lifecycle.Manager.{
  LifecycleManager, LifecycleState, state_text, is_ready, is_shutting_down, uptime_seconds,
}

pub record ReadinessChecks : Type 0 where
  pub config_loaded : Bool
  pub upstream_reachable : Bool
  pub approval_store_initialized : Bool

unfoldable pub all_pass : ReadinessChecks → Bool
all_pass c = c.config_loaded && c.upstream_reachable && c.approval_store_initialized

abbrev pub is_none {ℓ} : {A : Type ℓ} → Option A → Bool
is_none none = true
is_none (some _) = false

unfoldable pub first_failure : ReadinessChecks → Option String
first_failure c =
    if not c.config_loaded
    then some "config_loaded"
    else if not c.upstream_reachable
    then some "upstream_reachable"
    else if not c.approval_store_initialized
    then some "approval_store_initialized"
    else none

unfoldable pub readiness_checks : LifecycleManager → ReadinessChecks
readiness_checks m = record {
  config_loaded = m.config_loaded;
  upstream_reachable = m.upstream_health.is_healthy;
  approval_store_initialized = m.approval_store_initialized;
}

pub record ReadinessResponse : Type 0 where
  pub status : String
  pub checks : ReadinessChecks
  pub reason : Option String

pub data HealthBody : Type 0 where
  healthy : (version : String) (uptime_seconds : ℕ) → HealthBody
  unhealthy : (reason : String) → HealthBody

-- The code of the response and its body.
unfoldable pub health_handler : ℕ → LifecycleManager → ℕ × HealthBody
health_handler now m = elim m.state [
  | LifecycleState.stopped ↦ (503, HealthBody.unhealthy "service_stopped")
  | _ ↦ (200, HealthBody.healthy m.version (uptime_seconds now m))
]

abbrev not_ready_reason : Option String → LifecycleState → Option String
not_ready_reason (some failed) s = some failed
not_ready_reason none s =
    if not (is_ready s) then some ("lifecycle_state: " ++ state_text s) else none

unfoldable pub readiness_handler : LifecycleManager → ℕ × ReadinessResponse
unfolding readiness_checks all_pass first_failure
readiness_handler m =
    let checks = readiness_checks m in
    if is_shutting_down m.state
    then (503, record { status = "not_ready"; checks = checks; reason = some "shutting_down" })
    else if all_pass checks && is_ready m.state
    then (200, record { status = "ready"; checks = checks; reason = none })
    else (
      503,
      record {
        status = "not_ready";
        checks = checks;
        reason = not_ready_reason (first_failure checks) m.state;
      },
    )

-- The probe's two tests and what they read, and its code and reason.
abbrev pub serving : LifecycleManager → Bool
serving m =
    is_ready m.state
    && m.config_loaded
    && m.upstream_health.is_healthy
    && m.approval_store_initialized

readiness_handler-cases :
    (m : LifecycleManager) (s : LifecycleState)
    → m.state ≡ s
    → ((readiness_handler m).0 ≡ (if serving m then 200 else 503))
      × (is_none (readiness_handler m).1.reason ≡ serving m)
unfolding readiness_handler is_ready is_shutting_down
readiness_handler-cases m LifecycleState.starting h = ground arith
readiness_handler-cases m LifecycleState.ready h = ground arith
readiness_handler-cases m LifecycleState.shutting_down h = ground arith
readiness_handler-cases m LifecycleState.stopped h = ground arith

-- The readiness probe answers 200 where the state is `Ready`, the configuration is loaded, the
-- upstream is healthy and the approval store is initialized, and 503 otherwise; and it gives a reason
-- exactly when it answers 503.
pub readiness_handler-serving :
    (m : LifecycleManager)
    → ((readiness_handler m).0 ≡ (if serving m then 200 else 503))
      × (is_none (readiness_handler m).1.reason ≡ serving m)
readiness_handler-serving m = readiness_handler-cases m m.state refl
