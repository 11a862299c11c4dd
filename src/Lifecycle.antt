-- ===== src/Lifecycle.antt =====
-- thoughtgate-core/src/lifecycle/mod.rs and lifecycle/health.rs: the start, the shutdown and the
-- probes of the service.
pub mod Config
pub mod Manager
pub mod Health
pub mod Drain
pub mod Requests
