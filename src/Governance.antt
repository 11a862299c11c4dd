-- ===== src/Governance.antt =====
-- thoughtgate-core/src/config/schema.rs and governance/: the configuration of the gates.
pub mod Schema
pub mod Rules
pub mod Compiled
pub mod Listing
pub mod Visibility
pub mod Presented
pub mod Evaluator
pub mod Gates
pub mod Routing
pub mod Decisions
pub mod Redact
