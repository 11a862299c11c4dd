-- ===== src/Approval.antt =====
-- thoughtgate-core/src/governance/pipeline.rs, engine.rs and approval/: from the request for an approval
-- to the execution of the approved call.
pub mod Pipeline
pub mod Engine
pub mod Gate4
pub mod Scheduler
