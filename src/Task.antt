-- ===== src/Task.antt =====
-- thoughtgate-core/src/governance/task: the tasks of an approval workflow and their store.
pub mod Status
pub mod Types
pub mod Helpers
pub mod Methods
pub mod Store
pub mod Handlers
