-- ===== src/Task/Store.antt =====
-- thoughtgate-core/src/governance/task/store.rs: the in-memory store of tasks. An operation runs under
-- the lock of the entry that it changes, so each is one step: it takes the store and returns the new
-- store with its result. The identifiers that `TaskId::new` draws, the readings of the clock and the
-- libraries' functions are arguments.
pub mod State
pub mod Create
pub mod Changes
pub mod Sweeps
pub mod Queries
pub mod Newest
pub mod Invariant
pub mod Upkeep
pub mod Admission
pub mod Preservation
pub mod History
pub mod Limits
pub mod Evolution
pub mod Lifetimes
pub mod Shutdown
