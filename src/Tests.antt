-- ===== src/Tests.antt =====
-- Tests of the definitions and uses of the theorems at concrete inputs.
mod Store
mod Lifecycle
mod Governance
mod Errors
mod Approval
mod Scheduler
mod Handlers
mod Proxy
mod Transport
mod Mcp
mod Shim
