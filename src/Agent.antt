-- ===== src/Agent.antt =====
-- crates/agent-runtime: what a sandboxed agent may call.
pub mod Words
pub mod Permissions
pub mod Store
pub mod State
pub mod HostFns
pub mod Lifecycle
pub mod Sandbox
