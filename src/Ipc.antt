-- ===== src/Ipc.antt =====
-- crates/ipc: requests are answered by the handler that their method names.
pub mod Router
