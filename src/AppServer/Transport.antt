-- ===== src/AppServer/Transport.antt =====
-- crates/adapters-codex-app-server/src/transport.rs: the transport and its threads.
pub mod Channels
pub mod System
pub mod Supervisor
pub mod Threads
pub mod Conservation
pub mod Totals
pub mod Supervised
pub mod Once
pub mod Timeouts
mod Tests
