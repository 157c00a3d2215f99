-- ===== src/Application.antt =====
-- crates/application: the monitor's state, its coordinator, the refresh scheduler, the local usage
-- ledger and the snapshots for the UI.
pub mod Snapshots
pub mod Monitor
pub mod Coordinator
pub mod Scheduler
pub mod UiSnapshot
pub mod Ledger
