-- ===== src/Taskbar/Runtime.antt =====
-- apps/codex-taskbar/src/official_runtime.rs: the loop of the taskbar process. `Popups` decides on
-- a popup, `Lease` on who says what Codex does, `Updates` takes what the app server sends,
-- `Fallback` what the local databases say, `Steps` and `Rounds` put them
-- together.
pub mod Popups
pub mod Lease
pub mod Updates
pub mod Fallback
pub mod Steps
pub mod Rounds
pub mod Relation
pub mod Booking
pub mod Logs
pub mod Delivered
pub mod Sound
pub mod Outages
mod Tests
