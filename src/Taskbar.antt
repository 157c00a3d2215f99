-- ===== src/Taskbar.antt =====
-- apps/codex-taskbar: the parts of the resident application that decide what is shown.
pub mod Sessions
pub mod Updater
pub mod Pricing
pub mod Runtime
