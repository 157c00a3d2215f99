-- ===== src/Settings.antt =====
-- crates/settings/src/lib.rs: the settings of the taskbar. SQLite and serde_json are outside.
pub mod LogLevel
pub mod Config
pub mod Storage
