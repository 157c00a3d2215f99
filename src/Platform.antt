-- ===== src/Platform.antt =====
-- crates/platform-windows/: where the component stands on the taskbar.
pub mod Geometry
