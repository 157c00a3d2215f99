-- ===== src/Taskbar/Updater.antt =====
-- apps/codex-taskbar/src/updater.rs: `Versions` compares releases, `Names` reads repositories, URLs
-- and digests, `Ranges` downloads in parts, `Releases` puts them together. WinHTTP, SHA-256 and
-- the files are parameters.
pub mod Versions
pub mod Data
pub mod Names
pub mod Digests
pub mod Ranges
pub mod Http
pub mod Releases
pub mod Limits
pub mod Offers
mod Tests
