-- ===== src/AppServer.antt =====
-- crates/adapters-codex-app-server: the client of the Codex App Server: transport, session,
-- the state that its messages build up, and the delays between restarts.
pub mod Backoff
pub mod Json
pub mod RateLimits
pub mod Patches
pub mod Threads
pub mod Identifier
pub mod Codec
pub mod Transport
pub mod Activity
pub mod State
pub mod Session
