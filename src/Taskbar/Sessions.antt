-- ===== src/Taskbar/Sessions.antt =====
-- apps/codex-taskbar/src/session_token_fallback.rs: the reader of the token counts in Codex's
-- session logs. `Events` takes a line, `Reading` a file, `Files` finds the files, `Tailer` polls.
pub mod Events
pub mod Files
pub mod Reading
pub mod Tailer
pub mod Once
pub mod Safe
mod Tests
