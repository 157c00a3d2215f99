-- ===== src/Lib.antt =====
-- Codex Taskbar shows the quota windows, the token usage and the activity of Codex in the Windows
-- taskbar. This library models the part that decides what is shown, and how it is read from the
-- Codex App Server; the crates that draw and that start processes are outside.
--
-- Data flows one way. The adapters (crates/adapters-codex-app-server,
-- crates/adapters-codex-sqlite) turn protocol messages and local files into snapshots; the
-- coordinator (crates/application/src/coordinator.rs) applies them one by one to the only state;
-- the pages get immutable projections of that state. Next to it the local ledger counts the tokens
-- of each day, and two delay rules decide when a failed source is tried again.
--
-- Files and what they model, by paths of the repository:
--
--   Prelude            words with saturation, integers, durations, ordered maps, list helpers
--   Prelude/Text       `str` as codes: trim, lower case, contains; Prelude/Bytes: `split_once`, `take`
--   Prelude/F32        `f32` as an interface: comparison, subtraction and the two bounds
--   Domain/Activity    crates/domain/src/activity.rs
--   Domain/Layout      crates/domain/src/layout.rs
--   Domain/Quota       crates/domain/src/quota.rs
--   Domain/Usage       crates/domain/src/usage.rs
--   Domain/Official    crates/domain/src/official.rs
--   Application/Snapshots    crates/application/src/lib.rs
--   Application/Monitor      crates/application/src/monitor.rs
--   Application/Coordinator  crates/application/src/coordinator.rs
--   Application/Scheduler    crates/application/src/scheduler.rs
--   Application/UiSnapshot   crates/application/src/ui_snapshot.rs
--   Application/Ledger       crates/application/src/local_usage_ledger.rs
--   AppServer/Json           what is used of serde_json's values, an interface
--   AppServer/RateLimits     crates/adapters-codex-app-server/src/quota.rs
--   AppServer/Patches        crates/adapters-codex-app-server/src/state.rs, sparse notifications
--   AppServer/Threads        crates/adapters-codex-app-server/src/state.rs, activity of threads
--   AppServer/Identifier     crates/adapters-codex-app-server/src/state.rs, the masked identifier
--   AppServer/State          crates/adapters-codex-app-server/src/state.rs, the state, its merges and reads
--   AppServer/Activity       crates/adapters-codex-app-server/src/activity.rs
--   AppServer/Codec          crates/adapters-codex-app-server/src/transport.rs, LineCodec, and protocol.rs
--   AppServer/Transport      crates/adapters-codex-app-server/src/transport.rs, the threads
--   AppServer/Session        crates/adapters-codex-app-server/src/session.rs
--   AppServer/Backoff        crates/adapters-codex-app-server/src/supervisor.rs
--   Settings                 crates/settings/src/lib.rs
--   Platform/Geometry        crates/platform-windows/src/geometry.rs and lib.rs
--   Taskbar/Sessions         apps/codex-taskbar/src/session_token_fallback.rs
--   Taskbar/Updater          apps/codex-taskbar/src/updater.rs
--   Taskbar/Pricing          apps/codex-taskbar/src/lib.rs, the prices of the API
--   Taskbar/Runtime          apps/codex-taskbar/src/official_runtime.rs
--
-- The modules below a component prove its properties; a module Tests holds the Rust tests and the
-- theorems at concrete inputs. A Rust method that changes its receiver is a function from state to
-- state, with the answer beside it where there is one; the function keeps the method's name. `u64`
-- and `u32` are numbers with the saturation written out, `i64` and `i32` are integers, a
-- `BTreeMap` is a sorted list of pairs, an array of 24 hours is a list.
--
-- Loops are structural recursion over their list or their count. What descends into nested objects
-- (the search for the rate limits, for a name, an identifier or a value, and the merge of objects)
-- runs on fuel, one more than the depth of the value, which is enough since each member lies one
-- level deeper. The retry delay of Application/Scheduler caps its exponent at 31, as the code
-- does.
--
-- The transport is a step relation written as a function: an action is a part of what one of its
-- threads, or a caller, does, and a list of actions is an order in which these parts run. The
-- actions are coarser than the accesses to the shared state: `start` (the entry of the handshake,
-- its flag, the sending, and what follows if that fails), `finish_handshake` (the outcome of the
-- wait and what follows), `admit` (the entry into the pending table, the encoding, the sending,
-- and what follows if these fail), `close` and `request` (the id, the test of `alive`, the sending
-- of the command) are one step each, and orders in which another thread acts inside of them are
-- not covered. The one place where the supervisor can be overtaken in the middle of a request is
-- between its test of `alive` and `admit`. What a step reads from outside (encoded bytes,
-- deadlines, the outcome of a read or a write) is in its action. A session's round likewise takes
-- as input the clocks, the flags, the replies to the three requests and the event; a round reads
-- the clock once. What a factory answers and whether a wait ends by a cancellation are inputs as
-- well. Disk is the record of the files beside the settings.
--
-- The main loop of Taskbar/Runtime is a function from a round to the next state: a round carries
-- the clocks of its steps, the update that arrived, what the two databases and the session logs
-- gave, the settings that were reloaded, and the user's actions. It applies the coordinator, the
-- ledger and the prices as they are modelled here. A host window that fails ends the program, and
-- does not fail in the model; a step reads the clock once where the code reads it two or three
-- times in a row. The tailer of session logs is given the tree of directories, the contents and
-- the times of its files; its walk over the directories is structural on that tree. Of the
-- updater, WinHTTP's answers are lists of chunks, SHA-256 and GitHub's release are functions, and
-- the four parts of a download are joined in the order in which their threads were started; the
-- ends of these parts are not reduced modulo 2^64, which differs from the code only for lengths
-- within 3 of 2^64.
--
-- Not modelled: Win32, Direct2D and WebView2 calls, the SQLite engine and the queries of the
-- SQLite adapter, child processes, the start of threads, JSON text, the locator of the executable,
-- and the settings application, which are input and output or generated user interface. Of the
-- app, the details window, the diagnostics file, the exchange of the executable by an update and
-- the assembly of the process are left out, as are the render model and the diagnostics crate.
pub mod Prelude
pub mod Domain
pub mod Application
pub mod AppServer
pub mod Platform
pub mod Settings
pub mod Taskbar
