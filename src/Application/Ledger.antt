-- ===== src/Application/Ledger.antt =====
-- crates/application/src/local_usage_ledger.rs: token counts per local day and hour. `Day` is one
-- day, `Books` the ledger in memory, `Storage` its JSON projection, `Database` its SQLite rows;
-- the other modules prove.
pub mod Day
pub mod Books
pub mod Storage
pub mod Database
pub mod Balance
pub mod Invariant
pub mod Today
pub mod RoundTrip
mod Tests
