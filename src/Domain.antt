-- ===== src/Domain.antt =====
-- crates/domain: the platform-independent rules for activity, layout, quota, usage and the account.
pub mod Activity
pub mod Layout
pub mod Quota
pub mod Usage
pub mod Official
