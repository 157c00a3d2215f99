-- ===== src/Application/Snapshots.antt =====
-- crates/application/src/lib.rs: what the data sources deliver.
use codex_quota_glance.Prelude.{ℕ, Option}
use codex_quota_glance.Prelude.Int.{ℤ}
use codex_quota_glance.Domain.Quota.{QuotaValue}
use codex_quota_glance.Domain.Usage.{TokenCounts, UsageSource}

pub record RateLimitSnapshot (P : Type 0) : Type 0 where
  pub five_hour : Option (QuotaValue P)
  pub weekly : Option (QuotaValue P)
  pub observed_at_unix_ms : ℤ
  pub revision : ℕ

pub record TokenUsageSnapshot : Type 0 where
  pub current_thread : Option TokenCounts
  pub last_turn : Option TokenCounts
  pub model_context_window : Option ℕ
  pub today : Option TokenCounts
  pub observed_at_unix_ms : ℤ
  pub source : UsageSource
