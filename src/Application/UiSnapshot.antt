-- ===== src/Application/UiSnapshot.antt =====
-- crates/application/src/ui_snapshot.rs: the only data that crosses to the pages.
pub mod Percent
pub mod Credits
pub mod Redaction
mod Tests
use codex_quota_glance.Prelude.{
  ℕ, ◌*◌, ◌/◌, ◌%◌, ◌^◌, min, ltb, if◌then◌else◌, List, [], Option, none, some, Bool, true, false,
  not, ◌&&◌, ◌||◌, is_some, unwrap_or, option_map, ◌>>=◌, String,
}
use codex_quota_glance.Prelude.Int.{ℤ, max_ℤ}
use codex_quota_glance.Prelude.Words.{saturating_mul}
use codex_quota_glance.Prelude.F32.{F32}
use codex_quota_glance.Domain.Activity.{ActivityState}
use codex_quota_glance.Domain.Quota.{
  QuotaPresence, Freshness, QuotaValue, QuotaWindowState, is_absent, is_taskbar_visible,
}
use codex_quota_glance.Domain.Usage.{TokenCounts, UsageSource}
use codex_quota_glance.Domain.Official.{OfficialCredits, OfficialFreshness}
use codex_quota_glance.Application.Monitor.{MonitorState, official_thread_usage}

abbrev pub taskbar_schema_version : ℕ
taskbar_schema_version = 1

abbrev pub popup_schema_version : ℕ
popup_schema_version = 2

pub record ActivitySnapshot : Type 0 where
  pub state : ActivityState
  pub entered_at_unix_ms : ℤ

pub record QuotaWindowSnapshot (P : Type 0) : Type 0 where
  pub presence : QuotaPresence
  pub freshness : Freshness
  pub value : Option (QuotaValue P)

pub record CreditsSnapshot : Type 0 where
  pub has_credits : Bool
  pub unlimited : Bool
  pub balance : Option String
  pub visible_in_taskbar : Bool

pub record QuotaSnapshot (P : Type 0) : Type 0 where
  pub five_hour : QuotaWindowSnapshot P
  pub weekly : QuotaWindowSnapshot P
  pub credits : CreditsSnapshot

pub record UsageSnapshot : Type 0 where
  pub today : Option TokenCounts
  pub today_source : UsageSource
  pub today_is_partial : Bool
  pub cache_hit_percent : Option ℕ
  pub official_estimated_usage_usd_micros : Option ℕ

pub data AccountFreshness : Type 0 where
  live cached unavailable : AccountFreshness

pub record AccountSnapshot : Type 0 where
  pub masked_identifier : Option String
  pub plan_type : Option String
  pub auth_mode : Option String
  pub freshness : AccountFreshness

pub record ResetCardSnapshot : Type 0 where
  pub available_count : Option ℕ
  pub expiry_times_unix : List ℤ
  pub nearest_expiry_unix : Option ℤ

pub record TaskbarSnapshot (P : Type 0) : Type 0 where
  pub schema_version : ℕ
  pub observed_at_unix_ms : ℤ
  pub activity : ActivitySnapshot
  pub quota : QuotaSnapshot P
  pub usage : UsageSnapshot
  pub account : AccountSnapshot
  pub reset_card : ResetCardSnapshot

pub record ConsumptionPopupSnapshot : Type 0 where
  pub schema_version : ℕ
  pub input_tokens : Option ℕ
  pub cached_input_tokens : Option ℕ
  pub output_tokens : Option ℕ
  pub cache_hit_percent : Option ℕ

account_freshness : OfficialFreshness → AccountFreshness
account_freshness OfficialFreshness.live = AccountFreshness.live
account_freshness OfficialFreshness.cached = AccountFreshness.cached
account_freshness OfficialFreshness.unavailable = AccountFreshness.unavailable

-- `((cached.saturating_mul(100) / input).min(100)) as u8`.
pub percent : (hits input : ℕ) → ℕ
percent hits input = min (saturating_mul hits 100 / input) 100 % 2 ^ 8

pub cache_hit_percent : Option TokenCounts → Option ℕ
unfolding percent
cache_hit_percent counts = do
  c ← counts
  input ← c.input
  hits ← c.cached_input
  if ltb 0 input then some (percent hits input) else none

popup_percent : Option ℕ → Option ℕ → Option ℕ
unfolding percent
popup_percent (some input) (some hits) = if ltb 0 input then some (percent hits input) else none
popup_percent _ _ = none

module _ {P : Type 0} where
  quota_window_snapshot : QuotaWindowState P → QuotaWindowSnapshot P
  quota_window_snapshot w = record {
    presence = w.presence;
    freshness = w.freshness;
    value = w.value;
  }

  pub popup_from_monitor_state : MonitorState P → ConsumptionPopupSnapshot
  unfolding popup_percent
  popup_from_monitor_state s =
      let last_turn = if s.token_usage.fresh then s.token_usage.last_turn else none in
      let input = last_turn >>= λ c. c.input in
      let hits = last_turn >>= λ c. c.cached_input in
      record {
        schema_version = popup_schema_version;
        input_tokens = input;
        cached_input_tokens = hits;
        output_tokens = last_turn >>= λ c. c.output;
        cache_hit_percent = popup_percent input hits;
      }

no_credits : OfficialCredits
no_credits = record { has_credits = false; unlimited = false; balance = none }

module _ {P : Type 0} ⦃f : F32 P⦄ where
  -- `quota.remaining_percent <= 0.0`, where there is a value.
  pub is_exhausted : Option (QuotaValue P) → Bool
  is_exhausted none = false
  is_exhausted (some v) = f.le v.remaining_percent f.zero_percent

  credits_snapshot : Option OfficialCredits → MonitorState P → CreditsSnapshot
  unfolding no_credits is_exhausted
  credits_snapshot credits s =
      let c = unwrap_or credits no_credits in
      let five_hour_exhausted = is_taskbar_visible s.five_hour && is_exhausted s.five_hour.value in
      let weekly_exhausted =
        is_absent s.five_hour.presence
        && (is_taskbar_visible s.weekly && is_exhausted s.weekly.value) in
      record {
        has_credits = c.has_credits;
        unlimited = c.unlimited;
        balance = c.balance;
        visible_in_taskbar =
            c.has_credits
            && (not c.unlimited
                && (is_some c.balance && (five_hour_exhausted || weekly_exhausted)));
      }

  pub from_monitor_state : MonitorState P → TaskbarSnapshot P
  unfolding account_freshness cache_hit_percent quota_window_snapshot credits_snapshot
  from_monitor_state s =
      let credits = s.official >>= λ o. o.credits in
      let reset = s.official >>= λ o. o.reset_credits in
      let account = s.official >>= λ o. o.account in
      record {
        schema_version = taskbar_schema_version;
        observed_at_unix_ms = max_ℤ s.observed_at_unix_ms s.token_usage.observed_at_unix_ms;
        activity = record {
          state = s.activity;
          entered_at_unix_ms = s.activity_entered_at_unix_ms;
        };
        quota = record {
          five_hour = quota_window_snapshot s.five_hour;
          weekly = quota_window_snapshot s.weekly;
          credits = credits_snapshot credits s;
        };
        usage = record {
          today = s.token_usage.today;
          today_source = s.token_usage.today_source;
          today_is_partial = s.token_usage.today_is_partial;
          cache_hit_percent = cache_hit_percent s.token_usage.today;
          official_estimated_usage_usd_micros =
              official_thread_usage s >>= λ u. u.estimated_usage_usd_micros;
        };
        account = record {
          masked_identifier = account >>= λ a. a.masked_identifier;
          plan_type = account >>= λ a. a.plan_type;
          auth_mode = account >>= λ a. a.auth_mode;
          freshness =
              account_freshness (
                unwrap_or (option_map (λ o. o.freshness) s.official) OfficialFreshness.unavailable);
        };
        reset_card = record {
          available_count = option_map (λ r. r.available_count) reset;
          expiry_times_unix = unwrap_or (option_map (λ r. r.expiry_times_unix) reset) [];
          nearest_expiry_unix = reset >>= λ r. r.nearest_expiry_unix;
        };
      }
