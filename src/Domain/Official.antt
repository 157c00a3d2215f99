-- ===== src/Domain/Official.antt =====
-- crates/domain/src/official.rs: the read-only account snapshot and the freshness of its three
-- endpoints.
pub mod Disconnect
mod Tests
use codex_quota_glance.Prelude.{
  ℕ, if◌then◌else◌, List, [], Option, none, some, Bool, true, false, ◌&&◌, ◌||◌, not, is_some,
  unwrap_or, String,
}
use codex_quota_glance.Prelude.Int.{ℤ, pos, max_ℤ}

pub data OfficialAccountKind : Type 0 where
  chat_gpt api_key amazon_bedrock unknown : OfficialAccountKind

pub data OfficialFreshness : Type 0 where
  live cached unavailable : OfficialFreshness

unfoldable pub is_live : OfficialFreshness → Bool
is_live live = true
is_live _ = false

unfoldable pub is_unavailable : OfficialFreshness → Bool
is_unavailable unavailable = true
is_unavailable _ = false

pub record OfficialEndpointStatus : Type 0 where
  pub freshness : OfficialFreshness
  pub observed_at_unix_ms : Option ℤ

-- `OfficialEndpointStatus::live`, `unavailable` and `cached`.
unfoldable pub live_status : ℤ → OfficialEndpointStatus
live_status at = record { freshness = live; observed_at_unix_ms = some at }

abbrev pub unavailable_status : OfficialEndpointStatus
unavailable_status = record { freshness = unavailable; observed_at_unix_ms = none }

unfoldable pub cached_status : OfficialEndpointStatus → OfficialEndpointStatus
cached_status s =
    if is_some s.observed_at_unix_ms
    then record { freshness = cached; observed_at_unix_ms = s.observed_at_unix_ms }
    else unavailable_status

pub record OfficialAccount : Type 0 where
  pub kind : OfficialAccountKind
  pub masked_identifier : Option String
  pub plan_type : Option String
  pub auth_mode : Option String
  pub requires_openai_auth : Option Bool

pub record OfficialCredits : Type 0 where
  pub has_credits : Bool
  pub unlimited : Bool
  pub balance : Option String

pub record OfficialSpendControl (P : Type 0) : Type 0 where
  pub limit : Option String
  pub used : Option String
  pub remaining_percent : Option P
  pub resets_at_unix : Option ℤ

pub record OfficialResetCredits : Type 0 where
  pub available_count : ℕ
  pub expiry_times_unix : List ℤ
  pub nearest_expiry_unix : Option ℤ

pub record OfficialDailyUsage : Type 0 where
  pub date : String
  pub tokens : ℕ

pub record OfficialThreadUsageGroup : Type 0 where
  pub model : Option String
  pub input_tokens : Option ℕ
  pub cached_input_tokens : Option ℕ
  pub net_new_input_tokens : Option ℕ
  pub output_tokens : Option ℕ
  pub total_tokens : Option ℕ
  pub reasoning_effort : Option String
  pub speed : Option String
  pub estimated_usage_credits_micros : ℕ

pub record OfficialThreadUsage : Type 0 where
  pub thread_id : String
  pub estimated_usage_usd_micros : Option ℕ
  pub estimated_usage_credits_micros : ℕ
  pub groups : List OfficialThreadUsageGroup

pub record OfficialAccountUsage : Type 0 where
  pub lifetime_tokens : Option ℕ
  pub peak_daily_tokens : Option ℕ
  pub longest_running_turn_seconds : Option ℕ
  pub current_streak_days : Option ℕ
  pub longest_streak_days : Option ℕ
  pub daily_usage : List OfficialDailyUsage
  pub latest_daily_date : Option String
  pub latest_daily_tokens : Option ℕ
  pub thread_usage : Option OfficialThreadUsage

pub record OfficialSnapshot (P : Type 0) : Type 0 where
  pub account : Option OfficialAccount
  pub credits : Option OfficialCredits
  pub individual_limit : Option (OfficialSpendControl P)
  pub spend_control_reached : Option Bool
  pub reset_credits : Option OfficialResetCredits
  pub account_usage : Option OfficialAccountUsage
  pub rate_limit_name : Option String
  pub rate_limit_reached_type : Option String
  pub account_status : OfficialEndpointStatus
  pub quota_status : OfficialEndpointStatus
  pub usage_status : OfficialEndpointStatus
  pub freshness : OfficialFreshness
  pub observed_at_unix_ms : ℤ

-- `[a, b, c].into_iter().flatten().max()`, from the front.
max_observed : Option ℤ → Option ℤ → Option ℤ
max_observed none b = b
max_observed (some a) none = some a
max_observed (some a) (some b) = some (max_ℤ a b)

aggregate_of : OfficialFreshness → OfficialFreshness → OfficialFreshness → OfficialFreshness
unfolding is_live is_unavailable
aggregate_of a b c =
    if is_live a && (is_live b && is_live c)
    then live
    else if not (is_unavailable a) || (not (is_unavailable b) || not (is_unavailable c))
    then cached
    else unavailable

module _ {P : Type 0} where
  abbrev pub empty_snapshot : OfficialSnapshot P
  empty_snapshot = record {
    account = none;
    credits = none;
    individual_limit = none;
    spend_control_reached = none;
    reset_credits = none;
    account_usage = none;
    rate_limit_name = none;
    rate_limit_reached_type = none;
    account_status = unavailable_status;
    quota_status = unavailable_status;
    usage_status = unavailable_status;
    freshness = unavailable;
    observed_at_unix_ms = pos 0;
  }

  has_content : OfficialSnapshot P → Bool
  has_content s =
      is_some s.account
      || (is_some s.credits
          || (is_some s.individual_limit
              || (is_some s.reset_credits
                  || (is_some s.account_usage
                      || (is_some s.spend_control_reached
                          || (is_some s.rate_limit_name || is_some s.rate_limit_reached_type))))))

  unfoldable pub cached_snapshot : OfficialSnapshot P → OfficialSnapshot P
  unfolding cached_status has_content
  cached_snapshot s = record s {
    account_status = cached_status s.account_status;
    quota_status = cached_status s.quota_status;
    usage_status = cached_status s.usage_status;
    freshness = if has_content s then cached else unavailable;
  }

  unfoldable pub refresh_aggregate_freshness : OfficialSnapshot P → OfficialSnapshot P
  unfolding max_observed aggregate_of
  refresh_aggregate_freshness s = record s {
    freshness =
        aggregate_of s.account_status.freshness s.quota_status.freshness s.usage_status.freshness;
    observed_at_unix_ms =
        unwrap_or
          (max_observed
            (max_observed s.account_status.observed_at_unix_ms s.quota_status.observed_at_unix_ms)
            s.usage_status.observed_at_unix_ms)
          (pos 0);
  }
