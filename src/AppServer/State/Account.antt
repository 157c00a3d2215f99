-- ===== src/AppServer/State/Account.antt =====
-- crates/adapters-codex-app-server/src/state.rs: the account's usage, its days and its
-- threads.
use codex_quota_glance.Prelude.{
  ℕ, if◌then◌else◌, List, [], ◌∷◌, Option, none, some, Bool, true, false, ◌&&◌, not, is_some,
  option_map, String, ◌>>=◌,
}
use codex_quota_glance.Prelude.Text.{trim}
use codex_quota_glance.Domain.Official.{
  OfficialAccountUsage, OfficialDailyUsage, OfficialThreadUsage, OfficialThreadUsageGroup,
}
use codex_quota_glance.AppServer.Json.{Json, get_first}
use codex_quota_glance.AppServer.State.{AccountUsageSnapshot, object_of}
use codex_quota_glance.AppServer.State.Replace.{string_field}
use codex_quota_glance.AppServer.State.Usage.{numeric_field, parse_daily_usage_buckets}

abbrev pub last_day : List OfficialDailyUsage → Option OfficialDailyUsage
last_day [] = none
last_day (day ∷ []) = some day
last_day (day ∷ (next ∷ days)) = last_day (next ∷ days)

abbrev pub list_or_empty : {A : Type 0} → Option (List A) → List A
list_or_empty none = []
list_or_empty (some xs) = xs

kept_groups :
    Option OfficialThreadUsageGroup → List OfficialThreadUsageGroup → List OfficialThreadUsageGroup
kept_groups none groups = groups
kept_groups (some group) groups = group ∷ groups

abbrev no_days : List OfficialDailyUsage → Bool
no_days [] = true
no_days (day ∷ days) = false

module _ {V : Type 0} ⦃j : Json V⦄ where
  group_with : V → Option ℕ → Option OfficialThreadUsageGroup
  group_with object none = none
  group_with object (some credits) = some (record {
    model = string_field object ("model" ∷ []);
    input_tokens = numeric_field object ("inputTokens" ∷ "input_tokens" ∷ []);
    cached_input_tokens = numeric_field object ("cachedInputTokens" ∷ "cached_input_tokens" ∷ []);
    net_new_input_tokens = numeric_field object ("netNewInputTokens" ∷ "net_new_input_tokens" ∷ []);
    output_tokens = numeric_field object ("outputTokens" ∷ "output_tokens" ∷ []);
    total_tokens = numeric_field object ("totalTokens" ∷ "total_tokens" ∷ []);
    reasoning_effort = string_field object ("reasoningEffort" ∷ "reasoning_effort" ∷ []);
    speed = string_field object ("speed" ∷ []);
    estimated_usage_credits_micros = credits;
  })

  abbrev credits_micros : V → Option ℕ
  credits_micros object =
      numeric_field object ("estimatedUsageCreditsMicros" ∷ "estimated_usage_credits_micros" ∷ [])

  unfoldable pub parse_thread_usage_group : V → Option OfficialThreadUsageGroup
  unfolding group_with
  parse_thread_usage_group v = if j.is_object v then group_with v (credits_micros v) else none

  unfoldable pub parse_groups : List V → List OfficialThreadUsageGroup
  unfolding kept_groups
  parse_groups [] = []
  parse_groups (v ∷ vs) = kept_groups (parse_thread_usage_group v) (parse_groups vs)

  thread_usage_with : V → Option String → Option ℕ → Option OfficialThreadUsage
  thread_usage_with object none credits = none
  thread_usage_with object (some thread_id) none = none
  thread_usage_with object (some thread_id) (some credits) = some (record {
    thread_id = trim thread_id;
    estimated_usage_usd_micros =
        numeric_field object ("estimatedUsageUsdMicros" ∷ "estimated_usage_usd_micros" ∷ []);
    estimated_usage_credits_micros = credits;
    groups = parse_groups (list_or_empty (j.get "groups" object >>= j.as_array));
  })

  thread_usage_of : Option V → Option OfficialThreadUsage
  unfolding thread_usage_with
  thread_usage_of none = none
  thread_usage_of (some object) =
      thread_usage_with object (string_field object ("threadId" ∷ "thread_id" ∷ []))
        (credits_micros object)

  unfoldable pub parse_thread_usage : Option V → Option OfficialThreadUsage
  unfolding thread_usage_of
  parse_thread_usage value = thread_usage_of (object_of value)

  -- A number of the summary, where there is one.
  abbrev summary_value : Option V → List String → Option ℕ
  summary_value none keys = none
  summary_value (some summary) keys = numeric_field summary keys

  account_usage_of :
      Option V → List OfficialDailyUsage → Option OfficialThreadUsage → Option OfficialAccountUsage
  account_usage_of summary days thread_usage =
      if not (is_some summary) && no_days days && not (is_some thread_usage)
      then none
      else some (record {
        lifetime_tokens = summary_value summary ("lifetimeTokens" ∷ "lifetime_tokens" ∷ []);
        peak_daily_tokens = summary_value summary ("peakDailyTokens" ∷ "peak_daily_tokens" ∷ []);
        longest_running_turn_seconds =
            summary_value summary ("longestRunningTurnSec" ∷ "longest_running_turn_sec" ∷ []);
        current_streak_days =
            summary_value summary ("currentStreakDays" ∷ "current_streak_days" ∷ []);
        longest_streak_days =
            summary_value summary ("longestStreakDays" ∷ "longest_streak_days" ∷ []);
        daily_usage = days;
        latest_daily_date = option_map (λ day. day.date) (last_day days);
        latest_daily_tokens = option_map (λ day. day.tokens) (last_day days);
        thread_usage = thread_usage;
      })

  unfoldable pub parse_account_usage : AccountUsageSnapshot V → Option OfficialAccountUsage
  unfolding account_usage_of
  parse_account_usage u =
      if j.is_object u.raw
      then account_usage_of (object_of (j.get "summary" u.raw))
          (parse_daily_usage_buckets
            (get_first ("dailyUsageBuckets" ∷ "daily_usage_buckets" ∷ []) u.raw))
          (parse_thread_usage (get_first ("threadUsage" ∷ "thread_usage" ∷ []) u.raw))
      else none
