-- ===== src/AppServer/State/Project.antt =====
-- crates/adapters-codex-app-server/src/state.rs: what the application sees of the adapter's state.
use text.Mathlib.Text.{◌==◌ as str_eq}
use codex_quota_glance.Prelude.{
  ℕ, if◌then◌else◌, List, [], ◌∷◌, Option, none, some, Bool, true, false, ◌||◌, not, is_some,
  String, ◌>>=◌,
}
use codex_quota_glance.Prelude.Int.{ℤ, pos, ltb_ℤ, eqb_ℤ}
use codex_quota_glance.Prelude.F32.{F32}
use codex_quota_glance.Prelude.Text.{codes}
use codex_quota_glance.Domain.Official.{
  OfficialAccount, OfficialAccountKind, chat_gpt, api_key, amazon_bedrock, OfficialSpendControl,
  OfficialResetCredits, OfficialSnapshot, OfficialEndpointStatus, unavailable,
  refresh_aggregate_freshness,
}
use codex_quota_glance.AppServer.Json.{Json, get_first, number_i64}
use codex_quota_glance.AppServer.Patches.{parse_credits}
use codex_quota_glance.AppServer.Identifier.{mask_identifier}
use codex_quota_glance.AppServer.State.{AccountSnapshot, AppServerState}
use codex_quota_glance.AppServer.State.Replace.{string_field}
use codex_quota_glance.AppServer.State.Account.{parse_account_usage, list_or_empty}
use codex_quota_glance.AppServer.State.Usage.{number_u64}

unfoldable pub insert_time : ℤ → List ℤ → List ℤ
insert_time t [] = t ∷ []
insert_time t (u ∷ times) = if ltb_ℤ u t then u ∷ insert_time t times else t ∷ u ∷ times

-- `sort_unstable` of numbers.
unfoldable pub sort_times : List ℤ → List ℤ
unfolding insert_time
sort_times [] = []
sort_times (t ∷ times) = insert_time t (sort_times times)

-- `Vec::dedup`: of equal neighbours the first stays.
unfoldable pub dedup_after : ℤ → List ℤ → List ℤ
dedup_after t [] = []
dedup_after t (u ∷ times) =
    let rest = dedup_after t times in
    let kept = u ∷ dedup_after u times in if eqb_ℤ t u then rest else kept

unfoldable pub dedup : List ℤ → List ℤ
unfolding dedup_after
dedup [] = []
dedup (t ∷ times) = t ∷ dedup_after t times

abbrev pub first : List ℤ → Option ℤ
first [] = none
first (t ∷ times) = some t

-- The `match` on the type of the account.
unfoldable pub account_kind : Option String → OfficialAccountKind
account_kind none = OfficialAccountKind.unknown
account_kind (some t) =
    if str_eq t "chatgpt"
    then chat_gpt
    else if str_eq t "apiKey" || str_eq t "apikey"
    then api_key
    else if str_eq t "amazonBedrock"
    then amazon_bedrock
    else OfficialAccountKind.unknown

times_with : Option ℤ → List ℤ → List ℤ
times_with none times = times
times_with (some t) times = t ∷ times

unfoldable pub reset_credits_with : List ℤ → Option ℕ → Option OfficialResetCredits
reset_credits_with times none = none
reset_credits_with times (some count) = some (record {
  available_count = count;
  expiry_times_unix = times;
  nearest_expiry_unix = first times;
})

module _ {V : Type 0} ⦃j : Json V⦄ where
  unfoldable pub expiry_times : List V → List ℤ
  unfolding times_with
  expiry_times [] = []
  expiry_times (credit ∷ credits) =
      times_with (get_first ("expiresAt" ∷ "expires_at" ∷ []) credit >>= number_i64)
        (expiry_times credits)

  unfoldable pub parse_reset_credits : V → Option OfficialResetCredits
  unfolding sort_times dedup
  parse_reset_credits v =
      if j.is_object v
      then reset_credits_with
          (dedup (sort_times (expiry_times (list_or_empty (j.get "credits" v >>= j.as_array)))))
          (get_first ("availableCount" ∷ "available_count" ∷ []) v >>= number_u64)
      else none

  abbrev no_members : List (String × V) → Bool
  no_members [] = true
  no_members (m ∷ ms) = false

  abbrev pub has_account : AccountSnapshot V → Bool
  has_account a = not (no_members (j.members a.fields)) || is_some a.requires_openai_auth

module _ {V P : Type 0} ⦃j : Json V⦄ ⦃f : F32 P⦄ (as_percent : V → Option P)
    (text_of : List ℕ → String) where
  unfoldable pub parse_spend_control : V → Option (OfficialSpendControl P)
  parse_spend_control v =
      if j.is_object v
      then some (record {
        limit = string_field v ("limit" ∷ []);
        used = string_field v ("used" ∷ []);
        remaining_percent =
            get_first ("remainingPercent" ∷ "remaining_percent" ∷ []) v >>= as_percent;
        resets_at_unix = get_first ("resetsAt" ∷ "resets_at" ∷ []) v >>= number_i64;
      })
      else none

  -- `text_of` makes a text of its characters.
  masked_text : Option String → Option String
  masked_text none = none
  masked_text (some s) = some (text_of (mask_identifier (codes s)))

  unfoldable pub account_of : AccountSnapshot V → OfficialAccount
  unfolding masked_text
  account_of a = record {
    kind = account_kind (string_field a.fields ("type" ∷ []));
    masked_identifier = masked_text (string_field a.fields ("email" ∷ []));
    plan_type = string_field a.fields ("planType" ∷ "plan_type" ∷ []);
    auth_mode = string_field a.fields ("authMode" ∷ "auth_mode" ∷ []);
    requires_openai_auth = a.requires_openai_auth;
  }

  unfoldable pub official_snapshot_with_status :
      AppServerState V P
      → (account_status quota_status usage_status : OfficialEndpointStatus) → OfficialSnapshot P
  official_snapshot_with_status s account_status quota_status usage_status =
      refresh_aggregate_freshness (record {
        account = if has_account s.account then some (account_of s.account) else none;
        credits = j.get "credits" s.rate_limits.raw >>= parse_credits;
        individual_limit = j.get "individualLimit" s.rate_limits.raw >>= parse_spend_control;
        spend_control_reached =
            get_first ("spendControlReached" ∷ "spend_control_reached" ∷ []) s.rate_limits.raw
            >>= j.as_bool;
        reset_credits = s.rate_limits.reset_credits_raw >>= parse_reset_credits;
        account_usage = s.account_usage >>= parse_account_usage;
        rate_limit_name = string_field s.rate_limits.raw ("limitName" ∷ "limit_name" ∷ []);
        rate_limit_reached_type =
            string_field s.rate_limits.raw
              ("rateLimitReachedType" ∷ "rate_limit_reached_type" ∷ []);
        account_status = account_status;
        quota_status = quota_status;
        usage_status = usage_status;
        freshness = unavailable;
        observed_at_unix_ms = pos 0;
      })
