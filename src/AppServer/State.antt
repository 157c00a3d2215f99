-- ===== src/AppServer/State.antt =====
-- crates/adapters-codex-app-server/src/state.rs: the adapter's state, and how whole objects of
-- sparse notifications are merged into it.
pub mod Merge
pub mod Replace
pub mod Notify
pub mod Dates
pub mod Usage
pub mod Account
pub mod Project
pub mod Credits
pub mod Nulls
mod Tests
use text.Mathlib.Text.{◌==◌ as str_eq}
use codex_quota_glance.Prelude.{
  ℕ, zero, suc, if◌then◌else◌, List, [], ◌∷◌, map, Option, none, some, Bool, true, false, ◌&&◌,
  ◌||◌, is_some, or_else, unwrap_or, String, ◌>>=◌,
}
use codex_quota_glance.Prelude.Int.{ℤ}
use codex_quota_glance.Prelude.F32.{F32}
use codex_quota_glance.Domain.Usage.{TokenCounts}
use codex_quota_glance.AppServer.Json.{Json, get_first, find_value, number_i64, contains_key}
use codex_quota_glance.AppServer.RateLimits.{RateLimitWindow}
use codex_quota_glance.AppServer.Patches.{
  TokenUsageUpdate, merge_number, merge_token_counts, merge_domain_token_counts,
  merge_rate_limit_window,
}
use codex_quota_glance.AppServer.Threads.{ActivityEvent, ThreadActivityRecord}

pub record AccountSnapshot (V : Type 0) : Type 0 where
  pub fields : V
  pub requires_openai_auth : Option Bool

pub record RateLimitsSnapshot (V P : Type 0) : Type 0 where
  pub primary : Option (RateLimitWindow P)
  pub secondary : Option (RateLimitWindow P)
  pub updated_at_unix_ms : Option ℤ
  pub raw : V
  pub reset_credits_raw : Option V

pub record AccountUsageSnapshot (V : Type 0) : Type 0 where
  pub raw : V

-- The hash map of the threads is an association list.
pub record AppServerState (V P : Type 0) : Type 0 where
  pub account : AccountSnapshot V
  pub rate_limits : RateLimitsSnapshot V P
  pub token_usage : Option (TokenUsageUpdate V)
  pub account_usage : Option (AccountUsageSnapshot V)
  pub last_activity : Option (ActivityEvent V)
  pub thread_activities : List (String × ThreadActivityRecord V)

module _ {V : Type 0} ⦃j : Json V⦄ where
  abbrev pub no_account : AccountSnapshot V
  no_account = record { fields = j.empty_object; requires_openai_auth = none }

  abbrev pub no_rate_limits : {P : Type 0} → RateLimitsSnapshot V P
  no_rate_limits = record {
    primary = none;
    secondary = none;
    updated_at_unix_ms = none;
    raw = j.empty_object;
    reset_credits_raw = none;
  }

  -- `AppServerState::default`.
  abbrev pub default_state : {P : Type 0} → AppServerState V P
  default_state = record {
    account = no_account;
    rate_limits = no_rate_limits;
    token_usage = none;
    account_usage = none;
    last_activity = none;
    thread_activities = [];
  }

  -- One member of a patch: a null changes nothing, two objects are merged by `rec`.
  unfoldable pub merge_value : (rec : V → V → V) → V → String → V → Option V → V
  merge_value rec existing key value none =
      if j.is_null value then existing else j.insert key value existing
  merge_value rec existing key value (some old) =
      if j.is_null value
      then existing
      else if j.is_object old && j.is_object value
      then j.insert key (rec old value) existing
      else j.insert key value existing

  -- The `for` loop over the members.
  unfoldable pub merge_members : (rec : V → V → V) → V → List (String × V) → V
  merge_members rec existing [] = existing
  merge_members rec existing ((key, value) ∷ members) =
      merge_members rec (merge_value rec existing key value (j.get key existing)) members

  -- `merge_object`, on fuel.
  unfoldable pub merge_object : ℕ → V → V → V
  merge_object zero existing update = existing
  merge_object (suc fuel) existing update =
      merge_members (merge_object fuel) existing (j.members update)

  -- An update has no objects deeper than itself.
  abbrev pub merge_whole : V → V → V
  merge_whole existing update = merge_object (suc (j.depth update)) existing update

  -- `Value::as_object`, on an option.
  abbrev pub object_of : Option V → Option V
  object_of none = none
  object_of (some v) = if j.is_object v then some v else none

  -- The last two cases of `nested_object`.
  unfoldable pub patch_itself : String → V → Option V
  patch_itself key v =
      if str_eq key "account" && (contains_key "email" v || contains_key "planType" v)
      then some v
      else if str_eq key "rateLimits" && (contains_key "primary" v || contains_key "secondary" v)
      then some v
      else none

  -- A child under the key ends the search, also if it is no object.
  unfoldable pub nested_child : String → V → Option V → Option V
  nested_child key v none = patch_itself key v
  nested_child key v (some child) = object_of (some child)

  -- `nested_object`, on fuel.
  unfoldable pub nested_object : ℕ → V → String → Option V
  nested_object zero v key = none
  nested_object (suc fuel) v key =
      if j.is_object v
      then or_else (j.get "params" v >>= λ child. nested_object fuel child key)
          (nested_child key v (j.get key v))
      else none

  abbrev pub nested : V → String → Option V
  nested v key = nested_object (suc (j.depth v)) v key

  abbrev pub found : V → List String → Option V
  found v keys = find_value (suc (j.depth v)) v keys
