-- ===== src/AppServer/RateLimits/Tests.antt =====
-- The Rust tests of quota.rs at trees of JSON, and the theorems at concrete inputs.
use codex_quota_glance.Prelude.{ℕ, ◌≡◌, refl, Option, none, some}
use codex_quota_glance.Prelude.Int.{pos}
use codex_quota_glance.Prelude.F32.{whole}
use codex_quota_glance.Prelude.Results.{ok}
use codex_quota_glance.Domain.Quota.{from_used_percent}
use codex_quota_glance.AppServer.Json.{get_first, number_u32, number_i64}
use codex_quota_glance.AppServer.Json.Trees.{
  Tree, number, object, nothing, member, trees, as_u64_tree, get_member, find_member,
  is_object_tree, is_null_tree, height, heights,
}
use codex_quota_glance.AppServer.RateLimits.{
  RateLimitWindow, RateLimitResponse, snapshot_of, parse_rate_limits_value,
}
use codex_quota_glance.AppServer.RateLimits.Classification.{snapshot_of_lem}

abbrev window : ℕ → ℕ → Option (RateLimitWindow ℕ)
window used minutes =
    some (record { used_percent = used; window_duration_mins = minutes; resets_at_unix = none })

snapshot_of_lem_example :
    (snapshot_of ⦃f = whole⦄ (window 80 10_080) (window 12 300) (pos 0) 0).five_hour
    ≡ some (from_used_percent ⦃f = whole⦄ 12 (some 300) none)
snapshot_of_lem_example =
    (snapshot_of_lem ⦃f = whole⦄ (window 80 10_080) (window 12 300) (pos 0) 0).0

abbrev weekly : Tree
weekly =
    object (member "usedPercent" (number 27) (member "windowDurationMins" (number 10_080) nothing))

abbrev response : Tree
response = object (
    member "result"
      (object (member "rateLimits" (object (member "secondary" weekly nothing)) nothing)) nothing)

abbrev limits : Tree
limits = object (member "secondary" weekly nothing)

abbrev parsed : RateLimitResponse Tree ℕ
parsed = record { primary = none; secondary = window 27 10_080; raw = some limits }

weekly_only_parsed :
    parse_rate_limits_value ⦃j = trees⦄ ⦃f = whole⦄ as_u64_tree response ≡ ok parsed
unfolding parse_rate_limits_value trees get_member find_member is_object_tree is_null_tree
    as_u64_tree get_first number_u32 number_i64 height heights
weekly_only_parsed = refl
