-- ===== src/AppServer/State/Tests.antt =====
-- Tests of merging, dates, days and credits, and the theorems at concrete values.
use codex_quota_glance.Prelude.{
  ℕ, ◌≡◌, refl, [], ◌∷◌, some, true, false, inl, inr, All, length, ◌≤◌,
}
use codex_quota_glance.AppServer.Json.{Json}
use codex_quota_glance.AppServer.Json.Trees.{
  Tree, null, string, number, array, no_items, item, object, nothing, member, trees, trees-Laws,
  get_member, height,
}
use codex_quota_glance.AppServer.State.{merge_object, merge_whole, merge_members, merge_value}
use codex_quota_glance.Prelude.Text.{codes}
use codex_quota_glance.AppServer.State.Dates.{is_valid_iso_date}
use codex_quota_glance.AppServer.State.Nulls.{merge_object-Silent, Silent}
use codex_quota_glance.Prelude.Int.{pos}
use codex_quota_glance.Domain.Official.{OfficialResetCredits}
use codex_quota_glance.AppServer.State.Usage.{max_daily_usage_buckets, parse_daily_usage_buckets}
use codex_quota_glance.AppServer.State.Usage.Days.{IsHistory, parse_daily_usage_buckets-IsHistory}

instance abbrev tree_values : Json Tree
tree_values = trees

abbrev account : Tree
account = object (member "email" (string "a@b") (member "plan" (string "plus") nothing))

abbrev patch : Tree
patch = object (member "email" null (member "plan" (string "pro") nothing))

patched :
    merge_whole account patch
    ≡ object (member "email" (string "a@b") (member "plan" (string "pro") nothing))
unfolding merge_object merge_members merge_value trees get_member height
patched = refl

silent : All (Silent trees-Laws "email") (trees.members patch)
unfolding trees
silent = (inr refl, (inl refl, tt))

merge_object-Silent_example :
    trees.get "email" (merge_whole account patch) ≡ trees.get "email" account
merge_object-Silent_example =
    merge_object-Silent trees-Laws account patch "email" (unfold trees in refl) silent

leap_day : is_valid_iso_date (codes "2024-02-29") ≡ true
unfolding is_valid_iso_date
leap_day = refl

no_leap_day : is_valid_iso_date (codes "2100-02-29") ≡ false
unfolding is_valid_iso_date
no_leap_day = refl

-- One day, sent twice.
abbrev bucket : ℕ → Tree
bucket tokens =
    object (member "startDate" (string "2026-02-03") (member "tokens" (number tokens) nothing))

parse_daily_usage_buckets-IsHistory_example :
    IsHistory
      (parse_daily_usage_buckets (some (array (item (bucket 5) (item (bucket 7) no_items)))))
    × (length
          (parse_daily_usage_buckets (some (array (item (bucket 5) (item (bucket 7) no_items)))))
        ≤ max_daily_usage_buckets)
parse_daily_usage_buckets-IsHistory_example =
    parse_daily_usage_buckets-IsHistory (some (array (item (bucket 5) (item (bucket 7) no_items))))

abbrev credit : ℕ → Tree
credit at = object (member "expiresAt" (number at) nothing)

abbrev reset_credits : Tree
reset_credits = object (
    member "availableCount" (number 3) (
      member "credits" (array (item (credit 9) (item (credit 4) (item (credit 9) no_items))))
        nothing))

abbrev known_credits : OfficialResetCredits
known_credits = record {
  available_count = 3;
  expiry_times_unix = pos 4 ∷ (pos 9 ∷ []);
  nearest_expiry_unix = some (pos 4);
}
