-- ===== src/Application/Ledger/Books.antt =====
-- The ledger in memory: the threads' baselines, the days, and every operation on them.
use text.Mathlib.Text.{◌==◌ as str_eq}
use codex_quota_glance.Prelude.{
  ℕ, ◌-◌, min, max, ltb, ◌==◌, if◌then◌else◌, List, [], ◌∷◌, reverse, length, take, Option, none,
  some, Bool, true, false, not, ◌||◌, ◌>>=◌, is_some, unwrap_or, option_map, String, map, ite,
  ℕ_discrete,
}
use codex_quota_glance.Prelude.Int.{ℤ}
use codex_quota_glance.Prelude.Words.{saturating_add}
use codex_quota_glance.Prelude.OrdMap.{lookup, insert, keep_last}
use codex_quota_glance.Domain.Usage.{TokenCounts, display_total}
use codex_quota_glance.Application.Ledger.Day.{
  UsageDay, empty_day, empty_hourly_tokens, counts, add_at, add_counts,
}

pub record ThreadTokenCounter : Type 0 where
  pub thread_id : String
  pub tokens_used : ℕ

pub record LocalUsageClock : Type 0 where
  pub day_key : ℤ
  pub hour : ℕ

abbrev pub Days : Type 0
Days = List (ℤ × UsageDay)

abbrev pub Baselines : Type 0
Baselines = List (String × ℕ)

pub record LocalUsageLedger : Type 0 where
  pub baselines : Baselines
  pub days : Days
  pub dirty : Bool
  pub retained_days : ℕ

abbrev pub default_ledger : LocalUsageLedger
default_ledger = record { baselines = []; days = []; dirty = false; retained_days = 90 }

abbrev pub max_retained_days : ℕ
max_retained_days = 365

unfoldable pub clear : LocalUsageLedger → LocalUsageLedger
clear l = record l { baselines = []; days = []; dirty = true }

unfoldable pub prune_days : LocalUsageLedger → LocalUsageLedger
prune_days l = record l { days = keep_last l.retained_days l.days }

-- `baselines.insert`: the old value, and the map with the new one.
unfoldable pub baseline : String → Baselines → Option ℕ
baseline k [] = none
baseline k ((j, n) ∷ m) = if str_eq j k then some n else baseline k m

unfoldable pub set_baseline : String → ℕ → Baselines → Baselines
set_baseline k n [] = (k, n) ∷ []
set_baseline k n ((j, o) ∷ m) = if str_eq j k then (k, n) ∷ m else (j, o) ∷ set_baseline k n m

-- `previous.filter(|previous| tokens_used > previous)`, and the growth since then.
unfoldable pub growth : Option ℕ → ℕ → ℕ
growth none used = 0
growth (some previous) used = if ltb previous used then used - previous else 0

-- The `for` loop of `observe`.
unfoldable pub observe_loop : Baselines → ℕ → List ThreadTokenCounter → Baselines × ℕ
unfolding growth
observe_loop b delta [] = (b, delta)
observe_loop b delta (c ∷ cs) =
    observe_loop (set_baseline c.thread_id c.tokens_used b)
      (saturating_add delta (growth (baseline c.thread_id b) c.tokens_used)) cs

-- `days.entry(key).or_insert_with(UsageDay::empty)`, read.
abbrev pub entry : ℤ → Days → UsageDay
entry k days = unwrap_or (lookup k days) empty_day

abbrev pub bucket : ℕ → ℕ
bucket hour = min hour 23

unfoldable pub add_delta : UsageDay → ℕ → ℕ → UsageDay
add_delta d hour delta = record d {
  total_tokens = saturating_add d.total_tokens delta;
  hourly_tokens = add_at d.hourly_tokens hour delta;
}

-- Write one day, prune, and mark the ledger dirty.
unfoldable pub commit : LocalUsageLedger → ℤ → UsageDay → LocalUsageLedger
unfolding prune_days
commit l k d = record (prune_days (record l { days = insert k d l.days })) { dirty = true }

unfoldable pub observe :
    LocalUsageLedger → LocalUsageClock → List ThreadTokenCounter → LocalUsageLedger × Bool
observe l clock counters =
    let (baselines, delta) = observe_loop l.baselines 0 counters in
    let l' = record l { baselines = baselines } in
    if delta == 0
    then (l', false)
    else (let day = add_delta (entry clock.day_key l'.days) (bucket clock.hour) delta in
        (commit l' clock.day_key day, true))

abbrev pub Event : Type 0
Event = ℕ × TokenCounts × Option ℕ

unfoldable pub add_events : UsageDay → List Event → UsageDay
add_events d [] = d
add_events d ((hour, c, cost) ∷ es) = add_events (add_counts d (bucket hour) c cost) es

pub UsageDay-discrete : Discrete UsageDay
UsageDay-discrete = hlevel ℕ_discrete

-- `days.get(&day_key) == Some(&replacement)`.
unfoldable pub holds_day : Option UsageDay → UsageDay → Bool
holds_day none d = false
holds_day (some old) d = ite (UsageDay-discrete old d) true false

unfoldable pub replace_session_day_priced :
    LocalUsageLedger → ℤ → List Event → LocalUsageLedger × Bool
replace_session_day_priced l k events =
    let replacement = add_events empty_day events in
    if holds_day (lookup k l.days) replacement then (l, false) else (commit l k replacement, true)

unfoldable pub replace_session_day :
    LocalUsageLedger → ℤ → List (ℕ × TokenCounts) → LocalUsageLedger × Bool
unfolding replace_session_day_priced
replace_session_day l k events = replace_session_day_priced l k (map (λ e. (e.0, e.1, none)) events)

unfoldable pub observe_session_event_priced :
    LocalUsageLedger → LocalUsageClock → TokenCounts → Option ℕ → LocalUsageLedger × Bool
observe_session_event_priced l clock c cost =
    if unwrap_or (display_total c) 0 == 0
    then (l, false)
    else (let day = add_counts (entry clock.day_key l.days) (bucket clock.hour) c cost in
        (commit l clock.day_key day, true))

unfoldable pub observe_session_event :
    LocalUsageLedger → LocalUsageClock → TokenCounts → LocalUsageLedger × Bool
unfolding observe_session_event_priced
observe_session_event l clock c = observe_session_event_priced l clock c none

unfoldable pub today_counts : LocalUsageLedger → ℤ → Option TokenCounts
today_counts l k = do
  day ← lookup k l.days
  let c = counts day
  if is_some (display_total c) then some c else none

unfoldable pub today_hourly_tokens : LocalUsageLedger → ℤ → List ℕ
today_hourly_tokens l k =
    unwrap_or (option_map (λ d. d.hourly_tokens) (lookup k l.days)) empty_hourly_tokens

unfoldable pub today_estimated_api_cost_micro_usd : LocalUsageLedger → ℤ → Option ℕ
today_estimated_api_cost_micro_usd l k = do
  day ← lookup k l.days
  if ltb 0 day.estimated_api_cost_micro_usd then some day.estimated_api_cost_micro_usd else none

unfoldable pub today_hourly_estimated_api_cost_micro_usd : LocalUsageLedger → ℤ → List ℕ
today_hourly_estimated_api_cost_micro_usd l k =
    unwrap_or (option_map (λ d. d.hourly_estimated_api_cost_micro_usd) (lookup k l.days))
      empty_hourly_tokens

-- `iter().rev().take(limit)`, turned back.
unfoldable pub recent_days : LocalUsageLedger → ℕ → Days
recent_days l limit = reverse (take limit (reverse l.days))

unfoldable pub mark_persisted : LocalUsageLedger → LocalUsageLedger
mark_persisted l = record l { dirty = false }

unfoldable pub set_retention_days : LocalUsageLedger → ℕ → LocalUsageLedger
unfolding prune_days
set_retention_days l retained =
    let l' = prune_days (record l { retained_days = min (max retained 1) max_retained_days }) in
    record l' { dirty = l.dirty || not (length l'.days == length l.days) }
