-- ===== src/Application/Ledger/Invariant.antt =====
-- What every operation keeps of the ledger.
use codex_quota_glance.Prelude.{ℕ, ◌≤◌, List, [], ◌∷◌, length, arith, Option, none, some, unwrap_or}
use codex_quota_glance.Prelude.Int.{ℤ}
use codex_quota_glance.Prelude.OrdMap.{
  lookup, insert, IsSorted, Values, Default, insert-IsSorted, keep_last-IsSorted,
  length-keep_last-le, insert-Values, keep_last-Values, lookup-Values,
}
use codex_quota_glance.Domain.Usage.{TokenCounts}
use codex_quota_glance.Application.Ledger.Day.{UsageDay, empty_day, add_counts}
use codex_quota_glance.Application.Ledger.Books.{
  Baselines, ThreadTokenCounter, LocalUsageClock, LocalUsageLedger, default_ledger, Days, Event,
  clear, commit, observe, observe_loop, replace_session_day_priced, observe_session_event_priced,
  mark_persisted, set_retention_days, max_retained_days, entry, bucket, add_delta, add_events,
}
use codex_quota_glance.Application.Ledger.Balance.{
  IsBalanced, empty_day-IsBalanced, add_delta-IsBalanced, add_counts-IsBalanced,
  add_events-IsBalanced,
}

pub record IsLedger (l : LocalUsageLedger) : Type 0 where
  pub sorted : IsSorted l.days
  pub balanced : Values IsBalanced l.days
  pub bounded : length l.days ≤ l.retained_days
  pub some_retained : 1 ≤ l.retained_days
  pub max_retained : l.retained_days ≤ max_retained_days

default-IsLedger : IsLedger default_ledger
default-IsLedger = omega arith

entry-IsBalanced : (k : ℤ) (days : Days) → Values IsBalanced days → IsBalanced (entry k days)
entry-IsBalanced k days b = from_default (lookup k days) (lookup-Values IsBalanced k days b)
  where
    from_default : (o : Option UsageDay) → Default IsBalanced o → IsBalanced (unwrap_or o empty_day)
    from_default none h = empty_day-IsBalanced
    from_default (some d) h = h

commit-IsLedger :
    (l : LocalUsageLedger) (k : ℤ) (d : UsageDay)
    → IsLedger l
    → IsBalanced d
    → IsLedger (commit l k d)
unfolding commit
commit-IsLedger l k d v b = record {
  sorted = keep_last-IsSorted l.retained_days _ (insert-IsSorted k d l.days v.sorted);
  balanced =
      keep_last-Values IsBalanced l.retained_days _
        (insert-Values IsBalanced k d l.days b v.balanced);
  bounded = length-keep_last-le l.retained_days (insert k d l.days);
  some_retained = v.some_retained;
  max_retained = v.max_retained;
}

-- The operations that change the ledger.
pub data Operation : Type 0 where
  observes : LocalUsageClock → List ThreadTokenCounter → Operation
  replaces : ℤ → List Event → Operation
  records : LocalUsageClock → TokenCounts → Option ℕ → Operation
  retains : ℕ → Operation
  clears saves : Operation

unfoldable pub operate : LocalUsageLedger → Operation → LocalUsageLedger
operate l (observes clock counters) = (observe l clock counters).0
operate l (replaces k events) = (replace_session_day_priced l k events).0
operate l (records clock c cost) = (observe_session_event_priced l clock c cost).0
operate l (retains n) = set_retention_days l n
operate l clears = clear l
operate l saves = mark_persisted l

unfoldable pub operate_all : LocalUsageLedger → List Operation → LocalUsageLedger
unfolding operate
operate_all l [] = l
operate_all l (o ∷ os) = operate_all (operate l o) os

rebase-IsLedger :
    (l : LocalUsageLedger) (b : Baselines) → IsLedger l → IsLedger (record l { baselines = b })
rebase-IsLedger l b v = record {
  sorted = v.sorted;
  balanced = v.balanced;
  bounded = v.bounded;
  some_retained = v.some_retained;
  max_retained = v.max_retained;
}

observe-IsLedger :
    (l : LocalUsageLedger) (clock : LocalUsageClock) (cs : List ThreadTokenCounter)
    → IsLedger l
    → IsLedger (observe l clock cs).0
unfolding observe
observe-IsLedger l clock cs v =
    let (baselines, delta) = observe_loop l.baselines 0 cs in
    let l' : LocalUsageLedger = record l { baselines = baselines } in
    let day = entry clock.day_key l.days in
    let fits =
      add_delta-IsBalanced day (bucket clock.hour) delta (omega arith)
        (entry-IsBalanced clock.day_key l.days v.balanced) in
    let next =
      commit-IsLedger l' clock.day_key (add_delta day (bucket clock.hour) delta)
        (rebase-IsLedger l baselines v) fits in
    ground (arith, next, rebase-IsLedger l baselines v)

replace-IsLedger :
    (l : LocalUsageLedger) (k : ℤ) (es : List Event)
    → IsLedger l
    → IsLedger (replace_session_day_priced l k es).0
unfolding replace_session_day_priced
replace-IsLedger l k es v = ground (
  arith,
  commit-IsLedger l k (add_events empty_day es) v
      (add_events-IsBalanced empty_day es empty_day-IsBalanced),
)

record-IsLedger :
    (l : LocalUsageLedger) (clock : LocalUsageClock) (c : TokenCounts) (cost : Option ℕ)
    → IsLedger l
    → IsLedger (observe_session_event_priced l clock c cost).0
unfolding observe_session_event_priced
record-IsLedger l clock c cost v =
    let day = entry clock.day_key l.days in
    let fits =
      add_counts-IsBalanced day (bucket clock.hour) c cost (omega arith)
        (entry-IsBalanced clock.day_key l.days v.balanced) in
    ground
      (arith, commit-IsLedger l clock.day_key (add_counts day (bucket clock.hour) c cost) v fits)

retain-IsLedger : (l : LocalUsageLedger) (n : ℕ) → IsLedger l → IsLedger (set_retention_days l n)
unfolding set_retention_days
retain-IsLedger l n v = record {
  sorted = keep_last-IsSorted _ l.days v.sorted;
  balanced = keep_last-Values IsBalanced _ l.days v.balanced;
  bounded = length-keep_last-le _ l.days;
  some_retained = omega arith;
  max_retained = omega arith;
}

clear-IsLedger : (l : LocalUsageLedger) → IsLedger l → IsLedger (clear l)
unfolding clear
clear-IsLedger l v = record {
  sorted = tt;
  balanced = tt;
  bounded = omega arith;
  some_retained = v.some_retained;
  max_retained = v.max_retained;
}

saved-IsLedger : (l : LocalUsageLedger) → IsLedger l → IsLedger (mark_persisted l)
unfolding mark_persisted
saved-IsLedger l v = record {
  sorted = v.sorted;
  balanced = v.balanced;
  bounded = v.bounded;
  some_retained = v.some_retained;
  max_retained = v.max_retained;
}

pub operate-IsLedger : (l : LocalUsageLedger) (o : Operation) → IsLedger l → IsLedger (operate l o)
unfolding operate
operate-IsLedger l (observes clock counters) v = observe-IsLedger l clock counters v
operate-IsLedger l (replaces k events) v = replace-IsLedger l k events v
operate-IsLedger l (records clock c cost) v = record-IsLedger l clock c cost v
operate-IsLedger l (retains n) v = retain-IsLedger l n v
operate-IsLedger l clears v = clear-IsLedger l v
operate-IsLedger l saves v = saved-IsLedger l v

pub operate_all-IsLedger :
    (l : LocalUsageLedger) (os : List Operation) → IsLedger l → IsLedger (operate_all l os)
unfolding operate_all
operate_all-IsLedger l [] v = v
operate_all-IsLedger l (o ∷ os) v = operate_all-IsLedger (operate l o) os (operate-IsLedger l o v)

-- After any operations on a new ledger the days are sorted by key, each total of each day is the
-- sum of its 24 hourly buckets up to saturation at 64 bits, and there are at most as many days as
-- are retained, which are between 1 and 365.
pub operate_all-default : (os : List Operation) → IsLedger (operate_all default_ledger os)
operate_all-default os = operate_all-IsLedger default_ledger os default-IsLedger
