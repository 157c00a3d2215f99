-- ===== src/Application/Ledger/Today.antt =====
-- What the operations do to the day that they are about.
use text.Mathlib.TextPositions.{eq_refl}
use codex_quota_glance.Prelude.{
  inl, inr, Bool-cases, ℕ, ◌+◌, ◌-◌, ◌≤◌, ◌<◌, ◌≡◌, refl, min, List, [], ◌∷◌, length, map, Option,
  none, some, Bool, true, false, arith, if_pos, String, ltb, ◌==◌, ◌∙◌, ap,
}
use codex_quota_glance.Prelude.Int.{ℤ, eqb_ℤ}
use codex_quota_glance.Prelude.Words.{
  u64_max, saturating_add, saturating_add_lem, saturating_add-le,
}
use codex_quota_glance.Prelude.OrdMap.{
  lookup, insert, keep_last_all, lookup-insert, length-insert-le,
}
use codex_quota_glance.Application.Ledger.Day.{UsageDay, empty_day}
use codex_quota_glance.Application.Ledger.Books.{
  ThreadTokenCounter, LocalUsageClock, LocalUsageLedger, Event, Baselines, commit, observe,
  observe_loop, baseline, set_baseline, growth, replace_session_day_priced, add_events, holds_day,
  UsageDay-discrete, entry, bucket, add_delta,
}

eqb_ℤ_refl : (k : ℤ) → eqb_ℤ k k ≡ true
eqb_ℤ_refl k = ground arith

-- While the days fit, a committed day is there.
lookup-commit :
    (l : LocalUsageLedger) (k : ℤ) (d : UsageDay)
    → length l.days < l.retained_days
    → lookup k (commit l k d).days ≡ some d
unfolding commit
lookup-commit l k d h =
    let room : length (insert k d l.days) ≤ l.retained_days =
      omega (arith, length-insert-le k d l.days) in
    rw (keep_last_all l.retained_days (insert k d l.days) room)
      (rw (lookup-insert k k d l.days, eqb_ℤ_refl k))

holds_day_self : (d : UsageDay) → holds_day (some d) d ≡ true
unfolding holds_day
holds_day_self d = ground (arith, if_pos {C = Bool} (UsageDay-discrete d d) refl)

module _ (l : LocalUsageLedger) (k : ℤ) (es : List Event) where
  abbrev scanned : UsageDay
  scanned = add_events empty_day es

  replace_kept :
      holds_day (lookup k l.days) scanned ≡ true → replace_session_day_priced l k es ≡ (l, false)
  unfolding replace_session_day_priced
  replace_kept h = rw h

  replace_new :
      holds_day (lookup k l.days) scanned ≡ false
      → replace_session_day_priced l k es ≡ (commit l k scanned, true)
  unfolding replace_session_day_priced
  replace_new h = rw h

-- Replacing a day by the same scan a second time is answered with `false` and changes nothing, so
-- that a restart counts no event twice, as long as the retained days have room for one more.
replace_twice :
    (l : LocalUsageLedger) (k : ℤ) (es : List Event)
    → length l.days < l.retained_days
    → let l' = (replace_session_day_priced l k es).0 in
      replace_session_day_priced l' k es ≡ (l', false)
replace_twice l k es h = elim (Bool-cases (holds_day (lookup k l.days) (scanned l k es))) [
  | inl e ↦ rw (replace_kept l k es e) (replace_kept l k es e)
  | inr e ↦ rw (replace_new l k es e) (
      replace_kept (commit l k (scanned l k es)) k es
        (rw (lookup-commit l k (scanned l k es) h) (holds_day_self (scanned l k es))))
]

-- The rises of a running total: falls and the first value count nothing.
abbrev pub rises : Option ℕ → List ℕ → ℕ
rises before [] = 0
rises none (x ∷ xs) = rises (some x) xs
rises (some before) (x ∷ xs) = (x - before) + rises (some x) xs

abbrev pub frames : String → List ℕ → List ThreadTokenCounter
frames t xs = map (λ x. record { thread_id = t; tokens_used = x }) xs

baseline-set_baseline :
    (t : String) (n : ℕ) (b : Baselines) → baseline t (set_baseline t n b) ≡ some n
unfolding baseline set_baseline
baseline-set_baseline t n [] = rw (eq_refl t)
baseline-set_baseline t n ((j, o) ∷ m) = ground (arith, eq_refl t, baseline-set_baseline t n m)

rises-cons :
    (o : Option ℕ) (x : ℕ) (xs : List ℕ) → rises o (x ∷ xs) ≡ growth o x + rises (some x) xs
unfolding growth
rises-cons none x xs = omega arith
rises-cons (some before) x xs = ground arith

observe_loop-frames :
    (t : String) (xs : List ℕ) (b : Baselines) (delta : ℕ)
    → delta ≤ u64_max
    → (observe_loop b delta (frames t xs)).1 ≡ min (delta + rises (baseline t b) xs) u64_max
unfolding observe_loop
observe_loop-frames t [] b delta h = omega arith
observe_loop-frames t (x ∷ xs) b delta h =
    let grown = growth (baseline t b) x in
    let rest =
      observe_loop-frames t xs (set_baseline t x b) (saturating_add delta grown)
        (saturating_add-le delta grown) in
    rest
    ∙ omega (
      arith,
      ap (λ o. rises o xs) (baseline-set_baseline t x b),
      rises-cons (baseline t b) x xs,
      saturating_add_lem delta grown,
    )

-- The two outcomes of `observe`, by the growth that its loop finds.
module _ (l : LocalUsageLedger) (clock : LocalUsageClock) (cs : List ThreadTokenCounter) where
  observe_still :
      (observe_loop l.baselines 0 cs).1 ≡ 0
      → observe l clock cs ≡ (record l { baselines = (observe_loop l.baselines 0 cs).0 }, false)
  unfolding observe
  observe_still h = rw h

  observe_grown :
      ((observe_loop l.baselines 0 cs).1 == 0) ≡ false
      → observe l clock cs ≡ (
        commit
            (record l { baselines = (observe_loop l.baselines 0 cs).0 })
            clock.day_key
            (add_delta
              (entry clock.day_key l.days)
              (bucket clock.hour)
              (observe_loop l.baselines 0 cs).1),
        true,
      )
  unfolding observe
  observe_grown h = rw h

add_delta-total :
    (d : UsageDay) (hour delta : ℕ)
    → (add_delta d hour delta).total_tokens ≡ saturating_add d.total_tokens delta
unfolding add_delta
add_delta-total d hour delta = refl

-- A thread's running totals add their rises to the day and nothing else: the first total of an
-- unknown thread and every fall only set the baseline. `observe` answers `true` exactly where
-- there was a rise, and the day's total grows by the rises, up to saturation, as long as the
-- retained days have room for one more and the total is a `u64`.
pub observe-rises :
    (l : LocalUsageLedger) (clock : LocalUsageClock) (t : String) (xs : List ℕ)
    → length l.days < l.retained_days
    → (entry clock.day_key l.days).total_tokens ≤ u64_max
    → let r = rises (baseline t l.baselines) xs in
      let (l', changed) = observe l clock (frames t xs) in
      (changed ≡ ltb 0 r)
      × ((entry clock.day_key l'.days).total_tokens
          ≡ min ((entry clock.day_key l.days).total_tokens + r) u64_max)
observe-rises l clock t xs h w =
    let cs = frames t xs in
    let k = clock.day_key in
    let r = rises (baseline t l.baselines) xs in
    let grown = (observe_loop l.baselines 0 cs).1 in
    let total : grown ≡ min (0 + r) u64_max =
      observe_loop-frames t xs l.baselines 0 (omega arith) in
    elim (Bool-cases (grown == 0)) [
      | inl e ↦
          let still : grown ≡ 0 = ground arith in
          rw (observe_still l clock cs still) (ground arith, omega (arith, total, still, w))
      | inr e ↦
          let day = add_delta (entry k l.days) (bucket clock.hour) grown in
          let stored =
            lookup-commit (record l { baselines = (observe_loop l.baselines 0 cs).0 }) k day h in
          rw (observe_grown l clock cs e) (
            ground arith,
            rw stored (
                omega (
                  arith,
                  add_delta-total (entry k l.days) (bucket clock.hour) grown,
                  saturating_add_lem (entry k l.days).total_tokens grown,
                  total,
                )),
          )
    ]
