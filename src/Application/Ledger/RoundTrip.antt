-- ===== src/Application/Ledger/RoundTrip.antt =====
-- Saving and loading the JSON projection.
use mathlib.Core.List.{append-nil, append_assoc}
use codex_quota_glance.Prelude.{
  ℕ, ◌≤◌, ◌<◌, ◌≡◌, refl, List, [], ◌∷◌, ◌++◌, length, arith, ◌∙◌, sym, subst,
}
use codex_quota_glance.Prelude.Int.{ℤ, ◌<ℤ◌}
use codex_quota_glance.Prelude.Words.{saturating_add}
use codex_quota_glance.Prelude.OrdMap.{
  insert, keep_last_all, IsSorted, Above, Values, Above-IsSorted,
}
use codex_quota_glance.Application.Ledger.Day.{UsageDay}
use codex_quota_glance.Application.Ledger.Books.{
  Days, LocalUsageLedger, max_retained_days, add_delta,
}
use codex_quota_glance.Application.Ledger.Storage.{
  persisted, from_persisted, canonical_total, canonical_hours, canonical_day, collect,
}

-- Hour by hour the total is input plus output.
abbrev pub HoursDetailed : (inputs outputs totals : List ℕ) → Type 0
HoursDetailed (i ∷ is) (o ∷ os) (t ∷ ts) = (t ≡ saturating_add i o) × HoursDetailed is os ts
HoursDetailed _ _ _ = Unit

pub record IsDetailed (d : UsageDay) : Type 0 where
  pub whole : d.total_tokens ≡ saturating_add d.input_tokens d.output_tokens
  pub hourly : HoursDetailed d.hourly_input_tokens d.hourly_output_tokens d.hourly_tokens

canonical_hours-HoursDetailed :
    (is os ts : List ℕ) → HoursDetailed is os ts → canonical_hours is os ts ≡ ts
unfolding canonical_hours canonical_total
canonical_hours-HoursDetailed (i ∷ is) (o ∷ os) (t ∷ ts) h =
    ground (arith, canonical_hours-HoursDetailed is os ts h.1)
canonical_hours-HoursDetailed (i ∷ is) (o ∷ os) [] h = refl
canonical_hours-HoursDetailed (i ∷ is) [] ts h = refl
canonical_hours-HoursDetailed [] os ts h = refl

canonical_day-IsDetailed : (d : UsageDay) → IsDetailed d → canonical_day d ≡ d
unfolding canonical_day
canonical_day-IsDetailed d v = ground (
  arith,
  canonical_hours-HoursDetailed d.hourly_input_tokens d.hourly_output_tokens d.hourly_tokens
      v.hourly,
)

below_last : (j k : ℤ) (d : UsageDay) (m r : Days) → Above j (m ++ (k, d) ∷ r) → j <ℤ k
below_last j k d [] r s = s.0
below_last j k d ((i, e) ∷ m) r s = omega (arith, below_last i k d m r s.1)

-- Inserting above all keys goes to the end.
insert-end :
    (k : ℤ) (d : UsageDay) (m r : Days)
    → IsSorted (m ++ (k, d) ∷ r)
    → insert k d m ≡ m ++ (k, d) ∷ []
unfolding insert
insert-end k d [] r s = refl
insert-end k d ((j, e) ∷ m) r s =
    ground
      (arith, below_last j k d m r s, insert-end k d m r (Above-IsSorted j (m ++ (k, d) ∷ r) s))

collect-append : (m ds : Days) → IsSorted (m ++ ds) → Values IsDetailed ds → collect m ds ≡ m ++ ds
unfolding collect
collect-append m [] s v = sym (append-nil m)
collect-append m ((k, d) ∷ ds) s v =
    let whole = append_assoc m ((k, d) ∷ []) ds in
    rw (canonical_day-IsDetailed d v.0, insert-end k d m ds s)
      (collect-append (m ++ (k, d) ∷ []) ds (subst IsSorted (sym whole) s) v.1 ∙ whole)

-- A ledger whose days are sorted, at most 365, and whose totals are input plus output, in the day
-- and in each hour, comes back from its persistent form with the same days.
from_persisted-persisted :
    (l : LocalUsageLedger)
    → IsSorted l.days
    → Values IsDetailed l.days
    → length l.days ≤ max_retained_days
    → (from_persisted (persisted l)).days ≡ l.days
unfolding from_persisted persisted
from_persisted-persisted l s v h =
    rw (collect-append [] l.days s v) (keep_last_all max_retained_days l.days h)

-- Where a day has session detail and input, making it canonical gives back the total that it had
-- before an amount was added.
canonical_day-add_delta :
    (d : UsageDay) (hour delta : ℕ)
    → IsDetailed d
    → 0 < d.input_tokens
    → (canonical_day (add_delta d hour delta)).total_tokens ≡ d.total_tokens
unfolding canonical_day add_delta
canonical_day-add_delta d hour delta v h = ground arith
