-- ===== src/Domain/Quota/Bounds.antt =====
-- The range of the percentages that `from_used_percent` builds.
use codex_quota_glance.Prelude.{ℕ, ◌≡◌, Option, false, arith}
use codex_quota_glance.Prelude.Int.{ℤ}
use codex_quota_glance.Prelude.F32.{F32, Laws, clamp_percent}
use codex_quota_glance.Domain.Quota.{from_used_percent}

module _ {P : Type 0} ⦃f : F32 P⦄ where
  -- Neither below 0 nor above 100; NaN passes, since every comparison with it is false.
  abbrev pub InRange : P → Type 0
  InRange x = (f.lt x f.zero_percent ≡ false) × (f.lt f.hundred_percent x ≡ false)

  clamp_percent-InRange : Laws f → (x : P) → InRange (clamp_percent x)
  clamp_percent-InRange laws x =
      ground
        (arith, laws.lt_irrefl f.zero_percent, laws.lt_irrefl f.hundred_percent, laws.zero_below)

  complement-InRange : Laws f → (x : P) → InRange x → InRange (f.sub f.hundred_percent x)
  complement-InRange laws x r = ground (
    arith,
    laws.sub_mono x f.zero_percent f.hundred_percent,
    laws.sub_mono f.hundred_percent x f.hundred_percent,
    laws.sub_self,
    laws.sub_zero,
  )

  -- Whatever percentage the server reports, also beyond 0 and 100, the stored used and remaining
  -- percentages are neither below 0 nor above 100.
  from_used_percent-InRange :
      (laws : Laws f) (used : P) (minutes : Option ℕ) (resets : Option ℤ)
      → let v = from_used_percent used minutes resets in
        InRange v.used_percent × InRange v.remaining_percent
  unfolding from_used_percent
  from_used_percent-InRange laws used minutes resets =
      (clamp_percent-InRange laws used, complement-InRange laws _ (clamp_percent-InRange laws used))
