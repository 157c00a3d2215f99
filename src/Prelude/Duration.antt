-- ===== src/Prelude/Duration.antt =====
-- `std::time::Duration`: whole seconds in 64 bits and nanoseconds below one second.
use Prim.Native.Nat.{ℕ, ◌+◌, ◌*◌, ◌/◌, ◌%◌, ◌≤◌, ◌<◌, min}
use mathlib.Core.Path.{◌≡◌}
use mathlib.Core.Bool.{Bool, ◌&&◌, ◌||◌}
use native.Mathlib.Omega.{arith}
use codex_quota_glance.Prelude.Tests.{ltb, leb, ◌==◌, if◌then◌else◌}
use codex_quota_glance.Prelude.Words.{u64_max}

pub record Duration : Type 0 where
  pub secs : ℕ
  pub nanos : ℕ

abbrev pub billion : ℕ
billion = 1_000_000_000

-- The length in nanoseconds.
abbrev pub total : Duration → ℕ
total d = d.secs * billion + d.nanos

pub record IsDuration (d : Duration) : Type 0 where
  pub secs_fit : d.secs ≤ u64_max
  pub nanos_fit : d.nanos < billion

abbrev pub from_secs : ℕ → Duration
from_secs n = record { secs = n; nanos = 0 }

abbrev pub from_millis : ℕ → Duration
from_millis n = record { secs = n / 1000; nanos = n % 1000 * 1_000_000 }

-- The derived order, field by field.
abbrev pub lt_duration : Duration → Duration → Bool
lt_duration a b = ltb a.secs b.secs || (a.secs == b.secs && ltb a.nanos b.nanos)

-- `Ord::min`.
unfoldable pub min_duration : Duration → Duration → Duration
min_duration a b = if lt_duration b a then b else a

abbrev pub max_duration : Duration
max_duration = record { secs = u64_max; nanos = 999_999_999 }

-- `Duration::saturating_mul`: the largest duration on overflow.
unfoldable pub saturating_mul : Duration → ℕ → Duration
saturating_mul d k =
    let secs = d.secs * k + d.nanos * k / billion in
    if leb secs u64_max then record { secs = secs; nanos = d.nanos * k % billion } else max_duration

pub lt_duration→lt :
    (a b : Duration) → IsDuration a → IsDuration b → lt_duration a b ≡ ltb (total a) (total b)
lt_duration→lt a b v w = ground arith

pub min_duration-IsDuration :
    (a b : Duration) → IsDuration a → IsDuration b → IsDuration (min_duration a b)
unfolding min_duration
min_duration-IsDuration a b v w = ground arith

pub total-min_duration :
    (a b : Duration)
    → IsDuration a
    → IsDuration b
    → total (min_duration a b) ≡ min (total a) (total b)
unfolding min_duration
total-min_duration a b v w = ground arith

pub saturating_mul-IsDuration :
    (d : Duration) (k : ℕ) → IsDuration d → IsDuration (saturating_mul d k)
unfolding saturating_mul
saturating_mul-IsDuration d k v = ground arith

pub total-saturating_mul :
    (d : Duration) (k : ℕ)
    → IsDuration d
    → total (saturating_mul d k) ≡ min (total d * k) (total max_duration)
unfolding saturating_mul
total-saturating_mul d k v = ground arith
