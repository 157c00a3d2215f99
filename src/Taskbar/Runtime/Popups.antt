-- ===== src/Taskbar/Runtime/Popups.antt =====
-- apps/codex-taskbar/src/official_runtime.rs, `ConsumptionPopupTracker`: when tokens were consumed.
use codex_quota_glance.Prelude.{
  ℕ, ltb, ◌≡◌, if◌then◌else◌, List, [], ◌∷◌, Option, none, some, Bool, true, false, not, ◌>>=◌,
  arith,
}
use codex_quota_glance.Prelude.Int.{ℤ, leb_ℤ, ltb_ℤ}
use codex_quota_glance.Domain.Usage.{is_app_server, display_total}
use codex_quota_glance.Application.Snapshots.{TokenUsageSnapshot}

pub record TokenObservation : Type 0 where
  pub observed_at_unix_ms : ℤ
  pub total : ℕ

pub record ConsumptionPopupTracker : Type 0 where
  pub latest_token : Option TokenObservation

abbrev pub new_tracker : ConsumptionPopupTracker
new_tracker = record { latest_token = none }

unfoldable pub reset : ConsumptionPopupTracker → ConsumptionPopupTracker
reset t = record { latest_token = none }

-- The three early returns of `observe_token_usage`.
pub observation_of : TokenUsageSnapshot → Option TokenObservation
observation_of n =
    if not (is_app_server n.source)
    then none
    else n.current_thread >>= λ c. display_total c >>= λ total.
        some (record { observed_at_unix_ms = n.observed_at_unix_ms; total = total })

unfoldable pub take_observation :
    ConsumptionPopupTracker
    → Option TokenObservation
    → TokenObservation
    → ConsumptionPopupTracker × Bool
take_observation t none now = (record { latest_token = some now }, false)
take_observation t (some previous) now =
    if leb_ℤ now.observed_at_unix_ms previous.observed_at_unix_ms
    then (t, false)
    else (record { latest_token = some now }, ltb previous.total now.total)

unfoldable pub observe_current :
    ConsumptionPopupTracker → Option TokenObservation → ConsumptionPopupTracker × Bool
unfolding take_observation
observe_current t none = (t, false)
observe_current t (some now) = take_observation t t.latest_token now

-- Whether a popup is due stands second.
unfoldable pub observe_token_usage :
    ConsumptionPopupTracker → Option TokenUsageSnapshot → ConsumptionPopupTracker × Bool
unfolding observe_current observation_of
observe_token_usage t snapshot = observe_current t (snapshot >>= observation_of)

unfoldable pub observe_all :
    ConsumptionPopupTracker → List (Option TokenUsageSnapshot) → ConsumptionPopupTracker
unfolding observe_token_usage
observe_all t [] = t
observe_all t (n ∷ ns) = observe_all (observe_token_usage t n).0 ns

-- The observations among the snapshots.
abbrev with_observation : Option TokenObservation → List TokenObservation → List TokenObservation
with_observation none os = os
with_observation (some o) os = o ∷ os

abbrev pub observations : List (Option TokenUsageSnapshot) → List TokenObservation
observations [] = []
observations (n ∷ ns) = with_observation (n >>= observation_of) (observations ns)

-- An observation of the tracker, or one in the list, is not after the given one.
abbrev NotAfter : TokenObservation → TokenObservation → Type 0
NotAfter l o = leb_ℤ o.observed_at_unix_ms l.observed_at_unix_ms ≡ true

abbrev pub Before : TokenObservation → TokenObservation → Type 0
Before l o = ltb_ℤ o.observed_at_unix_ms l.observed_at_unix_ms ≡ true

abbrev Reaches : Option TokenObservation → TokenObservation → Type 0
Reaches none o = ⊥
Reaches (some l) o = NotAfter l o

NotAfter-trans : (a b c : TokenObservation) → NotAfter b a → NotAfter c b → NotAfter c a
NotAfter-trans a b c h k = ground arith
