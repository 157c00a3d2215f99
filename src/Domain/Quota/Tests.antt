-- ===== src/Domain/Quota/Tests.antt =====
-- The Rust tests of quota.rs, and the theorems at concrete inputs.
use codex_quota_glance.Prelude.{ℕ, ◌≡◌, refl, List, [], ◌∷◌, none, some, false}
use codex_quota_glance.Domain.Quota.{
  QuotaValue, stale, no_window, from_authoritative, unavailable, with_session_fallback,
  is_taskbar_visible,
}
use codex_quota_glance.Domain.Quota.History.{
  WindowEvent, authoritative, outage, session, window_run, drawn, drawn-window_run,
}

abbrev pub five_hour : ℕ → QuotaValue ℕ
five_hour used = record {
  used_percent = used;
  remaining_percent = 80;
  window_minutes = some 300;
  resets_at_unix = none;
}

absent_not_revived :
    is_taskbar_visible
      (with_session_fallback (from_authoritative none no_window) (some (five_hour 20)))
    ≡ false
unfolding is_taskbar_visible with_session_fallback from_authoritative
absent_not_revived = refl

fallback_stale :
    (with_session_fallback (unavailable no_window) (some (five_hour 20))).freshness ≡ stale
unfolding with_session_fallback unavailable
fallback_stale = refl

abbrev events : List (WindowEvent ℕ)
events =
    authoritative (some (five_hour 20))
    ∷ outage
    ∷ session (some (five_hour 30))
    ∷ authoritative (some (five_hour 40))
    ∷ session (some (five_hour 50))
    ∷ []

drawn-window_run_example : drawn (window_run no_window events) ≡ some (five_hour 40)
drawn-window_run_example = drawn-window_run no_window events
