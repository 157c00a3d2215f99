-- ===== src/AppServer/Threads/Tests.antt =====
-- The threads at concrete inputs.
use mathlib.Core.List.{Permᴰ}
use codex_quota_glance.Prelude.{ℕ, ◌≡◌, refl, [], ◌∷◌, none, option_map}
use codex_quota_glance.Prelude.Int.{pos, difference}
use codex_quota_glance.Domain.Activity.{ActivityState, executing, failed}
use codex_quota_glance.AppServer.Threads.{
  ThreadActivityRecord, aggregated_activity, is_candidate, is_terminal_activity, saturating_sub,
  candidates,
}
use codex_quota_glance.AppServer.Threads.Order.{shown, aggregated_activity_lem}

abbrev thread : ActivityState → ℕ → ThreadActivityRecord ℕ
thread state at = record {
  event = record {
    method = "turn";
    state = state;
    thread_id = none;
    turn_id = none;
    item_id = none;
    raw = 0;
  };
  observed_at_unix_ms = pos at;
}

running : is_candidate (pos 20_000) (thread executing 0) ≡ is_candidate (pos 5000) (thread failed 0)
unfolding is_candidate is_terminal_activity saturating_sub difference
running = refl

aggregated_activity_lem_example :
    option_map
      (λ e. e.state)
      (aggregated_activity (thread executing 0 ∷ thread failed 0 ∷ []) none (pos 20_000))
    ≡ shown (candidates (pos 20_000) (thread executing 0 ∷ thread failed 0 ∷ [])) none
aggregated_activity_lem_example =
    (aggregated_activity_lem (thread executing 0 ∷ thread failed 0 ∷ [])
      (thread failed 0 ∷ thread executing 0 ∷ []) none (pos 20_000) ∣ Permᴰ.swap refl refl ∣₁).0
