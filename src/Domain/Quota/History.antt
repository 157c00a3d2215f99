-- ===== src/Domain/Quota/History.antt =====
-- A window through any sequence of authoritative snapshots, outages and session fallbacks.
use codex_quota_glance.Prelude.{
  ◌≡◌, refl, if◌then◌else◌, List, [], ◌∷◌, Option, none, some, Bool, true, false, is_some, not,
  ◌&&◌, arith, ◌∙◌, ap,
}
use codex_quota_glance.Domain.Quota.{
  QuotaSource, QuotaValue, QuotaWindowState, is_unknown, is_present, is_absent, is_fresh, no_window,
  from_authoritative, unavailable, with_session_fallback, is_taskbar_visible,
}

pub data WindowEvent (P : Type 0) : Type 0 where
  authoritative : Option (QuotaValue P) → WindowEvent P
  outage : WindowEvent P
  session : Option (QuotaValue P) → WindowEvent P

abbrev pub from_server : QuotaSource → Bool
from_server QuotaSource.app_server = true
from_server _ = false

module _ {P : Type 0} where
  -- A current value is the last known one.
  abbrev pub Remembers : Option (QuotaValue P) → Option (QuotaValue P) → Type 0
  Remembers none last = Unit {0}
  Remembers (some v) last = last ≡ some v

  window_step : QuotaWindowState P → WindowEvent P → QuotaWindowState P
  unfolding from_authoritative unavailable with_session_fallback
  window_step w (authoritative v) = from_authoritative v w
  window_step w outage = unavailable w
  window_step w (session v) = with_session_fallback w v

  pub window_run : QuotaWindowState P → List (WindowEvent P) → QuotaWindowState P
  unfolding window_step
  window_run w [] = w
  window_run w (e ∷ es) = window_run (window_step w e) es

  -- What every reachable window satisfies: the three values of the presence agree with the value,
  -- the freshness and the source, and a current value is also the last known one.
  pub record IsConsistent (w : QuotaWindowState P) : Type 0 where
    pub valued : is_present w.presence ≡ is_some w.value
    pub sourced : is_fresh w.freshness ≡ from_server w.source
    pub absent_fresh : (is_absent w.presence && not (is_fresh w.freshness)) ≡ false
    pub unknown_stale : (is_unknown w.presence && is_fresh w.freshness) ≡ false
    pub remembered : Remembers w.value w.last_known

  pub no_window-IsConsistent : IsConsistent no_window
  unfolding is_present is_fresh is_absent is_unknown
  no_window-IsConsistent = ground arith

  pub from_authoritative-IsConsistent :
      (v : Option (QuotaValue P)) (w : QuotaWindowState P) → IsConsistent (from_authoritative v w)
  unfolding from_authoritative is_present is_fresh is_absent is_unknown
  from_authoritative-IsConsistent v w = ground arith

  pub unavailable-IsConsistent : (w : QuotaWindowState P) → IsConsistent (unavailable w)
  unfolding unavailable is_present is_fresh is_absent is_unknown
  unavailable-IsConsistent w = ground arith

  pub with_session_fallback-IsConsistent :
      (w : QuotaWindowState P) (v : Option (QuotaValue P))
      → IsConsistent w
      → IsConsistent (with_session_fallback w v)
  unfolding with_session_fallback is_present is_fresh is_absent is_unknown
  with_session_fallback-IsConsistent w v h = ground arith

  window_step-IsConsistent :
      (w : QuotaWindowState P) (e : WindowEvent P) → IsConsistent w → IsConsistent (window_step w e)
  unfolding window_step
  window_step-IsConsistent w (authoritative v) h = from_authoritative-IsConsistent v w
  window_step-IsConsistent w outage h = unavailable-IsConsistent w
  window_step-IsConsistent w (session v) h = with_session_fallback-IsConsistent w v h

  -- Any sequence of snapshots, outages and fallbacks keeps a window consistent.
  window_run-IsConsistent :
      (w : QuotaWindowState P) (es : List (WindowEvent P))
      → IsConsistent w
      → IsConsistent (window_run w es)
  unfolding window_run
  window_run-IsConsistent w [] h = h
  window_run-IsConsistent w (e ∷ es) h =
      window_run-IsConsistent (window_step w e) es (window_step-IsConsistent w e h)

  -- What the taskbar draws of a window.
  abbrev pub drawn : QuotaWindowState P → Option (QuotaValue P)
  drawn w = if is_taskbar_visible w then w.value else none

  -- The specification: the latest authoritative snapshot, unless an outage came after it.
  abbrev pub latest_authoritative :
      Option (QuotaValue P) → List (WindowEvent P) → Option (QuotaValue P)
  latest_authoritative v [] = v
  latest_authoritative v (authoritative u ∷ es) = latest_authoritative u es
  latest_authoritative v (outage ∷ es) = latest_authoritative none es
  latest_authoritative v (session u ∷ es) = latest_authoritative v es

  drawn-from_authoritative :
      (v : Option (QuotaValue P)) (w : QuotaWindowState P) → drawn (from_authoritative v w) ≡ v
  unfolding from_authoritative is_taskbar_visible
  drawn-from_authoritative v w = ground arith

  drawn-unavailable : (w : QuotaWindowState P) → drawn (unavailable w) ≡ none
  unfolding unavailable is_taskbar_visible
  drawn-unavailable w = ground arith

  drawn-with_session_fallback :
      (w : QuotaWindowState P) (v : Option (QuotaValue P))
      → drawn (with_session_fallback w v) ≡ drawn w
  unfolding with_session_fallback is_taskbar_visible
  drawn-with_session_fallback w v = ground arith

  -- After any events the taskbar draws exactly the latest authoritative value: nothing after an
  -- outage or an explicit absence, and never a session fallback.
  pub drawn-window_run :
      (w : QuotaWindowState P) (es : List (WindowEvent P))
      → drawn (window_run w es) ≡ latest_authoritative (drawn w) es
  unfolding window_run
  drawn-window_run w [] = refl
  drawn-window_run w (authoritative v ∷ es) =
      drawn-window_run (window_step w (authoritative v)) es
      ∙ ap (λ u. latest_authoritative u es) (drawn-from_authoritative v w)
  drawn-window_run w (outage ∷ es) =
      drawn-window_run (window_step w outage) es
      ∙ ap (λ u. latest_authoritative u es) (drawn-unavailable w)
  drawn-window_run w (session v ∷ es) =
      drawn-window_run (window_step w (session v)) es
      ∙ ap (λ u. latest_authoritative u es) (drawn-with_session_fallback w v)
