-- ===== src/Domain/Quota.antt =====
-- crates/domain/src/quota.rs: one quota window, its three-valued presence, and where it comes from.
pub mod Bounds
pub mod History
mod Tests
use codex_quota_glance.Prelude.{
  ℕ, if◌then◌else◌, Option, none, some, Bool, true, false, ◌&&◌, is_some, or_else,
}
use codex_quota_glance.Prelude.Int.{ℤ}
use codex_quota_glance.Prelude.F32.{F32, clamp_percent}

pub data QuotaPresence : Type 0 where
  present absent unknown : QuotaPresence

pub data Freshness : Type 0 where
  fresh stale : Freshness

pub data QuotaSource : Type 0 where
  app_server session_fallback no_source : QuotaSource

unfoldable pub is_unknown : QuotaPresence → Bool
is_unknown unknown = true
is_unknown _ = false

unfoldable pub is_present : QuotaPresence → Bool
is_present present = true
is_present _ = false

unfoldable pub is_absent : QuotaPresence → Bool
is_absent absent = true
is_absent _ = false

unfoldable pub is_fresh : Freshness → Bool
is_fresh fresh = true
is_fresh stale = false

-- `P` is the type of percentages, the source's `f32`.
pub record QuotaValue (P : Type 0) : Type 0 where
  pub used_percent : P
  pub remaining_percent : P
  pub window_minutes : Option ℕ
  pub resets_at_unix : Option ℤ

pub record QuotaWindowState (P : Type 0) : Type 0 where
  pub presence : QuotaPresence
  pub freshness : Freshness
  pub source : QuotaSource
  pub value : Option (QuotaValue P)
  pub last_known : Option (QuotaValue P)

module _ {P : Type 0} ⦃f : F32 P⦄ where
  unfoldable pub from_used_percent : P → Option ℕ → Option ℤ → QuotaValue P
  from_used_percent used minutes resets =
      let used_percent = clamp_percent used in
      record {
        used_percent = used_percent;
        remaining_percent = f.sub f.hundred_percent used_percent;
        window_minutes = minutes;
        resets_at_unix = resets;
      }

module _ {P : Type 0} where
  abbrev pub no_window : QuotaWindowState P
  no_window = record {
    presence = unknown;
    freshness = stale;
    source = no_source;
    value = none;
    last_known = none;
  }

  unfoldable pub from_authoritative :
      Option (QuotaValue P) → QuotaWindowState P → QuotaWindowState P
  from_authoritative (some value) previous = record {
    presence = present;
    freshness = fresh;
    source = app_server;
    value = some value;
    last_known = some value;
  }
  from_authoritative none previous = record {
    presence = absent;
    freshness = fresh;
    source = app_server;
    value = none;
    last_known = previous.last_known;
  }

  unfoldable pub unavailable : QuotaWindowState P → QuotaWindowState P
  unavailable previous = record {
    presence = unknown;
    freshness = stale;
    source = no_source;
    value = none;
    last_known = or_else previous.value previous.last_known;
  }

  fill : QuotaWindowState P → Option (QuotaValue P) → QuotaWindowState P
  fill window (some value) = record {
    presence = present;
    freshness = stale;
    source = session_fallback;
    value = some value;
    last_known = some value;
  }
  fill window none = window

  unfoldable pub with_session_fallback :
      QuotaWindowState P → Option (QuotaValue P) → QuotaWindowState P
  unfolding is_unknown fill
  with_session_fallback window value =
      if is_unknown window.presence then fill window value else window

  unfoldable pub is_taskbar_visible : QuotaWindowState P → Bool
  unfolding is_present is_fresh
  is_taskbar_visible window =
      is_present window.presence && (is_fresh window.freshness && is_some window.value)
