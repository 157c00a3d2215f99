-- ===== src/Settings/LogLevel/Names.antt =====
-- The names round trip.
use codex_quota_glance.Prelude.{◌≡◌, refl}
use codex_quota_glance.Prelude.Results.{ok}
use codex_quota_glance.Prelude.Text.{
  trim, trim_start, trim_end, is_whitespace, lower, lower_code, same_codes,
}
use codex_quota_glance.Settings.LogLevel.{LogLevel, as_str, from_str}

-- The name of each level is read back as the level.
from_str-as_str : (l : LogLevel) → from_str (as_str l) ≡ ok l
unfolding from_str as_str trim trim_start trim_end is_whitespace lower lower_code same_codes
from_str-as_str LogLevel.off = refl
from_str-as_str LogLevel.error = refl
from_str-as_str LogLevel.warn = refl
from_str-as_str LogLevel.info = refl
from_str-as_str LogLevel.debug = refl
from_str-as_str LogLevel.trace = refl
