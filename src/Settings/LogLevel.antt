-- ===== src/Settings/LogLevel.antt =====
-- crates/settings/src/lib.rs: the log levels and their names.
pub mod Names
mod Tests
use codex_quota_glance.Prelude.{
  ℕ, if◌then◌else◌, List, Bool, true, false, ◌||◌, Option, none, some, String,
}
use codex_quota_glance.Prelude.Results.{Result, ok, err}
use codex_quota_glance.Prelude.Text.{trim, lower, codes, same_codes}

pub data LogLevel : Type 0 where
  off error warn info debug trace : LogLevel

unfoldable pub as_str : LogLevel → String
as_str off = "off"
as_str error = "error"
as_str warn = "warn"
as_str info = "info"
as_str debug = "debug"
as_str trace = "trace"

-- `debug_assertions` is the argument: they are on in a debug build.
unfoldable pub default_level : Bool → LogLevel
default_level debug_assertions = if debug_assertions then debug else info

-- The error holds the text that was not understood.
pub data InvalidLogLevel : Type 0 where
  invalid_log_level : String → InvalidLogLevel

-- An arm of the `match` on the lower-case name.
is_name : List ℕ → String → Bool
is_name value name = same_codes value (codes name)

level_of : List ℕ → Option LogLevel
unfolding is_name
level_of v =
    if is_name v "off" || (is_name v "none" || is_name v "disabled")
    then some off
    else if is_name v "error"
    then some error
    else if is_name v "warn" || is_name v "warning"
    then some warn
    else if is_name v "info" || is_name v "information"
    then some info
    else if is_name v "debug"
    then some debug
    else if is_name v "trace"
    then some trace
    else none

level_or_error : String → Option LogLevel → Result InvalidLogLevel LogLevel
level_or_error value none = err (invalid_log_level value)
level_or_error value (some level) = ok level

pub from_str : String → Result InvalidLogLevel LogLevel
unfolding level_of level_or_error same_codes lower trim
from_str value = level_or_error value (level_of (lower (trim value)))
