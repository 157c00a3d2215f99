-- ===== src/Settings/LogLevel/Tests.antt =====
-- Tests of the names of the log levels.
use codex_quota_glance.Prelude.{◌≡◌, refl}
use codex_quota_glance.Prelude.Results.{ok, err}
use codex_quota_glance.Prelude.Text.{is_whitespace}
use codex_quota_glance.Settings.LogLevel.{off, info, from_str, invalid_log_level}

alias_of_off : from_str " Disabled" ≡ ok off
unfolding from_str is_whitespace
alias_of_off = refl

long_name : from_str "INFORMATION" ≡ ok info
unfolding from_str is_whitespace
long_name = refl

unknown_name : from_str "loud" ≡ err (invalid_log_level "loud")
unfolding from_str is_whitespace
unknown_name = refl
