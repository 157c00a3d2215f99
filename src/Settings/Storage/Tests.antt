-- ===== src/Settings/Storage/Tests.antt =====
-- Tests of loading and saving. A text stands for the configuration that it holds.
use codex_quota_glance.Prelude.{◌≡◌, refl, sym, Option, none, some, true, false, ap}
use codex_quota_glance.Prelude.Results.{ok, err}
use codex_quota_glance.Settings.Config.{AppConfig, default_config, normalize}
use codex_quota_glance.Settings.Config.Normal.{normalize_fixed}
use codex_quota_glance.Settings.Storage.{
  Disk, database, read, other_kind, load, load_or_create, save_atomic, from_json,
}
use codex_quota_glance.Settings.Storage.Reload.{load_or_create-load, default-IsNormal}

abbrev parse : AppConfig → Option AppConfig
parse c = some c

abbrev print : AppConfig → Option AppConfig
print c = some c

parse-print : (c t : AppConfig) → print c ≡ some t → parse t ≡ some c
parse-print c t e = sym e

abbrev no_files : Disk AppConfig
no_files = record {
  has_parent = true;
  writable = true;
  readable = true;
  opens = true;
  queries = true;
  begins = true;
  commits = true;
  legacy = none;
  database_file = none;
  marker = false;
}

abbrev narrow : AppConfig
narrow = record (default_config false) { taskbar_width_px = 240 }

abbrev with_legacy : Disk AppConfig
with_legacy = record no_files { legacy = some narrow }

abbrev after : Disk AppConfig → AppConfig → Disk AppConfig
after d c = record d { database_file = some (some c) }

locked :
    load parse print (record (after no_files narrow) { opens = false })
    ≡ (record (after no_files narrow) { opens = false }, err database)
unfolding load
locked = refl

created :
    load_or_create parse print false no_files
    ≡ (after no_files (default_config false), ok (default_config false))
unfolding load_or_create load save_atomic from_json
created =
    ap (λ c. (after no_files c, ok (default_config false)))
      (normalize_fixed (default_config false) (default-IsNormal false))

imported :
    load_or_create parse print false with_legacy
    ≡ (after with_legacy (normalize (normalize narrow)), ok (normalize narrow))
unfolding load_or_create load save_atomic from_json
imported = refl

unanswered :
    load parse print (record (after no_files narrow) { queries = false })
    ≡ (record (after no_files narrow) { queries = false }, err database)
unfolding load
unanswered = refl

-- A `settings.json` that cannot be read is an error, and not replaced by the default.
unreadable :
    load_or_create parse print false (record with_legacy { readable = false })
    ≡ (record with_legacy { readable = false }, err (read other_kind))
unfolding load_or_create load
unreadable = refl

uncommitted :
    save_atomic parse print narrow (record no_files { commits = false })
    ≡ (record no_files { commits = false; database_file = some none }, err database)
unfolding save_atomic
uncommitted = refl

-- The old file has changed and cannot be read any more.
abbrev later_disk : Disk AppConfig
later_disk = record (after with_legacy (normalize (normalize narrow))) {
  legacy = some (default_config false);
  readable = false;
}

load_or_create-load_example : load parse print later_disk ≡ (later_disk, ok (normalize narrow))
load_or_create-load_example =
    load_or_create-load parse print parse-print false with_legacy
      (after with_legacy (normalize (normalize narrow))) (normalize narrow)
      (some (default_config false)) false refl imported
