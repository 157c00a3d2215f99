-- ===== src/Settings/Storage.antt =====
-- crates/settings/src/lib.rs: how the configuration is loaded, created and saved, and the marker
-- that asks for a reload. The files beside the path of the settings are a record; `serde_json` is
-- the parameters `parse` and `print`.
pub mod Reload
mod Tests
use codex_quota_glance.Prelude.{Bool, true, false, if◌then◌else◌, Option, none, some}
use codex_quota_glance.Prelude.Results.{Result, ok, err}
use codex_quota_glance.Settings.Config.{AppConfig, default_config, normalize}

pub data ReadKind : Type 0 where
  not_found invalid_input other_kind : ReadKind

pub data ConfigError : Type 0 where
  read : ReadKind → ConfigError
  write parse_failed serialize database : ConfigError

module _ (Text : Type 0) where
  -- `settings.json`, `codex-taskbar.db` with the row of its table, and `settings.reload`; whether
  -- the path has a parent, which can be created, whether `settings.json` can be read as text where
  -- it is there, and whether SQLite opens the database, answers its query, and begins and commits
  -- a transaction.
  pub record Disk : Type 0 where
    pub has_parent : Bool
    pub writable : Bool
    pub readable : Bool
    pub opens : Bool
    pub queries : Bool
    pub begins : Bool
    pub commits : Bool
    pub legacy : Option Text
    pub database_file : Option (Option Text)
    pub marker : Bool

-- The row with id 1 of a database, if the file is there.
abbrev pub row_of : {Text : Type 0} → Option (Option Text) → Option Text
row_of none = none
row_of (some row) = row

module _ {Text : Type 0} (parse : Text → Option AppConfig) (print : AppConfig → Option Text) where
  parsed : Option AppConfig → Result ConfigError AppConfig
  parsed none = err parse_failed
  parsed (some c) = ok (normalize c)

  pub from_json : Text → Result ConfigError AppConfig
  unfolding parsed
  from_json contents = parsed (parse contents)

  pub to_json : AppConfig → Option Text
  to_json c = print (normalize c)

  -- The table is there once the database was opened.
  abbrev opened : Disk Text → Disk Text
  opened d = record d { database_file = some (row_of d.database_file) }

  -- The payload is printed for the statement, which SQLite then runs and commits.
  commit : Disk Text → Option Text → Disk Text × Result ConfigError (Unit {0})
  commit d none = (opened d, err serialize)
  commit d (some payload) =
      if d.commits
      then (record d { database_file = some (some payload) }, ok tt)
      else (opened d, err database)

  transact : Disk Text → Option Text → Disk Text × Result ConfigError (Unit {0})
  unfolding commit
  transact d payload = if d.begins then commit d payload else (opened d, err database)

  pub save_atomic : AppConfig → Disk Text → Disk Text × Result ConfigError (Unit {0})
  unfolding transact to_json
  save_atomic c d =
      if d.has_parent
      then (if d.writable
          then (if d.opens then transact d (to_json c) else (d, err database))
          else (d, err write))
      else (d, err write)

  saved :
      AppConfig
      → Disk Text × Result ConfigError (Unit {0})
      → Disk Text × Result ConfigError AppConfig
  saved c (d, ok _) = (d, ok c)
  saved c (d, err e) = (d, err e)

  save_imported :
      Disk Text → Result ConfigError AppConfig → Disk Text × Result ConfigError AppConfig
  unfolding saved
  save_imported d (err e) = (d, err e)
  save_imported d (ok c) = saved c (save_atomic c d)

  import_legacy : Disk Text → Option Text → Disk Text × Result ConfigError AppConfig
  unfolding save_imported
  import_legacy d none = (d, err (read not_found))
  import_legacy d (some contents) =
      if d.readable then save_imported d (from_json contents) else (d, err (read other_kind))

  -- A row is read; with no row or no file, `settings.json` is.
  load_row : Disk Text → Option Text → Disk Text × Result ConfigError AppConfig
  unfolding import_legacy
  load_row d none = import_legacy d d.legacy
  load_row d (some payload) = (d, from_json payload)

  -- `is_file`, and then `open_settings_database`, which creates the table, and the query.
  load_database : Disk Text → Option (Option Text) → Disk Text × Result ConfigError AppConfig
  unfolding load_row
  load_database d none = load_row d none
  load_database d (some row) =
      if d.opens
      then (if d.queries then load_row d row else (d, err database))
      else (d, err database)

  pub load : Disk Text → Disk Text × Result ConfigError AppConfig
  unfolding load_database
  load d = if d.has_parent then load_database d d.database_file else (d, err (read invalid_input))

  create :
      Bool → Disk Text × Result ConfigError AppConfig → Disk Text × Result ConfigError AppConfig
  unfolding saved
  create debug (d, ok c) = (d, ok c)
  create debug (d, err (read not_found)) =
      saved (default_config debug) (save_atomic (default_config debug) d)
  create debug (d, err e) = (d, err e)

  pub load_or_create : Bool → Disk Text → Disk Text × Result ConfigError AppConfig
  unfolding create
  load_or_create debug d = create debug (load d)

module _ {Text : Type 0} where
  pub request_reload : Disk Text → Disk Text × Result ConfigError (Unit {0})
  request_reload d =
      if d.has_parent
      then (if d.writable then (record d { marker = true }, ok tt) else (d, err write))
      else (d, err write)

  pub consume_reload_request : Disk Text → Disk Text × Result ConfigError Bool
  consume_reload_request d =
      if d.has_parent
      then (if d.marker
          then (if d.writable then (record d { marker = false }, ok true) else (d, err write))
          else (d, ok false))
      else (d, ok false)
