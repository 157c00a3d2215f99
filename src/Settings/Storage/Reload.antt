-- ===== src/Settings/Storage/Reload.antt =====
-- What is loaded is loaded again.
use codex_quota_glance.Prelude.{
  ◌≡◌, refl, subst, inl, inr, Bool-cases, ◌∙◌, Bool, true, false, Option, none, some, arith, ap,
  sym, ◌&&◌,
}
use codex_quota_glance.Prelude.Results.{Result, ok, err}
use codex_quota_glance.Settings.Config.{AppConfig, default_config, default_display_items, normalize}
use codex_quota_glance.Settings.Config.Normal.{IsNormal, normalize-IsNormal, normalize_fixed}
use codex_quota_glance.Settings.Storage.{
  Disk, ConfigError, not_found, load, load_or_create, save_atomic, saved, from_json, to_json,
  parsed, import_legacy, save_imported, load_row, load_database, commit, transact, create,
  request_reload, consume_reload_request,
}

pub default-IsNormal : (debug : Bool) → IsNormal (default_config debug)
unfolding default_config default_display_items
default-IsNormal debug = record {
  current = refl;
  width_low = omega arith;
  width_high = omega arith;
  spacing = omega arith;
  offset_low = omega arith;
  offset_high = omega arith;
  opacity_low = omega arith;
  opacity_high = omega arith;
  history = ground arith;
  log = ground arith;
  monitor = tt;
  cli_path = tt;
  items_some = tt;
  items_distinct = ground arith;
}

module _ {Text : Type 0} (parse : Text → Option AppConfig) (print : AppConfig → Option Text)
    (parse-print : (c : AppConfig) (t : Text) → print c ≡ some t → parse t ≡ some c) where
  -- The next loading gives the configuration `c` and changes no file, whatever `settings.json` holds
  -- by then and whether or not it can be read.
  abbrev Reloads : AppConfig → Disk Text → Type 0
  Reloads c d =
      (old : Option Text) (readable : Bool)
      → load parse print (record d { legacy = old; readable = readable })
        ≡ (record d { legacy = old; readable = readable }, ok c)

  -- Where the row with the payload of a configuration is there, loading reads it.
  row-Reloads :
      (c : AppConfig) (d : Disk Text) (t : Text)
      → d.has_parent ≡ true
      → d.opens ≡ true
      → d.queries ≡ true
      → d.database_file ≡ some (some t)
      → from_json parse print t ≡ ok c
      → Reloads c d
  unfolding load load_database load_row
  row-Reloads c d t p q r f e old readable = ground arith

  from_json-print :
      (c : AppConfig) (t : Text)
      → print (normalize c) ≡ some t
      → from_json parse print t ≡ ok (normalize c)
  unfolding from_json parsed
  from_json-print c t e =
      ground
        (arith, parse-print (normalize c) t e, normalize_fixed (normalize c) (normalize-IsNormal c))

  commit-Reloads :
      (c : AppConfig) (d : Disk Text) (o : Option Text) (d' : Disk Text)
      → d.has_parent ≡ true
      → d.opens ≡ true
      → d.queries ≡ true
      → print (normalize c) ≡ o
      → commit parse print d o ≡ (d', ok tt)
      → Reloads (normalize c) d'
  unfolding commit
  commit-Reloads c d none d' p q u e s = ground arith
  commit-Reloads c d (some t) d' p q u e s = elim (Bool-cases d.commits) [
    | inl y ↦
        let same : record d { database_file = some (some t) } ≡ d' = ground arith in
        subst (Reloads (normalize c)) same (
          row-Reloads (normalize c) (record d { database_file = some (some t) }) t p q u refl
            (from_json-print c t e))
    | inr n ↦ ground arith
  ]

  -- Where saving a configuration succeeds and the database answers queries, loading gives the
  -- configuration back normalised.
  save_atomic-Reloads :
      (c : AppConfig) (d d' : Disk Text)
      → d.queries ≡ true
      → save_atomic parse print c d ≡ (d', ok tt)
      → Reloads (normalize c) d'
  unfolding save_atomic to_json transact
  save_atomic-Reloads c d d' u s =
      commit-Reloads c d (print (normalize c)) d' (ground arith) (ground arith) u refl
        (ground arith)

  saved-inv :
      (c : AppConfig) (r : Disk Text × Result ConfigError (Unit {0})) (d' : Disk Text)
      (c' : AppConfig)
      → saved parse print c r ≡ (d', ok c')
      → (c ≡ c') × (r ≡ (d', ok tt))
  unfolding saved
  saved-inv c (d, ok tt) d' c' s = ground arith
  saved-inv c (d, err e) d' c' s = ground arith

  saved-Reloads :
      (c : AppConfig) (d d' : Disk Text) (c' : AppConfig)
      → IsNormal c
      → d.queries ≡ true
      → saved parse print c (save_atomic parse print c d) ≡ (d', ok c')
      → Reloads c' d'
  saved-Reloads c d d' c' v u s =
      let (same, done) = saved-inv c (save_atomic parse print c d) d' c' s in
      subst (λ x. Reloads x d') (normalize_fixed c v ∙ same) (save_atomic-Reloads c d d' u done)

  parsed-IsNormal :
      (o : Option AppConfig) (c : AppConfig) → parsed parse print o ≡ ok c → IsNormal c
  unfolding parsed
  parsed-IsNormal none c e = cc
  parsed-IsNormal (some p) c e =
      let same : normalize p ≡ c = cc in subst IsNormal same (normalize-IsNormal p)

  save_imported-Reloads :
      (d d' : Disk Text) (r : Result ConfigError AppConfig) (c : AppConfig)
      → ((c' : AppConfig) → r ≡ ok c' → IsNormal c')
      → d.queries ≡ true
      → save_imported parse print d r ≡ (d', ok c)
      → Reloads c d'
  unfolding save_imported
  save_imported-Reloads d d' (ok c') c v u e = saved-Reloads c' d d' c (v c' refl) u e
  save_imported-Reloads d d' (err _) c v u e = ground arith

  import-Reloads :
      (d d' : Disk Text) (o : Option Text) (c : AppConfig)
      → d.queries ≡ true
      → import_legacy parse print d o ≡ (d', ok c)
      → Reloads c d'
  unfolding import_legacy from_json
  import-Reloads d d' none c u e = ground arith
  import-Reloads d d' (some t) c u e = elim (Bool-cases d.readable) [
    | inl y ↦
        save_imported-Reloads d d' (parsed parse print (parse t)) c (parsed-IsNormal (parse t)) u
          (ground arith)
    | inr n ↦ ground arith
  ]

  load_database-Reloads :
      (d d' : Disk Text) (o : Option (Option Text)) (c : AppConfig)
      → d.has_parent ≡ true
      → d.queries ≡ true
      → d.database_file ≡ o
      → load_database parse print d o ≡ (d', ok c)
      → Reloads c d'
  unfolding load_database load_row
  load_database-Reloads d d' none c p u f e = import-Reloads d d' d.legacy c u e
  load_database-Reloads d d' (some none) c p u f e = import-Reloads d d' d.legacy c u (ground arith)
  load_database-Reloads d d' (some (some t)) c p u f e =
      let same : d ≡ d' = ground arith in
      subst (Reloads c) same (row-Reloads c d t p (ground arith) u f (ground arith))

  load-Reloads :
      (d d' : Disk Text) (c : AppConfig)
      → d.queries ≡ true
      → load parse print d ≡ (d', ok c)
      → Reloads c d'
  unfolding load
  load-Reloads d d' c u e = elim (Bool-cases d.has_parent) [
    | inl p ↦ load_database-Reloads d d' d.database_file c p u refl (ground arith)
    | inr p ↦ ground arith
  ]

  -- Neither saving nor loading changes whether the database answers queries.
  commit-queries :
      (d : Disk Text) (o : Option Text) → (commit parse print d o).0.queries ≡ d.queries
  unfolding commit
  commit-queries d none = refl
  commit-queries d (some t) = ground arith

  save_atomic-queries :
      (c : AppConfig) (d : Disk Text) → (save_atomic parse print c d).0.queries ≡ d.queries
  unfolding save_atomic transact
  save_atomic-queries c d = ground (arith, commit-queries d (to_json parse print c))

  saved-disk :
      (c : AppConfig) (r : Disk Text × Result ConfigError (Unit {0}))
      → (saved parse print c r).0 ≡ r.0
  unfolding saved
  saved-disk c (d, ok tt) = refl
  saved-disk c (d, err e) = refl

  import-queries :
      (d : Disk Text) (r : Result ConfigError AppConfig)
      → (save_imported parse print d r).0.queries ≡ d.queries
  unfolding save_imported
  import-queries d (err e) = refl
  import-queries d (ok c) =
      ap (λ x. x.queries) (saved-disk c (save_atomic parse print c d)) ∙ save_atomic-queries c d

  import_legacy-queries :
      (d : Disk Text) (o : Option Text) → (import_legacy parse print d o).0.queries ≡ d.queries
  unfolding import_legacy
  import_legacy-queries d none = refl
  import_legacy-queries d (some t) = elim (Bool-cases d.readable) [
    | inl y ↦ simp y (import-queries d (from_json parse print t))
    | inr n ↦ simp n refl
  ]

  load_row-queries :
      (d : Disk Text) (row : Option Text) → (load_row parse print d row).0.queries ≡ d.queries
  unfolding load_row
  load_row-queries d (some t) = refl
  load_row-queries d none = import_legacy-queries d d.legacy

  load_database-queries :
      (d : Disk Text) (o : Option (Option Text))
      → (load_database parse print d o).0.queries ≡ d.queries
  unfolding load_database
  load_database-queries d none = load_row-queries d none
  load_database-queries d (some row) = elim (Bool-cases (d.opens && d.queries)) [
    | inl y ↦ ground (arith, load_row-queries d row)
    | inr n ↦ ground (arith, load_row-queries d row)
  ]

  load-queries : (d : Disk Text) → (load parse print d).0.queries ≡ d.queries
  unfolding load
  load-queries d = elim (Bool-cases d.has_parent) [
    | inl y ↦ simp y (load_database-queries d d.database_file)
    | inr n ↦ simp n refl
  ]

  create-Reloads :
      (debug : Bool) (d d' : Disk Text) (r : Disk Text × Result ConfigError AppConfig)
      (c : AppConfig)
      → d.queries ≡ true
      → load parse print d ≡ r
      → create parse print debug r ≡ (d', ok c)
      → Reloads c d'
  unfolding create
  create-Reloads debug d d' (d1, ok c1) c u l e = load-Reloads d d' c u (l ∙ e)
  create-Reloads debug d d' (d1, err (ConfigError.read not_found)) c u l e =
      saved-Reloads (default_config debug) d1 d' c (default-IsNormal debug)
        (ap (λ r. r.0.queries) (sym l) ∙ load-queries d ∙ u) e
  create-Reloads debug d d' (d1, err _) c u l e = ground arith

  -- Where the configuration could be loaded, imported from the old file or created, and the
  -- database answers queries, the next loading gives the same configuration and changes no file,
  -- whatever the old file then holds: it is not read again.
  pub load_or_create-load :
      (debug : Bool) (d d' : Disk Text) (c : AppConfig) (old : Option Text) (readable : Bool)
      → d.queries ≡ true
      → load_or_create parse print debug d ≡ (d', ok c)
      → load parse print (record d' { legacy = old; readable = readable })
        ≡ (record d' { legacy = old; readable = readable }, ok c)
  unfolding load_or_create
  load_or_create-load debug d d' c old readable u e =
      create-Reloads debug d d' (load parse print d) c u refl e old readable

module _ {Text : Type 0} where
  -- A request is consumed once.
  pub consume-request :
      (d d' : Disk Text)
      → request_reload d ≡ (d', ok tt)
      → (consume_reload_request d' ≡ (record d' { marker = false }, ok true))
        × (consume_reload_request (consume_reload_request d').0
            ≡ (record d' { marker = false }, ok false))
  unfolding request_reload consume_reload_request
  consume-request d d' e = ground arith
