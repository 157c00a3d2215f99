-- ===== src/Settings/Config/Tests.antt =====
-- Tests of the bounds of the configuration.
use codex_quota_glance.Prelude.{◌≡◌, refl, some, false, true}
use codex_quota_glance.Prelude.Int.{negsuc}
use codex_quota_glance.Prelude.Text.{trim, is_whitespace}
use codex_quota_glance.Settings.Config.{
  DisplayItemKind-discrete, AppConfig, default_config, default_display_items, normalize,
}
use codex_quota_glance.Settings.Config.Normal.{IsNormal, normalize-IsNormal}

-- A configuration of version 8 with values out of their bounds and an item that stands twice.
abbrev broken : AppConfig
broken = record (default_config true) {
  version = 8;
  prefer_secondary_monitor = false;
  taskbar_width_px = 9999;
  traffic_monitor_offset_px = negsuc 98;
  taskbar_background_opacity_percent = 1;
  history_retention_days = 45;
  log_retention_days = 365;
  codex_cli_path = some "  ";
  target_monitor_device = some " \\\\.\\DISPLAY2 ";
}

broken_monitor : (normalize broken).target_monitor_device ≡ some "\\\\.\\DISPLAY2"
unfolding normalize trim is_whitespace
broken_monitor = refl

broken_width : (normalize broken).taskbar_width_px ≡ 620
unfolding normalize
broken_width = refl

broken_items : (normalize broken).display_items ≡ default_display_items
unfolding normalize default_config default_display_items DisplayItemKind-discrete
broken_items = refl

legacy_width :
    (normalize
      (record (default_config false) { version = 4; taskbar_width_px = 620 })).taskbar_width_px
    ≡ 440
unfolding normalize default_config
legacy_width = refl

normalize-IsNormal_example : IsNormal (normalize broken)
normalize-IsNormal_example = normalize-IsNormal broken
