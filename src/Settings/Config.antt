-- ===== src/Settings/Config.antt =====
-- crates/settings/src/lib.rs: the configuration and how it is brought into its bounds.
pub mod Normal
mod Tests
use codex_quota_glance.Prelude.{
  ℕ, min, max, ltb, ◌==◌, if◌then◌else◌, List, [], ◌∷◌, Option, none, some, Bool, true, false, not,
  ◌&&◌, ◌||◌, String, ite, ◌>>=◌,
}
use codex_quota_glance.Prelude.Int.{ℤ, pos, ltb_ℤ}
use codex_quota_glance.Prelude.Text.{trim, is_empty}
use codex_quota_glance.Domain.Layout.{
  DisplayItemKind, TaskbarAnchor, activity_light, quota_rings, reset_countdown,
  current_thread_tokens, today_tokens, input_tokens, output_tokens, cache_hit_rate, data_freshness,
}
use codex_quota_glance.Settings.LogLevel.{LogLevel, default_level}

abbrev pub config_version : ℕ
config_version = 9

abbrev pub default_width_px : ℕ
default_width_px = 440

abbrev pub min_taskbar_width_px : ℕ
min_taskbar_width_px = 200

abbrev pub max_taskbar_width_px : ℕ
max_taskbar_width_px = 620

abbrev pub max_safe_spacing_px : ℕ
max_safe_spacing_px = 1024

abbrev pub max_traffic_monitor_offset_px : ℕ
max_traffic_monitor_offset_px = 4096

abbrev pub default_taskbar_background_opacity_percent : ℕ
default_taskbar_background_opacity_percent = 70

abbrev pub min_taskbar_background_opacity_percent : ℕ
min_taskbar_background_opacity_percent = 20

abbrev pub default_history_retention_days : ℕ
default_history_retention_days = 90

abbrev pub default_log_retention_days : ℕ
default_log_retention_days = 30

pub data SyncMode : Type 0 where
  smart economy : SyncMode

pub DisplayItemKind-discrete : Discrete DisplayItemKind
DisplayItemKind-discrete = hlevel

pub record DisplayItemSetting : Type 0 where
  pub kind : DisplayItemKind
  pub visible : Bool
  pub order : ℕ
  pub min_width_px : ℕ
  pub keep_priority : ℕ

pub record AppConfig : Type 0 where
  pub version : ℕ
  pub target_monitor_device : Option String
  pub prefer_secondary_monitor : Bool
  pub anchor : TaskbarAnchor
  pub taskbar_width_px : ℕ
  pub safe_spacing_px : ℕ
  pub traffic_monitor_offset_px : ℤ
  pub display_items : List DisplayItemSetting
  pub log_level : LogLevel
  pub reduce_motion : Bool
  pub sync_mode : SyncMode
  pub history_retention_days : ℕ
  pub log_retention_days : ℕ
  pub adaptive_chunk_download : Bool
  pub taskbar_background_opacity_percent : ℕ
  pub codex_cli_path : Option String

abbrev pub default_item_setting : DisplayItemSetting
default_item_setting = record {
  kind = activity_light;
  visible = true;
  order = 0;
  min_width_px = 16;
  keep_priority = 30;
}

abbrev item : DisplayItemKind → Bool → (order min_width keep_priority : ℕ) → DisplayItemSetting
item kind visible order min_width keep_priority = record {
  kind = kind;
  visible = visible;
  order = order;
  min_width_px = min_width;
  keep_priority = keep_priority;
}

unfoldable pub default_display_items : List DisplayItemSetting
default_display_items =
    item activity_light true 0 16 30
    ∷ item quota_rings true 1 46 29
    ∷ item reset_countdown true 2 52 15
    ∷ item today_tokens true 3 62 18
    ∷ item cache_hit_rate true 4 58 20
    ∷ item current_thread_tokens false 5 58 8
    ∷ item input_tokens false 6 54 6
    ∷ item output_tokens false 7 54 6
    ∷ item data_freshness false 8 40 2
    ∷ []

unfoldable pub default_config : (debug_assertions : Bool) → AppConfig
unfolding default_display_items
default_config debug_assertions = record {
  version = config_version;
  target_monitor_device = none;
  prefer_secondary_monitor = true;
  anchor = TaskbarAnchor.right;
  taskbar_width_px = default_width_px;
  safe_spacing_px = 8;
  traffic_monitor_offset_px = pos 0;
  display_items = default_display_items;
  log_level = default_level debug_assertions;
  reduce_motion = false;
  sync_mode = smart;
  history_retention_days = default_history_retention_days;
  log_retention_days = default_log_retention_days;
  adaptive_chunk_download = true;
  taskbar_background_opacity_percent = default_taskbar_background_opacity_percent;
  codex_cli_path = none;
}

some_if_not_empty : String → Option String
some_if_not_empty s = if is_empty s then none else some s

trim_non_empty : Option String → Option String
unfolding some_if_not_empty
trim_non_empty none = none
trim_non_empty (some s) = some_if_not_empty (trim s)

-- The three tests for a former default width, in their order.
migrated_width : (version width : ℕ) → ℕ
migrated_width version width =
    let w = if ltb version 4 && width == 320 then default_width_px else width in
    let w' = if ltb version config_version && w == 620 then default_width_px else w in
    if ltb version config_version && w' == 520 then default_width_px else w'

clamp : (low high n : ℕ) → ℕ
clamp low high n = min (max n low) high

-- `i32::clamp(0, high)`.
clamp_offset : ℤ → ℤ
clamp_offset n =
    if ltb_ℤ n (pos 0)
    then pos 0
    else if ltb_ℤ (pos max_traffic_monitor_offset_px) n
    then pos max_traffic_monitor_offset_px
    else n

history_days : ℕ → ℕ
history_days n = if n == 30 || (n == 90 || n == 365) then n else default_history_retention_days

log_days : ℕ → ℕ
log_days n = if n == 7 || (n == 30 || n == 90) then n else default_log_retention_days

contains : List DisplayItemKind → DisplayItemKind → Bool
contains [] kind = false
contains (k ∷ seen) kind = ite (DisplayItemKind-discrete k kind) true (contains seen kind)

-- `retain` with the list of the kinds seen so far; their order does not matter.
retain_new : List DisplayItemKind → List DisplayItemSetting → List DisplayItemSetting
unfolding contains
retain_new seen [] = []
retain_new seen (i ∷ items) =
    let known = contains seen i.kind in
    let rest = retain_new (if known then seen else i.kind ∷ seen) items in
    if known then rest else i ∷ rest

items_or_default : List DisplayItemSetting → List DisplayItemSetting
unfolding default_display_items
items_or_default [] = default_display_items
items_or_default (i ∷ items) = i ∷ items

pub normalize : AppConfig → AppConfig
unfolding trim_non_empty migrated_width clamp clamp_offset history_days log_days retain_new
    items_or_default
normalize c = record c {
  version = config_version;
  target_monitor_device = trim_non_empty c.target_monitor_device;
  prefer_secondary_monitor = if ltb c.version 9 then true else c.prefer_secondary_monitor;
  taskbar_width_px =
      clamp min_taskbar_width_px max_taskbar_width_px (migrated_width c.version c.taskbar_width_px);
  safe_spacing_px = min c.safe_spacing_px max_safe_spacing_px;
  traffic_monitor_offset_px = clamp_offset c.traffic_monitor_offset_px;
  display_items = items_or_default (retain_new [] c.display_items);
  history_retention_days = history_days c.history_retention_days;
  log_retention_days = log_days c.log_retention_days;
  taskbar_background_opacity_percent =
      clamp min_taskbar_background_opacity_percent 100 c.taskbar_background_opacity_percent;
  codex_cli_path = trim_non_empty c.codex_cli_path;
}
