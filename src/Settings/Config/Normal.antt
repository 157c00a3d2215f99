-- ===== src/Settings/Config/Normal.antt =====
-- What a normalised configuration is, and that it stays as it is.
use codex_quota_glance.Prelude.{
  ◌≤◌, ◌≡◌, ◌≢◌, ◌⊎◌, inl, inr, refl, List, [], ◌∷◌, Option, none, some, false, String, All, arith,
  Bool-cases,
}
use codex_quota_glance.Prelude.Int.{pos, ◌≤ℤ◌}
use codex_quota_glance.Prelude.Text.{trim, trim_idem, is_empty}
use codex_quota_glance.Domain.Layout.{DisplayItemKind}
use codex_quota_glance.Settings.Config.{
  AppConfig, DisplayItemSetting, config_version, min_taskbar_width_px, max_taskbar_width_px,
  max_safe_spacing_px, max_traffic_monitor_offset_px, min_taskbar_background_opacity_percent,
  trim_non_empty, some_if_not_empty, contains, retain_new, items_or_default, default_display_items,
  clamp, clamp_offset, history_days, log_days, normalize, migrated_width,
}

abbrev pub Distinct : List DisplayItemSetting → Type 0
Distinct [] = Unit {0}
Distinct (i ∷ items) = All (λ j. i.kind ≢ j.kind) items × Distinct items

abbrev pub IsSome : List DisplayItemSetting → Type 0
IsSome [] = 1 ≤ 0
IsSome (i ∷ items) = Unit {0}

-- A text without white space around it, and not an empty one.
abbrev pub Trimmed : Option String → Type 0
Trimmed none = Unit {0}
Trimmed (some s) = (trim s ≡ s) × (is_empty s ≡ false)

pub record IsNormal (c : AppConfig) : Type 0 where
  pub current : c.version ≡ config_version
  pub width_low : min_taskbar_width_px ≤ c.taskbar_width_px
  pub width_high : c.taskbar_width_px ≤ max_taskbar_width_px
  pub spacing : c.safe_spacing_px ≤ max_safe_spacing_px
  pub offset_low : pos 0 ≤ℤ c.traffic_monitor_offset_px
  pub offset_high : c.traffic_monitor_offset_px ≤ℤ pos max_traffic_monitor_offset_px
  pub opacity_low : min_taskbar_background_opacity_percent ≤ c.taskbar_background_opacity_percent
  pub opacity_high : c.taskbar_background_opacity_percent ≤ 100
  pub history :
      (c.history_retention_days ≡ 30)
      ⊎ ((c.history_retention_days ≡ 90) ⊎ (c.history_retention_days ≡ 365))
  pub log : (c.log_retention_days ≡ 7) ⊎ ((c.log_retention_days ≡ 30) ⊎ (c.log_retention_days ≡ 90))
  pub monitor : Trimmed c.target_monitor_device
  pub cli_path : Trimmed c.codex_cli_path
  pub items_some : IsSome c.display_items
  pub items_distinct : Distinct c.display_items

contains-cons :
    (k : DisplayItemKind) (seen : List DisplayItemKind) (x : DisplayItemKind)
    → contains (k ∷ seen) x ≡ false
    → (k ≢ x) × (contains seen x ≡ false)
unfolding contains
contains-cons k seen x h = ground arith

Unseen : List DisplayItemKind → List DisplayItemSetting → Type 0
Unseen seen items = All (λ j. contains seen j.kind ≡ false) items

Unseen-cons :
    (k : DisplayItemKind) (seen : List DisplayItemKind) (items : List DisplayItemSetting)
    → Unseen (k ∷ seen) items
    → All (λ j. k ≢ j.kind) items × Unseen seen items
unfolding Unseen
Unseen-cons k seen [] h = (tt, tt)
Unseen-cons k seen (i ∷ items) h =
    let (apart, unseen) = contains-cons k seen i.kind h.0 in
    let (all_apart, all_unseen) = Unseen-cons k seen items h.1 in
    ((apart, all_apart), (unseen, all_unseen))

retain_new-Unseen :
    (seen : List DisplayItemKind) (items : List DisplayItemSetting)
    → Unseen seen (retain_new seen items) × Distinct (retain_new seen items)
unfolding retain_new Unseen
retain_new-Unseen seen [] = (tt, tt)
retain_new-Unseen seen (i ∷ items) = elim (Bool-cases (contains seen i.kind)) [
  | inl e ↦ rw e (retain_new-Unseen seen items)
  | inr e ↦
      let (unseen, distinct) = retain_new-Unseen (i.kind ∷ seen) items in
      let (apart, rest) = Unseen-cons i.kind seen (retain_new (i.kind ∷ seen) items) unseen in
      rw e ((e, rest), (apart, distinct))
]

Unseen-nil : (items : List DisplayItemSetting) → Unseen [] items
unfolding Unseen contains
Unseen-nil [] = tt
Unseen-nil (i ∷ items) = (refl, Unseen-nil items)

contains-other :
    (k : DisplayItemKind) (seen : List DisplayItemKind) (x : DisplayItemKind)
    → k ≢ x
    → contains seen x ≡ false
    → contains (k ∷ seen) x ≡ false
unfolding contains
contains-other k seen x n h = ground arith

Unseen-other :
    (k : DisplayItemKind) (seen : List DisplayItemKind) (items : List DisplayItemSetting)
    → All (λ j. k ≢ j.kind) items
    → Unseen seen items
    → Unseen (k ∷ seen) items
unfolding Unseen
Unseen-other k seen [] n h = tt
Unseen-other k seen (i ∷ items) n h =
    (contains-other k seen i.kind n.0 h.0, Unseen-other k seen items n.1 h.1)

retain_new_fixed :
    (seen : List DisplayItemKind) (items : List DisplayItemSetting)
    → Unseen seen items
    → Distinct items
    → retain_new seen items ≡ items
unfolding retain_new Unseen
retain_new_fixed seen [] u d = refl
retain_new_fixed seen (i ∷ items) u d =
    let rest =
      retain_new_fixed (i.kind ∷ seen) items (Unseen-other i.kind seen items d.0 u.1) d.1 in
    rw (u.0, rest) refl

items_or_default-Distinct :
    (items : List DisplayItemSetting)
    → Distinct items
    → IsSome (items_or_default items) × Distinct (items_or_default items)
unfolding items_or_default default_display_items
items_or_default-Distinct [] d = (tt, ground arith)
items_or_default-Distinct (i ∷ items) d = (tt, d)

items_or_default_fixed :
    (items : List DisplayItemSetting) → IsSome items → items_or_default items ≡ items
unfolding items_or_default
items_or_default_fixed [] h = ground arith
items_or_default_fixed (i ∷ items) h = refl

trim_non_empty-Trimmed : (o : Option String) → Trimmed (trim_non_empty o)
unfolding trim_non_empty some_if_not_empty
trim_non_empty-Trimmed none = tt
trim_non_empty-Trimmed (some s) = ground (arith, trim_idem s)

trim_non_empty_fixed : (o : Option String) → Trimmed o → trim_non_empty o ≡ o
unfolding trim_non_empty some_if_not_empty
trim_non_empty_fixed none h = refl
trim_non_empty_fixed (some s) h = rw (h.0, h.1) refl

-- Whatever was read, a normalised configuration has the current version, keeps each number in its
-- bounds, holds texts that are trimmed and not empty, and shows a list of items in which no kind
-- stands twice and which is not empty.
pub normalize-IsNormal : (c : AppConfig) → IsNormal (normalize c)
unfolding normalize clamp clamp_offset history_days log_days
normalize-IsNormal c =
    let (unseen, distinct) = retain_new-Unseen [] c.display_items in
    let (items_some, items_distinct) =
      items_or_default-Distinct (retain_new [] c.display_items) distinct in
    record {
      current = refl;
      width_low = omega arith;
      width_high = omega arith;
      spacing = omega arith;
      offset_low = ground arith;
      offset_high = ground arith;
      opacity_low = omega arith;
      opacity_high = omega arith;
      history = ground arith;
      log = ground arith;
      monitor = trim_non_empty-Trimmed c.target_monitor_device;
      cli_path = trim_non_empty-Trimmed c.codex_cli_path;
      items_some = items_some;
      items_distinct = items_distinct;
    }

-- Normalising leaves a configuration that is normal as it is, so that what is saved is read back.
pub normalize_fixed : (c : AppConfig) → IsNormal c → normalize c ≡ c
unfolding normalize clamp clamp_offset history_days log_days migrated_width
normalize_fixed c v =
    let items = retain_new_fixed [] c.display_items (Unseen-nil c.display_items) v.items_distinct in
    ground (
      arith,
      v.current,
      items,
      items_or_default_fixed c.display_items v.items_some,
      trim_non_empty_fixed c.target_monitor_device v.monitor,
      trim_non_empty_fixed c.codex_cli_path v.cli_path,
    )
