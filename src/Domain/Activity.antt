-- ===== src/Domain/Activity.antt =====
-- crates/domain/src/activity.rs: activity states, the lamp's style, and the aggregate of threads.
pub mod Aggregate
mod Tests
use codex_quota_glance.Prelude.{
  ℕ, ltb, if◌then◌else◌, List, [], ◌∷◌, Option, none, some, Bool, true, false, unwrap_or,
}

pub data ActivityState : Type 0 where
  unknown idle thinking executing waiting_for_user reviewing completed failed : ActivityState

pub ActivityState-discrete : Discrete ActivityState
ActivityState-discrete = hlevel

pub data BreathePolicy : Type 0 where
  still : BreathePolicy
  timed : (duration_ms : ℕ) → BreathePolicy
  continuous : BreathePolicy

pub data LampColor : Type 0 where
  green cyan blue_violet amber red gray : LampColor

pub record ActivityLampStyle : Type 0 where
  pub color : LampColor
  pub breathe : BreathePolicy
  pub glow : Bool

abbrev style : LampColor → BreathePolicy → Bool → ActivityLampStyle
style c b g = record { color = c; breathe = b; glow = g }

unfoldable pub lamp_style : ActivityState → ActivityLampStyle
lamp_style ActivityState.idle = style green (timed 3000) true
lamp_style ActivityState.completed = style green (timed 3000) true
lamp_style ActivityState.thinking = style blue_violet continuous true
lamp_style ActivityState.executing = style cyan continuous true
lamp_style ActivityState.reviewing = style cyan continuous true
lamp_style ActivityState.waiting_for_user = style amber still true
lamp_style ActivityState.failed = style red still true
lamp_style ActivityState.unknown = style gray still false

unfoldable pub priority : ActivityState → ℕ
priority ActivityState.failed = 7
priority ActivityState.waiting_for_user = 6
priority ActivityState.executing = 5
priority ActivityState.reviewing = 4
priority ActivityState.thinking = 3
priority ActivityState.completed = 2
priority ActivityState.idle = 1
priority ActivityState.unknown = 0

-- `Iterator::max_by_key`: the last of the items with the greatest key.
module _ {ℓ} {A : Type ℓ} (key : A → ℕ) where
  abbrev pub later_max : A → A → A
  later_max a b = if ltb (key b) (key a) then a else b

  unfoldable pub max_from : A → List A → A
  max_from a [] = a
  max_from a (x ∷ xs) = max_from (later_max a x) xs

  unfoldable pub max_by_key : List A → Option A
  unfolding max_from
  max_by_key [] = none
  max_by_key (x ∷ xs) = some (max_from x xs)

unfoldable pub aggregate : List ActivityState → ActivityState
unfolding max_by_key priority
aggregate states = unwrap_or (max_by_key priority states) unknown
