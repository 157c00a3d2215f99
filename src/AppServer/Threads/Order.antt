-- ===== src/AppServer/Threads/Order.antt =====
-- The state that the threads show, against the aggregate of the domain.
use mathlib.Core.Logic.{∥∥₁_elim}
use mathlib.Core.List.Perm
use mathlib.Core.List.{Perm, Permᴰ}
use codex_quota_glance.Prelude.{
  ◌≡◌, refl, ◌∙◌, ap, sym, List, [], ◌∷◌, map, Option, some, Bool, true, false, or_else, option_map,
  arith,
}
use codex_quota_glance.Prelude.Int.{ℤ}
use codex_quota_glance.Domain.Activity.{
  ActivityState, max_by_key, max_from, later_max, priority, aggregate,
}
use codex_quota_glance.Domain.Activity.Aggregate.{aggregate-perm}
use codex_quota_glance.AppServer.Threads.{
  ActivityEvent, ThreadActivityRecord, candidates, aggregated_activity, is_candidate, Bool-discrete,
}

Bool-set : IsSet Bool
Bool-set = hlevel

module _ {V : Type 0} where
  abbrev state_of : ThreadActivityRecord V → ActivityState
  state_of r = r.event.state

  state-later_max :
      (a b : ThreadActivityRecord V)
      → state_of (later_max (λ r. priority r.event.state) a b)
        ≡ later_max priority (state_of a) (state_of b)
  state-later_max a b = ground arith

  max_from-state :
      (r : ThreadActivityRecord V) (rs : List (ThreadActivityRecord V))
      → state_of (max_from (λ r. priority r.event.state) r rs)
        ≡ max_from priority (state_of r) (map state_of rs)
  unfolding max_from
  max_from-state r [] = refl
  max_from-state r (x ∷ xs) =
      max_from-state (later_max (λ r. priority r.event.state) r x) xs
      ∙ ap (λ s. max_from priority s (map state_of xs)) (state-later_max r x)

  -- What is shown: the aggregate of the candidates' states, or the last event where there is none.
  abbrev pub shown : List (ThreadActivityRecord V) → Option (ActivityEvent V) → Option ActivityState
  shown [] last_activity = option_map (λ e. e.state) last_activity
  shown (r ∷ rs) last_activity = some (aggregate (map state_of (r ∷ rs)))

  shown-max_by_key :
      (rs : List (ThreadActivityRecord V)) (last_activity : Option (ActivityEvent V))
      → option_map
          (λ e. e.state)
          (or_else
            (option_map (λ r. r.event) (max_by_key (λ r. priority r.event.state) rs))
            last_activity)
        ≡ shown rs last_activity
  unfolding max_by_key aggregate
  shown-max_by_key [] last_activity = refl
  shown-max_by_key (r ∷ rs) last_activity = ap some (max_from-state r rs)

  is_empty : List (ThreadActivityRecord V) → Bool
  is_empty [] = true
  is_empty (r ∷ rs) = false

  is_empty-perm : {rs ss : List (ThreadActivityRecord V)} → Permᴰ rs ss → is_empty rs ≡ is_empty ss
  unfolding is_empty
  is_empty-perm Permᴰ.nil = refl
  is_empty-perm (Permᴰ.cons e p) = refl
  is_empty-perm (Permᴰ.swap e f) = refl
  is_empty-perm (Permᴰ.trans p q) = is_empty-perm p ∙ is_empty-perm q

  shown_states :
      (rs ss : List (ThreadActivityRecord V)) (last_activity : Option (ActivityEvent V))
      → is_empty rs ≡ is_empty ss
      → aggregate (map state_of rs) ≡ aggregate (map state_of ss)
      → shown rs last_activity ≡ shown ss last_activity
  unfolding is_empty
  shown_states [] [] last_activity e h = refl
  shown_states [] (s ∷ ss) last_activity e h = ground arith
  shown_states (r ∷ rs) [] last_activity e h = ground arith
  shown_states (r ∷ rs) (s ∷ ss) last_activity e h = ap some h

  shown-perm :
      (rs ss : List (ThreadActivityRecord V)) (last_activity : Option (ActivityEvent V))
      → Perm rs ss
      → shown rs last_activity ≡ shown ss last_activity
  shown-perm rs ss last_activity p =
      let same = ∥∥₁_elim p (Bool-set (is_empty rs) (is_empty ss)) is_empty-perm in
      shown_states rs ss last_activity same
        (aggregate-perm (map state_of rs) (map state_of ss) (Perm.map state_of p))

  -- The state that the taskbar gets from the threads is the domain's aggregate of the candidates'
  -- states, or the last event's where there is none, and the order in which the hash map lists the
  -- threads has no influence on it.
  pub aggregated_activity_lem :
      (threads listed : List (ThreadActivityRecord V)) (last_activity : Option (ActivityEvent V))
      (now : ℤ)
      → Perm threads listed
      → (option_map (λ e. e.state) (aggregated_activity threads last_activity now)
          ≡ shown (candidates now threads) last_activity)
        × (option_map (λ e. e.state) (aggregated_activity listed last_activity now)
            ≡ shown (candidates now threads) last_activity)
  unfolding aggregated_activity
  aggregated_activity_lem threads listed last_activity now p = (
    shown-max_by_key (candidates now threads) last_activity,
    shown-max_by_key (candidates now listed) last_activity
        ∙ sym (
            shown-perm (candidates now threads) (candidates now listed) last_activity
              (Perm.filter (λ r. Bool-discrete (is_candidate now r) true) p)),
  )
