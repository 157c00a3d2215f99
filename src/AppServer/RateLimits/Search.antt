-- ===== src/AppServer/RateLimits/Search.antt =====
-- The search for the rate limits, and what a parsed response holds.
use codex_quota_glance.Prelude.{
  ℕ, zero, suc, ◌≤◌, ◌<◌, ◌≡◌, refl, inl, inr, List, [], ◌∷◌, Option, none, some, true, ◌||◌,
  is_some, arith, Option-cases, String,
}
use codex_quota_glance.Prelude.Words.{u32_max}
use codex_quota_glance.Prelude.F32.{F32}
use codex_quota_glance.Prelude.Results.{Result, ok, err}
use codex_quota_glance.AppServer.Json.{Json, Laws, get_first, number_u32}
use codex_quota_glance.AppServer.RateLimits.{
  RateLimitWindow, RateLimitResponse, RateLimitError, search_keys, find_rate_limits_object,
  window_of, with_duration, parse_window, both_windows, parse_found, parse_rate_limits_value,
}

module _ {V : Type 0} (j : Json V) where
  -- Two searches that agree on the children agree.
  search_keys-agree :
      (s t : V → Option V) (v : V)
      → ((k : String) (c : V) → j.get k v ≡ some c → s c ≡ t c)
      → (ks : List String) → search_keys j s ks v ≡ search_keys j t ks v
  unfolding search_keys
  search_keys-agree s t v h [] = refl
  search_keys-agree s t v h (k ∷ ks) =
      let rest = search_keys-agree s t v h ks in
      elim (Option-cases (j.get k v)) [
        | inl e ↦ rw (search_keys, e) rest
        | inr (c, e) ↦ rw (search_keys, e, h k c e, rest) refl
      ]

  pub child_depth : Laws j → (k : String) (c v : V) → j.get k v ≡ some c → j.depth c < j.depth v
  child_depth laws k c v e = ground (arith, laws.get_depth k v)

module _ {V : Type 0} ⦃j : Json V⦄ where
  -- The search never runs out of fuel: any two amounts above the depth of the value find the same.
  find_rate_limits_object-fuel :
      (laws : Laws j) (n m : ℕ) (v : V)
      → j.depth v < n
      → j.depth v < m
      → find_rate_limits_object n v ≡ find_rate_limits_object m v
  unfolding find_rate_limits_object
  find_rate_limits_object-fuel laws zero m v h k = ground arith
  find_rate_limits_object-fuel laws (suc n) zero v h k = ground arith
  find_rate_limits_object-fuel laws (suc n) (suc m) v h k =
      let agree =
        search_keys-agree j (find_rate_limits_object n) (find_rate_limits_object m) v
          (λ key c e.
            find_rate_limits_object-fuel laws n m c (omega (arith, child_depth j laws key c v e))
              (omega (arith, child_depth j laws key c v e)))
          ("rateLimits" ∷ "rate_limits" ∷ "result" ∷ "params" ∷ []) in
      rw agree refl

module _ {V P : Type 0} ⦃j : Json V⦄ ⦃f : F32 P⦄ (as_percent : V → Option P) where
  -- A window's duration fits 32 bits.
  abbrev pub HasDuration : Option (RateLimitWindow P) → Type 0
  HasDuration none = Unit {0}
  HasDuration (some w) = w.window_duration_mins ≤ u32_max

  abbrev pub Parsed : Result RateLimitError (Option (RateLimitWindow P)) → Type 0
  Parsed (err e) = Unit {0}
  Parsed (ok w) = HasDuration w

  with_duration-Parsed : (v : V) (d : Option V) → Parsed (with_duration as_percent v d)
  unfolding with_duration window_of number_u32
  with_duration-Parsed v none = omega arith
  with_duration-Parsed v (some d) = ground arith

  parse_window-Parsed : (o : Option V) → Parsed (parse_window as_percent o)
  unfolding parse_window
  parse_window-Parsed none = tt
  parse_window-Parsed (some v) = ground (
    arith,
    with_duration-Parsed v (get_first ("windowDurationMins" ∷ "window_duration_mins" ∷ []) v),
  )

  both_windows-some :
      (object : V) (p s : Result RateLimitError (Option (RateLimitWindow P)))
      (r : RateLimitResponse V P)
      → Parsed p
      → Parsed s
      → both_windows as_percent object p s ≡ ok r
      → (r.raw ≡ some object)
        × ((is_some r.primary || is_some r.secondary) ≡ true)
        × HasDuration r.primary
        × HasDuration r.secondary
  unfolding both_windows
  both_windows-some object (err e) s r h k e' = ground arith
  both_windows-some object (ok p) (err e) r h k e' = ground arith
  both_windows-some object (ok p) (ok s) r h k e' = ground arith

  found-some :
      (o : Option V) (r : RateLimitResponse V P)
      → parse_found as_percent o ≡ ok r
      → (r.raw ≡ o)
        × ((is_some r.primary || is_some r.secondary) ≡ true)
        × HasDuration r.primary
        × HasDuration r.secondary
  unfolding parse_found
  found-some none r h = ground arith
  found-some (some object) r h =
      both_windows-some object (parse_window as_percent (j.get "primary" object))
        (parse_window as_percent (j.get "secondary" object)) r
        (parse_window-Parsed (j.get "primary" object))
        (parse_window-Parsed (j.get "secondary" object)) h

  -- A response that is accepted has a window at least, keeps the object that the search found, and
  -- holds durations that fit 32 bits.
  parse_rate_limits_value-ok :
      (v : V) (r : RateLimitResponse V P)
      → parse_rate_limits_value as_percent v ≡ ok r
      → (r.raw ≡ find_rate_limits_object (suc (j.depth v)) v)
        × ((is_some r.primary || is_some r.secondary) ≡ true)
        × HasDuration r.primary
        × HasDuration r.secondary
  unfolding parse_rate_limits_value
  parse_rate_limits_value-ok v r h = found-some (find_rate_limits_object (suc (j.depth v)) v) r h
