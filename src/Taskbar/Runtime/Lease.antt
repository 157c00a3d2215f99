-- ===== src/Taskbar/Runtime/Lease.antt =====
-- apps/codex-taskbar/src/official_runtime.rs: for how long an activity that the app server named
-- goes before what the local database says. Instants are in nanoseconds.
use codex_quota_glance.Prelude.{
  ℕ, ◌+◌, ◌*◌, ◌≤◌, ◌≡◌, refl, ltb, if◌then◌else◌, List, [], ◌∷◌, All, Bool-cases, inl, inr, Option,
  none, some, Bool, true, false, arith,
}
use codex_quota_glance.Domain.Activity.{ActivityState}
use codex_quota_glance.AppServer.Session.{SourceHealth, disconnected_source, stopped_source}

abbrev app_server_activity_lease : ℕ
app_server_activity_lease = 10 * 1000000000

pub record AppServerActivityLease : Type 0 where
  pub expires_at : Option ℕ

abbrev pub no_lease : AppServerActivityLease
no_lease = record { expires_at = none }

is_lost : SourceHealth → Bool
is_lost disconnected_source = true
is_lost stopped_source = true
is_lost _ = false

-- `checked_add` does not fail within the life of a machine.
unfoldable pub observe :
    AppServerActivityLease
    → (activity_present : Bool) → SourceHealth
    → (now : ℕ) → AppServerActivityLease
unfolding is_lost
observe lease activity_present health now =
    if is_lost health
    then no_lease
    else (if activity_present
        then record { expires_at = some (now + app_server_activity_lease) }
        else lease)

abbrev is_before : Option ℕ → ℕ → Bool
is_before none now = false
is_before (some at) now = ltb now at

unfoldable pub is_live_at : AppServerActivityLease → ℕ → Bool
is_live_at lease now = is_before lease.expires_at now

unfoldable pub is_concrete_activity : ActivityState → Bool
is_concrete_activity ActivityState.unknown = false
is_concrete_activity _ = true

pub record Sighting : Type 0 where
  pub activity_present : Bool
  pub source_health : SourceHealth
  pub now : ℕ

unfoldable pub observe_all : AppServerActivityLease → List Sighting → AppServerActivityLease
unfolding observe
observe_all lease [] = lease
observe_all lease (x ∷ xs) = observe_all (observe lease x.activity_present x.source_health x.now) xs

abbrev Ends : ℕ → Option ℕ → Type 0
Ends t none = Unit
Ends t (some at) = at ≤ t + app_server_activity_lease

observe-Ends :
    (t : ℕ) (lease : AppServerActivityLease) (x : Sighting)
    → x.now ≤ t
    → Ends t lease.expires_at
    → Ends t (observe lease x.activity_present x.source_health x.now).expires_at
unfolding observe
observe-Ends t lease x h e = elim (Bool-cases (is_lost x.source_health)) [
  | inl lost ↦ rw lost tt
  | inr kept ↦ elim (Bool-cases x.activity_present) [
    | inl p ↦ rw (kept, p) (omega arith)
    | inr p ↦ rw (kept, p) e
  ]
]

observe_all-Ends :
    (t : ℕ) (lease : AppServerActivityLease) (xs : List Sighting)
    → All (λ x. x.now ≤ t) xs
    → Ends t lease.expires_at
    → Ends t (observe_all lease xs).expires_at
unfolding observe_all
observe_all-Ends t lease [] h e = e
observe_all-Ends t lease (x ∷ xs) h e =
    observe_all-Ends t (observe lease x.activity_present x.source_health x.now) xs h.1
      (observe-Ends t lease x h.0 e)

Ends-over :
    (t now : ℕ) (at : Option ℕ)
    → t + app_server_activity_lease ≤ now
    → Ends t at
    → is_before at now ≡ false
Ends-over t now none h e = refl
Ends-over t now (some at) h e = ground arith

-- Ten seconds after the last that was heard of the app server, its activity does not go before
-- the local database any more, whatever it said.
pub observe_all-expires :
    (xs : List Sighting) (t now : ℕ)
    → All (λ x. x.now ≤ t) xs
    → t + app_server_activity_lease ≤ now
    → is_live_at (observe_all no_lease xs) now ≡ false
unfolding is_live_at
observe_all-expires xs t now h l =
    Ends-over t now (observe_all no_lease xs).expires_at l (observe_all-Ends t no_lease xs h tt)
