-- ===== src/Taskbar/Runtime/Relation.antt =====
-- apps/codex-taskbar/src/official_runtime.rs: what the rounds of the loop do to the coordinator's
-- state and to the ledger, as sequences of the operations that these two offer.
use codex_quota_glance.Prelude.{
  ◌≡◌, refl, ap, ◌∙◌, sym, subst, List, [], ◌∷◌, ◌++◌, All, All-append, Bool, true, false, ◌&&◌,
}
use codex_quota_glance.Application.Monitor.{MonitorState}
use codex_quota_glance.Application.Coordinator.{TelemetryUpdate, apply, run}
use codex_quota_glance.Application.Ledger.Books.{LocalUsageLedger}
use codex_quota_glance.Application.Ledger.Invariant.{Operation, observes, operate, operate_all}
use codex_quota_glance.Taskbar.Runtime.Steps.{Runtime}

-- With the session logs in charge of the day, the counters of the databases are not booked.
abbrev pub is_counting : Operation → Bool
is_counting (observes clock counters) = true
is_counting _ = false

abbrev Allowed : Bool → Operation → Type 0
Allowed b o = (b && is_counting o) ≡ false

abbrev pub Booked : Bool → LocalUsageLedger → LocalUsageLedger → Type 0
Booked b l m = (os : List Operation) × (All (Allowed b) os × (m ≡ operate_all l os))

pub operate_all-append :
    (l : LocalUsageLedger) (os ps : List Operation)
    → operate_all l (os ++ ps) ≡ operate_all (operate_all l os) ps
unfolding operate_all
operate_all-append l [] ps = refl
operate_all-append l (o ∷ os) ps = operate_all-append (operate l o) os ps

pub nothing-Booked : (b : Bool) (l : LocalUsageLedger) → Booked b l l
unfolding operate_all
nothing-Booked b l = ([], (tt, refl))

pub one-Booked :
    (b : Bool) (l : LocalUsageLedger) (o : Operation) → Allowed b o → Booked b l (operate l o)
unfolding operate_all
one-Booked b l o a = (o ∷ [], ((a, tt), refl))

not_counting : (b : Bool) (o : Operation) → is_counting o ≡ false → Allowed b o
not_counting true o h = h
not_counting false o h = refl

pub one_calm :
    (b : Bool) (l : LocalUsageLedger) (o : Operation)
    → is_counting o ≡ false
    → Booked b l (operate l o)
one_calm b l o h = one-Booked b l o (not_counting b o h)

pub Booked-trans :
    (b : Bool) (l m n : LocalUsageLedger) → Booked b l m → Booked b m n → Booked b l n
Booked-trans b l m n h k = (
  h.0 ++ k.0,
  (
    All-append (Allowed b) h.0 k.0 h.1.0 k.1.0,
    k.1.1 ∙ ap (λ x. operate_all x k.0) h.1.1 ∙ sym (operate_all-append l h.0 k.0),
  ),
)

weaker :
    (b c : Bool) (os : List Operation)
    → (b ≡ true → c ≡ true)
    → All (Allowed c) os
    → All (Allowed b) os
weaker b c [] h a = tt
weaker true c (o ∷ os) h a =
    (subst (λ d. (d && is_counting o) ≡ false) (h refl) a.0, weaker true c os h a.1)
weaker false c (o ∷ os) h a = (refl, weaker false c os h a.1)

module _ {P : Type 0} where
  abbrev pub Ran : MonitorState P → MonitorState P → Type 0
  Ran s t = (us : List (TelemetryUpdate P)) × (t ≡ run s us)

  pub run-append :
      (s : MonitorState P) (us vs : List (TelemetryUpdate P)) → run s (us ++ vs) ≡ run (run s us) vs
  unfolding run
  run-append s [] vs = refl
  run-append s (u ∷ us) vs = run-append (apply s u).0 us vs

  pub nothing-Ran : (s : MonitorState P) → Ran s s
  unfolding run
  nothing-Ran s = ([], refl)

  pub one-Ran : (s : MonitorState P) (u : TelemetryUpdate P) → Ran s (apply s u).0
  unfolding run
  one-Ran s u = (u ∷ [], refl)

  pub Ran-trans : (s t u : MonitorState P) → Ran s t → Ran t u → Ran s u
  Ran-trans s t u h k = (h.0 ++ k.0, k.1 ∙ ap (λ x. run x k.0) h.1 ∙ sym (run-append s h.0 k.0))

  -- What may happen between two states of the loop.
  pub record Sound (r t : Runtime P) : Type 0 where
    pub coordinated : Ran r.coordinator t.coordinator
    pub booked : Booked r.session_today_authoritative r.ledger t.ledger
    pub in_charge : r.session_today_authoritative ≡ true → t.session_today_authoritative ≡ true

  pub Sound-refl : (r : Runtime P) → Sound r r
  Sound-refl r = record {
    coordinated = nothing-Ran r.coordinator;
    booked = nothing-Booked r.session_today_authoritative r.ledger;
    in_charge = λ h. h;
  }

  pub Sound-trans : (r s t : Runtime P) → Sound r s → Sound s t → Sound r t
  Sound-trans r s t h k = record {
    coordinated = Ran-trans r.coordinator s.coordinator t.coordinator h.coordinated k.coordinated;
    booked = Booked-trans r.session_today_authoritative r.ledger s.ledger t.ledger h.booked (
      k.booked.0,
      (
        weaker r.session_today_authoritative s.session_today_authoritative k.booked.0 h.in_charge
            k.booked.1.0,
        k.booked.1.1,
      ),
    );
    in_charge = λ e. k.in_charge (h.in_charge e);
  }

  -- A step that changes the ledger alone.
  pub Booked-Sound :
      (r : Runtime P) (l : LocalUsageLedger)
      → Booked r.session_today_authoritative r.ledger l
      → Sound r (record r { ledger = l })
  Booked-Sound r l h = record {
    coordinated = nothing-Ran r.coordinator;
    booked = h;
    in_charge = λ e. e;
  }
