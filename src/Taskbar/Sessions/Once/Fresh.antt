-- ===== src/Taskbar/Sessions/Once/Fresh.antt =====
-- apps/codex-taskbar/src/session_token_fallback.rs: which of the events of a file are new.
use codex_quota_glance.Prelude.{
  ℕ, ◌≡◌, refl, sym, ap, ◌∙◌, List, [], ◌∷◌, ◌++◌, All-append, subst, All, Option, none, some, Bool,
  true, false, ◌&&◌, not, arith, Bool-cases, inl, inr,
}
use codex_quota_glance.Prelude.Int.{ℤ, eqb_ℤ}
use codex_quota_glance.Taskbar.Sessions.Events.{SessionTokenEvent}
use codex_quota_glance.Taskbar.Sessions.Reading.{Marked}
use codex_quota_glance.Taskbar.Sessions.Tailer.{
  SessionTokenBatch, is_member, is_new, take_new, batch_if_any,
}

abbrev pub OfDay : ℤ → SessionTokenEvent → Type 0
OfDay day_key e = eqb_ℤ e.local_day_key day_key ≡ true

-- No fingerprint of the marked events is known, and none stands among them twice.
abbrev pub Fresh : List ℕ → List Marked → Type 0
Fresh seen [] = Unit {0}
Fresh seen (m ∷ ms) = (is_member m.0 seen ≡ false) × Fresh (m.0 ∷ seen) ms

-- The known fingerprints, after those of the marked events.
unfoldable pub add_fingerprints : List ℕ → List Marked → List ℕ
add_fingerprints seen [] = seen
add_fingerprints seen (m ∷ ms) = add_fingerprints (m.0 ∷ seen) ms

unfoldable pub unmarked : List Marked → List SessionTokenEvent
unmarked [] = []
unmarked (m ∷ ms) = m.1 ∷ unmarked ms

Fresh-append :
    (seen : List ℕ) (ms more : List Marked)
    → Fresh seen ms
    → Fresh (add_fingerprints seen ms) more
    → Fresh seen (ms ++ more)
unfolding add_fingerprints
Fresh-append seen [] more f g = g
Fresh-append seen (m ∷ ms) more f g = (f.0, Fresh-append (m.0 ∷ seen) ms more f.1 g)

add_fingerprints-append :
    (seen : List ℕ) (ms more : List Marked)
    → add_fingerprints seen (ms ++ more) ≡ add_fingerprints (add_fingerprints seen ms) more
unfolding add_fingerprints
add_fingerprints-append seen [] more = refl
add_fingerprints-append seen (m ∷ ms) more = add_fingerprints-append (m.0 ∷ seen) ms more

unmarked-append : (ms more : List Marked) → unmarked (ms ++ more) ≡ unmarked ms ++ unmarked more
unfolding unmarked
unmarked-append [] more = refl
unmarked-append (m ∷ ms) more = ap (λ es. m.1 ∷ es) (unmarked-append ms more)

-- From the known fingerprints `before` to `after`, exactly the events were reported that stand
-- under the added fingerprints, each once: they are of the day, and were marked in the files with
-- their fingerprints, as `WasRead` says.
pub record Reported (WasRead : Marked → Type 0) (day_key : ℤ) (before after : List ℕ)
    (events : List SessionTokenEvent) : Type 0 where
  pub marked : List Marked
  pub are_events : events ≡ unmarked marked
  pub are_new : Fresh before marked
  pub become_known : after ≡ add_fingerprints before marked
  pub of_day : All (λ m. OfDay day_key m.1) marked
  pub were_read : All WasRead marked

and_true : (a b : Bool) → (a && not b) ≡ true → (a ≡ true) × (b ≡ false)
and_true a b h = ground arith

module _ (WasRead : Marked → Type 0) (day_key : ℤ) where
  pub nothing-Reported : (seen : List ℕ) → Reported WasRead day_key seen seen []
  unfolding add_fingerprints unmarked
  nothing-Reported seen = record {
    marked = [];
    are_events = refl;
    are_new = tt;
    become_known = refl;
    of_day = tt;
    were_read = tt;
  }

  Reported-cons :
      (seen after : List ℕ) (events : List SessionTokenEvent) (m : Marked)
      → is_member m.0 seen ≡ false
      → OfDay day_key m.1
      → WasRead m
      → Reported WasRead day_key (m.0 ∷ seen) after events
      → Reported WasRead day_key seen after (m.1 ∷ events)
  unfolding add_fingerprints unmarked
  Reported-cons seen after events m n d w r = record {
    marked = m ∷ r.marked;
    are_events = ap (λ es. m.1 ∷ es) r.are_events;
    are_new = (n, r.are_new);
    become_known = r.become_known;
    of_day = (d, r.of_day);
    were_read = (w, r.were_read);
  }

  pub Reported-append :
      (before between after : List ℕ) (events more : List SessionTokenEvent)
      → Reported WasRead day_key before between events
      → Reported WasRead day_key between after more
      → Reported WasRead day_key before after (events ++ more)
  Reported-append before between after events more r s = record {
    marked = r.marked ++ s.marked;
    are_events =
        ap (λ es. es ++ more) r.are_events
        ∙ ap (λ es. unmarked r.marked ++ es) s.are_events
        ∙ sym (unmarked-append r.marked s.marked);
    are_new =
        Fresh-append before r.marked s.marked r.are_new
          (subst (λ k. Fresh k s.marked) r.become_known s.are_new);
    become_known =
        s.become_known
        ∙ ap (λ k. add_fingerprints k s.marked) r.become_known
        ∙ sym (add_fingerprints-append before r.marked s.marked);
    of_day = All-append (λ m. OfDay day_key m.1) r.marked s.marked r.of_day s.of_day;
    were_read = All-append WasRead r.marked s.marked r.were_read s.were_read;
  }

  pub take_new-Reported :
      (seen : List ℕ) (ms : List Marked)
      → All WasRead ms
      → Reported WasRead day_key seen (take_new day_key seen ms).0 (take_new day_key seen ms).1
  unfolding take_new is_new
  take_new-Reported seen [] w = nothing-Reported seen
  take_new-Reported seen (m ∷ ms) w =
      elim (Bool-cases (eqb_ℤ m.1.local_day_key day_key && not (is_member m.0 seen))) [
        | inl y ↦
            let parts = and_true (eqb_ℤ m.1.local_day_key day_key) (is_member m.0 seen) y in
            rw y (
              Reported-cons seen (take_new day_key (m.0 ∷ seen) ms).0
                (take_new day_key (m.0 ∷ seen) ms).1 m parts.1 parts.0 w.0
                (take_new-Reported (m.0 ∷ seen) ms w.1))
        | inr n ↦ rw n (take_new-Reported seen ms w.1)
      ]

abbrev pub events_of : Option SessionTokenBatch → List SessionTokenEvent
events_of none = []
events_of (some b) = b.events

pub events_of-batch_if_any :
    (events : List SessionTokenEvent) → events_of (batch_if_any events) ≡ events
unfolding batch_if_any
events_of-batch_if_any [] = refl
events_of-batch_if_any (e ∷ events) = refl
