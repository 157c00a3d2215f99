-- ===== src/AppServer/Transport/Conservation.antt =====
-- crates/adapters-codex-app-server/src/transport.rs: how often an id stands in the pending table
-- and among the answers, counted through the operations on the shared state.
use codex_quota_glance.Prelude.{
  ℕ, ◌+◌, ◌≤◌, ◌≡◌, refl, ◌==◌, if◌then◌else◌, List, [], ◌∷◌, ◌++◌, Option, none, some, true, arith,
}
use codex_quota_glance.Prelude.Results.{Result, ok, err}
use codex_quota_glance.AppServer.Json.{Json}
use codex_quota_glance.AppServer.Codec.{TransportError}
use codex_quota_glance.AppServer.Codec.Decode.{
  JsonRpcResponse, DecodedFrame, notification, response, id_number,
}
use codex_quota_glance.AppServer.Transport.Channels.{
  TransportEvent, Shared, Answer, contains_key, remove, expired, waiting, emit, answer, drained,
  terminate, emit_closed, insert_pending, fail_pending, timeouts, expire, end_with, match_response,
  take_frame, reader_round,
}

module _ (x : ℕ) where
  -- How often the id `x` stands in a list of ids, of entries, or of answers.
  abbrev pub one : ℕ → ℕ
  one id = if id == x then 1 else 0

  unfoldable pub count : List ℕ → ℕ
  count [] = 0
  count (id ∷ ids) = one id + count ids

  module _ {A : Type 0} where
    unfoldable pub count_keys : List (ℕ × A) → ℕ
    count_keys [] = 0
    count_keys (entry ∷ m) = one entry.0 + count_keys m

    count_keys-append : (m n : List (ℕ × A)) → count_keys (m ++ n) ≡ count_keys m + count_keys n
    unfolding count_keys
    count_keys-append [] n = omega arith
    count_keys-append (entry ∷ m) n = omega (arith, count_keys-append m n)

  pub count-append : (m n : List ℕ) → count (m ++ n) ≡ count m + count n
  unfolding count
  count-append [] n = omega arith
  count-append (id ∷ m) n = omega (arith, count-append m n)

  remove-count :
      (id : ℕ) (m : List (ℕ × ℕ))
      → contains_key id m ≡ true
      → count_keys (remove id m) + one id ≡ count_keys m
  unfolding contains_key remove count_keys
  remove-count id [] h = cc
  remove-count id (entry ∷ m) h = ground (arith, remove-count id m)

  pub present-count : (m : List (ℕ × ℕ)) → contains_key x m ≡ true → 1 ≤ count_keys m
  unfolding contains_key count_keys
  present-count [] h = cc
  present-count (entry ∷ m) h = ground (arith, present-count m)

  drained-count :
      (V : Type 0) (e : TransportError) (m : List (ℕ × ℕ))
      → count_keys (drained {V = V} e m) ≡ count_keys m
  unfolding drained count_keys
  drained-count V e [] = refl
  drained-count V e (entry ∷ m) = omega (arith, drained-count V e m)

  expired-count :
      (V : Type 0) (now : ℕ) (m : List (ℕ × ℕ))
      → count_keys (timeouts {V = V} (expired now m)) + count_keys (waiting now m) ≡ count_keys m
  unfolding timeouts expired waiting count_keys
  expired-count V now [] = refl
  expired-count V now (entry ∷ m) = ground (arith, expired-count V now m)

  -- What `insert_pending` adds.
  abbrev pub inserted : ℕ → Result TransportError (Unit {0}) → ℕ
  inserted id (ok _) = one id
  inserted id (err _) = 0

  module _ {V : Type 0} where
    -- The requests that the threads share: the pending ones, and the answered ones.
    unfoldable pub shared_count : Shared V → ℕ
    shared_count s = count_keys s.pending + count_keys s.answers

    pub emit-count :
        (e : TransportEvent V) (s : Shared V) → shared_count (emit e s) ≡ shared_count s
    unfolding emit shared_count
    emit-count e s = refl

    pub terminate-count :
        (e : TransportError) (s : Shared V) → shared_count (terminate e s).0 ≡ shared_count s
    unfolding terminate shared_count count_keys
    terminate-count e s =
        ground
          (arith, drained-count V e s.pending, count_keys-append (drained e s.pending) s.answers)

    pub emit_closed-count : (s : Shared V) → shared_count (emit_closed s) ≡ shared_count s
    unfolding emit_closed shared_count
    emit_closed-count s = ground arith

    pub answer-count :
        (id : ℕ) (a : Answer V) (s : Shared V)
        → shared_count (answer id a s) ≡ one id + shared_count s
    unfolding answer shared_count count_keys
    answer-count id a s = ground arith

    pub fail_pending-count :
        (id : ℕ) (e : TransportError) (s : Shared V)
        → shared_count (fail_pending id e s) ≡ shared_count s
    unfolding fail_pending shared_count count_keys
    fail_pending-count id e s = ground (arith, remove-count id s.pending)

    pub expire-count : (now : ℕ) (s : Shared V) → shared_count (expire now s) ≡ shared_count s
    unfolding expire shared_count
    expire-count now s = ground (
      arith,
      expired-count V now s.pending,
      count_keys-append (timeouts (expired now s.pending)) s.answers,
    )

    pub end_with-count :
        (e : TransportError) (event : TransportEvent V) (s : Shared V)
        → shared_count (end_with e event s) ≡ shared_count s
    unfolding end_with
    end_with-count e event s =
        ground (arith, terminate-count e s, emit-count event (terminate e s).0)

    pub insert_pending-count :
        (id deadline : ℕ) (s : Shared V)
        → shared_count (insert_pending id deadline s).0
          ≡ inserted id (insert_pending id deadline s).1 + shared_count s
    unfolding insert_pending shared_count count_keys
    insert_pending-count id deadline s = ground arith

  module _ {V : Type 0} ⦃j : Json V⦄ where
    match_response-count :
        (r : JsonRpcResponse V) (id : Option ℕ) (s : Shared V)
        → shared_count (match_response r id s) ≡ shared_count s
    unfolding match_response shared_count count_keys
    match_response-count r none s = refl
    match_response-count r (some id) s = ground (arith, remove-count id s.pending)

    take_frame-count :
        (d : Result TransportError (Option (DecodedFrame V))) (s : Shared V)
        → shared_count (take_frame d s) ≡ shared_count s
    unfolding take_frame
    take_frame-count (err e) s = emit-count _ s
    take_frame-count (ok none) s = refl
    take_frame-count (ok (some (notification v))) s = emit-count _ s
    take_frame-count (ok (some (response r))) s = match_response-count r (id_number r.id) s

    pub reader_round-count :
        (decode : List ℕ → Result TransportError (Option (DecodedFrame V)))
        (r : Result TransportError (Option (List ℕ))) (s : Shared V)
        → shared_count (reader_round decode r s).0 ≡ shared_count s
    unfolding reader_round
    reader_round-count decode (ok (some frame)) s = take_frame-count (decode frame) s
    reader_round-count decode (ok none) s = end_with-count _ _ s
    reader_round-count decode (err (TransportError.io e)) s = end_with-count _ _ s
    reader_round-count decode (err _) s = emit-count _ s
