-- ===== src/AppServer/Transport/Threads.antt =====
-- crates/adapters-codex-app-server/src/transport.rs: the callers, the supervisor, the reader, the
-- writer and the timeouts, whose steps are taken in any order.
use codex_quota_glance.Prelude.{ℕ, if◌then◌else◌, List, [], ◌∷◌, Option, false, ◌&&◌}
use codex_quota_glance.Prelude.Results.{Result}
use codex_quota_glance.AppServer.Json.{Json}
use codex_quota_glance.AppServer.Codec.{TransportError}
use codex_quota_glance.AppServer.Codec.Decode.{DecodedFrame}
use codex_quota_glance.AppServer.Transport.Channels.{io_error, expire, end_with, reader_round}
use codex_quota_glance.AppServer.Transport.System.{
  System, Action, request, close, start, finish_handshake, take_command, check_alive, disconnect,
  admit, read, fail_write, look, tick, Timer, looking, sleeping, stopped, send_request,
  close_transport,
}
use codex_quota_glance.AppServer.Transport.Supervisor.{
  start_supervisor, end_handshake, receive, receive_disconnect, check, admit_request,
}

module _ {V : Type 0} where
  unfoldable pub fail_writer : TransportError → System V → System V
  unfolding end_with
  fail_writer e s =
      if s.writing
      then record s { shared = end_with e (io_error e) s.shared; writing = false }
      else s

  -- `timeout_loop` looks at the flag, sleeps, and then makes a round.
  unfoldable pub look_timeouts : Timer → System V → System V
  look_timeouts looking s = record s { timer = if s.shared.alive then sleeping else stopped }
  look_timeouts _ s = s

  unfoldable pub tick_timeouts : ℕ → Timer → System V → System V
  unfolding expire
  tick_timeouts now sleeping s = record s { shared = expire now s.shared; timer = looking }
  tick_timeouts now _ s = s

module _ {V : Type 0} ⦃j : Json V⦄
    (decode : List ℕ → Result TransportError (Option (DecodedFrame V))) where
  unfoldable pub read_round : Result TransportError (Option (List ℕ)) → System V → System V
  unfolding reader_round
  read_round r s =
      if s.reading && s.shared.handshake_registered
      then (let (sh, goes_on) = reader_round decode r s.shared in
          record s { shared = sh; reading = goes_on })
      else s

  unfoldable pub step : Action → System V → System V
  unfolding send_request close_transport start_supervisor end_handshake receive receive_disconnect
      check admit_request read_round fail_writer look_timeouts tick_timeouts
  step (request enc) s = (send_request enc s).0
  step close s = (close_transport s).0
  step (start deadline enc) s = start_supervisor deadline enc s.phase s
  step (finish_handshake timed_out enc) s = end_handshake timed_out enc s.phase s
  step take_command s = receive s.phase s
  step disconnect s = receive_disconnect s.phase s
  step check_alive s = check s.phase s
  step (admit deadline) s = admit_request deadline s.phase s
  step (read r) s = read_round r s
  step (fail_write e) s = fail_writer e s
  step look s = look_timeouts s.timer s
  step (tick now) s = tick_timeouts now s.timer s

  unfoldable pub run : List Action → System V → System V
  run [] s = s
  run (a ∷ as') s = run as' (step a s)
