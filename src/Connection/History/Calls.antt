-- ===== src/Connection/History/Calls.antt =====
-- The methods of a connection of src/connection.c as chains of moves.
use ext_ngtcp.Prelude.{
  ℕ, refl, true, false, not, ◌&&◌, Option, [], ◌∷◌, arith, ◌==◌, Bytes, if_rule, option_rule,
}
use ext_ngtcp.Platform.{Platform, Code, Status, success, failure, Written, wrote, failed}
use ext_ngtcp.Address.{to_sockaddr}
use ext_ngtcp.Datagram.{Datagram}
use ext_ngtcp.Callbacks.{absorb}
use ext_ngtcp.Connection.State.{
  Connection, tick_clock, timestamp, push_event, is_nonfatal_closing_error,
}
use ext_ngtcp.Connection.Methods.{
  note_read_error, finish_read, read_local_addr, read_at, recv, finish_expiry, handle_timers,
  finish_close, write_close, drain_outgoing_datagrams, emit_close, close,
}
use ext_ngtcp.Connection.Timers.{next_timeout_ms, get_next_timeout, get_next_expiry}
use ext_ngtcp.Connection.History.Moves.{
  life_refl, keeps_refl, quiet, emit, of_close, Moves, here, Moves-trans, one, tick_clock-Move,
}
use ext_ngtcp.Connection.History.Steps.{sync_state-Moves, timed-Moves}
use ext_ngtcp.Connection.History.Transmission.{Ends, loop-Ends}

-- The connection that a method leaves is reached by moves.
abbrev pub Reaches {ℓ} : {P : Platform} {A : Type ℓ} → Connection P → A × Connection P → Type 0
Reaches c r = Moves c r.1

-- A move that changes no event, flag, clock or table: the last error, say.
module _ {P : Platform} where
  set_error-Moves : (c : Connection P) (x : P.Ccerr) → Moves c (record c { last_error = x })
  set_error-Moves c x =
      one (quiet (omega arith, life_refl c, keeps_refl c.streams) (refl, refl, refl) refl)

  note_read_error-Moves :
      (code : Code) (conn : P.Conn) (c : Connection P) → Moves c (note_read_error code conn c)
  unfolding note_read_error
  note_read_error-Moves code conn c =
      if_rule (Moves c) (P.error_code c.last_error == 0) _ c (λ _. set_error-Moves c _) (λ _. here)

  finish_read-Reaches :
      (s : Status) (conn : P.Conn) (c : Connection P) → Reaches c (finish_read s conn c)
  unfolding finish_read
  finish_read-Reaches success conn c = sync_state-Moves c
  finish_read-Reaches (failure code) conn c =
      if_rule (Reaches c) (is_nonfatal_closing_error code) _ _ (λ _. sync_state-Moves c)
        (λ _. note_read_error-Moves code conn c)

  pub recv-Reaches : (d : Datagram) (c : Connection P) → Reaches c (recv d c)
  unfolding recv read_at
  recv-Reaches d c =
      option_rule (Reaches c) c.conn _ _ (λ _. here)
        λ conn _.
          option_rule (Reaches c) (to_sockaddr P d.peer_address) _ _ (λ _. here)
            λ remote _.
              option_rule (Reaches c) (read_local_addr d c) _ _ (λ _. here)
                λ local _.
                  let o = P.read_pkt conn local remote d.payload (timestamp c) in
                  Moves-trans (timed-Moves o c)
                    (finish_read-Reaches o.result o.conn (absorb o (tick_clock c)))

  finish_expiry-Reaches : (s : Status) (c : Connection P) → Reaches c (finish_expiry s c)
  unfolding finish_expiry
  finish_expiry-Reaches success c = sync_state-Moves c
  finish_expiry-Reaches (failure code) c =
      if_rule (Reaches c) (is_nonfatal_closing_error code) _ _ (λ _. sync_state-Moves c)
        (λ _. set_error-Moves c _)

  pub handle_timers-Reaches : (c : Connection P) → Reaches c (handle_timers c)
  unfolding handle_timers
  handle_timers-Reaches c =
      option_rule (Reaches c) c.conn _ _ (λ _. here)
        λ conn _.
          if_rule (Reaches c) c.closed _ _ (λ _. here)
            λ _.
              let o = P.handle_expiry conn (timestamp c) in
              Moves-trans (timed-Moves o c)
                (finish_expiry-Reaches o.result (absorb o (tick_clock c)))

  pub next_timeout_ms-Reaches : (c : Connection P) → Reaches c (next_timeout_ms c)
  unfolding next_timeout_ms
  next_timeout_ms-Reaches c =
      option_rule (Reaches c) c.conn _ _ (λ _. here)
        λ conn _. if_rule (Reaches c) c.closed _ _ (λ _. here) (λ _. one (tick_clock-Move c))

  pub get_next_timeout-Reaches : (c : Connection P) → Reaches c (get_next_timeout c)
  unfolding get_next_timeout
  get_next_timeout-Reaches c = next_timeout_ms-Reaches c

  pub get_next_expiry-Reaches : (c : Connection P) → Reaches c (get_next_expiry c)
  unfolding get_next_expiry
  get_next_expiry-Reaches c = next_timeout_ms-Reaches c

  packet_sent-Moves : (c : Connection P) → Moves c (record c { close_packet_sent = true })
  packet_sent-Moves c = one (
      quiet
        (omega arith, ((λ h. h), (λ h. h), (λ h. h), (λ h. h), (λ h. refl)), keeps_refl c.streams)
        (refl, refl, refl) refl)

  finish_close-Reaches : (w : Written) (c : Connection P) → Reaches c (finish_close w c)
  unfolding finish_close
  finish_close-Reaches (failed code) c =
      if_rule (Reaches c) (is_nonfatal_closing_error code) _ _
        (λ _. Moves-trans (packet_sent-Moves c) (sync_state-Moves _)) (λ _. here)
  finish_close-Reaches (wrote []) c = packet_sent-Moves c
  finish_close-Reaches (wrote (b ∷ bytes)) c = packet_sent-Moves c

  write_close-Reaches : (conn : P.Conn) (c : Connection P) → Reaches c (write_close conn c)
  unfolding write_close
  write_close-Reaches conn c =
      let o = P.write_connection_close conn c.last_error (timestamp c) in
      Moves-trans (timed-Moves o c) (finish_close-Reaches o.result (absorb o (tick_clock c)))

  pub drain_outgoing_datagrams-Ends :
      (fuel : ℕ) (c : Connection P) → Ends c (drain_outgoing_datagrams fuel c)
  unfolding drain_outgoing_datagrams
  drain_outgoing_datagrams-Ends fuel c =
      option_rule (Ends c) c.conn _ _ (λ _. here)
        λ conn _.
          if_rule (Ends c) (c.close_requested && not c.close_packet_sent) _ _
            (λ _. write_close-Reaches conn c) (λ _. loop-Ends fuel c 0 false [])

  emit_close-Moves :
      (code : ℕ) (reason : Option Bytes) (c : Connection P) → Moves c (emit_close code reason c)
  unfolding emit_close push_event
  emit_close-Moves code reason c =
      if_rule (Moves c) (not c.close_event_emitted) _ c
        (λ e. one (
          emit _ (omega arith, life_refl c, keeps_refl c.streams)
            (record {
              events = refl;
              time = refl;
              reads = omega arith;
              announces = of_close refl (ground arith) refl refl refl;
            })))
        (λ _. here)

  pub close-Moves :
      (code : ℕ) (reason : Option Bytes) (c : Connection P) → Moves c (close code reason c)
  unfolding close
  close-Moves code reason c =
      if_rule (Moves c) c.close_requested c _ (λ _. here)
        λ _.
          Moves-trans
            (one (
              quiet
                (
                  omega arith,
                  ((λ h. h), (λ h. h), (λ h. refl), (λ h. refl), (λ h. h)),
                  keeps_refl c.streams,
                )
                (refl, refl, refl) refl))
            (emit_close-Moves code reason _)
