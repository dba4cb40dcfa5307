-- ===== src/Connection/Loop/Rounds.antt =====
-- What one round of the transmission loop of src/connection.c brings towards its end.
use ext_ngtcp.Prelude.{
  ◌≤◌, Option, none, ℕ, ◌<◌, ◌≡◌, refl, Bool, true, false, some, arith, ◌==◌, if◌then◌else◌,
  if_rule,
}
use ext_ngtcp.Platform.{Platform, Code, stream_id_blocked, Status, success, failure}
use ext_ngtcp.Callbacks.{absorb}
use ext_ngtcp.Connection.State.{StreamEntry, Connection, tick_clock, timestamp, modify_entry}
use ext_ngtcp.Connection.Transmit.{
  has_output, no_stream, choice_of, clamp_offset, first_output, write_back, pick_tx_stream,
}
use ext_ngtcp.Connection.Loop.{
  write_round, on_open_error, after_open, pending_round, picked_round, round, round_of,
}
use ext_ngtcp.Connection.Loop.Busy.{Mute, busy, busy_but, first_output-busy}
use ext_ngtcp.Connection.Loop.Handlers.{modify_entry-Calms, absorb-Calms}
use ext_ngtcp.Connection.History.Table.{Sound, clamp_offset-Fits}
use ext_ngtcp.Connection.History.Moves.{here}
use ext_ngtcp.Connection.History.Steps.{then_modify, absorb-Moves, timed-Moves}
use ext_ngtcp.Connection.Loop.Answers.{
  Falls, IsDocumented, Moves-Sound, Stops, Stops-Falls, no_stream_written-Stops, on_written-Falls,
  room_of,
}

-- Each part of a round, up to the whole; a is the room at the start of the round.
module _ {P : Platform} (lib : IsDocumented P) where
  no_stream-Stops : (conn : P.Conn) (c : Connection P) → Stops (write_round conn no_stream c)
  unfolding write_round
  no_stream-Stops conn c =
      no_stream_written-Stops _ _ _ (lib.no_more conn (timestamp c))
        (lib.no_shut conn (timestamp c))

  no_stream-Falls :
      (a b : ℕ) (conn : P.Conn) (c : Connection P)
      → Falls lib.room a b (write_round conn no_stream c)
  no_stream-Falls a b conn c =
      Stops-Falls lib.room a b (write_round conn no_stream c) (no_stream-Stops conn c)

  write_round-Falls :
      (a b k : ℕ) (e : StreamEntry) (conn : P.Conn) (c : Connection P)
      → lib.room conn ≤ a
      → Sound c.streams
      → busy_but k c.streams < b
      → Falls lib.room a b (write_round conn (choice_of (some (k, e))) c)
  unfolding write_round choice_of tick_clock absorb
  write_round-Falls a b k e conn c within sound low =
      let request = (choice_of (some (k, e))).request in
      let o = P.writev_stream conn request (timestamp c) in
      let calm = absorb-Calms k o (tick_clock c) in
      on_written-Falls lib.room a b k o.result.nwrite o.result.wdatalen (choice_of (some (k, e)))
        (absorb o (tick_clock c)) refl (Moves-Sound (timed-Moves o c) sound) (omega (arith, calm))
        (λ more. omega (arith, lib.fills conn request (timestamp c) more))
        (λ shut. omega (arith, lib.keeps conn request (timestamp c) shut))

  on_open_error-Falls :
      (a b : ℕ) (conn : P.Conn) (stream_id : ℕ) (code : Code) (c : Connection P)
      → Falls lib.room a b (on_open_error conn stream_id code c)
  unfolding on_open_error
  on_open_error-Falls a b conn stream_id stream_id_blocked c = no_stream-Falls a b conn c
  on_open_error-Falls a b conn stream_id _ c = tt

  after_open-Falls :
      (a b k : ℕ) (e : StreamEntry) (conn : P.Conn) (rv : Status) (opened : ℕ) (c : Connection P)
      → lib.room conn ≤ a
      → Sound c.streams
      → busy_but k c.streams < b
      → Falls lib.room a b (after_open conn k e rv opened c)
  unfolding after_open has_output
  after_open-Falls a b k e conn success opened c within sound low =
      let f : StreamEntry → StreamEntry = λ d. record d { pending_open = false } in
      let d = modify_entry c k f in
      if_rule (Falls lib.room a b) (opened == e.stream_id) _ _
        (λ _.
          write_round-Falls a b k e conn d within
            (Moves-Sound (then_modify c k f (λ k e h. h) here) sound)
            (omega (arith, modify_entry-Calms k k f c c (λ x. omega arith) (omega arith))))
        (λ _. tt)
  after_open-Falls a b k e conn (failure code) opened c within sound low =
      on_open_error-Falls a b conn e.stream_id code c

  opens-room :
      (bidi : Bool) (conn : P.Conn)
      → lib.room (if bidi then P.open_bidi_stream conn else P.open_uni_stream conn).conn
        ≤ lib.room conn
  opens-room true conn = lib.opens_bidi conn
  opens-room false conn = lib.opens_uni conn

  pending_round-Falls :
      (a b k : ℕ) (e : StreamEntry) (conn : P.Conn) (c : Connection P)
      → lib.room conn ≤ a
      → Sound c.streams
      → busy_but k c.streams < b
      → Falls lib.room a b (pending_round conn k e c)
  unfolding pending_round
  pending_round-Falls a b k e conn c within sound low =
      let o =
        if P.is_bidi_stream e.stream_id then P.open_bidi_stream conn else P.open_uni_stream conn in
      after_open-Falls a b k e o.conn o.result.rv o.result.stream_id (absorb o c)
        (omega (arith, opens-room (P.is_bidi_stream e.stream_id) conn))
        (Moves-Sound (absorb-Moves o c) sound) (omega (arith, absorb-Calms k o c))

  clamp-Mute : Mute clamp_offset
  unfolding clamp_offset has_output
  clamp-Mute e = ground arith

  picked-Falls :
      (conn : P.Conn) (o : Option (ℕ × StreamEntry)) (c : Connection P)
      → first_output c.streams ≡ o
      → Sound c.streams
      → Falls lib.room
          (lib.room conn)
          (busy c.streams)
          (picked_round conn (write_back o c).1 (write_back o c).0)
  unfolding picked_round write_back
  picked-Falls conn none c picked sound = no_stream-Falls (lib.room conn) (busy c.streams) conn c
  picked-Falls conn (some (k, e)) c picked sound =
      let d = modify_entry c k clamp_offset in
      let sound' = Moves-Sound (then_modify c k clamp_offset clamp_offset-Fits here) sound in
      let low : busy_but k d.streams < busy c.streams = omega (
        arith,
        first_output-busy k e c.streams picked,
        modify_entry-Calms k k clamp_offset c c clamp-Mute (omega arith),
      ) in
      if_rule (Falls lib.room (lib.room conn) (busy c.streams)) e.pending_open _ _
        (λ _.
          pending_round-Falls (lib.room conn) (busy c.streams) k e conn d (omega arith) sound' low)
        (λ _.
          write_round-Falls (lib.room conn) (busy c.streams) k e conn d (omega arith) sound' low)

  -- How a round without the flag goes on, and that a round with it does not.
  pub round_of-Falls :
      (o : Option P.Conn) (c : Connection P)
      → Sound c.streams
      → Falls lib.room (room_of lib.room o) (busy c.streams) (round_of o false c)
  unfolding round_of round pick_tx_stream
  round_of-Falls none c sound = tt
  round_of-Falls (some conn) c sound = picked-Falls conn (first_output c.streams) c refl sound

  pub round_of-Stops : (o : Option P.Conn) (c : Connection P) → Stops (round_of o true c)
  unfolding round_of round
  round_of-Stops none c = tt
  round_of-Stops (some conn) c = no_stream-Stops conn c
