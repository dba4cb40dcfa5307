-- ===== src/Connection/Loop.antt =====
-- The loop of drainOutgoingDatagrams of src/connection.c, a round at a time.
pub mod Batch
pub mod Busy
pub mod Handlers
pub mod Exhaustion
pub mod Answers
pub mod Rounds
pub mod Silence
pub mod Blocked
pub mod Termination
use ext_ngtcp.Prelude.{
  ℕ, zero, suc, ◌+◌, Bool, true, false, Option, none, some, List, [], ◌∷◌, ◌++◌, Bytes, leb, ◌==◌,
  if◌then◌else◌,
}
use ext_ngtcp.Platform.{
  Platform, Code, write_more, stream_data_blocked, stream_shut_wr, stream_id_blocked, Status,
  success, failure, Written, wrote, failed,
}
use ext_ngtcp.Exceptions.{
  Exception, call_failed, stream_id_mismatch, conn_writev_stream, conn_open_bidi_stream,
  conn_open_uni_stream, Result, returned, thrown,
}
use ext_ngtcp.Datagram.{Datagram}
use ext_ngtcp.Callbacks.{absorb}
use ext_ngtcp.Connection.State.{
  StreamEntry, Connection, is_nonfatal_closing_error, tick_clock, timestamp, modify_entry,
  sync_state,
}
use ext_ngtcp.Connection.Transmit.{
  Choice, no_stream, choice_of, pick_tx_stream, update_tx_entry, discard_tx_entry, outgoing,
}

-- How one round of the loop ends: it goes on, with or without the flag force_conn_only, it leaves
-- the loop, it has a packet to add, or it has thrown.
pub data Round (P : Platform) : Type 0 where
  continue : (force_conn_only : Bool) → Connection P → Round P
  break : Connection P → Round P
  emit : Bytes → Connection P → Round P
  throw : Exception → Connection P → Round P

module _ {P : Platform} where
  -- Lines 1105 to 1135.
  unfoldable pub on_error : Code → ℕ → Choice → Connection P → Round P
  on_error write_more wdatalen choice c =
      continue false (update_tx_entry c choice.entry wdatalen choice.request.fin false)
  on_error stream_data_blocked wdatalen choice c =
      let c1 = update_tx_entry c choice.entry wdatalen choice.request.fin false in
      elim choice.entry [ none ↦ break c1 | some _ ↦ continue true c1 ]
  on_error stream_shut_wr wdatalen choice c = continue false (discard_tx_entry c choice.entry)
  on_error code wdatalen choice c =
      if is_nonfatal_closing_error code
      then break (sync_state c)
      else throw (call_failed conn_writev_stream code) (record c { last_error = P.set_liberr code })

  -- Lines 1105 to 1142: what the loop makes of the result.
  unfoldable pub on_written : Written → ℕ → Choice → Connection P → Round P
  unfolding on_error
  on_written (failed code) wdatalen choice c = on_error code wdatalen choice c
  on_written (wrote []) wdatalen choice c =
      break (update_tx_entry c choice.entry wdatalen choice.request.fin false)
  on_written (wrote (b ∷ payload)) wdatalen choice c =
      emit (b ∷ payload) (update_tx_entry c choice.entry wdatalen choice.request.fin true)

  -- Lines 1094 to 1142.
  unfoldable pub write_round : P.Conn → Choice → Connection P → Round P
  unfolding on_written
  write_round conn choice c =
      let o = P.writev_stream conn choice.request (timestamp c) in
      on_written o.result.nwrite o.result.wdatalen choice (absorb o (tick_clock c))

  -- Lines 1081 to 1091: the stream could not be opened.
  unfoldable pub on_open_error : P.Conn → ℕ → Code → Connection P → Round P
  unfolding write_round
  on_open_error conn stream_id stream_id_blocked c = write_round conn no_stream c
  on_open_error conn stream_id code c =
      throw
        (call_failed
          (if P.is_bidi_stream stream_id then conn_open_bidi_stream else conn_open_uni_stream) code)
        c

  -- Lines 1072 to 1092, and the rest of the round: what is done with the result of the opening.
  unfoldable pub after_open : P.Conn → ℕ → StreamEntry → Status → ℕ → Connection P → Round P
  unfolding write_round on_open_error choice_of
  after_open conn k e success opened c =
      if opened == e.stream_id
      then write_round conn (choice_of (some (k, e)))
          (modify_entry c k (λ d. record d { pending_open = false }))
      else throw (stream_id_mismatch e.stream_id opened) c
  after_open conn k e (failure code) opened c = on_open_error conn e.stream_id code c

  -- Lines 1063 to 1092, and the rest of the round.
  unfoldable pub pending_round : P.Conn → ℕ → StreamEntry → Connection P → Round P
  unfolding after_open
  pending_round conn k e c =
      let o =
        if P.is_bidi_stream e.stream_id then P.open_bidi_stream conn else P.open_uni_stream conn in
      after_open o.conn k e o.result.rv o.result.stream_id (absorb o c)

  unfoldable pub picked_round : P.Conn → Option (ℕ × StreamEntry) → Connection P → Round P
  unfolding pending_round write_round choice_of
  picked_round conn none c = write_round conn no_stream c
  picked_round conn (some (k, e)) c =
      if e.pending_open
      then pending_round conn k e c
      else write_round conn (choice_of (some (k, e))) c

  -- One round of the loop, lines 1047 to 1142.
  unfoldable pub round : P.Conn → Bool → Connection P → Round P
  unfolding pick_tx_stream picked_round
  round conn true c = write_round conn no_stream c
  round conn false c = let (c1, picked) = pick_tx_stream c in picked_round conn picked c1

  -- The pointer is not null here: the method has returned before the loop if it was, and no call of
  -- libngtcp2 clears it.
  unfoldable pub round_of : Option P.Conn → Bool → Connection P → Round P
  unfolding round
  round_of none force c = break c
  round_of (some conn) force c = round conn force c

-- What the method returns or throws, and the connection then; `none` is that the fuel ran out.
abbrev pub Sent : Platform → Type 0
Sent P = Option (Result (List Datagram) × Connection P)

module _ {P : Platform} where
  -- Lines 1144 to 1170 after a round; `again` is the rest of the loop.
  unfoldable pub react :
      (again : Connection P → ℕ → Bool → List Datagram → Sent P)
      → (emitted : ℕ) → List Datagram
      → Round P
      → Sent P
  react again emitted acc (continue force c) = again c emitted force acc
  react again emitted acc (break c) = some (returned acc, sync_state c)
  react again emitted acc (throw x c) = some (thrown x, c)
  react again emitted acc (emit payload c) =
      let acc' = acc ++ outgoing c payload ∷ [] in
      elim (leb 256 (emitted + 1)) [
        | true ↦ some (returned acc', sync_state c)
        | false ↦ again c (emitted + 1) false acc'
      ]

  -- The loop of lines 1046 to 1170, on fuel.
  unfoldable pub loop :
      ℕ → Connection P → (emitted : ℕ) (force_conn_only : Bool) → List Datagram → Sent P
  unfolding round_of react
  loop zero c emitted force acc = none
  loop (suc fuel) c emitted force acc = react (loop fuel) emitted acc (round_of c.conn force c)
