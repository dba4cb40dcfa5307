-- ===== src/Connection/History/Draining.antt =====
-- The end of drainOutgoingDatagrams of src/connection.c.
use ext_ngtcp.Prelude.{
  [], refl, subst, arith, ℕ, ◌≡◌, ◌≢◌, false, none, not, ◌&&◌, some, List, option_rule, if_rule,
}
use ext_ngtcp.Platform.{Platform}
use ext_ngtcp.Queue.{Event}
use ext_ngtcp.Exceptions.{Result, returned}
use ext_ngtcp.Datagram.{Datagram}
use ext_ngtcp.Connection.State.{Connection, create_object}
use ext_ngtcp.Connection.Loop.{Sent}
use ext_ngtcp.Connection.Methods.{drain_outgoing_datagrams, write_close}
use ext_ngtcp.Connection.Loop.Answers.{IsDocumented}
use ext_ngtcp.Connection.Loop.Blocked.{Blocked, start}
use ext_ngtcp.Connection.Loop.Exhaustion.{Exhausts, Exhausted, loop-Exhausted}
use ext_ngtcp.Connection.Loop.Termination.{loop-Finishes}
use ext_ngtcp.Connection.History.Table.{Sound}
use ext_ngtcp.Connection.History.Reach.{Reach}
use ext_ngtcp.Connection.History.Lifecycle.{table-Sound}

module _ {P : Platform} (lib : IsDocumented P) where
  Sound-drain :
      (c : Connection P)
      → Sound c.streams
      → (fuel : ℕ) × (r : Result (List Datagram) × Connection P) × (drain_outgoing_datagrams fuel c
          ≡ some r)
  unfolding drain_outgoing_datagrams
  Sound-drain c sound =
      let ends = loop-Finishes lib c sound in
      let HasResult = λ (o : Sent P). (r : Result (List Datagram) × Connection P) × (o ≡ some r) in
      let result : HasResult (drain_outgoing_datagrams ends.0 c) =
        option_rule HasResult c.conn _ _ (λ _. ((returned [], c), refl))
          λ conn _.
            if_rule HasResult (c.close_requested && not c.close_packet_sent) _ _
              (λ _. (write_close conn c, refl)) (λ _. (ends.1, ends.2)) in
      (ends.0, result.0, result.1)

  -- On a library in which no call before the next packet makes more room in the packet that is
  -- built, each NGTCP2_ERR_WRITE_MORE leaves less of it, and NGTCP2_ERR_WRITE_MORE and
  -- NGTCP2_ERR_STREAM_SHUT_WR only answer calls with a stream: after any sequence of calls on a
  -- connection object and its streams, drainOutgoingDatagrams comes to an end, with a list of
  -- datagrams or with an exception.
  pub drain_ends :
      (zero_addr : P.Sockaddr) (c : Connection P) (out : List Event)
      → Reach (create_object P zero_addr) out c
      → (fuel : ℕ) × (r : Result (List Datagram) × Connection P) × (drain_outgoing_datagrams fuel c
          ≡ some r)
  drain_ends zero_addr c out r = Sound-drain c (table-Sound zero_addr c out r)

-- What a call has done that came to an end.
abbrev pub Drained : {P : Platform} → ℕ → Connection P → Type 0
Drained {P} fuel c =
    (r : Result (List Datagram) × Connection P) × (drain_outgoing_datagrams fuel c ≡ some r)
    × Exhausts (Blocked c) r

drain-Exhausted :
    {P : Platform} (fuel : ℕ) (c : Connection P)
    → c.conn ≢ none
    → (c.close_requested && not c.close_packet_sent) ≡ false
    → Exhausted (Blocked c) (drain_outgoing_datagrams fuel c)
unfolding drain_outgoing_datagrams
drain-Exhausted fuel c handled ready =
    option_rule (Exhausted (Blocked c)) c.conn _ _ (λ gone. absurd (handled gone))
      λ conn _.
        if_rule (Exhausted (Blocked c)) (c.close_requested && not c.close_packet_sent) _ _
          (λ close. cc)
          (λ _. loop-Exhausted fuel c c 0 false [] start handled (λ t. cc) refl (omega arith))

module _ {P : Platform} (lib : IsDocumented P) where
  -- On a library in which no call before the next packet makes more room in the packet that is
  -- built, each NGTCP2_ERR_WRITE_MORE leaves less of it, and NGTCP2_ERR_WRITE_MORE and
  -- NGTCP2_ERR_STREAM_SHUT_WR only answer calls with a stream: after any sequence of calls that has
  -- left a handle and no close packet to be sent, drainOutgoingDatagrams comes to an end, and has
  -- thrown, or returns 256 datagrams, or leaves no stream with data or a FIN to send, or one of its
  -- rounds has picked a stream with output on which the library stalls: asked for a packet of this
  -- stream, it answers with no bytes, with NGTCP2_ERR_STREAM_DATA_BLOCKED or with the error of a
  -- connection at its end, or it answers the opening of the stream with
  -- NGTCP2_ERR_STREAM_ID_BLOCKED.
  pub drain_exhausts :
      (zero_addr : P.Sockaddr) (c : Connection P) (out : List Event)
      → Reach (create_object P zero_addr) out c
      → c.conn ≢ none
      → (c.close_requested && not c.close_packet_sent) ≡ false
      → (fuel : ℕ) × Drained fuel c
  drain_exhausts zero_addr c out m handled ready =
      let (fuel, r, ends) = drain_ends lib zero_addr c out m in
      (fuel, (r, ends, subst (Exhausted (Blocked c)) ends (drain-Exhausted fuel c handled ready)))
