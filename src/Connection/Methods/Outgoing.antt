-- ===== src/Connection/Methods/Outgoing.antt =====
-- What one call of drainOutgoingDatagrams of src/connection.c hands out, and the close packet.
use ext_ngtcp.Prelude.{
  ℕ, ◌≤◌, ◌≡◌, refl, ◌∙◌, true, false, not, ◌&&◌, ◌||◌, some, List, [], ◌∷◌, arith, length, if_rule,
  option_rule, if◌then◌else◌,
}
use ext_ngtcp.Platform.{Platform, Written, wrote, failed}
use ext_ngtcp.Exceptions.{Result, returned, thrown}
use ext_ngtcp.Datagram.{Datagram}
use ext_ngtcp.Callbacks.{absorb}
use ext_ngtcp.Connection.State.{
  Connection, sync_state, sync_draining, sync_closed, sync_with, push_event, tick_clock,
  is_nonfatal_closing_error, timestamp,
}
use ext_ngtcp.Connection.Loop.{Sent, loop}
use ext_ngtcp.Connection.Loop.Batch.{Bounded, loop_at_most_256}
use ext_ngtcp.Connection.Methods.{drain_outgoing_datagrams, write_close, finish_close}

-- What has been thrown has sent nothing; what has been returned is at most one datagram, after which
-- the close packet counts as sent and the library's handle is there.
abbrev pub SentOnce : {P : Platform} → Result (List Datagram) × Connection P → Type 0
SentOnce (returned ds, d) =
    (length ds ≤ 1)
    × (d.close_packet_sent ≡ true)
    × ((fuel : ℕ) → drain_outgoing_datagrams fuel d ≡ loop fuel d 0 false [])
SentOnce (thrown x, d) = Unit

-- The library's handle, and whether the close packet has been sent, are as before.
abbrev Keeps : {P : Platform} → Connection P → Connection P → Type 0
Keeps c d = (d.conn ≡ c.conn) × (d.close_packet_sent ≡ c.close_packet_sent)

module _ {P : Platform} where
  -- Once the close packet counts as sent, the loop alone sends.
  drain-loop :
      (fuel : ℕ) (conn : P.Conn) (c : Connection P)
      → c.conn ≡ some conn
      → c.close_packet_sent ≡ true
      → drain_outgoing_datagrams fuel c ≡ loop fuel c 0 false []
  unfolding drain_outgoing_datagrams
  drain-loop fuel conn c e sent =
      option_rule (λ o. o ≡ loop fuel c 0 false []) c.conn _ _ (λ n. ground arith)
        λ conn' _.
          if_rule (λ o. o ≡ loop fuel c 0 false []) (c.close_requested && not c.close_packet_sent) _
            _ (λ t. ground arith) (λ _. refl)

  draining-Keeps : (c : Connection P) → Keeps c (sync_draining c)
  unfolding sync_draining push_event tick_clock
  draining-Keeps c =
      if_rule (Keeps c) c.draining_event_emitted _ _ (λ _. (refl, refl)) (λ _. (refl, refl))

  closed-Keeps : (conn : P.Conn) (c : Connection P) → Keeps c (sync_closed c conn)
  unfolding sync_closed push_event tick_clock
  closed-Keeps conn c =
      if_rule (Keeps c) c.close_event_emitted _ _ (λ _. (refl, refl)) (λ _. (refl, refl))

  sync_with-Keeps : (conn : P.Conn) (c : Connection P) → Keeps c (sync_with c conn)
  unfolding sync_with
  sync_with-Keeps conn c =
      let d = if P.in_draining_period conn then sync_draining c else c in
      let first : Keeps c d =
        if_rule (Keeps c) (P.in_draining_period conn) _ _ (λ _. draining-Keeps c)
          (λ _. (refl, refl)) in
      if_rule (Keeps c) (P.in_closing_period conn || P.in_draining_period conn) _ _
        (λ _. ((closed-Keeps conn d).0 ∙ first.0, (closed-Keeps conn d).1 ∙ first.1)) (λ _. first)

  sync_state-Keeps : (c : Connection P) → Keeps c (sync_state c)
  unfolding sync_state
  sync_state-Keeps c =
      option_rule (Keeps c) c.conn c _ (λ _. (refl, refl)) (λ conn _. sync_with-Keeps conn c)

  finish_close-SentOnce :
      (r : Written) (conn : P.Conn) (c : Connection P)
      → c.conn ≡ some conn
      → SentOnce (finish_close r c)
  unfolding finish_close
  finish_close-SentOnce (failed code) conn c e =
      let d = record c { close_packet_sent = true } in
      if_rule SentOnce (is_nonfatal_closing_error code) _ _
        (λ _. (
          omega arith,
          (sync_state-Keeps d).1,
          λ fuel.
              drain-loop fuel conn (sync_state d) ((sync_state-Keeps d).0 ∙ e)
                (sync_state-Keeps d).1,
        ))
        (λ _. tt)
  finish_close-SentOnce (wrote []) conn c e =
      (omega arith, refl, λ fuel. drain-loop fuel conn _ e refl)
  finish_close-SentOnce (wrote (b ∷ payload)) conn c e =
      (omega arith, refl, λ fuel. drain-loop fuel conn _ e refl)

  write_close-SentOnce : (conn : P.Conn) (c : Connection P) → SentOnce (write_close conn c)
  unfolding write_close absorb
  write_close-SentOnce conn c =
      let o = P.write_connection_close conn c.last_error (timestamp c) in
      finish_close-SentOnce o.result o.conn (absorb o (tick_clock c)) refl

  -- A connection that has been asked to close and whose close packet has not been sent: one call of
  -- drainOutgoingDatagrams ends at once; unless it throws, it returns at most one datagram, the
  -- close packet counts as sent from then on, and each further call runs the loop and nothing else.
  pub close_packet_once :
      (fuel : ℕ) (conn : P.Conn) (c : Connection P)
      → c.conn ≡ some conn
      → c.close_requested ≡ true
      → c.close_packet_sent ≡ false
      → (r : Result (List Datagram) × Connection P) × (drain_outgoing_datagrams fuel c ≡ some r)
        × SentOnce r
  unfolding drain_outgoing_datagrams
  close_packet_once fuel conn c e asked unsent =
      let Q =
        λ (o : Sent P). (r : Result (List Datagram) × Connection P) × (o ≡ some r) × SentOnce r in
      option_rule Q c.conn _ _ (λ n. ground arith)
        λ conn' _.
          if_rule Q (c.close_requested && not c.close_packet_sent) _ _
            (λ _. (write_close conn' c, refl, write_close-SentOnce conn' c)) (λ f. ground arith)

  SentOnce-Bounded : (r : Result (List Datagram) × Connection P) → SentOnce r → Bounded (some r)
  SentOnce-Bounded (returned ds, d) h = omega (arith, h.0)
  SentOnce-Bounded (thrown x, d) h = tt

  -- Whatever libngtcp2 answers, and whatever state the connection is in: if drainOutgoingDatagrams
  -- ends with a list of datagrams, there are at most 256 of them.
  pub drain_at_most_256 : (fuel : ℕ) (c : Connection P) → Bounded (drain_outgoing_datagrams fuel c)
  unfolding drain_outgoing_datagrams
  drain_at_most_256 fuel c =
      option_rule Bounded c.conn _ _ (λ _. omega arith)
        λ conn _.
          if_rule Bounded (c.close_requested && not c.close_packet_sent) _ _
            (λ _. SentOnce-Bounded (write_close conn c) (write_close-SentOnce conn c))
            (λ _. loop_at_most_256 fuel c)
