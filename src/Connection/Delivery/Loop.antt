-- ===== src/Connection/Delivery/Loop.antt =====
-- The receive buffer of a stream while the transmission loop of src/connection.c runs.
use ext_ngtcp.Prelude.{
  ℕ, zero, suc, ◌+◌, ◌≡◌, refl, ◌∙◌, Bool, true, false, Option, none, some, List, [], ◌∷◌, ◌++◌,
  arith, if_rule, option_rule, ◌==◌, if◌then◌else◌, leb,
}
use ext_ngtcp.Event.{stream_writable}
use ext_ngtcp.Platform.{
  Platform, Code, write_more, stream_data_blocked, stream_shut_wr, stream_id_blocked, Status,
  success, failure, Written, wrote, failed,
}
use ext_ngtcp.Datagram.{Datagram}
use ext_ngtcp.Callbacks.{absorb}
use ext_ngtcp.Connection.State.{
  StreamEntry, Connection, tick_clock, timestamp, push_event, modify_entry, sync_state,
  get_stream_entry, is_nonfatal_closing_error,
}
use ext_ngtcp.Connection.Transmit.{
  Choice, no_stream, choice_of, pick_tx_stream, first_output, clamp_offset, account, is_drained,
  notify_writable, update_tx_entry, discard_tx_entry, discarded, write_back, outgoing,
}
use ext_ngtcp.Connection.Loop.{
  Round, continue, break, emit, throw, on_error, on_written, write_round, on_open_error,
  pending_round, picked_round, round, round_of, Sent, react, loop, after_open,
}
use ext_ngtcp.Connection.Delivery.Library.{IsRecorded, bytes_on}
use ext_ngtcp.Connection.Delivery.Buffers.{KeepsRx}
use ext_ngtcp.Connection.Delivery.Handlers.{
  Still, Still-trans, modify_entry-Still, push_event-Still,
}
use ext_ngtcp.Connection.Delivery.Feeds.{
  Feeds, Feeds-trans, Still-Feeds, absorb-Feeds, timed-Feeds, sync_state-Still,
}

clamp_offset-KeepsRx : KeepsRx clamp_offset
unfolding clamp_offset
clamp_offset-KeepsRx e = ground arith

account-KeepsRx : (w : ℕ) (fin emitted : Bool) → KeepsRx (account w fin emitted)
unfolding account clamp_offset
account-KeepsRx w fin emitted e = ground arith

module _ {P : Platform} where
  notify_writable-Still :
      (k j : ℕ) (o : Option StreamEntry) (c : Connection P) → Still k c (notify_writable j o c)
  unfolding notify_writable
  notify_writable-Still k j none c = (refl, refl)
  notify_writable-Still k j (some e) c =
      let d = modify_entry c j (λ d. record d { writable = true }) in
      if_rule (Still k c) (is_drained e) _ c
        (λ _.
          Still-trans k c d (push_event d stream_writable e.stream_id 0 false none)
            (modify_entry-Still k j (λ d. record d { writable = true }) c (λ d. refl))
            (push_event-Still k d stream_writable e.stream_id 0 false none))
        (λ _. (refl, refl))

  update_tx_entry-Still :
      (k : ℕ) (c : Connection P) (o : Option ℕ) (w : ℕ) (fin emitted : Bool)
      → Still k c (update_tx_entry c o w fin emitted)
  unfolding update_tx_entry
  update_tx_entry-Still k c none w fin emitted = (refl, refl)
  update_tx_entry-Still k c (some j) w fin emitted =
      let d = modify_entry c j (account w fin emitted) in
      Still-trans k c d (notify_writable j (get_stream_entry d j) d)
        (modify_entry-Still k j (account w fin emitted) c (account-KeepsRx w fin emitted))
        (notify_writable-Still k j (get_stream_entry d j) d)

  discard_tx_entry-Still :
      (k : ℕ) (c : Connection P) (o : Option ℕ) → Still k c (discard_tx_entry c o)
  unfolding discard_tx_entry discarded
  discard_tx_entry-Still k c none = (refl, refl)
  discard_tx_entry-Still k c (some j) = modify_entry-Still k j discarded c (λ e. refl)

-- A round keeps the handle and what is received.
abbrev StillRound : {P : Platform} → ℕ → Connection P → Round P → Type 0
StillRound k c (continue force d) = Still k c d
StillRound k c (break d) = Still k c d
StillRound k c (emit payload d) = Still k c d
StillRound k c (throw x d) = Still k c d

module _ {P : Platform} where
  on_error-StillRound :
      (k : ℕ) (code : Code) (w : ℕ) (choice : Choice) (c : Connection P)
      → StillRound k c (on_error code w choice c)
  unfolding on_error
  on_error-StillRound k write_more w choice c = update_tx_entry-Still k c choice.entry w _ _
  on_error-StillRound k stream_data_blocked w choice c =
      option_rule (StillRound k c) choice.entry _ _
        (λ _. update_tx_entry-Still k c choice.entry w _ _)
        (λ _ _. update_tx_entry-Still k c choice.entry w _ _)
  on_error-StillRound k stream_shut_wr w choice c = discard_tx_entry-Still k c choice.entry
  on_error-StillRound k code w choice c =
      if_rule (StillRound k c) (is_nonfatal_closing_error code) _ _ (λ _. sync_state-Still k c)
        (λ _. (refl, refl))

  on_written-StillRound :
      (k : ℕ) (r : Written) (w : ℕ) (choice : Choice) (c : Connection P)
      → StillRound k c (on_written r w choice c)
  unfolding on_written
  on_written-StillRound k (failed code) w choice c = on_error-StillRound k code w choice c
  on_written-StillRound k (wrote []) w choice c = update_tx_entry-Still k c choice.entry w _ _
  on_written-StillRound k (wrote (b ∷ bytes)) w choice c =
      update_tx_entry-Still k c choice.entry w _ _

module _ {P : Platform} (lib : IsRecorded P) (k : ℕ) where
  -- Where a round ends, the library has delivered what has come to the buffer.
  abbrev FeedsRound : Connection P → Round P → Type 0
  FeedsRound c (continue force d) = Feeds lib k c d
  FeedsRound c (break d) = Feeds lib k c d
  FeedsRound c (emit payload d) = Feeds lib k c d
  FeedsRound c (throw x d) = Feeds lib k c d

  then_round :
      (c d : Connection P) (r : Round P) → Feeds lib k c d → FeedsRound d r → FeedsRound c r
  then_round c d (continue force e) f g = Feeds-trans lib k c d e f g
  then_round c d (break e) f g = Feeds-trans lib k c d e f g
  then_round c d (emit payload e) f g = Feeds-trans lib k c d e f g
  then_round c d (throw x e) f g = Feeds-trans lib k c d e f g

  StillRound-FeedsRound : (c : Connection P) (r : Round P) → StillRound k c r → FeedsRound c r
  StillRound-FeedsRound c (continue force d) s = Still-Feeds lib k c d s
  StillRound-FeedsRound c (break d) s = Still-Feeds lib k c d s
  StillRound-FeedsRound c (emit payload d) s = Still-Feeds lib k c d s
  StillRound-FeedsRound c (throw x d) s = Still-Feeds lib k c d s

  write_round-FeedsRound :
      (conn : P.Conn) (choice : Choice) (c : Connection P)
      → c.conn ≡ some conn
      → FeedsRound c (write_round conn choice c)
  unfolding write_round
  write_round-FeedsRound conn choice c at_conn =
      let o = P.writev_stream conn choice.request (timestamp c) in
      let d = absorb o (tick_clock c) in
      let r = on_written o.result.nwrite o.result.wdatalen choice d in
      then_round c d r
        (timed-Feeds lib k conn o c at_conn (lib.at_write conn choice.request (timestamp c) k))
        (StillRound-FeedsRound d r
          (on_written-StillRound k o.result.nwrite o.result.wdatalen choice d))

  on_open_error-FeedsRound :
      (conn : P.Conn) (stream_id : ℕ) (code : Code) (c : Connection P)
      → c.conn ≡ some conn
      → FeedsRound c (on_open_error conn stream_id code c)
  unfolding on_open_error
  on_open_error-FeedsRound conn stream_id stream_id_blocked c at_conn =
      write_round-FeedsRound conn no_stream c at_conn
  on_open_error-FeedsRound conn stream_id _ c at_conn = Still-Feeds lib k c c (refl, refl)

  after_open-FeedsRound :
      (conn : P.Conn) (j : ℕ) (e : StreamEntry) (rv : Status) (opened : ℕ) (c : Connection P)
      → c.conn ≡ some conn
      → FeedsRound c (after_open conn j e rv opened c)
  unfolding after_open
  after_open-FeedsRound conn j e success opened c at_conn =
      let f : StreamEntry → StreamEntry = λ d. record d { pending_open = false } in
      let d = modify_entry c j f in
      let choice = choice_of (some (j, e)) in
      let still = modify_entry-Still k j f c (λ d. refl) in
      if_rule (FeedsRound c) (opened == e.stream_id) _ _
        (λ _.
          then_round c d (write_round conn choice d) (Still-Feeds lib k c d still)
            (write_round-FeedsRound conn choice d (still.0 ∙ at_conn)))
        (λ _. Still-Feeds lib k c c (refl, refl))
  after_open-FeedsRound conn j e (failure code) opened c at_conn =
      on_open_error-FeedsRound conn e.stream_id code c at_conn

  opens-delivered :
      (bidi : Bool) (conn : P.Conn)
      → let o = if bidi then P.open_bidi_stream conn else P.open_uni_stream conn in
        lib.delivered o.conn k ≡ lib.delivered conn k ++ bytes_on k o.calls
  opens-delivered true conn = lib.at_bidi conn k
  opens-delivered false conn = lib.at_uni conn k

  pending_round-FeedsRound :
      (conn : P.Conn) (j : ℕ) (e : StreamEntry) (c : Connection P)
      → c.conn ≡ some conn
      → FeedsRound c (pending_round conn j e c)
  unfolding pending_round absorb
  pending_round-FeedsRound conn j e c at_conn =
      let o =
        if P.is_bidi_stream e.stream_id then P.open_bidi_stream conn else P.open_uni_stream conn in
      let d = absorb o c in
      then_round c d (after_open o.conn j e o.result.rv o.result.stream_id d)
        (absorb-Feeds lib k conn o c at_conn (opens-delivered (P.is_bidi_stream e.stream_id) conn))
        (after_open-FeedsRound o.conn j e o.result.rv o.result.stream_id d refl)

  picked-FeedsRound :
      (conn : P.Conn) (o : Option (ℕ × StreamEntry)) (c : Connection P)
      → c.conn ≡ some conn
      → FeedsRound c (picked_round conn (write_back o c).1 (write_back o c).0)
  unfolding write_back picked_round
  picked-FeedsRound conn none c at_conn = write_round-FeedsRound conn no_stream c at_conn
  picked-FeedsRound conn (some (j, e)) c at_conn =
      let d = modify_entry c j clamp_offset in
      let still = modify_entry-Still k j clamp_offset c clamp_offset-KeepsRx in
      let choice = choice_of (some (j, e)) in
      then_round c d
        (if e.pending_open then pending_round conn j e d else write_round conn choice d)
        (Still-Feeds lib k c d still)
        (if_rule (FeedsRound d) e.pending_open _ _
          (λ _. pending_round-FeedsRound conn j e d (still.0 ∙ at_conn))
          (λ _. write_round-FeedsRound conn choice d (still.0 ∙ at_conn)))

  round_of-FeedsRound :
      (o : Option P.Conn) (force : Bool) (c : Connection P)
      → c.conn ≡ o
      → FeedsRound c (round_of o force c)
  unfolding round_of round pick_tx_stream
  round_of-FeedsRound none force c at_conn = Still-Feeds lib k c c (refl, refl)
  round_of-FeedsRound (some conn) true c at_conn = write_round-FeedsRound conn no_stream c at_conn
  round_of-FeedsRound (some conn) false c at_conn =
      picked-FeedsRound conn (first_output c.streams) c at_conn

  -- The same where the fuel may run out.
  abbrev pub FeedsSent : Connection P → Sent P → Type 0
  FeedsSent c none = Unit
  FeedsSent c (some (r, d)) = Feeds lib k c d

  then_sent : (c d : Connection P) (r : Sent P) → Feeds lib k c d → FeedsSent d r → FeedsSent c r
  then_sent c d none f g = tt
  then_sent c d (some (r, e)) f g = Feeds-trans lib k c d e f g

  emit-FeedsSent :
      (b : Bool) (c : Connection P) (x y : Sent P)
      → FeedsSent c x
      → FeedsSent c y
      → FeedsSent c (elim b [ true ↦ x | false ↦ y ])
  emit-FeedsSent true c x y f g = f
  emit-FeedsSent false c x y f g = g

  react-FeedsSent :
      (again : Connection P → ℕ → Bool → List Datagram → Sent P)
      → ((d : Connection P) (n : ℕ) (b : Bool) (ds : List Datagram) → FeedsSent d (again d n b ds))
      → (emitted : ℕ) (acc : List Datagram) (c : Connection P) (r : Round P) → FeedsRound c r
      → FeedsSent c (react again emitted acc r)
  unfolding react
  react-FeedsSent again h emitted acc c (continue force d) f =
      then_sent c d (again d emitted force acc) f (h d emitted force acc)
  react-FeedsSent again h emitted acc c (break d) f =
      Feeds-trans lib k c d (sync_state d) f
        (Still-Feeds lib k d (sync_state d) (sync_state-Still k d))
  react-FeedsSent again h emitted acc c (throw x d) f = f
  react-FeedsSent again h emitted acc c (emit payload d) f =
      let acc' = acc ++ outgoing d payload ∷ [] in
      emit-FeedsSent (leb 256 (emitted + 1)) c _ (again d (emitted + 1) false acc')
        (Feeds-trans lib k c d (sync_state d) f
          (Still-Feeds lib k d (sync_state d) (sync_state-Still k d)))
        (then_sent c d (again d (emitted + 1) false acc') f (h d (emitted + 1) false acc'))

  pub loop-FeedsSent :
      (fuel : ℕ) (c : Connection P) (emitted : ℕ) (force : Bool) (acc : List Datagram)
      → FeedsSent c (loop fuel c emitted force acc)
  unfolding loop
  loop-FeedsSent zero c emitted force acc = tt
  loop-FeedsSent (suc fuel) c emitted force acc =
      react-FeedsSent (loop fuel) (loop-FeedsSent fuel) emitted acc c (round_of c.conn force c)
        (round_of-FeedsRound c.conn force c refl)
