-- ===== src/Connection/History/Transmission.antt =====
-- The transmission loop of src/connection.c, and each of its rounds, as chains of moves.
use ext_ngtcp.Prelude.{
  ℕ, zero, suc, ◌+◌, refl, Bool, true, false, inl, inr, Option, none, some, List, [], ◌∷◌, ◌++◌,
  arith, ◌==◌, if◌then◌else◌, leb,
}
use ext_ngtcp.Event.{stream_writable}
use ext_ngtcp.Platform.{
  Platform, Code, write_more, stream_data_blocked, stream_shut_wr, stream_id_blocked, Status,
  success, failure, Written, wrote, failed,
}
use ext_ngtcp.Exceptions.{call_failed, conn_writev_stream, stream_id_mismatch}
use ext_ngtcp.Datagram.{Datagram}
use ext_ngtcp.Callbacks.{absorb}
use ext_ngtcp.Connection.State.{
  StreamEntry, Connection, tick_clock, timestamp, push_event, modify_entry, sync_state,
  get_stream_entry, is_nonfatal_closing_error,
}
use ext_ngtcp.Connection.Transmit.{
  Choice, no_stream, choice_of, pick_tx_stream, first_output, clamp_offset, account, is_drained,
  notify_writable, update_tx_entry, discard_tx_entry, write_back, outgoing,
}
use ext_ngtcp.Connection.Loop.{
  Round, continue, break, emit, throw, on_error, on_written, write_round, on_open_error,
  pending_round, picked_round, round, round_of, Sent, react, loop, after_open,
}
use ext_ngtcp.Connection.History.Moves.{life_refl, keeps_refl, quiet, Moves, here, Moves-trans, one}
use ext_ngtcp.Connection.History.Table.{account-Fits, discarded-Fits, clamp_offset-Fits}
use ext_ngtcp.Connection.History.Steps.{
  Moves-if, sync_state-Moves, then_push, then_modify, absorb-Moves, timed-Moves,
}

module _ {P : Platform} where
  notify_writable-Moves :
      (k : ℕ) (o : Option StreamEntry) (c : Connection P) → Moves c (notify_writable k o c)
  unfolding notify_writable
  notify_writable-Moves k none c = here
  notify_writable-Moves k (some e) c =
      Moves-if c (is_drained e)
        (push_event (modify_entry c k (λ d. record d { writable = true })) stream_writable
          e.stream_id 0 false none)
        c
        (λ _.
          then_push _ stream_writable e.stream_id 0 false (then_modify c k _ (λ k e h. h) here)
            (inr (inr (inl refl))))
        (λ _. here)

  update_tx_entry-Moves :
      (c : Connection P) (o : Option ℕ) (wdatalen : ℕ) (fin emitted : Bool)
      → Moves c (update_tx_entry c o wdatalen fin emitted)
  unfolding update_tx_entry
  update_tx_entry-Moves c none wdatalen fin emitted = here
  update_tx_entry-Moves c (some k) wdatalen fin emitted =
      let d = modify_entry c k (account wdatalen fin emitted) in
      Moves-trans (then_modify c k _ (account-Fits wdatalen fin emitted) here)
        (notify_writable-Moves k (get_stream_entry d k) d)

  discard_tx_entry-Moves : (c : Connection P) (o : Option ℕ) → Moves c (discard_tx_entry c o)
  unfolding discard_tx_entry
  discard_tx_entry-Moves c none = here
  discard_tx_entry-Moves c (some k) = then_modify c k _ discarded-Fits here

-- Where a round ends is reached by moves.
abbrev pub Leads : {P : Platform} → Connection P → Round P → Type 0
Leads c (continue force d) = Moves c d
Leads c (break d) = Moves c d
Leads c (emit payload d) = Moves c d
Leads c (throw x d) = Moves c d

Leads-if :
    {P : Platform} (c : Connection P) (b : Bool) (x y : Round P)
    → Leads c x
    → Leads c y
    → Leads c (if b then x else y)
Leads-if c true x y l m = l
Leads-if c false x y l m = m

Leads-trans : {P : Platform} {c d : Connection P} (r : Round P) → Moves c d → Leads d r → Leads c r
Leads-trans (continue force e) m l = Moves-trans m l
Leads-trans (break e) m l = Moves-trans m l
Leads-trans (emit payload e) m l = Moves-trans m l
Leads-trans (throw x e) m l = Moves-trans m l

module _ {P : Platform} where
  blocked-Leads :
      (o : Option ℕ) (c d : Connection P)
      → Moves c d
      → Leads c (elim o [ none ↦ break d | some _ ↦ continue true d ])
  blocked-Leads none c d m = m
  blocked-Leads (some k) c d m = m

  on_error-Leads :
      (code : Code) (wdatalen : ℕ) (choice : Choice) (c : Connection P)
      → Leads c (on_error code wdatalen choice c)
  unfolding on_error
  on_error-Leads write_more wdatalen choice c = update_tx_entry-Moves c choice.entry wdatalen _ _
  on_error-Leads stream_data_blocked wdatalen choice c =
      blocked-Leads choice.entry c _ (update_tx_entry-Moves c choice.entry wdatalen _ _)
  on_error-Leads stream_shut_wr wdatalen choice c = discard_tx_entry-Moves c choice.entry
  on_error-Leads code wdatalen choice c =
      Leads-if c (is_nonfatal_closing_error code) (break (sync_state c))
        (throw (call_failed conn_writev_stream code) (record c { last_error = P.set_liberr code }))
        (sync_state-Moves c)
        (one (quiet (omega arith, life_refl c, keeps_refl c.streams) (refl, refl, refl) refl))

  on_written-Leads :
      (w : Written) (wdatalen : ℕ) (choice : Choice) (c : Connection P)
      → Leads c (on_written w wdatalen choice c)
  unfolding on_written
  on_written-Leads (failed code) wdatalen choice c = on_error-Leads code wdatalen choice c
  on_written-Leads (wrote []) wdatalen choice c = update_tx_entry-Moves c choice.entry wdatalen _ _
  on_written-Leads (wrote (b ∷ bytes)) wdatalen choice c =
      update_tx_entry-Moves c choice.entry wdatalen _ _

  write_round-Leads :
      (conn : P.Conn) (choice : Choice) (c : Connection P) → Leads c (write_round conn choice c)
  unfolding write_round
  write_round-Leads conn choice c =
      let o = P.writev_stream conn choice.request (timestamp c) in
      Leads-trans (on_written o.result.nwrite o.result.wdatalen choice (absorb o (tick_clock c)))
        (timed-Moves o c)
        (on_written-Leads o.result.nwrite o.result.wdatalen choice (absorb o (tick_clock c)))

  on_open_error-Leads :
      (conn : P.Conn) (stream_id : ℕ) (code : Code) (c : Connection P)
      → Leads c (on_open_error conn stream_id code c)
  unfolding on_open_error
  on_open_error-Leads conn stream_id stream_id_blocked c = write_round-Leads conn no_stream c
  on_open_error-Leads conn stream_id _ c = here

  after_open-Leads :
      (conn : P.Conn) (k : ℕ) (e : StreamEntry) (rv : Status) (opened : ℕ) (c : Connection P)
      → Leads c (after_open conn k e rv opened c)
  unfolding after_open
  after_open-Leads conn k e success opened c =
      let d = modify_entry c k (λ d. record d { pending_open = false }) in
      let choice = choice_of (some (k, e)) in
      Leads-if c (opened == e.stream_id) (write_round conn choice d)
        (throw (stream_id_mismatch e.stream_id opened) c)
        (Leads-trans (write_round conn choice d) (then_modify c k _ (λ k e h. h) here)
          (write_round-Leads conn choice d))
        here
  after_open-Leads conn k e (failure code) opened c = on_open_error-Leads conn e.stream_id code c

  pending_round-Leads :
      (conn : P.Conn) (k : ℕ) (e : StreamEntry) (c : Connection P)
      → Leads c (pending_round conn k e c)
  unfolding pending_round
  pending_round-Leads conn k e c =
      let o =
        if P.is_bidi_stream e.stream_id then P.open_bidi_stream conn else P.open_uni_stream conn in
      Leads-trans (after_open o.conn k e o.result.rv o.result.stream_id (absorb o c))
        (absorb-Moves o c) (after_open-Leads o.conn k e o.result.rv o.result.stream_id (absorb o c))

  picked_round-Leads :
      (conn : P.Conn) (o : Option (ℕ × StreamEntry)) (c : Connection P)
      → Leads c (picked_round conn o c)
  unfolding picked_round
  picked_round-Leads conn none c = write_round-Leads conn no_stream c
  picked_round-Leads conn (some (k, e)) c =
      Leads-if c e.pending_open (pending_round conn k e c)
        (write_round conn (choice_of (some (k, e))) c) (pending_round-Leads conn k e c)
        (write_round-Leads conn (choice_of (some (k, e))) c)

  picked-Leads :
      (conn : P.Conn) (o : Option (ℕ × StreamEntry)) (c : Connection P)
      → Leads c (let (c1, picked) = write_back o c in picked_round conn picked c1)
  unfolding write_back
  picked-Leads conn none c = picked_round-Leads conn none c
  picked-Leads conn (some (k, e)) c =
      let d = modify_entry c k clamp_offset in
      Leads-trans (picked_round conn (some (k, e)) d) (then_modify c k _ clamp_offset-Fits here)
        (picked_round-Leads conn (some (k, e)) d)

  pub round_of-Leads :
      (o : Option P.Conn) (force : Bool) (c : Connection P) → Leads c (round_of o force c)
  unfolding round_of round pick_tx_stream
  round_of-Leads none force c = here
  round_of-Leads (some conn) true c = write_round-Leads conn no_stream c
  round_of-Leads (some conn) false c = picked-Leads conn (first_output c.streams) c

-- Where a method that may run out of fuel ends is reached by moves.
abbrev pub Ends : {P : Platform} → Connection P → Sent P → Type 0
Ends c none = Unit
Ends c (some (r, d)) = Moves c d

Ends-trans : {P : Platform} {c d : Connection P} (r : Sent P) → Moves c d → Ends d r → Ends c r
Ends-trans none m l = tt
Ends-trans (some (r, e)) m l = Moves-trans m l

module _ {P : Platform} where
  emit-Ends :
      (b : Bool) (c d : Connection P) (x y : Sent P)
      → Ends c x
      → Ends c y
      → Ends c (elim b [ true ↦ x | false ↦ y ])
  emit-Ends true c d x y l m = l
  emit-Ends false c d x y l m = m

  react-Ends :
      (again : Connection P → ℕ → Bool → List Datagram → Sent P)
      → ((d : Connection P) (n : ℕ) (b : Bool) (ds : List Datagram) → Ends d (again d n b ds))
      → (emitted : ℕ) (acc : List Datagram) (c : Connection P) (r : Round P) → Leads c r
      → Ends c (react again emitted acc r)
  unfolding react
  react-Ends again h emitted acc c (continue force d) m =
      Ends-trans (again d emitted force acc) m (h d emitted force acc)
  react-Ends again h emitted acc c (break d) m = Moves-trans m (sync_state-Moves d)
  react-Ends again h emitted acc c (throw x d) m = m
  react-Ends again h emitted acc c (emit payload d) m =
      let acc' = acc ++ outgoing d payload ∷ [] in
      emit-Ends (leb 256 (emitted + 1)) c d _ (again d (emitted + 1) false acc')
        (Moves-trans m (sync_state-Moves d))
        (Ends-trans (again d (emitted + 1) false acc') m (h d (emitted + 1) false acc'))

  pub loop-Ends :
      (fuel : ℕ) (c : Connection P) (emitted : ℕ) (force : Bool) (acc : List Datagram)
      → Ends c (loop fuel c emitted force acc)
  unfolding loop
  loop-Ends zero c emitted force acc = tt
  loop-Ends (suc fuel) c emitted force acc =
      react-Ends (loop fuel) (loop-Ends fuel) emitted acc c (round_of c.conn force c)
        (round_of-Leads c.conn force c)
