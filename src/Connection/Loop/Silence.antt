-- ===== src/Connection/Loop/Silence.antt =====
-- When the loop of drainOutgoingDatagrams of src/connection.c stops with streams that have output.
use ext_ngtcp.Prelude.{
  ◌⊎◌, inl, inr, ℕ, ◌≡◌, ◌≢◌, refl, ◌∙◌, sym, Bool, true, false, not, Option, none, some, [], ◌∷◌,
  arith, ◌==◌, if_rule, if◌then◌else◌,
}
use ext_ngtcp.Platform.{
  Platform, Code, write_more, stream_data_blocked, stream_shut_wr, stream_id_blocked, Status,
  success, failure, Written, wrote, failed, Outcome,
}
use ext_ngtcp.Exceptions.{Exception}
use ext_ngtcp.Callbacks.{absorb}
use ext_ngtcp.Connection.State.{
  StreamEntry, Connection, tick_clock, timestamp, modify_entry, is_nonfatal_closing_error,
}
use ext_ngtcp.Connection.Transmit.{
  first_output, clamp_offset, Choice, no_stream, choice_of, request_of, write_back, pick_tx_stream,
  update_tx_entry, discard_tx_entry,
}
use ext_ngtcp.Connection.Loop.{
  Round, continue, break, emit, throw, on_error, on_written, write_round, on_open_error, after_open,
  pending_round, picked_round, round, round_of,
}
use ext_ngtcp.Connection.Loop.Handlers.{absorb-Calms}
use ext_ngtcp.Connection.Loop.Answers.{conn-update_tx_entry}
use ext_ngtcp.Connection.Loop.Blocked.{
  proceeds, opening, Stalls, refused, not_opened, refused_once_open, silent-busy_but,
  busy_but-silent, streams-sync_state,
}

-- The handle is there.
abbrev pub Handled : {P : Platform} → Connection P → Type 0
Handled c = c.conn ≢ none

abbrev pub Silent : {P : Platform} → Connection P → Type 0
Silent c = first_output c.streams ≡ none

-- A round that leaves the loop leaves no stream with output, and one that stays has not turned the
-- streams off, unless B.
abbrev pub Serves : {P : Platform} → Type 0 → Round P → Type 0
Serves B (continue force c) = (force ≡ true → B) × Handled c
Serves B (break c) = Silent c ⊎ B
Serves B (emit payload c) = Handled c
Serves B (throw x c) = Unit

-- Silence, unless B, along a step that keeps it.
abbrev pub quiet : {A B C : Type 0} → (A → C) → A ⊎ B → C ⊎ B
quiet f (inl a) = inl (f a)
quiet f (inr b) = inr b

module _ {P : Platform} where
  absorb-Silent :
      {A : Type 0} (o : Outcome P.Conn A) (c : Connection P) → Silent c → Silent (absorb o c)
  absorb-Silent o c h =
      busy_but-silent (absorb o c).streams
        λ k. omega (arith, absorb-Calms k o c, silent-busy_but k c.streams h)

  tick-Silent : (c : Connection P) → Silent c → Silent (tick_clock c)
  unfolding tick_clock
  tick-Silent c h = h

  absorb-Handled : {A : Type 0} (o : Outcome P.Conn A) (c : Connection P) → Handled (absorb o c)
  unfolding absorb
  absorb-Handled o c e = cc

  updated-Handled :
      (c : Connection P) (o : Option ℕ) (w : ℕ) (fin emitted : Bool)
      → Handled c
      → Handled (update_tx_entry c o w fin emitted)
  updated-Handled c o w fin emitted h e = h (sym (conn-update_tx_entry c o w fin emitted) ∙ e)

  discarded-Handled : (c : Connection P) (o : Option ℕ) → Handled c → Handled (discard_tx_entry c o)
  unfolding discard_tx_entry modify_entry
  discarded-Handled c none h = h
  discarded-Handled c (some k) h = h

module _ {P : Platform} {B : Type 0} where
  closing-Serves :
      (b : Bool) (x : Exception) (c d : Connection P)
      → Silent c ⊎ B
      → Serves B (if b then break c else throw x d)
  closing-Serves true x c d h = h
  closing-Serves false x c d h = tt

  -- Without a stream, on a table that has no output.
  no_stream_error-Serves :
      (code : Code) (w : ℕ) (c : Connection P)
      → Silent c ⊎ B
      → Handled c
      → Serves B (on_error code w no_stream c)
  unfolding on_error update_tx_entry discard_tx_entry
  no_stream_error-Serves write_more w c h l = ((λ t. cc), l)
  no_stream_error-Serves stream_data_blocked w c h l = h
  no_stream_error-Serves stream_shut_wr w c h l = ((λ t. cc), l)
  no_stream_error-Serves code w c h l =
      closing-Serves (is_nonfatal_closing_error code) _ _ _
        (quiet (λ q. rw (streams-sync_state c) q) h)

  no_stream_written-Serves :
      (r : Written) (w : ℕ) (c : Connection P)
      → Silent c ⊎ B
      → Handled c
      → Serves B (on_written r w no_stream c)
  unfolding on_written update_tx_entry
  no_stream_written-Serves (failed code) w c h l = no_stream_error-Serves code w c h l
  no_stream_written-Serves (wrote []) w c h l = h
  no_stream_written-Serves (wrote (b ∷ bytes)) w c h l = l

  no_stream-Serves :
      (conn : P.Conn) (c : Connection P) → Silent c ⊎ B → Serves B (write_round conn no_stream c)
  unfolding write_round
  no_stream-Serves conn c h =
      let o = P.writev_stream conn no_stream.request (timestamp c) in
      no_stream_written-Serves o.result.nwrite o.result.wdatalen (absorb o (tick_clock c))
        (quiet (λ q. absorb-Silent o (tick_clock c) (tick-Silent c q)) h)
        (absorb-Handled o (tick_clock c))

  fatal-Serves :
      (b : Bool) (x : Exception) (c d : Connection P)
      → (not b ≡ false → B)
      → Serves B (if b then break c else throw x d)
  fatal-Serves true x c d p = inr (p refl)
  fatal-Serves false x c d p = tt

  blocked-Serves :
      (o : Option ℕ) (c : Connection P)
      → B
      → Handled c
      → Serves B (elim o [ none ↦ break c | some _ ↦ continue true c ])
  blocked-Serves none c b h = inr b
  blocked-Serves (some k) c b h = ((λ t. b), h)

  -- With a stream: B where the answer does not proceed.
  on_error-Serves :
      (code : Code) (w : ℕ) (choice : Choice) (c : Connection P)
      → (proceeds (failed code) ≡ false → B)
      → Handled c
      → Serves B (on_error code w choice c)
  unfolding on_error
  on_error-Serves write_more w choice c p h = ((λ t. cc), updated-Handled c _ _ _ _ h)
  on_error-Serves stream_data_blocked w choice c p h =
      blocked-Serves choice.entry (update_tx_entry c choice.entry w choice.request.fin false)
        (p refl) (updated-Handled c _ _ _ _ h)
  on_error-Serves stream_shut_wr w choice c p h = ((λ t. cc), discarded-Handled c _ h)
  on_error-Serves code w choice c p h = fatal-Serves (is_nonfatal_closing_error code) _ _ _ p

  on_written-Serves :
      (r : Written) (w : ℕ) (choice : Choice) (c : Connection P)
      → (proceeds r ≡ false → B)
      → Handled c
      → Serves B (on_written r w choice c)
  unfolding on_written
  on_written-Serves (failed code) w choice c p h = on_error-Serves code w choice c p h
  on_written-Serves (wrote []) w choice c p h = inr (p refl)
  on_written-Serves (wrote (b ∷ bytes)) w choice c p h = updated-Handled c _ _ _ _ h

module _ {P : Platform} {B : Type 0} where
  write_round-Serves :
      (k : ℕ) (e : StreamEntry) (conn : P.Conn) (c : Connection P)
      → (proceeds (P.writev_stream conn (request_of e) (timestamp c)).result.nwrite ≡ false → B)
      → Serves B (write_round conn (choice_of (some (k, e))) c)
  unfolding write_round choice_of
  write_round-Serves k e conn c stalls =
      let o = P.writev_stream conn (request_of e) (timestamp c) in
      on_written-Serves o.result.nwrite o.result.wdatalen (choice_of (some (k, e)))
        (absorb o (tick_clock c)) stalls (absorb-Handled o (tick_clock c))

  on_open_error-Serves :
      (conn : P.Conn) (stream_id : ℕ) (code : Code) (c : Connection P)
      → (failure code ≡ failure stream_id_blocked → B)
      → Serves B (on_open_error conn stream_id code c)
  unfolding on_open_error
  on_open_error-Serves conn stream_id stream_id_blocked c h = no_stream-Serves conn c (inr (h refl))
  on_open_error-Serves conn stream_id _ c h = tt

  after_open-Serves :
      (conn : P.Conn) (k : ℕ) (e : StreamEntry) (rv : Status) (opened : ℕ) (c : Connection P)
      → (rv ≡ failure stream_id_blocked → B)
      → (let d = modify_entry c k (λ d. record d { pending_open = false }) in
          proceeds (P.writev_stream conn (request_of e) (timestamp d)).result.nwrite ≡ false → B)
      → Serves B (after_open conn k e rv opened c)
  unfolding after_open
  after_open-Serves conn k e success opened c h stalls =
      if_rule (Serves B) (opened == e.stream_id) _ _ (λ _. write_round-Serves k e conn _ stalls)
        (λ _. tt)
  after_open-Serves conn k e (failure code) opened c h stalls =
      on_open_error-Serves conn e.stream_id code c h

  picked-Serves :
      (conn : P.Conn) (o : Option (ℕ × StreamEntry)) (c : Connection P)
      → first_output c.streams ≡ o
      → ((k : ℕ) (e : StreamEntry) → o ≡ some (k, e) → Stalls conn k e c → B)
      → Serves B (picked_round conn (write_back o c).1 (write_back o c).0)
  unfolding picked_round write_back pending_round
  picked-Serves conn none c picked h = no_stream-Serves conn c (inl picked)
  picked-Serves conn (some (k, e)) c picked h =
      if_rule (Serves B) e.pending_open _ _
        (λ waits.
          let o = opening P conn e in
          after_open-Serves o.conn k e o.result.rv o.result.stream_id
            (absorb o (modify_entry c k clamp_offset)) (λ b. h k e refl (not_opened waits b))
            (λ b. h k e refl (refused_once_open waits b)))
        (λ opened.
          write_round-Serves k e conn (modify_entry c k clamp_offset)
            (λ b. h k e refl (refused opened b)))

  pub round_of-Serves :
      (o : Option P.Conn) (force : Bool) (c : Connection P)
      → o ≢ none
      → (force ≡ true → B)
      → ((conn : P.Conn) (k : ℕ) (e : StreamEntry)
          → force ≡ false
          → o ≡ some conn
          → first_output c.streams ≡ some (k, e)
          → Stalls conn k e c
          → B)
      → Serves B (round_of o force c)
  unfolding round_of round pick_tx_stream
  round_of-Serves none force c h b stalls = absurd (h refl)
  round_of-Serves (some conn) true c h b stalls = no_stream-Serves conn c (inr (b refl))
  round_of-Serves (some conn) false c h b stalls =
      picked-Serves conn (first_output c.streams) c refl
        (λ k e picked s. stalls conn k e refl refl picked s)
