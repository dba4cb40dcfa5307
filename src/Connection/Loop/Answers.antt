-- ===== src/Connection/Loop/Answers.antt =====
-- What the transmission loop of src/connection.c does with an answer of libngtcp2, and what is
-- relied on of the answers.
use ext_ngtcp.Prelude.{
  subst, sym, ◌⊎◌, inl, inr, ◌≤◌, Option, none, ap, ℕ, ◌<◌, ◌≡◌, ◌≢◌, refl, Bool, true, false, some,
  [], ◌∷◌, arith, if◌then◌else◌, if_rule,
}
use ext_ngtcp.Platform.{
  Platform, Code, write_more, stream_data_blocked, stream_shut_wr, Written, wrote, failed, Request,
}
use ext_ngtcp.Exceptions.{Exception}
use ext_ngtcp.Connection.State.{
  push_event, get_stream_entry, StreamEntry, Connection, tick_clock, modify_entry,
  is_nonfatal_closing_error,
}
use ext_ngtcp.Connection.Transmit.{
  notify_writable, is_drained, Choice, no_stream, discard_tx_entry, update_tx_entry, account,
}
use ext_ngtcp.Connection.Loop.{Round, continue, break, emit, throw, on_error, on_written}
use ext_ngtcp.Connection.Loop.Busy.{busy, busy_but, discarded-busy}
use ext_ngtcp.Connection.History.Table.{Sound}
use ext_ngtcp.Connection.History.Moves.{quiet, emit, Moves, here, next}

-- What is relied on of libngtcp2. `room` is what is left of the packet that it is building: a call
-- that answers NGTCP2_ERR_WRITE_MORE has put a frame into it, and until a packet is handed out no
-- call makes it grow. NGTCP2_ERR_WRITE_MORE and NGTCP2_ERR_STREAM_SHUT_WR are answers to calls with
-- a stream.
pub record IsDocumented (P : Platform) : Type 0 where
  pub room : P.Conn → ℕ
  pub fills :
      (conn : P.Conn) (r : Request) (now : ℕ)
      → (P.writev_stream conn r now).result.nwrite ≡ failed write_more
      → room (P.writev_stream conn r now).conn < room conn
  pub keeps :
      (conn : P.Conn) (r : Request) (now : ℕ)
      → (P.writev_stream conn r now).result.nwrite ≡ failed stream_shut_wr
      → room (P.writev_stream conn r now).conn ≤ room conn
  pub opens_bidi : (conn : P.Conn) → room (P.open_bidi_stream conn).conn ≤ room conn
  pub opens_uni : (conn : P.Conn) → room (P.open_uni_stream conn).conn ≤ room conn
  pub no_more :
      (conn : P.Conn) (now : ℕ)
      → (P.writev_stream conn no_stream.request now).result.nwrite ≢ failed write_more
  pub no_shut :
      (conn : P.Conn) (now : ℕ)
      → (P.writev_stream conn no_stream.request now).result.nwrite ≢ failed stream_shut_wr

-- The room that the handle leaves, if there is one.
abbrev pub room_of : {Conn : Type 0} → (Conn → ℕ) → Option Conn → ℕ
room_of room none = 0
room_of room (some conn) = room conn

pub Moves-Sound :
    {P : Platform} {c d : Connection P} → Moves c d → Sound c.streams → Sound d.streams
Moves-Sound here h = h
Moves-Sound (next m (quiet later same events)) h = later.2.1 (Moves-Sound m h)
Moves-Sound (next m (emit e later em)) h = later.2.1 (Moves-Sound m h)

-- The loop does not go on with this round's end, or it goes on without a stream, or with less room
-- in the packet than a, or with no more room and fewer than b streams that have output.
abbrev pub Falls : {P : Platform} → (P.Conn → ℕ) → ℕ → ℕ → Round P → Type 0
Falls room a b (continue true c) = Unit
Falls room a b (continue false c) =
    (room_of room c.conn < a) ⊎ ((room_of room c.conn ≤ a) × (busy c.streams < b))
Falls room a b (break c) = Unit
Falls room a b (emit payload c) = Unit
Falls room a b (throw x c) = Unit

-- The loop does not go on at all.
abbrev pub Stops : {P : Platform} → Round P → Type 0
Stops (continue force c) = ⊥
Stops (break c) = Unit
Stops (emit payload c) = Unit
Stops (throw x c) = Unit

pub Stops-Falls :
    {P : Platform} (room : P.Conn → ℕ) (a b : ℕ) (r : Round P) → Stops r → Falls room a b r
Stops-Falls room a b (continue force c) s = absurd s
Stops-Falls room a b (break c) s = tt
Stops-Falls room a b (emit payload c) s = tt
Stops-Falls room a b (throw x c) s = tt

module _ {P : Platform} where
  conn-notify_writable :
      (k : ℕ) (o : Option StreamEntry) (c : Connection P) → (notify_writable k o c).conn ≡ c.conn
  unfolding notify_writable push_event tick_clock modify_entry
  conn-notify_writable k none c = refl
  conn-notify_writable k (some e) c =
      if_rule (λ (d : Connection P). d.conn ≡ c.conn) (is_drained e) _ _ (λ _. refl) (λ _. refl)

  pub conn-update_tx_entry :
      (c : Connection P) (o : Option ℕ) (w : ℕ) (fin emitted : Bool)
      → (update_tx_entry c o w fin emitted).conn ≡ c.conn
  unfolding update_tx_entry modify_entry
  conn-update_tx_entry c none w fin emitted = refl
  conn-update_tx_entry c (some k) w fin emitted =
      let d = modify_entry c k (account w fin emitted) in
      conn-notify_writable k (get_stream_entry d k) d

  closing-Stops :
      (b : Bool) (x : Exception) (c d : Connection P) → Stops (if b then break c else throw x d)
  closing-Stops true x c d = tt
  closing-Stops false x c d = tt

  -- Without a stream.
  no_stream_error-Stops :
      (code : Code) (w : ℕ) (c : Connection P)
      → code ≢ write_more
      → code ≢ stream_shut_wr
      → Stops (on_error code w no_stream c)
  unfolding on_error
  no_stream_error-Stops write_more w c h k = absurd (h refl)
  no_stream_error-Stops stream_data_blocked w c h k = tt
  no_stream_error-Stops stream_shut_wr w c h k = absurd (k refl)
  no_stream_error-Stops code w c h k = closing-Stops (is_nonfatal_closing_error code) _ _ _

  pub no_stream_written-Stops :
      (r : Written) (w : ℕ) (c : Connection P)
      → r ≢ failed write_more
      → r ≢ failed stream_shut_wr
      → Stops (on_written r w no_stream c)
  unfolding on_written
  no_stream_written-Stops (failed code) w c h k =
      no_stream_error-Stops code w c (λ e. h (ap failed e)) (λ e. k (ap failed e))
  no_stream_written-Stops (wrote []) w c h k = tt
  no_stream_written-Stops (wrote (b ∷ bytes)) w c h k = tt

  -- With the stream of key k; `less` and `same` are what the answer says of the room.
  on_error-Falls :
      (room : P.Conn → ℕ) (a b k : ℕ) (code : Code) (w : ℕ) (choice : Choice) (c : Connection P)
      → choice.entry ≡ some k
      → Sound c.streams
      → busy_but k c.streams < b
      → (code ≡ write_more → room_of room c.conn < a)
      → (code ≡ stream_shut_wr → room_of room c.conn ≤ a)
      → Falls room a b (on_error code w choice c)
  unfolding on_error discard_tx_entry modify_entry
  on_error-Falls room a b k write_more w choice c at_key sound low less same = inl (
      subst (λ o. room_of room o < a)
        (sym (conn-update_tx_entry c choice.entry w choice.request.fin false)) (less refl))
  on_error-Falls room a b k stream_data_blocked w choice c at_key sound low less same = rw at_key tt
  on_error-Falls room a b k stream_shut_wr w choice c at_key sound low less same =
      rw (at_key, discard_tx_entry)
        (inr (same refl, omega (arith, discarded-busy k c.streams sound)))
  on_error-Falls room a b k code w choice c at_key sound low less same =
      Stops-Falls room a b _ (closing-Stops (is_nonfatal_closing_error code) _ _ _)

  pub on_written-Falls :
      (room : P.Conn → ℕ) (a b k : ℕ) (r : Written) (w : ℕ) (choice : Choice) (c : Connection P)
      → choice.entry ≡ some k
      → Sound c.streams
      → busy_but k c.streams < b
      → (r ≡ failed write_more → room_of room c.conn < a)
      → (r ≡ failed stream_shut_wr → room_of room c.conn ≤ a)
      → Falls room a b (on_written r w choice c)
  unfolding on_written
  on_written-Falls room a b k (failed code) w choice c at_key sound low less same =
      on_error-Falls room a b k code w choice c at_key sound low (λ e. less (ap failed e))
        (λ e. same (ap failed e))
  on_written-Falls room a b k (wrote []) w choice c at_key sound low less same = tt
  on_written-Falls room a b k (wrote (x ∷ bytes)) w choice c at_key sound low less same = tt
