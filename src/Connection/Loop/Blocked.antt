-- ===== src/Connection/Loop/Blocked.antt =====
-- The rounds of drainOutgoingDatagrams of src/connection.c in which libngtcp2 blocks a stream.
use ext_ngtcp.Prelude.{
  Bytes, ℕ, suc, ◌≤◌, ◌≡◌, refl, ◌∙◌, Bool, true, false, not, ◌||◌, none, some, [], ◌∷◌, arith,
  if_rule, option_rule, if◌then◌else◌,
}
use ext_ngtcp.Platform.{
  Platform, Outcome, Status, stream_data_blocked, stream_id_blocked, failure, Written, wrote,
  failed,
}
use ext_ngtcp.Connection.State.{
  StreamEntry, Streams, Connection, tick_clock, timestamp, modify_entry, sync_state, sync_with,
  sync_draining, sync_closed, push_event, is_nonfatal_closing_error,
}
use ext_ngtcp.Callbacks.{absorb}
use ext_ngtcp.Connection.Loop.{continue, emit, round_of}
use ext_ngtcp.Connection.Transmit.{has_output, first_output, clamp_offset, request_of}
use ext_ngtcp.Connection.Loop.Busy.{busy_but}

-- An answer with a packet, or an error that neither congestion, flow control nor the end of the
-- connection gives.
abbrev pub proceeds : Written → Bool
proceeds (wrote []) = false
proceeds (wrote (_ ∷ _)) = true
proceeds (failed stream_data_blocked) = false
proceeds (failed code) = not (is_nonfatal_closing_error code)

-- What a round does to open the stream of entry e.
abbrev pub opening :
    (P : Platform) → P.Conn → StreamEntry → Outcome P.Conn (record { rv : Status; stream_id : ℕ })
opening P conn e =
    if P.is_bidi_stream e.stream_id then P.open_bidi_stream conn else P.open_uni_stream conn

-- The connection when the packet of the stream is asked for after the opening.
abbrev pub once_open : {P : Platform} → P.Conn → ℕ → StreamEntry → Connection P → Connection P
once_open {P} conn k e c =
    modify_entry (absorb (opening P conn e) (modify_entry c k clamp_offset)) k
      (λ d. record d { pending_open = false })

-- A round for the stream of entry e in which libngtcp2 does not let it go on: it asks for a packet
-- and gets none, or it cannot open the stream.
pub data Stalls {P : Platform} (conn : P.Conn) (k : ℕ) (e : StreamEntry) (c : Connection P)
    : Type 0 where
  refused :
      e.pending_open ≡ false
      → proceeds
          (P.writev_stream conn
            (request_of e)
            (timestamp (modify_entry c k clamp_offset))).result.nwrite
        ≡ false
      → Stalls conn k e c
  not_opened :
      e.pending_open ≡ true
      → (opening P conn e).result.rv ≡ failure stream_id_blocked
      → Stalls conn k e c
  refused_once_open :
      e.pending_open ≡ true
      → proceeds
          (P.writev_stream
            (opening P conn e).conn
            (request_of e)
            (timestamp (once_open conn k e c))).result.nwrite
        ≡ false
      → Stalls conn k e c

-- The rounds of a call on c, up to a connection and the flag force_conn_only.
pub data Rounds {P : Platform} (c : Connection P) : Connection P → Bool → Type 0 where
  start : Rounds c c false
  continued :
      {d e : Connection P} {f g : Bool}
      → Rounds c d f
      → round_of d.conn f d ≡ continue g e
      → Rounds c e g
  sent :
      {d e : Connection P} {f : Bool} {payload : Bytes}
      → Rounds c d f
      → round_of d.conn f d ≡ emit payload e
      → Rounds c e false

-- In one of the rounds of the call, the stream with output that it has picked stalls.
abbrev pub Blocked : {P : Platform} → Connection P → Type 0
Blocked {P} c =
    (d : Connection P) × (conn : P.Conn) × (k : ℕ) × (e : StreamEntry) × (Rounds c d false
      × (d.conn ≡ some conn)
      × (first_output d.streams ≡ some (k, e))
      × Stalls conn k e d)

pub silent-busy_but :
    (k : ℕ) (streams : Streams) → first_output streams ≡ none → busy_but k streams ≤ 0
unfolding first_output busy_but
silent-busy_but k [] h = omega arith
silent-busy_but k ((j, e) ∷ streams) h = ground (arith, silent-busy_but k streams)

pub busy_but-silent :
    (streams : Streams) → ((k : ℕ) → busy_but k streams ≤ 0) → first_output streams ≡ none
unfolding first_output busy_but
busy_but-silent [] h = refl
busy_but-silent ((j, e) ∷ streams) h =
    let idle : has_output e ≡ false = ground (arith, h (suc j)) in
    rw idle (busy_but-silent streams λ k. ground (arith, h k))

module _ {P : Platform} where
  streams-sync_draining : (c : Connection P) → (sync_draining c).streams ≡ c.streams
  unfolding sync_draining push_event tick_clock
  streams-sync_draining c =
      if_rule (λ (d : Connection P). d.streams ≡ c.streams) c.draining_event_emitted _ _ (λ _. refl)
        (λ _. refl)

  streams-sync_closed :
      (c : Connection P) (conn : P.Conn) → (sync_closed c conn).streams ≡ c.streams
  unfolding sync_closed push_event tick_clock
  streams-sync_closed c conn =
      if_rule (λ (d : Connection P). d.streams ≡ c.streams) c.close_event_emitted _ _ (λ _. refl)
        (λ _. refl)

  streams-sync_with : (c : Connection P) (conn : P.Conn) → (sync_with c conn).streams ≡ c.streams
  unfolding sync_with
  streams-sync_with c conn =
      let draining = P.in_draining_period conn in
      let c1 = if draining then sync_draining c else c in
      let same : c1.streams ≡ c.streams =
        if_rule (λ (d : Connection P). d.streams ≡ c.streams) draining _ _
          (λ _. streams-sync_draining c) (λ _. refl) in
      if_rule (λ (d : Connection P). d.streams ≡ c.streams) (P.in_closing_period conn || draining) _
        _ (λ _. streams-sync_closed c1 conn ∙ same) (λ _. same)

  pub streams-sync_state : (c : Connection P) → (sync_state c).streams ≡ c.streams
  unfolding sync_state
  streams-sync_state c =
      option_rule (λ (d : Connection P). d.streams ≡ c.streams) c.conn _ _ (λ _. refl)
        (λ conn _. streams-sync_with c conn)
