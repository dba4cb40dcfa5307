-- ===== src/Connection/State.antt =====
-- The state of a connection (php_quic_connection of src/internal/types.h), its table of streams and
-- the functions of src/connection.c that all others use.
use ext_ngtcp.Prelude.{
  ℕ, ◌+◌, Bool, true, false, ◌||◌, Option, none, some, List, [], ◌∷◌, ◌++◌, Bytes, ◌==◌,
  if◌then◌else◌, minus_one, c_string,
}
use ext_ngtcp.Queue.{Event}
use ext_ngtcp.Event.{connection_closed, connection_draining, milliseconds}
use ext_ngtcp.Platform.{Platform, Code, closing, draining, idle_close}
use ext_ngtcp.Address.{Address, Zval, undef}
use ext_ngtcp.Tls.{Tls, no_tls}

-- php_quic_stream_entry. The stream id is an int64_t pattern, the offset a uint64_t.
pub record StreamEntry : Type 0 where
  pub stream_id : ℕ
  pub rx_buffer : Option Bytes
  pub tx_buffer : Option Bytes
  pub tx_offset : ℕ
  pub readable : Bool
  pub writable : Bool
  pub closed : Bool
  pub reset : Bool
  pub fin_sent : Bool
  pub fin_recv : Bool
  pub fin_pending : Bool
  pub pending_open : Bool

unfoldable pub stream_entry_alloc : ℕ → StreamEntry
stream_entry_alloc stream_id = record {
  stream_id = stream_id;
  rx_buffer = some [];
  tx_buffer = some [];
  tx_offset = 0;
  readable = false;
  writable = true;
  closed = false;
  reset = false;
  fin_sent = false;
  fin_recv = false;
  fin_pending = false;
  pending_open = false;
}

-- The hash table `streams`: keys with entries, in the order of insertion, which is the order in
-- which ZEND_HASH_FOREACH visits them. No function deletes from it.
abbrev pub Streams : Type 0
Streams = List (ℕ × StreamEntry)

unfoldable pub find : ℕ → Streams → Option StreamEntry
find k [] = none
find k ((j, e) ∷ streams) = if j == k then some e else find k streams

-- A write through the entry pointer of key k.
unfoldable pub modify : ℕ → (StreamEntry → StreamEntry) → Streams → Streams
modify k f [] = []
modify k f ((j, e) ∷ streams) = if j == k then (j, f e) ∷ streams else (j, e) ∷ modify k f streams

-- The connection object. `events` is the queue in its abstract view: src/queue.c keeps it by
-- pointers, which Queue.Refinement relates to the list. `clock_reads` is no field of
-- the C record: it counts the readings of zend_hrtime made for the connection so far. The TLS
-- handles are `tls`; the reference that libngtcp2 keeps to the connection is not part of it.
pub record Connection (P : Platform) : Type 0 where
  pub conn : Option P.Conn
  pub last_error : P.Ccerr
  pub remote_addr : P.Sockaddr
  pub local_addr : P.Sockaddr
  pub remote_address : Zval Address
  pub local_address : Zval Address
  pub tls : Tls
  pub close_reason : Option Bytes
  pub streams : Streams
  pub events : List Event
  pub next_bidi_stream_id : ℕ
  pub next_uni_stream_id : ℕ
  pub established : Bool
  pub is_draining : Bool
  pub closed : Bool
  pub close_requested : Bool
  pub close_packet_sent : Bool
  pub close_event_emitted : Bool
  pub draining_event_emitted : Bool
  pub clock_reads : ℕ

-- php_quic_connection_create_object; `zero_addr` is a zeroed sockaddr_storage.
unfoldable pub create_object : (P : Platform) (zero_addr : P.Sockaddr) → Connection P
create_object P zero_addr = record {
  conn = none;
  last_error = P.ccerr_default;
  remote_addr = zero_addr;
  local_addr = zero_addr;
  remote_address = undef;
  local_address = undef;
  tls = no_tls;
  close_reason = none;
  streams = [];
  events = [];
  next_bidi_stream_id = 0;
  next_uni_stream_id = 2;
  established = false;
  is_draining = false;
  closed = false;
  close_requested = false;
  close_packet_sent = false;
  close_event_emitted = false;
  draining_event_emitted = false;
  clock_reads = 0;
}

unfoldable pub is_nonfatal_closing_error : Code → Bool
is_nonfatal_closing_error closing = true
is_nonfatal_closing_error draining = true
is_nonfatal_closing_error idle_close = true
is_nonfatal_closing_error _ = false

-- The text of a reason that is given as a char pointer.
abbrev pub reason_string : Option Bytes → Option Bytes
reason_string none = none
reason_string (some reason) = some (c_string reason)

-- The error code of a ngtcp2_ccerr pointer.
ccerr_code : (P : Platform) → Option P.Ccerr → ℕ
ccerr_code P none = 0
ccerr_code P (some ccerr) = P.error_code ccerr

module _ {P : Platform} where
  -- php_quic_timestamp, with the count of readings advanced.
  unfoldable pub tick_clock : Connection P → Connection P
  tick_clock c = record c { clock_reads = c.clock_reads + 1 }

  unfoldable pub timestamp : Connection P → ℕ
  timestamp c = P.hrtime c.clock_reads

  unfoldable pub push_event :
      Connection P
      → (type stream_id error_code : ℕ) (by_peer : Bool) (reason : Option Bytes) → Connection P
  unfolding tick_clock timestamp
  push_event c type stream_id error_code by_peer reason =
      let event : Event = record {
        type = type;
        stream_id = stream_id;
        error_code = error_code;
        by_peer = by_peer;
        reason = reason_string reason;
        timestamp = milliseconds (timestamp c);
      } in
      tick_clock (record c { events = c.events ++ event ∷ [] })

  unfoldable pub get_stream_entry : Connection P → ℕ → Option StreamEntry
  get_stream_entry c stream_id = find stream_id c.streams

  unfoldable pub modify_entry : Connection P → ℕ → (StreamEntry → StreamEntry) → Connection P
  modify_entry c stream_id f = record c { streams = modify stream_id f c.streams }

  -- The entry is then the one at its key.
  unfoldable pub open_stream_entry : Connection P → ℕ → Connection P
  open_stream_entry c stream_id = elim (find stream_id c.streams) [
    | some _ ↦ c
    | none ↦ record c { streams = c.streams ++ (stream_id, stream_entry_alloc stream_id) ∷ [] }
  ]

  -- Lines 224 to 231, where libngtcp2 is in the draining period.
  unfoldable pub sync_draining : Connection P → Connection P
  sync_draining c =
      let c1 = record c { is_draining = true } in
      if c.draining_event_emitted
      then c1
      else push_event (record c1 { draining_event_emitted = true }) connection_draining minus_one 0
          true none

  -- Lines 233 to 242, where libngtcp2 is in the closing or in the draining period.
  unfoldable pub sync_closed : Connection P → P.Conn → Connection P
  unfolding ccerr_code
  sync_closed c conn =
      let c1 = record c { closed = true } in
      if c.close_event_emitted
      then c1
      else (let c2 =
            push_event c1 connection_closed minus_one (ccerr_code P (P.get_ccerr conn)) true none in
          record c2 { close_event_emitted = true })

  unfoldable pub sync_with : Connection P → P.Conn → Connection P
  unfolding sync_draining sync_closed
  sync_with c conn =
      let c1 = if P.in_draining_period conn then sync_draining c else c in
      if P.in_closing_period conn || P.in_draining_period conn then sync_closed c1 conn else c1

  unfoldable pub sync_state : Connection P → Connection P
  unfolding sync_with
  sync_state c = elim c.conn [ none ↦ c | some conn ↦ sync_with c conn ]
