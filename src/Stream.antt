-- ===== src/Stream.antt =====
-- src/stream.c: the methods of a stream object, which holds its connection and a stream id.
pub mod Object
pub mod World
pub mod Counts
pub mod Kept
pub mod Lifetime
use ext_ngtcp.Prelude.{
  ℕ, Bool, true, false, not, ◌&&◌, ◌||◌, Option, none, some, [], Bytes, length, ltb, positive64,
  ◌==◌, if◌then◌else◌,
}
use ext_ngtcp.Buffer.{contents, append}
use ext_ngtcp.Buffer
use ext_ngtcp.Event.{stream_reset}
use ext_ngtcp.Platform.{Platform, Status, success, failure}
use ext_ngtcp.Exceptions.{
  argument_value_error, stream_entry_does_not_exist, cannot_write_to_remote_unidirectional,
  cannot_end_remote_unidirectional, stream_is_not_writable, call_failed, conn_shutdown_stream,
  Result, returned, thrown,
}
use ext_ngtcp.Callbacks.{absorb}
use ext_ngtcp.Connection.State.{StreamEntry, Connection, push_event, get_stream_entry, modify_entry}

-- php_quic_stream_is_remote_unidirectional
unfoldable pub is_remote_unidirectional : (P : Platform) → Option P.Conn → ℕ → Bool
is_remote_unidirectional P none stream_id = false
is_remote_unidirectional P (some conn) stream_id =
    if P.is_bidi_stream stream_id then false else not (P.is_local_stream conn stream_id)

abbrev pub take_chunk : ℕ → StreamEntry → StreamEntry
take_chunk max_len e =
    let rest = (Buffer.read e.rx_buffer max_len).1 in
    record e { rx_buffer = rest; readable = ltb 0 (length (contents rest)) }

-- Lines 141 and 142.
unfoldable pub buffered : Bytes → StreamEntry → StreamEntry
buffered bytes e = record e { tx_buffer = append e.tx_buffer bytes; writable = false }

unfoldable pub refuses_write : StreamEntry → Bool
refuses_write e = e.closed || e.fin_sent || e.fin_pending

-- The bytes of the optional last argument of `end`.
unfoldable pub ended : Option Bytes → StreamEntry → StreamEntry
ended none e = record e { fin_pending = true; writable = false }
ended (some final_data) e = record e {
  tx_buffer = append e.tx_buffer final_data;
  fin_pending = true;
  writable = false;
}

abbrev pub reset_locally : StreamEntry → StreamEntry
reset_locally e = record e {
  reset = true;
  closed = true;
  readable = false;
  writable = false;
  fin_pending = false;
  pending_open = false;
}

module _ {P : Platform} where
  -- Stream::read; the length is an int64_t pattern.
  unfoldable pub read : ℕ → ℕ → Connection P → Result Bytes × Connection P
  read stream_id max_len c =
      if not (positive64 max_len)
      then (thrown (argument_value_error 1), c)
      else elim (get_stream_entry c stream_id) [
        | none ↦ (returned [], c)
        | some e ↦ if length (contents e.rx_buffer) == 0 then (returned [], c) else (
          returned (Buffer.read e.rx_buffer max_len).0,
          modify_entry c stream_id (take_chunk max_len),
        )
      ]

  -- Stream::write: the number of bytes taken.
  unfoldable pub write : ℕ → Bytes → Connection P → Result ℕ × Connection P
  unfolding is_remote_unidirectional refuses_write buffered
  write stream_id bytes c = elim (get_stream_entry c stream_id) [
    | none ↦ (thrown stream_entry_does_not_exist, c)
    | some e ↦
        if is_remote_unidirectional P c.conn stream_id
        then (thrown cannot_write_to_remote_unidirectional, c)
        else if refuses_write e
        then (thrown stream_is_not_writable, c)
        else (
          returned (length bytes),
          modify_entry c stream_id
              (λ d. record d { tx_buffer = append d.tx_buffer bytes; writable = false }),
        )
  ]

  -- Stream::end
  unfoldable pub end : ℕ → Option Bytes → Connection P → Result (Unit {0}) × Connection P
  unfolding is_remote_unidirectional ended
  end stream_id final_data c = elim (get_stream_entry c stream_id) [
    | none ↦ (thrown stream_entry_does_not_exist, c)
    | some e ↦
        if is_remote_unidirectional P c.conn stream_id
        then (thrown cannot_end_remote_unidirectional, c)
        else (returned tt, modify_entry c stream_id (ended final_data))
  ]

  -- Lines 211 to 219.
  unfoldable pub finish_reset : ℕ → ℕ → Connection P → Connection P
  finish_reset stream_id error_code c =
      push_event (modify_entry c stream_id reset_locally) stream_reset stream_id error_code false
        none

  unfoldable pub after_shutdown : Status → ℕ → ℕ → Connection P → Result (Unit {0}) × Connection P
  unfolding finish_reset
  after_shutdown success stream_id error_code c = (returned tt, finish_reset stream_id error_code c)
  after_shutdown (failure code) stream_id error_code c =
      (thrown (call_failed conn_shutdown_stream code), c)

  unfoldable pub shutdown : Option P.Conn → ℕ → ℕ → Connection P → Result (Unit {0}) × Connection P
  unfolding after_shutdown
  shutdown none stream_id error_code c = after_shutdown success stream_id error_code c
  shutdown (some conn) stream_id error_code c =
      if c.closed
      then after_shutdown success stream_id error_code c
      else (let o = P.shutdown_stream conn stream_id error_code in
          after_shutdown o.result stream_id error_code (absorb o c))

  -- Stream::reset, on a stream object whose connection is set.
  unfoldable pub reset : ℕ → ℕ → Connection P → Result (Unit {0}) × Connection P
  unfolding shutdown
  reset stream_id error_code c = elim (get_stream_entry c stream_id) [
    | none ↦ (thrown stream_entry_does_not_exist, c)
    | some _ ↦ shutdown c.conn stream_id error_code c
  ]

  unfoldable pub is_readable : ℕ → Connection P → Bool
  is_readable stream_id c = elim (get_stream_entry c stream_id) [
    | none ↦ false
    | some e ↦ e.readable
  ]

  unfoldable pub is_writable : ℕ → Connection P → Bool
  is_writable stream_id c = elim (get_stream_entry c stream_id) [
    | none ↦ false
    | some e ↦ e.writable && not e.closed
  ]

  unfoldable pub is_closed : ℕ → Connection P → Bool
  is_closed stream_id c = elim (get_stream_entry c stream_id) [ none ↦ true | some e ↦ e.closed ]
