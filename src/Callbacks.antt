-- ===== src/Callbacks.antt =====
-- src/callbacks.c: the handlers that libngtcp2 calls back, and their run over the calls that one
-- library function makes. Each handler returns 0; the two random-number handlers keep no state.
pub mod Writable
pub mod Untouched
use ext_ngtcp.Prelude.{
  ℕ, Bool, true, false, not, ◌&&◌, ◌||◌, Option, none, some, List, [], ◌∷◌, Bytes, length, ltb,
  if◌then◌else◌, minus_one,
}
use ext_ngtcp.Buffer.{contents, append}
use ext_ngtcp.Event.{
  handshake_completed, stream_opened, stream_readable, stream_writable, stream_closed, stream_reset,
}
use ext_ngtcp.Platform.{Platform, Callback, Outcome}
use ext_ngtcp.Connection.State.{
  StreamEntry, Connection, push_event, get_stream_entry, modify_entry, open_stream_entry,
}

abbrev pub receive : Bytes → StreamEntry → StreamEntry
receive bytes e =
    if ltb 0 (length bytes) then record e { rx_buffer = append e.rx_buffer bytes } else e

abbrev pub closed_entry : StreamEntry → StreamEntry
closed_entry e = record e { closed = true; writable = false }

abbrev pub reset_entry : StreamEntry → StreamEntry
reset_entry e = record e { reset = true; closed = true; writable = false }

module _ {P : Platform} where
  unfoldable pub handshake_completed_cb : Connection P → Connection P
  handshake_completed_cb c =
      if not c.established
      then push_event (record c { established = true }) handshake_completed minus_one 0 false none
      else c

  unfoldable pub stream_open_cb : P.Conn → ℕ → Connection P → Connection P
  stream_open_cb conn stream_id c =
      let c1 = open_stream_entry c stream_id in
      let writable = P.is_local_stream conn stream_id || P.is_bidi_stream stream_id in
      push_event (modify_entry c1 stream_id (λ e. record e { writable = writable })) stream_opened
        stream_id 0 true none

  -- The READABLE event, where bytes have come to an entry that had none.
  unfoldable pub notify_readable : ℕ → Option StreamEntry → Connection P → Connection P
  notify_readable stream_id none c = c
  notify_readable stream_id (some e) c =
      if not e.readable && ltb 0 (length (contents e.rx_buffer))
      then push_event (modify_entry c stream_id (λ d. record d { readable = true })) stream_readable
          stream_id 0 true none
      else c

  unfoldable pub recv_stream_data_cb : Bool → ℕ → Bytes → Connection P → Connection P
  unfolding notify_readable
  recv_stream_data_cb fin stream_id bytes c =
      let c1 = modify_entry (open_stream_entry c stream_id) stream_id (receive bytes) in
      let c2 = notify_readable stream_id (get_stream_entry c1 stream_id) c1 in
      if fin then modify_entry c2 stream_id (λ e. record e { fin_recv = true }) else c2

  unfoldable pub stream_close_cb : Bool → ℕ → ℕ → Connection P → Connection P
  stream_close_cb app_error_code_set stream_id app_error_code c =
      let c1 = modify_entry (open_stream_entry c stream_id) stream_id closed_entry in
      push_event c1 stream_closed stream_id (if app_error_code_set then app_error_code else 0) true
        none

  unfoldable pub stream_reset_cb : ℕ → ℕ → Connection P → Connection P
  stream_reset_cb stream_id app_error_code c =
      let c1 = modify_entry (open_stream_entry c stream_id) stream_id reset_entry in
      push_event c1 stream_reset stream_id app_error_code true none

  unfoldable pub acked_entry : ℕ → Option StreamEntry → Connection P → Connection P
  acked_entry stream_id none c = c
  acked_entry stream_id (some e) c =
      if e.closed || e.reset || e.fin_sent
      then c
      else if not e.writable
      then push_event (modify_entry c stream_id (λ d. record d { writable = true })) stream_writable
          stream_id 0 true none
      else c

  unfoldable pub acked_stream_data_offset_cb : ℕ → Connection P → Connection P
  unfolding acked_entry
  acked_stream_data_offset_cb stream_id c = acked_entry stream_id (get_stream_entry c stream_id) c

  -- The handler that php_quic_callbacks_init registers for a callback.
  unfoldable pub handle : Callback P.Conn → Connection P → Connection P
  handle Callback.handshake_completed c = handshake_completed_cb c
  handle (Callback.stream_open conn stream_id) c = stream_open_cb conn stream_id c
  handle (Callback.recv_stream_data fin stream_id bytes) c =
      recv_stream_data_cb fin stream_id bytes c
  handle (Callback.stream_close set stream_id code) c = stream_close_cb set stream_id code c
  handle (Callback.stream_reset stream_id code) c = stream_reset_cb stream_id code c
  handle (Callback.acked_stream_data_offset stream_id) c = acked_stream_data_offset_cb stream_id c

  unfoldable pub handle_all : List (Callback P.Conn) → Connection P → Connection P
  handle_all [] c = c
  handle_all (call ∷ calls) c = handle_all calls (handle call c)

  -- The connection when a library function has returned: its callbacks have run, and libngtcp2's
  -- own state is the one that the function leaves.
  unfoldable pub absorb : {A : Type 0} → Outcome P.Conn A → Connection P → Connection P
  absorb o c = let c1 = handle_all o.calls c in record c1 { conn = some o.conn }
