-- ===== src/Connection/Methods.antt =====
-- The methods of src/connection.c that receive, send, report and close.
pub mod Closing
pub mod Outgoing
use ext_ngtcp.Prelude.{
  ℕ, Bool, true, false, not, ◌&&◌, ◌||◌, Option, none, some, List, [], ◌∷◌, map, Bytes, ◌==◌,
  if◌then◌else◌, minus_one,
}
use ext_ngtcp.Event.{EventObject, connection_closed, create_from_native}
use ext_ngtcp.Address.{undef, null, object, to_sockaddr}
use ext_ngtcp.Datagram.{Datagram}
use ext_ngtcp.Platform.{Platform, Code, crypto, Status, success, failure, Written, wrote, failed}
use ext_ngtcp.Exceptions.{
  connection_is_not_initialized, peer_address_is_invalid, local_address_is_invalid, call_failed,
  conn_handle_expiry, conn_read_pkt, conn_write_connection_close, Result, returned, thrown,
}
use ext_ngtcp.Callbacks.{absorb}
use ext_ngtcp.Connection.State.{
  Connection, is_nonfatal_closing_error, tick_clock, timestamp, push_event, sync_state,
}
use ext_ngtcp.Connection.Transmit.{outgoing}
use ext_ngtcp.Connection.Loop.{loop}

-- A void method's result with the connection that it leaves.
abbrev pub Done : Platform → Type 0
Done P = Result (Unit {0}) × Connection P

-- Lines 1296 to 1304: a reason is given and has bytes.
unfoldable pub kept_reason : Option Bytes → Option Bytes
kept_reason none = none
kept_reason (some []) = none
kept_reason (some (b ∷ reason)) = some (b ∷ reason)

abbrev reason_bytes : Option Bytes → Bytes
reason_bytes none = []
reason_bytes (some reason) = reason

module _ {P : Platform} where
  -- Lines 879 to 887.
  unfoldable pub note_read_error : Code → P.Conn → Connection P → Connection P
  note_read_error code conn c =
      if P.error_code c.last_error == 0
      then record c {
        last_error = elim code [
          | crypto ↦ P.set_tls_alert (P.get_tls_alert conn)
          | other_code ↦ P.set_liberr other_code
        ];
      }
      else c

  -- Lines 873 to 893: what is done with the return value of ngtcp2_conn_read_pkt.
  unfoldable pub finish_read : Status → P.Conn → Connection P → Done P
  unfolding note_read_error
  finish_read success conn c = (returned tt, sync_state c)
  finish_read (failure code) conn c =
      if is_nonfatal_closing_error code
      then (returned tt, sync_state c)
      else (thrown (call_failed conn_read_pkt code), note_read_error code conn c)

  -- The local address that a packet is read at: the datagram's own, or the connection's.
  unfoldable pub read_local_addr : Datagram → Connection P → Option P.Sockaddr
  read_local_addr d c = elim d.local_address [
    | undef ↦ some c.local_addr
    | null ↦ some c.local_addr
    | object a ↦ to_sockaddr P (object a)
  ]

  unfoldable pub read_at : P.Conn → Datagram → P.Sockaddr → P.Sockaddr → Connection P → Done P
  unfolding finish_read
  read_at conn d local_addr remote_addr c =
      let o = P.read_pkt conn local_addr remote_addr d.payload (timestamp c) in
      finish_read o.result o.conn (absorb o (tick_clock c))

  -- Connection::recv
  unfoldable pub recv : Datagram → Connection P → Done P
  unfolding read_local_addr read_at
  recv d c = elim c.conn [
    | none ↦ (thrown connection_is_not_initialized, c)
    | some conn ↦ elim (to_sockaddr P d.peer_address) [
      | none ↦ (thrown peer_address_is_invalid, c)
      | some remote_addr ↦ elim (read_local_addr d c) [
        | none ↦ (thrown local_address_is_invalid, c)
        | some local_addr ↦ read_at conn d local_addr remote_addr c
      ]
    ]
  ]

  unfoldable pub finish_expiry : Status → Connection P → Done P
  finish_expiry success c = (returned tt, sync_state c)
  finish_expiry (failure code) c =
      if is_nonfatal_closing_error code then (returned tt, sync_state c) else (
        thrown (call_failed conn_handle_expiry code),
        record c { last_error = P.set_liberr code },
      )

  -- php_quic_connection_handle_timers, which onTimeout, handleTimers and tick call.
  unfoldable pub handle_timers : Connection P → Done P
  unfolding finish_expiry
  handle_timers c = elim c.conn [
    | none ↦ (returned tt, c)
    | some conn ↦
        if c.closed
        then (returned tt, c)
        else (let o = P.handle_expiry conn (timestamp c) in
            finish_expiry o.result (absorb o (tick_clock c)))
  ]

  -- Connection::drainEvents: the events popped, as objects, oldest first.
  unfoldable pub drain_events : Connection P → List EventObject × Connection P
  drain_events c = (map create_from_native c.events, record c { events = [] })

  -- Lines 1008 to 1043.
  unfoldable pub finish_close : Written → Connection P → Result (List Datagram) × Connection P
  finish_close (failed code) c =
      if is_nonfatal_closing_error code
      then (returned [], sync_state (record c { close_packet_sent = true }))
      else (thrown (call_failed conn_write_connection_close code), c)
  finish_close (wrote []) c = (returned [], record c { close_packet_sent = true })
  finish_close (wrote (b ∷ payload)) c =
      (returned (outgoing c (b ∷ payload) ∷ []), record c { close_packet_sent = true })

  -- Lines 1000 to 1044.
  unfoldable pub write_close : P.Conn → Connection P → Result (List Datagram) × Connection P
  unfolding finish_close
  write_close conn c =
      let o = P.write_connection_close conn c.last_error (timestamp c) in
      finish_close o.result (absorb o (tick_clock c))

  -- Connection::drainOutgoingDatagrams, with fuel for the loop.
  unfoldable pub drain_outgoing_datagrams :
      ℕ → Connection P → Option (Result (List Datagram) × Connection P)
  unfolding write_close
  drain_outgoing_datagrams fuel c = elim c.conn [
    | none ↦ some (returned [], c)
    | some conn ↦
        if c.close_requested && not c.close_packet_sent
        then some (write_close conn c)
        else loop fuel c 0 false []
  ]

  -- Lines 1308 to 1313.
  unfoldable pub emit_close : ℕ → Option Bytes → Connection P → Connection P
  emit_close error_code reason c =
      if not c.close_event_emitted
      then (let c1 = push_event c connection_closed minus_one error_code false reason in
          record c1 { close_event_emitted = true })
      else c

  -- Connection::close; a reason that is not given is `none`.
  unfoldable pub close : ℕ → Option Bytes → Connection P → Connection P
  unfolding kept_reason emit_close
  close error_code reason c =
      if c.close_requested
      then c
      else (let kept = kept_reason reason in
          emit_close error_code reason (record c {
            close_reason = kept;
            last_error = P.set_application_error error_code (reason_bytes kept);
            close_requested = true;
            closed = true;
          }))

  pub is_established : Connection P → Bool
  is_established c = c.established

  pub is_closed : Connection P → Bool
  is_closed c = c.closed || c.close_requested

  pub is_draining : Connection P → Bool
  is_draining c = c.is_draining
