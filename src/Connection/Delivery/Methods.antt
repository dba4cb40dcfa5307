-- ===== src/Connection/Delivery/Methods.antt =====
-- The receive buffer of a stream over the methods of a connection (src/connection.c) and of a stream
-- (src/stream.c) other than Stream::read on it.
use ext_ngtcp.Prelude.{
  ℕ, ◌≡◌, refl, true, false, not, ◌&&◌, Option, none, some, [], Bytes, if_rule, option_rule,
}
use ext_ngtcp.Buffer.{append}
use ext_ngtcp.Event.{stream_reset}
use ext_ngtcp.Platform.{Platform, Status, success, failure}
use ext_ngtcp.Address.{to_sockaddr}
use ext_ngtcp.Datagram.{Datagram}
use ext_ngtcp.Exceptions.{conn_open_bidi_stream, conn_open_uni_stream}
use ext_ngtcp.Callbacks.{absorb}
use ext_ngtcp.Connection.State.{
  Connection, StreamEntry, tick_clock, timestamp, push_event, get_stream_entry, modify_entry,
}
use ext_ngtcp.Connection.Methods.{
  finish_read, read_local_addr, read_at, recv, finish_expiry, handle_timers, finish_close,
  write_close, drain_outgoing_datagrams,
}
use ext_ngtcp.Connection.Open.{finish_open, open_stream, open_uni_stream}
use ext_ngtcp.Stream
use ext_ngtcp.Connection.Delivery.Library.{IsRecorded}
use ext_ngtcp.Connection.Delivery.Buffers.{KeepsRx}
use ext_ngtcp.Connection.Delivery.Handlers.{Still-trans, modify_entry-Still, push_event-Still}
use ext_ngtcp.Connection.Delivery.Feeds.{Feeds, Feeds-trans, Still-Feeds, absorb-Feeds, timed-Feeds}
use ext_ngtcp.Connection.Delivery.Loop.{FeedsSent, loop-FeedsSent}
use ext_ngtcp.Connection.Delivery.Tails.{
  finish_read-Stills, finish_expiry-Stills, finish_close-Stills, finish_open-Stills,
}

module _ {P : Platform} (lib : IsRecorded P) (k : ℕ) where
  abbrev pub FeedsTo {ℓ} : {A : Type ℓ} → Connection P → A × Connection P → Type 0
  FeedsTo c r = Feeds lib k c r.1

  abbrev nothing : (c : Connection P) → Feeds lib k c c
  nothing c = Still-Feeds lib k c c (refl, refl)

  pub recv-FeedsTo : (d : Datagram) (c : Connection P) → FeedsTo c (recv d c)
  unfolding recv read_at
  recv-FeedsTo d c =
      option_rule (FeedsTo c) c.conn _ _ (λ _. nothing c)
        λ conn at_conn.
          option_rule (FeedsTo c) (to_sockaddr P d.peer_address) _ _ (λ _. nothing c)
            λ remote _.
              option_rule (FeedsTo c) (read_local_addr d c) _ _ (λ _. nothing c)
                λ local _.
                  let now = timestamp c in
                  let o = P.read_pkt conn local remote d.payload now in
                  let e = absorb o (tick_clock c) in
                  let r = finish_read o.result o.conn e in
                  Feeds-trans lib k c e r.1
                    (timed-Feeds lib k conn o c at_conn
                      (lib.at_read conn local remote d.payload now k))
                    (Still-Feeds lib k e r.1 (finish_read-Stills k o.result o.conn e))

  pub handle_timers-FeedsTo : (c : Connection P) → FeedsTo c (handle_timers c)
  unfolding handle_timers
  handle_timers-FeedsTo c =
      option_rule (FeedsTo c) c.conn _ _ (λ _. nothing c)
        λ conn at_conn.
          if_rule (FeedsTo c) c.closed _ _ (λ _. nothing c)
            λ _.
              let now = timestamp c in
              let o = P.handle_expiry conn now in
              let e = absorb o (tick_clock c) in
              let r = finish_expiry o.result e in
              Feeds-trans lib k c e r.1
                (timed-Feeds lib k conn o c at_conn (lib.at_expiry conn now k))
                (Still-Feeds lib k e r.1 (finish_expiry-Stills k o.result e))

  write_close-FeedsTo :
      (conn : P.Conn) (c : Connection P) → c.conn ≡ some conn → FeedsTo c (write_close conn c)
  unfolding write_close
  write_close-FeedsTo conn c at_conn =
      let now = timestamp c in
      let o = P.write_connection_close conn c.last_error now in
      let e = absorb o (tick_clock c) in
      let r = finish_close o.result e in
      Feeds-trans lib k c e r.1
        (timed-Feeds lib k conn o c at_conn (lib.at_close conn c.last_error now k))
        (Still-Feeds lib k e r.1 (finish_close-Stills k o.result e))

  pub drain_outgoing_datagrams-FeedsSent :
      (fuel : ℕ) (c : Connection P) → FeedsSent lib k c (drain_outgoing_datagrams fuel c)
  unfolding drain_outgoing_datagrams
  drain_outgoing_datagrams-FeedsSent fuel c =
      option_rule (FeedsSent lib k c) c.conn _ _ (λ _. nothing c)
        λ conn at_conn.
          if_rule (FeedsSent lib k c) (c.close_requested && not c.close_packet_sent) _ _
            (λ _. write_close-FeedsTo conn c at_conn) (λ _. loop-FeedsSent lib k fuel c 0 false [])

  pub open_stream-FeedsTo : (c : Connection P) → FeedsTo c (open_stream c)
  unfolding open_stream
  open_stream-FeedsTo c =
      option_rule (FeedsTo c) c.conn _ _ (λ _. nothing c)
        λ conn at_conn.
          if_rule (FeedsTo c) c.closed _ _ (λ _. nothing c)
            λ _.
              let o = P.open_bidi_stream conn in
              let e = absorb o c in
              let r = finish_open conn_open_bidi_stream true o.result.rv o.result.stream_id e in
              Feeds-trans lib k c e r.1 (absorb-Feeds lib k conn o c at_conn (lib.at_bidi conn k)) (
                Still-Feeds lib k e r.1
                  (finish_open-Stills k _ true o.result.rv o.result.stream_id e))

  pub open_uni_stream-FeedsTo : (c : Connection P) → FeedsTo c (open_uni_stream c)
  unfolding open_uni_stream
  open_uni_stream-FeedsTo c =
      option_rule (FeedsTo c) c.conn _ _ (λ _. nothing c)
        λ conn at_conn.
          if_rule (FeedsTo c) c.closed _ _ (λ _. nothing c)
            λ _.
              let o = P.open_uni_stream conn in
              let e = absorb o c in
              let r = finish_open conn_open_uni_stream false o.result.rv o.result.stream_id e in
              Feeds-trans lib k c e r.1 (absorb-Feeds lib k conn o c at_conn (lib.at_uni conn k)) (
                Still-Feeds lib k e r.1
                  (finish_open-Stills k _ false o.result.rv o.result.stream_id e))

  pub write-FeedsTo :
      (j : ℕ) (bytes : Bytes) (c : Connection P) → FeedsTo c (Stream.write j bytes c)
  unfolding Stream.write
  write-FeedsTo j bytes c =
      option_rule (FeedsTo c) (get_stream_entry c j) _ _ (λ _. nothing c)
        λ e _.
          if_rule (FeedsTo c) (Stream.is_remote_unidirectional P c.conn j) _ _ (λ _. nothing c)
            λ _.
              if_rule (FeedsTo c) (Stream.refuses_write e) _ _ (λ _. nothing c)
                λ _.
                  let f : StreamEntry → StreamEntry =
                    λ d. record d { tx_buffer = append d.tx_buffer bytes; writable = false } in
                  Still-Feeds lib k c (modify_entry c j f) (modify_entry-Still k j f c (λ d. refl))

  ended-KeepsRx : (bytes : Option Bytes) → KeepsRx (Stream.ended bytes)
  unfolding Stream.ended
  ended-KeepsRx none e = refl
  ended-KeepsRx (some bytes) e = refl

  pub end-FeedsTo :
      (j : ℕ) (bytes : Option Bytes) (c : Connection P) → FeedsTo c (Stream.end j bytes c)
  unfolding Stream.end
  end-FeedsTo j bytes c =
      option_rule (FeedsTo c) (get_stream_entry c j) _ _ (λ _. nothing c)
        λ e _.
          if_rule (FeedsTo c) (Stream.is_remote_unidirectional P c.conn j) _ _ (λ _. nothing c)
            (λ _.
              Still-Feeds lib k c (modify_entry c j (Stream.ended bytes))
                (modify_entry-Still k j (Stream.ended bytes) c (ended-KeepsRx bytes)))

  after_shutdown-FeedsTo :
      (s : Status) (j code : ℕ) (c : Connection P) → FeedsTo c (Stream.after_shutdown s j code c)
  unfolding Stream.after_shutdown Stream.finish_reset
  after_shutdown-FeedsTo success j code c =
      let d = modify_entry c j Stream.reset_locally in
      let e = push_event d stream_reset j code false none in
      Still-Feeds lib k c e (
        Still-trans k c d e (modify_entry-Still k j Stream.reset_locally c (λ d. refl))
          (push_event-Still k d stream_reset j code false none))
  after_shutdown-FeedsTo (failure x) j code c = nothing c

  shutdown-FeedsTo :
      (o : Option P.Conn) (j code : ℕ) (c : Connection P)
      → c.conn ≡ o
      → FeedsTo c (Stream.shutdown o j code c)
  unfolding Stream.shutdown
  shutdown-FeedsTo none j code c at_conn = after_shutdown-FeedsTo success j code c
  shutdown-FeedsTo (some conn) j code c at_conn =
      if_rule (FeedsTo c) c.closed _ _ (λ _. after_shutdown-FeedsTo success j code c)
        λ _.
          let o = P.shutdown_stream conn j code in
          let e = absorb o c in
          let r = Stream.after_shutdown o.result j code e in
          Feeds-trans lib k c e r.1
            (absorb-Feeds lib k conn o c at_conn (lib.at_shutdown conn j code k))
            (after_shutdown-FeedsTo o.result j code e)

  pub reset-FeedsTo : (j code : ℕ) (c : Connection P) → FeedsTo c (Stream.reset j code c)
  unfolding Stream.reset
  reset-FeedsTo j code c =
      option_rule (FeedsTo c) (get_stream_entry c j) _ _ (λ _. nothing c)
        λ e _. shutdown-FeedsTo c.conn j code c refl
