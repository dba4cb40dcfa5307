-- ===== src/Examples/Runs.antt =====
-- The theorems on single methods of a connection, at a client over the sample library.
use ext_ngtcp.Prelude.{
  ◌-◌, ◌≢◌, ◌<◌, ◌≤◌, ◌+◌, arith, ℕ, ◌*◌, ◌≡◌, refl, true, false, none, List, some, [], ◌∷◌, ◌++◌,
  Bytes, minus_one, u64_mod, c_string,
}
use ext_ngtcp.Event.{connection_closed, stream_writable, milliseconds}
use ext_ngtcp.Exceptions.{thrown, stream_is_not_writable}
use ext_ngtcp.Connection.State.{
  StreamEntry, Connection, create_object, get_stream_entry, timestamp, find,
}
use ext_ngtcp.Connection.Timers.{nanoseconds_per_ms, get_next_timeout}
use ext_ngtcp.Connection.Timers.Bounds.{get_next_timeout_lem}
use ext_ngtcp.Connection.Loop.Batch.{Bounded}
use ext_ngtcp.Connection.Methods.{close, is_closed, drain_outgoing_datagrams}
use ext_ngtcp.Connection.Methods.Outgoing.{SentOnce, close_packet_once, drain_at_most_256}
use ext_ngtcp.Datagram.{Datagram}
use ext_ngtcp.Exceptions.{Result}
use ext_ngtcp.Connection.Methods.Closing.{close_lem}
use ext_ngtcp.Callbacks.{acked_stream_data_offset_cb}
use ext_ngtcp.Callbacks.Writable.{acked_while_ending}
use ext_ngtcp.Stream.{write, is_writable, is_remote_unidirectional}
use ext_ngtcp.Platform.{success}
use ext_ngtcp.Exceptions.{conn_open_bidi_stream, returned}
use ext_ngtcp.Connection.Open.{next_stream_id, finish_open}
use ext_ngtcp.Connection.Open.Ids.{InRange, opened_id}
use ext_ngtcp.Examples.Sample.{sample, Peer}

abbrev text : Bytes
text = b'o' ∷ b'k' ∷ []

-- Stream 0 has two bytes and a FIN to send.
abbrev ending : StreamEntry
ending = record {
  stream_id = 0;
  rx_buffer = some [];
  tx_buffer = some text;
  tx_offset = 0;
  readable = false;
  writable = false;
  closed = false;
  reset = false;
  fin_sent = false;
  fin_recv = false;
  fin_pending = true;
  pending_open = false;
}

abbrev peer : Peer
peer = record { server = false; left = 2; drained = false }

abbrev client : Connection sample
client = record (create_object sample 0) { conn = some peer; streams = (0, ending) ∷ [] }

get_next_timeout_lem_example :
    (client.conn ≡ none → (get_next_timeout client).0 ≡ none)
    × (client.closed ≡ true → (get_next_timeout client).0 ≡ none)
    × ((conn : sample.Conn)
        → client.conn ≡ some conn
        → client.closed ≡ false
        → (ms : ℕ) × ((get_next_timeout client).0 ≡ some ms)
          × (sample.get_expiry conn ≤ timestamp client → ms ≡ 0)
          × (timestamp client < sample.get_expiry conn
              → (timestamp client + ms * nanoseconds_per_ms ≤ sample.get_expiry conn)
                × (sample.get_expiry conn < timestamp client + (ms + 1) * nanoseconds_per_ms)))
    × ((conn : sample.Conn)
        → client.conn ≡ some conn
        → client.closed ≡ false
        → sample.get_expiry conn ≡ u64_mod - 1
        → (get_next_timeout client).0 ≢ none)
get_next_timeout_lem_example = get_next_timeout_lem client

drain_at_most_256_example : Bounded (drain_outgoing_datagrams 9 client)
drain_at_most_256_example = drain_at_most_256 9 client

-- The client after a close.
abbrev leaving : Connection sample
leaving = record client { close_requested = true; closed = true }

close_packet_once_example :
    (r : Result (List Datagram) × Connection sample) × (drain_outgoing_datagrams 0 leaving ≡ some r)
    × SentOnce r
unfolding create_object
close_packet_once_example = close_packet_once 0 peer leaving refl refl refl

close_lem_example :
    (is_closed (close 7 (some text) client) ≡ true)
    × (close 8 none (close 7 (some text) client) ≡ close 7 (some text) client)
    × (client.close_requested ≡ false
        → client.close_event_emitted ≡ false
        → (close 7 (some text) client).events
          ≡ client.events
            ++ record {
              type = connection_closed;
              stream_id = minus_one;
              error_code = 7;
              by_peer = false;
              reason = some (c_string text);
              timestamp = milliseconds (timestamp client);
            }
              ∷ [])
    × (client.close_event_emitted ≡ true → (close 7 (some text) client).events ≡ client.events)
close_lem_example = close_lem 7 8 (some text) none client

found : get_stream_entry client 0 ≡ some ending
unfolding get_stream_entry find
found = refl

ours : is_remote_unidirectional sample client.conn 0 ≡ false
unfolding is_remote_unidirectional create_object
ours = refl

acked_while_ending_example :
    let d = acked_stream_data_offset_cb 0 client in
    (is_writable 0 client ≡ false)
    × (is_writable 0 d ≡ true)
    × (d.events
        ≡ client.events
          ++ record {
            type = stream_writable;
            stream_id = 0;
            error_code = 0;
            by_peer = true;
            reason = none;
            timestamp = milliseconds (timestamp client);
          }
            ∷ [])
    × (write 0 text d ≡ (thrown stream_is_not_writable, d))
acked_while_ending_example =
    acked_while_ending 0 text client ending found (refl, refl) (refl, refl, refl) ours

low : InRange (next_stream_id true client)
unfolding create_object
low = omega arith

opened_id_example :
    let r = finish_open conn_open_bidi_stream true success 8 client in
    (r.0 ≡ returned 8) × (8 < next_stream_id true r.1)
opened_id_example = opened_id conn_open_bidi_stream true 8 client low (omega arith)
