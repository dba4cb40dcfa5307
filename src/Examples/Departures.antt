-- ===== src/Examples/Departures.antt =====
-- An endpoint whose connection is told by its peer to drain.
use ext_ngtcp.Prelude.{
  ◌≡◌, ◌≢◌, refl, true, false, some, [], ◌∷◌, Bytes, arith, c_string, show_long, bytes_eq, show_ℕ,
  digits_from,
}
use ext_ngtcp.Address.{to_sockaddr}
use ext_ngtcp.Connection.State.{
  Connection, create_object, is_nonfatal_closing_error, sync_state, tick_clock, push_event,
}
use ext_ngtcp.Connection.Methods
use ext_ngtcp.Callbacks.{absorb, handle_all}
use ext_ngtcp.Endpoint.State.{Endpoint, connection_key, hash_find, failed}
use ext_ngtcp.Endpoint.Methods.{is_removable, recv, drain_events}
use ext_ngtcp.Endpoint.Cleanup.{Distinct}
use ext_ngtcp.Endpoint.Gather.{Apart, holds}
use ext_ngtcp.Endpoint.Tables.{Below}
use ext_ngtcp.Endpoint.Handles.{Tidy}
use ext_ngtcp.Endpoint.Calls.{Call, Calls}
use ext_ngtcp.Endpoint.Removed.{removed_at_once}
use ext_ngtcp.Examples.Server.{connections, blank, config}
use ext_ngtcp.Examples.Sample.{sample, packet, read_pkt}

abbrev talking : Connection sample
talking = record blank { conn = some (record { server = true; left = 2; drained = false }) }

abbrev h_443 : Bytes
h_443 = b'h' ∷ b'|' ∷ b'4' ∷ b'4' ∷ b'3' ∷ []

abbrev busy : Endpoint connections
busy = record {
  config = config;
  accepted_queue = [];
  connections = (h_443, 0) ∷ [];
  objects = λ i. talking;
  next_handle = 1;
}

busy-Tidy : Tidy busy
unfolding Distinct Apart Below holds hash_find
busy-Tidy = ((refl, tt), (refl, tt), (omega arith, tt))

keyed : connection_key (packet []).peer_address ≡ some h_443
unfolding connection_key packet c_string show_long show_ℕ digits_from
keyed = refl

found : hash_find h_443 busy.connections ≡ some 0
unfolding hash_find bytes_eq
found = refl

works : (connections.recv (packet []) talking).0 ≢ failed
unfolding Methods.recv to_sockaddr packet read_pkt is_nonfatal_closing_error sync_state absorb
    handle_all tick_clock create_object push_event
works e = ground arith

leaves : is_removable connections (connections.recv (packet []) talking).1 ≡ true
unfolding is_removable Methods.recv to_sockaddr packet read_pkt is_nonfatal_closing_error sync_state
    absorb handle_all tick_clock create_object push_event
leaves = refl

-- The events of the endpoint are drained right after.
removed_at_once_example :
    let e' = (drain_events (recv (packet []) busy).1).1 in
    (holds 0 e'.connections ≡ false) × (e'.objects 0 ≡ (connections.recv (packet []) talking).1)
removed_at_once_example =
    removed_at_once (packet []) h_443 0 busy (drain_events (recv (packet []) busy).1).1 busy-Tidy
      keyed found works leaves (Calls.next Calls.here Call.events)
