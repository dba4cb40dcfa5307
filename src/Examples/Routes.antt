-- ===== src/Examples/Routes.antt =====
-- The theorems on an endpoint, over connections of the sample library.
use ext_ngtcp.Prelude.{
  arith, bytes_eq, false, ◌++◌, ℕ, ◌≡◌, ◌≢◌, refl, true, none, some, [], ◌∷◌, Bytes, c_string,
  show_long, show_ℕ, digits_from, ◌==◌, if◌then◌else◌,
}
use ext_ngtcp.Connection.State.{Connection}
use ext_ngtcp.Connection.State
use ext_ngtcp.Endpoint.State.{value, Handler, Endpoint, hash_find, connection_key, returned, key_of}
use ext_ngtcp.Endpoint.Methods.{
  cleanup_connections, recv, get_next_expiry, get_next_timeout, is_removable, drain_events,
  drain_outgoing_datagrams,
}
use ext_ngtcp.Endpoint.Cleanup.{Distinct, survivors, cleanup_lem}
use ext_ngtcp.Endpoint.Routing.{routed, recv_known, recv_new}
use ext_ngtcp.Endpoint.Keys.{connection_key-injective}
use ext_ngtcp.Endpoint.Handles.{Tidy, endpoint-Tidy}
use ext_ngtcp.Endpoint.Calls.{Call, Calls}
use ext_ngtcp.Endpoint.Gather.{Apart, holds, Drains, events_gathered, datagrams_gathered}
use ext_ngtcp.Endpoint.Deadlines.{Reports, answers, deadline_is_least}
use ext_ngtcp.Examples.Server.{connections, blank, config}
use ext_ngtcp.Examples.Sample.{peer_address, packet}

-- The key "h|443", with an open connection, and the key "z|1", with one that is closed.
abbrev h_443 : Bytes
h_443 = b'h' ∷ b'|' ∷ b'4' ∷ b'4' ∷ b'3' ∷ []

abbrev z_1 : Bytes
z_1 = b'z' ∷ b'|' ∷ b'1' ∷ []

abbrev endpoint : Endpoint connections
endpoint = record {
  config = config;
  accepted_queue = 0 ∷ [];
  connections = (z_1, 1) ∷ (h_443, 0) ∷ [];
  objects = λ i. if i == 1 then record blank { closed = true } else blank;
  next_handle = 2;
}

keys-Distinct : Distinct endpoint.connections
unfolding Distinct hash_find bytes_eq
keys-Distinct = (refl, (refl, tt))

cleanup_lem_example :
    (cleanup_connections endpoint ≡ record endpoint {
      connections = survivors connections endpoint.objects endpoint.connections;
    })
    × Distinct (cleanup_connections endpoint).connections
cleanup_lem_example = cleanup_lem endpoint keys-Distinct

keyed : connection_key (packet (9 ∷ [])).peer_address ≡ some h_443
unfolding connection_key key_of packet c_string show_long show_ℕ digits_from
keyed = refl

known : hash_find h_443 endpoint.connections ≡ some 0
unfolding hash_find bytes_eq
known = refl

recv_known_example :
    let e' = (recv (packet (9 ∷ [])) endpoint).1 in
    (e'.objects 0 ≡ (connections.recv (packet (9 ∷ [])) (endpoint.objects 0)).1)
    × ((i : ℕ) → i ≢ 0 → e'.objects i ≡ endpoint.objects i)
    × (e'.accepted_queue ≡ endpoint.accepted_queue)
    × ((recv (packet (9 ∷ [])) endpoint).0
        ≡ routed (connections.recv (packet (9 ∷ [])) (endpoint.objects 0)).0)
recv_known_example = recv_known (packet (9 ∷ [])) h_443 0 endpoint keyed known

deadline_is_least_example :
    Reports
      (answers connections connections.get_next_expiry endpoint.connections endpoint.objects)
      (get_next_expiry endpoint).0
    × Reports
        (answers connections connections.get_next_timeout endpoint.connections endpoint.objects)
        (get_next_timeout endpoint).0
deadline_is_least_example = deadline_is_least endpoint

-- The same, where every accept call gives a new connection in its first state.
abbrev welcoming : Handler
welcoming = record connections { accept = λ d config. value blank }

abbrev empty_endpoint : Endpoint welcoming
empty_endpoint = record {
  config = config;
  accepted_queue = [];
  connections = [];
  objects = λ i. blank;
  next_handle = 0;
}

free : hash_find h_443 empty_endpoint.connections ≡ none
unfolding hash_find
free = refl

stays : is_removable welcoming blank ≡ false
unfolding is_removable State.create_object
stays = refl

none-Distinct : Distinct empty_endpoint.connections
unfolding Distinct
none-Distinct = tt

recv_new_example :
    ((recv (packet (9 ∷ [])) empty_endpoint).0 ≡ returned tt)
    × (let e' = (recv (packet (9 ∷ [])) empty_endpoint).1 in
        (hash_find h_443 e'.connections ≡ some 0)
        × (e'.objects 0 ≡ blank)
        × (e'.accepted_queue ≡ [] ++ 0 ∷ [])
        × Distinct e'.connections)
recv_new_example =
    recv_new (packet (9 ∷ [])) h_443 blank empty_endpoint keyed free none-Distinct refl stays

connection_key-injective_example : (peer_address.host ≡ b'h' ∷ []) × (peer_address.port ≡ 443)
unfolding packet
connection_key-injective_example =
    connection_key-injective peer_address (record { host = b'h' ∷ []; port = 443 }) h_443 (refl, tt)
      (refl, tt) (omega arith) (omega arith) keyed keyed

endpoint-Apart : Apart endpoint.connections
unfolding Apart holds
endpoint-Apart = (refl, (refl, tt))

events_gathered_example : Drains connections.drain_events endpoint (drain_events endpoint)
events_gathered_example = events_gathered endpoint endpoint-Apart

datagrams_gathered_example :
    Drains connections.drain_outgoing_datagrams endpoint (drain_outgoing_datagrams endpoint)
datagrams_gathered_example = datagrams_gathered endpoint endpoint-Apart

-- The new endpoint gets its first datagram.
endpoint-Tidy_example : Tidy (recv (packet (9 ∷ [])) empty_endpoint).1
endpoint-Tidy_example =
    endpoint-Tidy {H = welcoming} config (λ i. blank) (recv (packet (9 ∷ [])) empty_endpoint).1
      (Calls.next {d = empty_endpoint} Calls.here (Call.receives (packet (9 ∷ []))))
