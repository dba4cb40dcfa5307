-- ===== src/Endpoint/Methods.antt =====
-- The methods of src/server_endpoint.c and the loops over the connections that they share.
use ext_ngtcp.Prelude.{
  ℕ, Bool, not, ◌&&◌, ◌||◌, Option, none, some, List, [], ◌∷◌, ◌++◌, Bytes, length, slt64, ◌==◌,
  if◌then◌else◌, ◌+◌,
}
use ext_ngtcp.Datagram.{Datagram}
use ext_ngtcp.Endpoint.State.{
  Dispatch, failed, raised, other, value, Ran, stopped, pending, ran, after_raise, of_connection,
  Handler, peer_address_is_invalid, failed_to_route, accept_dispatch_failed,
  accept_returned_invalid, timer_dispatch_failed, deadline_dispatch_failed, timeout_dispatch_failed,
  drain_dispatch_failed, Answer, returned, thrown, Endpoint, Table, hash_find, hash_update,
  hash_del, connection_key, set_object,
}

-- The first pass of php_quic_server_endpoint_cleanup_connections: a connection that is closed, and
-- whose close packet is out where one was asked for.
unfoldable pub is_removable : (H : Handler) → H.Object → Bool
is_removable H o = H.closed o && (not (H.close_requested o) || H.close_packet_sent o)

unfoldable pub remove_keys : (H : Handler) → (ℕ → H.Object) → Table → List Bytes
unfolding is_removable
remove_keys H objects [] = []
remove_keys H objects ((k, h) ∷ table) =
    let rest = remove_keys H objects table in if is_removable H (objects h) then k ∷ rest else rest

unfoldable pub delete_all : List Bytes → Table → Table
delete_all [] table = table
delete_all (k ∷ keys) table = delete_all keys (hash_del k table)

-- The calls of a void method on each connection in turn, until one fails or throws.
unfoldable pub call_each :
    (H : Handler)
    → (H.Object → Dispatch (Unit {0}) × H.Object)
    → Table
    → (ℕ → H.Object)
    → Ran (Unit {0}) × (ℕ → H.Object)
unfolding after_raise
call_each H method [] objects = (ran tt, objects)
call_each H method ((k, h) ∷ table) objects =
    let (result, o) = method (objects h) in
    let objects' : ℕ → H.Object = λ i. if i == h then o else objects i in
    elim result [
      | failed ↦ (stopped, objects')
      | raised ↦ (after_raise H.fails_while_pending table, objects')
      | other ↦ call_each H method table objects'
      | value _ ↦ call_each H method table objects'
    ]

-- One round of the search for the least deadline; `none` is has_expiry = 0.
unfoldable pub earlier : Option ℕ → ℕ → Option ℕ
earlier none v = some v
earlier (some least) v = if slt64 v least then some v else some least

-- The loop of getNextExpiry and of getNextTimeout. A null answer of a connection is `other`.
unfoldable pub least_of :
    (H : Handler)
    → (H.Object → Dispatch ℕ × H.Object)
    → Table
    → Option ℕ
    → (ℕ → H.Object)
    → Ran (Option ℕ) × (ℕ → H.Object)
unfolding earlier after_raise
least_of H method [] least objects = (ran least, objects)
least_of H method ((k, h) ∷ table) least objects =
    let (result, o) = method (objects h) in
    let objects' : ℕ → H.Object = λ i. if i == h then o else objects i in
    elim result [
      | failed ↦ (stopped, objects')
      | raised ↦ (after_raise H.fails_while_pending table, objects')
      | other ↦ least_of H method table least objects'
      | value v ↦ least_of H method table (earlier least v) objects'
    ]

-- The loop of the two drain methods: the items of every connection in turn.
unfoldable pub collect :
    (H : Handler)
    → {A : Type 0} → (H.Object → Dispatch (List A) × H.Object)
    → Table
    → List A
    → (ℕ → H.Object)
    → Ran (List A) × (ℕ → H.Object)
unfolding after_raise
collect H method [] acc objects = (ran acc, objects)
collect H method ((k, h) ∷ table) acc objects =
    let (result, o) = method (objects h) in
    let objects' : ℕ → H.Object = λ i. if i == h then o else objects i in
    elim result [
      | failed ↦ (stopped, objects')
      | raised ↦ (after_raise H.fails_while_pending table, objects')
      | other ↦ collect H method table acc objects'
      | value items ↦ collect H method table (acc ++ items) objects'
    ]

module _ {H : Handler} where
  -- ServerEndpoint::__construct, on the object that php_quic_server_endpoint_create_object has made.
  unfoldable pub construct : H.Config → Endpoint H → Endpoint H
  construct config e = record e { config = config }

  -- php_quic_server_endpoint_cleanup_connections
  unfoldable pub cleanup_connections : Endpoint H → Endpoint H
  unfolding remove_keys delete_all
  cleanup_connections e = record e {
    connections = delete_all (remove_keys H e.objects e.connections) e.connections;
  }

  -- Lines 155 to 175: the datagram goes to the connection with this handle.
  unfoldable pub route : Datagram → ℕ → Endpoint H → Answer (Unit {0}) × Endpoint H
  unfolding cleanup_connections
  route d h e =
      let (result, o) = H.recv d (e.objects h) in
      let e1 = set_object e h o in
      elim result [
        | failed ↦ (thrown failed_to_route, e1)
        | raised ↦ (thrown of_connection, cleanup_connections e1)
        | other ↦ (returned tt, cleanup_connections e1)
        | value _ ↦ (returned tt, cleanup_connections e1)
      ]

  -- Lines 195 to 200.
  unfoldable pub admit : Bytes → H.Object → Endpoint H → Endpoint H
  admit key o e =
      let e1 = set_object e e.next_handle o in
      record e1 {
        connections = hash_update key e.next_handle e.connections;
        accepted_queue = e.accepted_queue ++ e.next_handle ∷ [];
        next_handle = e.next_handle + 1;
      }

  -- Lines 177 to 203: no connection has this key.
  unfoldable pub accept_new : Datagram → Bytes → Endpoint H → Answer (Unit {0}) × Endpoint H
  unfolding admit cleanup_connections
  accept_new d key e = elim (H.accept d e.config) [
    | failed ↦ (thrown accept_dispatch_failed, e)
    | raised ↦ (thrown accept_returned_invalid, e)
    | other ↦ (thrown accept_returned_invalid, e)
    | value o ↦ (returned tt, cleanup_connections (admit key o e))
  ]

  -- ServerEndpoint::recv
  unfoldable pub recv : Datagram → Endpoint H → Answer (Unit {0}) × Endpoint H
  unfolding connection_key hash_find route accept_new
  recv d e = elim (connection_key d.peer_address) [
    | none ↦ (thrown peer_address_is_invalid, e)
    | some key ↦ elim (hash_find key e.connections) [
      | none ↦ accept_new d key e
      | some h ↦ route d h e
    ]
  ]

  -- ServerEndpoint::handleTimers, and its aliases onTimeout and tick.
  unfoldable pub handle_timers : Endpoint H → Answer (Unit {0}) × Endpoint H
  unfolding call_each cleanup_connections
  handle_timers e =
      let (end, objects) = call_each H H.handle_timers e.connections e.objects in
      let e1 = record e { objects = objects } in
      elim end [
        | stopped ↦ (thrown timer_dispatch_failed, e1)
        | pending ↦ (thrown of_connection, cleanup_connections e1)
        | ran _ ↦ (returned tt, cleanup_connections e1)
      ]

  -- ServerEndpoint::getNextExpiry, and its alias getTimeoutAt; a null return is `none`.
  unfoldable pub get_next_expiry : Endpoint H → Answer (Option ℕ) × Endpoint H
  unfolding least_of
  get_next_expiry e =
      let (least, objects) = least_of H H.get_next_expiry e.connections none e.objects in
      (
        elim least [
          | stopped ↦ thrown deadline_dispatch_failed
          | pending ↦ thrown of_connection
          | ran v ↦ returned v
        ],
        record e { objects = objects },
      )

  -- ServerEndpoint::getNextTimeout
  unfoldable pub get_next_timeout : Endpoint H → Answer (Option ℕ) × Endpoint H
  unfolding least_of
  get_next_timeout e =
      let (least, objects) = least_of H H.get_next_timeout e.connections none e.objects in
      (
        elim least [
          | stopped ↦ thrown timeout_dispatch_failed
          | pending ↦ thrown of_connection
          | ran v ↦ returned v
        ],
        record e { objects = objects },
      )

  -- ServerEndpoint::drainAcceptedConnections
  unfoldable pub drain_accepted_connections : Endpoint H → List ℕ × Endpoint H
  drain_accepted_connections e = (e.accepted_queue, record e { accepted_queue = [] })

  -- ServerEndpoint::drainOutgoingDatagrams
  unfoldable pub drain_outgoing_datagrams : Endpoint H → Answer (List Datagram) × Endpoint H
  unfolding collect cleanup_connections
  drain_outgoing_datagrams e =
      let (items, objects) = collect H H.drain_outgoing_datagrams e.connections [] e.objects in
      let e1 = record e { objects = objects } in
      elim items [
        | stopped ↦ (thrown drain_dispatch_failed, e1)
        | pending ↦ (thrown of_connection, cleanup_connections e1)
        | ran ds ↦ (returned ds, cleanup_connections e1)
      ]

  -- ServerEndpoint::drainEvents
  unfoldable pub drain_events : Endpoint H → Answer (List H.Event) × Endpoint H
  unfolding collect cleanup_connections
  drain_events e =
      let (items, objects) = collect H H.drain_events e.connections [] e.objects in
      let e1 = record e { objects = objects } in
      elim items [
        | stopped ↦ (thrown drain_dispatch_failed, e1)
        | pending ↦ (thrown of_connection, cleanup_connections e1)
        | ran events ↦ (returned events, cleanup_connections e1)
      ]

  -- ServerEndpoint::getConnectionCount
  unfoldable pub get_connection_count : Endpoint H → ℕ
  get_connection_count e = length e.connections
