-- ===== src/Endpoint/Routing.antt =====
-- Where ServerEndpoint::recv of src/server_endpoint.c takes a datagram.
use ext_ngtcp.Prelude.{
  ◌++◌, sym, subst, ap, ℕ, ◌≡◌, ◌≢◌, refl, false, none, some, [], ◌∷◌, Bytes, arith, ◌==◌,
  if◌then◌else◌,
}
use ext_ngtcp.Datagram.{Datagram}
use ext_ngtcp.Endpoint.State.{
  Dispatch, failed, raised, other, value, thrown, failed_to_route, of_connection, Handler, Endpoint,
  hash_find, connection_key, set_object, dispatch_rule, Answer, returned,
}
use ext_ngtcp.Endpoint.Methods.{is_removable, cleanup_connections, route, recv, admit, accept_new}
use ext_ngtcp.Endpoint.Tables.{find-update, update-Distinct, survivors-find}
use ext_ngtcp.Endpoint.Cleanup.{Distinct, cleanup_lem}

-- What recv of the endpoint does with what the call of the connection's recv was made of.
abbrev pub routed : Dispatch (Unit {0}) → Answer (Unit {0})
routed failed = thrown failed_to_route
routed raised = thrown of_connection
routed other = returned tt
routed (value u) = returned tt

module _ {H : Handler} where
  Kept : Datagram → ℕ → Endpoint H → Answer (Unit {0}) × Endpoint H → Type 0
  Kept d h e r =
      (r.1.objects h ≡ (H.recv d (e.objects h)).1)
      × ((i : ℕ) → i ≢ h → r.1.objects i ≡ e.objects i)
      × (r.1.accepted_queue ≡ e.accepted_queue)
      × (r.0 ≡ routed (H.recv d (e.objects h)).0)

  route-Kept : (d : Datagram) (h : ℕ) (e : Endpoint H) → Kept d h e (route d h e)
  unfolding route set_object cleanup_connections Kept
  route-Kept d h e =
      let here : (i : ℕ) (o : H.Object) → (if h == h then o else e.objects h) ≡ o =
        λ i o. ground arith in
      let there : (o : H.Object) (i : ℕ)
          → i ≢ h
          → (if i == h then o else e.objects i) ≡ e.objects i =
        λ o i n. ground (arith, n) in
      let answers : (r : Dispatch (Unit {0}))
          → (H.recv d (e.objects h)).0 ≡ r
          → routed r ≡ routed (H.recv d (e.objects h)).0 =
        λ r s. ap routed (sym s) in
      dispatch_rule (Kept d h e) (H.recv d (e.objects h)).0 _ _ _ _
        (λ s. (here h _, there _, refl, answers failed s))
        (λ s. (here h _, there _, refl, answers raised s))
        (λ s. (here h _, there _, refl, answers other s))
        (λ u s. (here h _, there _, refl, answers (value u) s))

  -- A datagram whose peer has a key in the table goes to the connection that stands there: that
  -- object, and no other, becomes what its own recv leaves, and no connection is accepted. recv of
  -- the endpoint throws its own exception where the call fails, lets the connection's exception
  -- through where the call throws, and returns otherwise.
  pub recv_known :
      (d : Datagram) (key : Bytes) (h : ℕ) (e : Endpoint H)
      → connection_key d.peer_address ≡ some key
      → hash_find key e.connections ≡ some h
      → let e' = (recv d e).1 in
        (e'.objects h ≡ (H.recv d (e.objects h)).1)
        × ((i : ℕ) → i ≢ h → e'.objects i ≡ e.objects i)
        × (e'.accepted_queue ≡ e.accepted_queue)
        × ((recv d e).0 ≡ routed (H.recv d (e.objects h)).0)
  unfolding recv Kept
  recv_known d key h e keyed found = rw (keyed, found, recv) (route-Kept d h e)

  admit-Distinct :
      (key : Bytes) (o : H.Object) (e : Endpoint H)
      → Distinct e.connections
      → Distinct (admit key o e).connections
  unfolding admit set_object
  admit-Distinct key o e d = update-Distinct key e.next_handle e.connections d

  Admits : Bytes → H.Object → Endpoint H → Endpoint H → Type 0
  Admits key o e e' =
      (hash_find key e'.connections ≡ some e.next_handle)
      × (e'.objects e.next_handle ≡ o)
      × (e'.accepted_queue ≡ e.accepted_queue ++ e.next_handle ∷ [])
      × Distinct e'.connections

  admit-Admits :
      (key : Bytes) (o : H.Object) (e : Endpoint H)
      → Distinct e.connections
      → is_removable H o ≡ false
      → Admits key o e (cleanup_connections (admit key o e))
  unfolding admit set_object Admits
  admit-Admits key o e d stays =
      let e1 = admit key o e in
      let cleaned = cleanup_lem e1 (admit-Distinct key o e d) in
      let held : e1.objects e.next_handle ≡ o = ground arith in
      subst (Admits key o e) (sym cleaned.0) (
        survivors-find H e1.objects key e.next_handle e1.connections (rw held stays)
            (find-update key e.next_handle e.connections),
        held,
        refl,
        subst (λ x. Distinct x.connections) cleaned.0 cleaned.1,
      )

  -- A datagram whose peer has no key in the table, where the accept call returns a connection that
  -- is not to be removed: that connection is added to the table under the peer's key, so that the
  -- next datagram from there finds it, and to the end of the accepted queue, and no key is
  -- repeated.
  pub recv_new :
      (d : Datagram) (key : Bytes) (o : H.Object) (e : Endpoint H)
      → connection_key d.peer_address ≡ some key
      → hash_find key e.connections ≡ none
      → Distinct e.connections
      → H.accept d e.config ≡ value o
      → is_removable H o ≡ false
      → ((recv d e).0 ≡ returned tt)
        × (let e' = (recv d e).1 in
            (hash_find key e'.connections ≡ some e.next_handle)
            × (e'.objects e.next_handle ≡ o)
            × (e'.accepted_queue ≡ e.accepted_queue ++ e.next_handle ∷ [])
            × Distinct e'.connections)
  unfolding recv accept_new Admits
  recv_new d key o e keyed free distinct accepted stays =
      rw (keyed, free, recv) (rw (accepted, accept_new) (refl, admit-Admits key o e distinct stays))
