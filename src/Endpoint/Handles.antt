-- ===== src/Endpoint/Handles.antt =====
-- Which connections the table of an endpoint of src/server_endpoint.c holds, over its whole life.
use ext_ngtcp.Prelude.{ℕ, sym, subst, [], Bytes, option_rule}
use ext_ngtcp.Datagram.{Datagram}
use ext_ngtcp.Endpoint.State.{
  Handler, Endpoint, hash_find, dispatch_rule, ran_rule, set_object, connection_key, Answer,
}
use ext_ngtcp.Endpoint.Methods.{
  construct, cleanup_connections, recv, route, accept_new, admit, handle_timers, get_next_expiry,
  get_next_timeout, drain_accepted_connections, drain_outgoing_datagrams, drain_events, call_each,
  collect,
}
use ext_ngtcp.Endpoint.Cleanup.{Distinct, delete_all-survivors, survivors-Distinct}
use ext_ngtcp.Endpoint.Tables.{
  Below, TidyTable, survivors-Apart, survivors-Below, update-Distinct, update-Apart, update-Below,
}
use ext_ngtcp.Endpoint.Calls.{created, Call, Calls}
use ext_ngtcp.Endpoint.Gather.{Apart}

abbrev pub Tidy : {H : Handler} → Endpoint H → Type 0
Tidy e = TidyTable e.next_handle e.connections

module _ {H : Handler} where
  cleanup-Tidy : (e : Endpoint H) → Tidy e → Tidy (cleanup_connections e)
  unfolding cleanup_connections
  cleanup-Tidy e t =
      subst (TidyTable e.next_handle) (sym (delete_all-survivors H e.objects e.connections t.0)) (
        survivors-Distinct H e.objects e.connections t.0,
        survivors-Apart H e.objects e.connections t.1,
        survivors-Below H e.objects e.next_handle e.connections t.2,
      )

  pub admit-Tidy : (key : Bytes) (o : H.Object) (e : Endpoint H) → Tidy e → Tidy (admit key o e)
  unfolding admit set_object
  admit-Tidy key o e t = (
    update-Distinct key e.next_handle e.connections t.0,
    update-Apart key e.next_handle e.connections t.2 t.1,
    update-Below key e.next_handle e.connections t.2,
  )

  Leaves : {A : Type 0} → Answer A × Endpoint H → Type 0
  Leaves r = Tidy r.1

  pub recv-Tidy : (d : Datagram) (e : Endpoint H) → Tidy e → Tidy (recv d e).1
  unfolding recv route accept_new set_object Leaves
  recv-Tidy d e t =
      option_rule Leaves (connection_key d.peer_address) _ _ (λ _. t)
        λ key _.
          option_rule Leaves (hash_find key e.connections) _ _
            (λ fresh.
              dispatch_rule Leaves (H.accept d e.config) _ _ _ _ (λ _. t) (λ _. t) (λ _. t)
                (λ o _. cleanup-Tidy (admit key o e) (admit-Tidy key o e t)))
            (λ h _.
              dispatch_rule Leaves (H.recv d (e.objects h)).0 _ _ _ _ (λ _. t)
                (λ _. cleanup-Tidy (set_object e h (H.recv d (e.objects h)).1) t)
                (λ _. cleanup-Tidy (set_object e h (H.recv d (e.objects h)).1) t)
                (λ _ _. cleanup-Tidy (set_object e h (H.recv d (e.objects h)).1) t))

  handle_timers-Tidy : (e : Endpoint H) → Tidy e → Tidy (handle_timers e).1
  unfolding handle_timers Leaves
  handle_timers-Tidy e t =
      let r = call_each H H.handle_timers e.connections e.objects in
      let cleaned = cleanup-Tidy (record e { objects = r.1 }) t in
      ran_rule Leaves r.0 _ _ _ t cleaned (λ _. cleaned)

  drain_outgoing_datagrams-Tidy : (e : Endpoint H) → Tidy e → Tidy (drain_outgoing_datagrams e).1
  unfolding drain_outgoing_datagrams Leaves
  drain_outgoing_datagrams-Tidy e t =
      let r = collect H H.drain_outgoing_datagrams e.connections [] e.objects in
      let cleaned = cleanup-Tidy (record e { objects = r.1 }) t in
      ran_rule Leaves r.0 _ _ _ t cleaned (λ _. cleaned)

  drain_events-Tidy : (e : Endpoint H) → Tidy e → Tidy (drain_events e).1
  unfolding drain_events Leaves
  drain_events-Tidy e t =
      let r = collect H H.drain_events e.connections [] e.objects in
      let cleaned = cleanup-Tidy (record e { objects = r.1 }) t in
      ran_rule Leaves r.0 _ _ _ t cleaned (λ _. cleaned)

  call-Tidy : {e e' : Endpoint H} → Call e e' → Tidy e → Tidy e'
  unfolding construct get_next_expiry get_next_timeout drain_accepted_connections
  call-Tidy (Call.constructs config) t = t
  call-Tidy {e} (Call.receives d) t = recv-Tidy d e t
  call-Tidy {e} Call.timers t = handle_timers-Tidy e t
  call-Tidy Call.expiry t = t
  call-Tidy Call.timeout t = t
  call-Tidy Call.accepted t = t
  call-Tidy {e} Call.datagrams t = drain_outgoing_datagrams-Tidy e t
  call-Tidy {e} Call.events t = drain_events-Tidy e t

  pub Calls-Tidy : {e e' : Endpoint H} → Calls e e' → Tidy e → Tidy e'
  Calls-Tidy Calls.here t = t
  Calls-Tidy (Calls.next m c) t = call-Tidy c (Calls-Tidy m t)

  -- After any sequence of method calls on a new endpoint, whatever its connections answer, no key
  -- and no connection is in the table twice, and each handle in it is of an object that has been
  -- made.
  pub endpoint-Tidy :
      (config : H.Config) (objects : ℕ → H.Object) (e : Endpoint H)
      → Calls (created config objects) e
      → Tidy e
  unfolding Below Apart Distinct
  endpoint-Tidy config objects e m = Calls-Tidy m (tt, tt, tt)
