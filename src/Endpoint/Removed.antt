-- ===== src/Endpoint/Removed.antt =====
-- What becomes of a connection that an endpoint of src/server_endpoint.c has removed.
use ext_ngtcp.Prelude.{
  ℕ, ◌≡◌, ◌≢◌, ◌<◌, sym, ap, ◌∙◌, subst, true, false, none, some, [], Bytes, arith, if◌then◌else◌,
  option_rule, ◌==◌,
}
use ext_ngtcp.Datagram.{Datagram}
use ext_ngtcp.Endpoint.State.{
  failed, Handler, Endpoint, hash_find, connection_key, set_object, dispatch_rule, ran_rule,
}
use ext_ngtcp.Endpoint.Methods.{
  construct, is_removable, cleanup_connections, route, recv, admit, accept_new, call_each, collect,
  handle_timers, get_next_expiry, get_next_timeout, drain_accepted_connections,
  drain_outgoing_datagrams, drain_events,
}
use ext_ngtcp.Endpoint.Cleanup.{delete_all-survivors}
use ext_ngtcp.Endpoint.Gather.{holds}
use ext_ngtcp.Endpoint.Tables.{survivors-holds, update-holds, find-lt, survivors-holds_removable}
use ext_ngtcp.Endpoint.Calls.{Call, Calls}
use ext_ngtcp.Endpoint.Handles.{Tidy, Calls-Tidy, admit-Tidy, recv-Tidy}
use ext_ngtcp.Endpoint.Others.{call_each-other, least_of-other, collect-other, found_other}

module _ {H : Handler} where
  -- The endpoint does not know the object of h, which was made, and its state is o.
  abbrev pub Forgotten : ℕ → H.Object → Endpoint H → Type 0
  Forgotten h o e = (h < e.next_handle) × (holds h e.connections ≡ false) × (e.objects h ≡ o)

  abbrev Forgets {ℓ} : {A : Type ℓ} → ℕ → H.Object → A × Endpoint H → Type 0
  Forgets h o r = Forgotten h o r.1

  cleanup-Forgotten :
      (h : ℕ) (o : H.Object) (e : Endpoint H)
      → Tidy e
      → Forgotten h o e
      → Forgotten h o (cleanup_connections e)
  unfolding cleanup_connections
  cleanup-Forgotten h o e t f = (
    f.0,
    subst (λ s. holds h s ≡ false) (sym (delete_all-survivors H e.objects e.connections t.0))
        (survivors-holds H e.objects h e.connections f.1),
    f.2,
  )

  set_object-Forgotten :
      (h i : ℕ) (o p : H.Object) (e : Endpoint H)
      → (h == i) ≡ false
      → Forgotten h o e
      → Forgotten h o (set_object e i p)
  unfolding set_object
  set_object-Forgotten h i o p e apart f = (f.0, f.1, rw apart f.2)

  admit-Forgotten :
      (h : ℕ) (key : Bytes) (o p : H.Object) (e : Endpoint H)
      → Forgotten h o e
      → Forgotten h o (admit key p e)
  unfolding admit set_object
  admit-Forgotten h key o p e f =
      let apart : (h == e.next_handle) ≡ false = ground (arith, f.0) in
      (omega (arith, f.0), update-holds h key e.next_handle e.connections apart f.1, rw apart f.2)

  recv-Forgets :
      (h : ℕ) (o : H.Object) (d : Datagram) (e : Endpoint H)
      → Tidy e
      → Forgotten h o e
      → Forgets h o (recv d e)
  unfolding recv route accept_new set_object
  recv-Forgets h o d e t f =
      option_rule (Forgets h o) (connection_key d.peer_address) _ _ (λ _. f)
        λ key _.
          option_rule (Forgets h o) (hash_find key e.connections) _ _
            (λ fresh.
              dispatch_rule (Forgets h o) (H.accept d e.config) _ _ _ _ (λ _. f) (λ _. f) (λ _. f)
                (λ p _.
                  cleanup-Forgotten h o (admit key p e) (admit-Tidy key p e t)
                    (admit-Forgotten h key o p e f)))
            (λ i found.
              let p = (H.recv d (e.objects i)).1 in
              let g =
                set_object-Forgotten h i o p e (found_other h key i e.connections f.1 found) f in
              let cleaned = cleanup-Forgotten h o (set_object e i p) t g in
              dispatch_rule (Forgets h o) (H.recv d (e.objects i)).0 _ _ _ _ (λ _. g) (λ _. cleaned)
                (λ _. cleaned) (λ _ _. cleaned))

  handle_timers-Forgets :
      (h : ℕ) (o : H.Object) (e : Endpoint H)
      → Tidy e
      → Forgotten h o e
      → Forgets h o (handle_timers e)
  unfolding handle_timers
  handle_timers-Forgets h o e t f =
      let r = call_each H H.handle_timers e.connections e.objects in
      let e1 = record e { objects = r.1 } in
      let g : Forgotten h o e1 =
        (f.0, f.1, call_each-other H h H.handle_timers e.connections e.objects f.1 ∙ f.2) in
      let cleaned = cleanup-Forgotten h o e1 t g in
      ran_rule (Forgets h o) r.0 _ _ _ g cleaned (λ _. cleaned)

  drain_outgoing_datagrams-Forgets :
      (h : ℕ) (o : H.Object) (e : Endpoint H)
      → Tidy e
      → Forgotten h o e
      → Forgets h o (drain_outgoing_datagrams e)
  unfolding drain_outgoing_datagrams
  drain_outgoing_datagrams-Forgets h o e t f =
      let r = collect H H.drain_outgoing_datagrams e.connections [] e.objects in
      let e1 = record e { objects = r.1 } in
      let g : Forgotten h o e1 = (
        f.0,
        f.1,
        collect-other H h H.drain_outgoing_datagrams e.connections [] e.objects f.1 ∙ f.2,
      ) in
      let cleaned = cleanup-Forgotten h o e1 t g in
      ran_rule (Forgets h o) r.0 _ _ _ g cleaned (λ _. cleaned)

  drain_events-Forgets :
      (h : ℕ) (o : H.Object) (e : Endpoint H)
      → Tidy e
      → Forgotten h o e
      → Forgets h o (drain_events e)
  unfolding drain_events
  drain_events-Forgets h o e t f =
      let r = collect H H.drain_events e.connections [] e.objects in
      let e1 = record e { objects = r.1 } in
      let g : Forgotten h o e1 =
        (f.0, f.1, collect-other H h H.drain_events e.connections [] e.objects f.1 ∙ f.2) in
      let cleaned = cleanup-Forgotten h o e1 t g in
      ran_rule (Forgets h o) r.0 _ _ _ g cleaned (λ _. cleaned)

  call-Forgotten :
      {e e' : Endpoint H} (h : ℕ) (o : H.Object)
      → Call e e'
      → Tidy e
      → Forgotten h o e
      → Forgotten h o e'
  unfolding construct get_next_expiry get_next_timeout drain_accepted_connections
  call-Forgotten h o (Call.constructs config) t f = f
  call-Forgotten {e} h o (Call.receives d) t f = recv-Forgets h o d e t f
  call-Forgotten {e} h o Call.timers t f = handle_timers-Forgets h o e t f
  call-Forgotten {e} h o Call.expiry t f =
      (f.0, f.1, least_of-other H h H.get_next_expiry e.connections none e.objects f.1 ∙ f.2)
  call-Forgotten {e} h o Call.timeout t f =
      (f.0, f.1, least_of-other H h H.get_next_timeout e.connections none e.objects f.1 ∙ f.2)
  call-Forgotten h o Call.accepted t f = f
  call-Forgotten {e} h o Call.datagrams t f = drain_outgoing_datagrams-Forgets h o e t f
  call-Forgotten {e} h o Call.events t f = drain_events-Forgets h o e t f

  Calls-Forgotten :
      {e e' : Endpoint H} (h : ℕ) (o : H.Object)
      → Calls e e'
      → Tidy e
      → Forgotten h o e
      → Forgotten h o e'
  Calls-Forgotten h o Calls.here t f = f
  Calls-Forgotten h o (Calls.next m c) t f =
      call-Forgotten h o c (Calls-Tidy m t) (Calls-Forgotten h o m t f)

  route-Forgets :
      (d : Datagram) (key : Bytes) (h : ℕ) (e : Endpoint H)
      → Tidy e
      → hash_find key e.connections ≡ some h
      → (H.recv d (e.objects h)).0 ≢ failed
      → is_removable H (H.recv d (e.objects h)).1 ≡ true
      → Forgets h (H.recv d (e.objects h)).1 (route d h e)
  unfolding route set_object cleanup_connections
  route-Forgets d key h e t found works gone =
      let o = (H.recv d (e.objects h)).1 in
      let objects' : ℕ → H.Object = λ i. if i == h then o else e.objects i in
      let here : objects' h ≡ o = ground arith in
      let out : Forgotten h o (cleanup_connections (set_object e h o)) = (
        find-lt key e.next_handle h e.connections t.2 found,
        subst (λ s. holds h s ≡ false) (sym (delete_all-survivors H objects' e.connections t.0))
            (survivors-holds_removable H objects' h e.connections
              (ap (is_removable H) here ∙ gone)),
        here,
      ) in
      dispatch_rule (Forgets h o) (H.recv d (e.objects h)).0 _ _ _ _ (λ bad. absurd (works bad))
        (λ _. out) (λ _. out) (λ _ _. out)

  -- A datagram goes to a connection of the table, whose recv leaves it closed, with the close
  -- packet out if one was asked for. Then the connection is out of the table when recv returns, and
  -- no later call of the endpoint, in any sequence, reaches it again: it stays as recv has left it,
  -- and the events that it has queued are never drained through the endpoint.
  pub removed_at_once :
      (d : Datagram) (key : Bytes) (h : ℕ) (e e' : Endpoint H)
      → Tidy e
      → connection_key d.peer_address ≡ some key
      → hash_find key e.connections ≡ some h
      → (H.recv d (e.objects h)).0 ≢ failed
      → is_removable H (H.recv d (e.objects h)).1 ≡ true
      → Calls (recv d e).1 e'
      → (holds h e'.connections ≡ false) × (e'.objects h ≡ (H.recv d (e.objects h)).1)
  unfolding recv holds
  removed_at_once d key h e e' t keyed found works gone m =
      let o = (H.recv d (e.objects h)).1 in
      let here : Forgets h o (recv d e) =
        rw (keyed, found, recv) (route-Forgets d key h e t found works gone) in
      let after = Calls-Forgotten h o m (recv-Tidy d e t) here in (after.1, after.2)
