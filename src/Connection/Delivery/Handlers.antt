-- ===== src/Connection/Delivery/Handlers.antt =====
-- What the handlers of src/callbacks.c do to the receive buffer of a stream.
use ext_ngtcp.Prelude.{
  ℕ, ◌≡◌, ◌≢◌, refl, sym, ap, ◌∙◌, Bool, true, not, ◌&&◌, ◌||◌, Option, none, some, List, [], ◌∷◌,
  ◌++◌, append-nil, append_assoc, Bytes, length, ltb, ◌==◌, if◌then◌else◌, if_rule, option_rule,
}
use ext_ngtcp.Buffer.{contents}
use ext_ngtcp.Platform.{Platform, Callback}
use ext_ngtcp.Connection.State.{
  StreamEntry, Connection, find, get_stream_entry, stream_entry_alloc, tick_clock, push_event,
  modify_entry, open_stream_entry,
}
use ext_ngtcp.Callbacks.{
  receive, handle, handle_all, notify_readable, acked_entry, handshake_completed_cb, stream_open_cb,
  recv_stream_data_cb, stream_close_cb, stream_reset_cb, acked_stream_data_offset_cb, closed_entry,
  reset_entry,
}
use ext_ngtcp.Connection.Delivery.Library.{brings, bytes_on}
use ext_ngtcp.Connection.Delivery.Buffers.{
  rx, rx_snoc, KeepsRx, rx-modify, rx-receive, find_snoc_self,
}

module _ {P : Platform} where
  -- The library's handle and what is received of stream k stay.
  abbrev pub Still : ℕ → Connection P → Connection P → Type 0
  Still k c d = (d.conn ≡ c.conn) × (rx k d.streams ≡ rx k c.streams)

  pub Still-trans : (k : ℕ) (c d e : Connection P) → Still k c d → Still k d e → Still k c e
  Still-trans k c d e s t = (t.0 ∙ s.0, t.1 ∙ s.1)

  pub modify_entry-Still :
      (k j : ℕ) (f : StreamEntry → StreamEntry) (c : Connection P)
      → KeepsRx f
      → Still k c (modify_entry c j f)
  unfolding modify_entry
  modify_entry-Still k j f c keep = (refl, rx-modify k j f c.streams keep)

  pub open_stream_entry-Still : (k j : ℕ) (c : Connection P) → Still k c (open_stream_entry c j)
  unfolding open_stream_entry
  open_stream_entry-Still k j c =
      option_rule (Still k c) (find j c.streams) _ _ (λ _. (refl, rx_snoc k j c.streams))
        (λ e _. (refl, refl))

  pub push_event-Still :
      (k : ℕ) (c : Connection P) (t stream_id error_code : ℕ) (by_peer : Bool)
      (reason : Option Bytes)
      → Still k c (push_event c t stream_id error_code by_peer reason)
  unfolding push_event tick_clock
  push_event-Still k c t stream_id error_code by_peer reason = (refl, refl)

  pub notify_readable-Still :
      (k j : ℕ) (o : Option StreamEntry) (c : Connection P) → Still k c (notify_readable j o c)
  unfolding notify_readable push_event tick_clock
  notify_readable-Still k j none c = (refl, refl)
  notify_readable-Still k j (some e) c =
      if_rule (Still k c) (not e.readable && ltb 0 (length (contents e.rx_buffer))) _ _
        (λ _. modify_entry-Still k j (λ d. record d { readable = true }) c (λ d. refl))
        (λ _. (refl, refl))

  acked_entry-Still :
      (k j : ℕ) (o : Option StreamEntry) (c : Connection P) → Still k c (acked_entry j o c)
  unfolding acked_entry push_event tick_clock
  acked_entry-Still k j none c = (refl, refl)
  acked_entry-Still k j (some e) c =
      if_rule (Still k c) (e.closed || e.reset || e.fin_sent) _ _ (λ _. (refl, refl))
        λ _.
          if_rule (Still k c) (not e.writable) _ _
            (λ _. modify_entry-Still k j (λ d. record d { writable = true }) c (λ d. refl))
            (λ _. (refl, refl))

  -- The entry at j exists after it has been opened.
  opened_there : (j : ℕ) (c : Connection P) → find j (open_stream_entry c j).streams ≢ none
  unfolding open_stream_entry
  opened_there j c =
      option_rule (λ (d : Connection P). find j d.streams ≢ none) (find j c.streams) _ _
        (λ _. find_snoc_self j (stream_entry_alloc j) c.streams) (λ e there gone. cc)

  -- A change of an opened entry, with an event.
  pub opened-Still :
      (k j : ℕ) (f : StreamEntry → StreamEntry) (c : Connection P)
      → KeepsRx f
      → Still k c (modify_entry (open_stream_entry c j) j f)
  opened-Still k j f c keep =
      Still-trans k c (open_stream_entry c j) (modify_entry (open_stream_entry c j) j f)
        (open_stream_entry-Still k j c) (modify_entry-Still k j f (open_stream_entry c j) keep)

  -- A handler appends what its callback brings, and leaves the handle alone.
  abbrev pub Adds : ℕ → Bytes → Connection P → Connection P → Type 0
  Adds k x c d = (d.conn ≡ c.conn) × (rx k d.streams ≡ rx k c.streams ++ x)

  Still-Adds : (k : ℕ) (c d : Connection P) → Still k c d → Adds k [] c d
  Still-Adds k c d s = (s.0, s.1 ∙ sym (append-nil (rx k c.streams)))

  recv_stream_data_cb-Adds :
      (k j : ℕ) (fin : Bool) (bytes : Bytes) (c : Connection P)
      → Adds k (if j == k then bytes else []) c (recv_stream_data_cb fin j bytes c)
  unfolding recv_stream_data_cb modify_entry
  recv_stream_data_cb-Adds k j fin bytes c =
      let x = if j == k then bytes else [] in
      let c0 = open_stream_entry c j in
      let c1 = modify_entry c0 j (receive bytes) in
      let c2 = notify_readable j (get_stream_entry c1 j) c1 in
      let still = open_stream_entry-Still k j c in
      let noted = notify_readable-Still k j (get_stream_entry c1 j) c1 in
      let added : Adds k x c c2 = (
        noted.0 ∙ still.0,
        noted.1 ∙ rx-receive k j bytes c0.streams (opened_there j c) ∙ ap (λ xs. xs ++ x) still.1,
      ) in
      let fined = modify_entry-Still k j (λ e. record e { fin_recv = true }) c2 (λ e. refl) in
      if_rule (Adds k x c) fin _ c2 (λ _. (fined.0 ∙ added.0, fined.1 ∙ added.1)) (λ _. added)

  handle-Adds :
      (k : ℕ) (call : Callback P.Conn) (c : Connection P) → Adds k (brings k call) c (handle call c)
  unfolding handle brings handshake_completed_cb stream_open_cb stream_close_cb stream_reset_cb
      acked_stream_data_offset_cb push_event tick_clock
  handle-Adds k Callback.handshake_completed c =
      Still-Adds k c (handshake_completed_cb c)
        (if_rule (Still k c) (not c.established) _ c (λ _. (refl, refl)) (λ _. (refl, refl)))
  handle-Adds k (Callback.stream_open conn j) c = Still-Adds k c (stream_open_cb conn j c) (
      opened-Still k j (λ e. record e { writable = P.is_local_stream conn j || P.is_bidi_stream j })
        c (λ e. refl))
  handle-Adds k (Callback.recv_stream_data fin j bytes) c = recv_stream_data_cb-Adds k j fin bytes c
  handle-Adds k (Callback.stream_close set j code) c =
      Still-Adds k c (stream_close_cb set j code c) (opened-Still k j closed_entry c (λ e. refl))
  handle-Adds k (Callback.stream_reset j code) c =
      Still-Adds k c (stream_reset_cb j code c) (opened-Still k j reset_entry c (λ e. refl))
  handle-Adds k (Callback.acked_stream_data_offset j) c =
      Still-Adds k c (acked_stream_data_offset_cb j c)
        (acked_entry-Still k j (get_stream_entry c j) c)

  pub handle_all-Adds :
      (k : ℕ) (calls : List (Callback P.Conn)) (c : Connection P)
      → Adds k (bytes_on k calls) c (handle_all calls c)
  unfolding handle_all bytes_on
  handle_all-Adds k [] c = Still-Adds k c c (refl, refl)
  handle_all-Adds k (call ∷ calls) c =
      let first = handle-Adds k call c in
      let rest = handle_all-Adds k calls (handle call c) in
      (
        rest.0 ∙ first.0,
        rest.1
            ∙ ap (λ xs. xs ++ bytes_on k calls) first.1
            ∙ append_assoc (rx k c.streams) (brings k call) (bytes_on k calls),
      )
