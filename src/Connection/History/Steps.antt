-- ===== src/Connection/History/Steps.antt =====
-- The shared functions of src/connection.c and the handlers of src/callbacks.c as chains of moves.
use ext_ngtcp.Prelude.{
  sym, subst, ◌<◌, ℕ, ◌≡◌, refl, Bool, true, false, not, ◌&&◌, ◌||◌, inl, inr, Option, none, some,
  List, [], ◌∷◌, arith, if◌then◌else◌, Bytes, length, ltb,
}
use ext_ngtcp.Buffer.{contents}
use ext_ngtcp.Event.{stream_readable, stream_writable}
use ext_ngtcp.Event.Objects.{IsStreamType}
use ext_ngtcp.Platform.{Platform, Callback, Outcome}
use ext_ngtcp.Connection.State.{
  get_stream_entry, StreamEntry, Connection, tick_clock, push_event, modify_entry, sync_draining,
  sync_closed, sync_with, sync_state,
}
use ext_ngtcp.Callbacks.{
  handshake_completed_cb, stream_open_cb, notify_readable, recv_stream_data_cb, stream_close_cb,
  stream_reset_cb, acked_entry, acked_stream_data_offset_cb, handle, handle_all, absorb,
}
use ext_ngtcp.Connection.History.Table.{Fits, receive-Fits}
use ext_ngtcp.Connection.History.Moves.{
  life_refl, keeps_refl, quiet, emit, of_handshake, of_close, of_drain, Moves, here, next,
  Moves-trans, one, modify_entry-Move, tick_clock-Move, open_stream_entry-Moves, push_event-Move,
}

-- A branch on a test.
pub Moves-if :
    {P : Platform} (c : Connection P) (b : Bool) (x y : Connection P)
    → (b ≡ true → Moves c x)
    → (b ≡ false → Moves c y)
    → Moves c (if b then x else y)
Moves-if c true x y t f = t refl
Moves-if c false x y t f = f refl

-- A branch on a pointer that may be null.
pub Moves-option :
    {P : Platform} {A : Type 0} (c : Connection P) (o : Option A) (x : Connection P)
    (f : A → Connection P)
    → Moves c x
    → ((a : A) → Moves c (f a))
    → Moves c (elim o [ none ↦ x | some a ↦ f a ])
Moves-option c none x f m ms = m
Moves-option c (some a) x f m ms = ms a

module _ {P : Platform} where
  sync_draining-Moves : (c : Connection P) → Moves c (sync_draining c)
  unfolding sync_draining push_event
  sync_draining-Moves c =
      Moves-if c c.draining_event_emitted _ _
        (λ e. one (
          quiet
            (
              omega arith,
              ((λ h. h), (λ h. refl), (λ h. h), (λ h. h), (λ h. h)),
              keeps_refl c.streams,
            )
            (refl, refl, refl) refl))
        (λ e. one (
          emit _
            (
              omega arith,
              ((λ h. h), (λ h. refl), (λ h. h), (λ h. h), (λ h. h)),
              keeps_refl c.streams,
            )
            (record {
              events = refl;
              time = refl;
              reads = omega arith;
              announces = of_drain refl e refl refl refl;
            })))

  sync_closed-Moves : (c : Connection P) (conn : P.Conn) → Moves c (sync_closed c conn)
  unfolding sync_closed push_event
  sync_closed-Moves c conn =
      Moves-if c c.close_event_emitted _ _
        (λ e. one (
          quiet
            (
              omega arith,
              ((λ h. h), (λ h. h), (λ h. refl), (λ h. h), (λ h. h)),
              keeps_refl c.streams,
            )
            (refl, refl, refl) refl))
        (λ e. one (
          emit _
            (
              omega arith,
              ((λ h. h), (λ h. h), (λ h. refl), (λ h. h), (λ h. h)),
              keeps_refl c.streams,
            )
            (record {
              events = refl;
              time = refl;
              reads = omega arith;
              announces = of_close refl e refl refl refl;
            })))

  sync_with-Moves : (c : Connection P) (conn : P.Conn) → Moves c (sync_with c conn)
  unfolding sync_with
  sync_with-Moves c conn =
      let c1 = if P.in_draining_period conn then sync_draining c else c in
      let first : Moves c c1 = Moves-if c _ _ _ (λ e. sync_draining-Moves c) (λ e. here) in
      Moves-if c _ _ _ (λ e. Moves-trans first (sync_closed-Moves c1 conn)) (λ e. first)

  pub sync_state-Moves : (c : Connection P) → Moves c (sync_state c)
  unfolding sync_state
  sync_state-Moves c = Moves-option c c.conn c (sync_with c) here (sync_with-Moves c)

  handshake_completed_cb-Moves : (c : Connection P) → Moves c (handshake_completed_cb c)
  unfolding handshake_completed_cb push_event
  handshake_completed_cb-Moves c =
      Moves-if c (not c.established) _ _
        (λ e. one (
          emit _
            (
              omega arith,
              ((λ h. refl), (λ h. h), (λ h. h), (λ h. h), (λ h. h)),
              keeps_refl c.streams,
            )
            (record {
              events = refl;
              time = refl;
              reads = omega arith;
              announces = of_handshake refl (ground arith) refl refl refl;
            })))
        (λ e. here)

  -- A stream event pushed after other moves.
  pub then_push :
      {c : Connection P} (d : Connection P) (t stream_id error_code : ℕ) (by_peer : Bool)
      → Moves c d
      → IsStreamType t
      → Moves c (push_event d t stream_id error_code by_peer none)
  then_push d t stream_id error_code by_peer m h =
      next m (push_event-Move d t stream_id error_code by_peer none h)

  pub then_modify :
      {c : Connection P} (d : Connection P) (k : ℕ) (f : StreamEntry → StreamEntry)
      → Fits f
      → Moves c d
      → Moves c (modify_entry d k f)
  then_modify d k f fit m = next m (modify_entry-Move d k f (λ e found. fit k e))

  stream_open_cb-Moves :
      (conn : P.Conn) (k : ℕ) (c : Connection P) → Moves c (stream_open_cb conn k c)
  unfolding stream_open_cb
  stream_open_cb-Moves conn k c =
      then_push _ _ _ _ _ (then_modify _ _ _ (λ k e h. h) (open_stream_entry-Moves c k)) (inl refl)

  -- The entry that the handler looked at is the one at the key.
  notify_readable-Moves :
      (k : ℕ) (o : Option StreamEntry) (c : Connection P)
      → get_stream_entry c k ≡ o
      → Moves c (notify_readable k o c)
  unfolding notify_readable get_stream_entry
  notify_readable-Moves k none c at_key = here
  notify_readable-Moves k (some e) c at_key =
      let f : StreamEntry → StreamEntry = λ d. record d { readable = true } in
      Moves-if c (not e.readable && ltb 0 (length (contents e.rx_buffer)))
        (push_event (modify_entry c k f) stream_readable k 0 true none) c
        (λ bytes.
          then_push _ stream_readable k 0 true
            (one (
              modify_entry-Move c k f λ d found h.
                let same : d ≡ e = grind (arith, found, at_key) in
                (
                  h.0,
                  h.1,
                  h.2,
                  h.3,
                  λ r.
                      subst (λ x. 0 < length (contents x.rx_buffer)) (sym same)
                        (ground (arith, bytes)),
                )))
            (inr (inl refl)))
        (λ _. here)

  recv_stream_data_cb-Moves :
      (fin : Bool) (k : ℕ) (bytes : Bytes) (c : Connection P)
      → Moves c (recv_stream_data_cb fin k bytes c)
  unfolding recv_stream_data_cb
  recv_stream_data_cb-Moves fin k bytes c =
      let m =
        Moves-trans (then_modify _ k _ (receive-Fits bytes) (open_stream_entry-Moves c k))
          (notify_readable-Moves k _ _ refl) in
      Moves-if c fin _ _ (λ _. then_modify _ k _ (λ k e h. h) m) (λ _. m)

  stream_close_cb-Moves :
      (set : Bool) (k code : ℕ) (c : Connection P) → Moves c (stream_close_cb set k code c)
  unfolding stream_close_cb
  stream_close_cb-Moves set k code c =
      then_push _ _ _ _ _ (then_modify _ _ _ (λ k e h. h) (open_stream_entry-Moves c k))
        (inr (inr (inr (inl refl))))

  stream_reset_cb-Moves : (k code : ℕ) (c : Connection P) → Moves c (stream_reset_cb k code c)
  unfolding stream_reset_cb
  stream_reset_cb-Moves k code c =
      then_push _ _ _ _ _ (then_modify _ _ _ (λ k e h. h) (open_stream_entry-Moves c k))
        (inr (inr (inr (inr refl))))

  acked_entry-Moves :
      (k : ℕ) (o : Option StreamEntry) (c : Connection P) → Moves c (acked_entry k o c)
  unfolding acked_entry
  acked_entry-Moves k none c = here
  acked_entry-Moves k (some e) c =
      let d =
        push_event (modify_entry c k (λ d. record d { writable = true })) stream_writable k 0 true
          none in
      let pushed : Moves c d =
        then_push _ stream_writable k 0 true (then_modify c k _ (λ k e h. h) here)
          (inr (inr (inl refl))) in
      Moves-if c (e.closed || e.reset || e.fin_sent) c (if not e.writable then d else c) (λ _. here)
        λ _. Moves-if c (not e.writable) d c (λ _. pushed) (λ _. here)

  pub handle-Moves : (call : Callback P.Conn) (c : Connection P) → Moves c (handle call c)
  unfolding handle acked_stream_data_offset_cb
  handle-Moves Callback.handshake_completed c = handshake_completed_cb-Moves c
  handle-Moves (Callback.stream_open conn k) c = stream_open_cb-Moves conn k c
  handle-Moves (Callback.recv_stream_data fin k bytes) c = recv_stream_data_cb-Moves fin k bytes c
  handle-Moves (Callback.stream_close set k code) c = stream_close_cb-Moves set k code c
  handle-Moves (Callback.stream_reset k code) c = stream_reset_cb-Moves k code c
  handle-Moves (Callback.acked_stream_data_offset k) c = acked_entry-Moves k _ c

  handle_all-Moves :
      (calls : List (Callback P.Conn)) (c : Connection P) → Moves c (handle_all calls c)
  unfolding handle_all
  handle_all-Moves [] c = here
  handle_all-Moves (call ∷ calls) c = Moves-trans (handle-Moves call c) (handle_all-Moves calls _)

  pub absorb-Moves : {A : Type 0} (o : Outcome P.Conn A) (c : Connection P) → Moves c (absorb o c)
  unfolding absorb
  absorb-Moves o c =
      let d = handle_all o.calls c in
      next (handle_all-Moves o.calls c)
        (quiet (omega arith, life_refl d, keeps_refl d.streams) (refl, refl, refl) refl)

  -- A library call that is given the time.
  pub timed-Moves :
      {A : Type 0} (o : Outcome P.Conn A) (c : Connection P) → Moves c (absorb o (tick_clock c))
  timed-Moves o c = Moves-trans (one (tick_clock-Move c)) (absorb-Moves o _)
