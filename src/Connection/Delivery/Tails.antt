-- ===== src/Connection/Delivery/Tails.antt =====
-- The receive buffer of a stream in what the methods of a connection (src/connection.c) do after
-- their call of libngtcp2.
use ext_ngtcp.Prelude.{
  ℕ, refl, Bool, true, false, not, Option, [], ◌∷◌, ◌==◌, if◌then◌else◌, Bytes, slt64, add64,
  if_rule, option_rule,
}
use ext_ngtcp.Platform.{
  Platform, Code, Status, success, failure, Written, wrote, failed, stream_id_blocked,
}
use ext_ngtcp.Exceptions.{LibraryCall}
use ext_ngtcp.Connection.State.{
  Connection, tick_clock, push_event, is_nonfatal_closing_error, sync_state,
}
use ext_ngtcp.Connection.Methods.{
  note_read_error, finish_read, finish_expiry, finish_close, emit_close, close,
}
use ext_ngtcp.Connection.Timers.{next_timeout_ms}
use ext_ngtcp.Connection.Open.{
  next_stream_id, set_next_stream_id, ensure_next_stream_id, register, opened, postponed,
  finish_open,
}
use ext_ngtcp.Connection.Delivery.Handlers.{Still, Still-trans, opened-Still}
use ext_ngtcp.Connection.Delivery.Feeds.{sync_state-Still}

module _ {P : Platform} (k : ℕ) where
  -- A method's result with the connection that it leaves.
  abbrev pub Stills {ℓ} : {A : Type ℓ} → Connection P → A × Connection P → Type 0
  Stills c r = Still k c r.1

  note_read_error-Still :
      (code : Code) (conn : P.Conn) (c : Connection P) → Still k c (note_read_error code conn c)
  unfolding note_read_error
  note_read_error-Still code conn c =
      if_rule (Still k c) (P.error_code c.last_error == 0) _ c (λ _. (refl, refl))
        (λ _. (refl, refl))

  pub finish_read-Stills :
      (s : Status) (conn : P.Conn) (c : Connection P) → Stills c (finish_read s conn c)
  unfolding finish_read
  finish_read-Stills success conn c = sync_state-Still k c
  finish_read-Stills (failure code) conn c =
      if_rule (Stills c) (is_nonfatal_closing_error code) _ _ (λ _. sync_state-Still k c)
        (λ _. note_read_error-Still code conn c)

  pub finish_expiry-Stills : (s : Status) (c : Connection P) → Stills c (finish_expiry s c)
  unfolding finish_expiry
  finish_expiry-Stills success c = sync_state-Still k c
  finish_expiry-Stills (failure code) c =
      if_rule (Stills c) (is_nonfatal_closing_error code) _ _ (λ _. sync_state-Still k c)
        (λ _. (refl, refl))

  pub next_timeout_ms-Stills : (c : Connection P) → Stills c (next_timeout_ms c)
  unfolding next_timeout_ms tick_clock
  next_timeout_ms-Stills c =
      option_rule (Stills c) c.conn _ _ (λ _. (refl, refl))
        λ conn _. if_rule (Stills c) c.closed _ _ (λ _. (refl, refl)) (λ _. (refl, refl))

  pub finish_close-Stills : (w : Written) (c : Connection P) → Stills c (finish_close w c)
  unfolding finish_close
  finish_close-Stills (failed code) c =
      let d = record c { close_packet_sent = true } in
      if_rule (Stills c) (is_nonfatal_closing_error code) _ _
        (λ _. Still-trans k c d (sync_state d) (refl, refl) (sync_state-Still k d))
        (λ _. (refl, refl))
  finish_close-Stills (wrote []) c = (refl, refl)
  finish_close-Stills (wrote (b ∷ bytes)) c = (refl, refl)

  emit_close-Still :
      (code : ℕ) (reason : Option Bytes) (c : Connection P) → Still k c (emit_close code reason c)
  unfolding emit_close push_event tick_clock
  emit_close-Still code reason c =
      if_rule (Still k c) (not c.close_event_emitted) _ c (λ _. (refl, refl)) (λ _. (refl, refl))

  pub close-Still :
      (code : ℕ) (reason : Option Bytes) (c : Connection P) → Still k c (close code reason c)
  unfolding close
  close-Still code reason c =
      if_rule (Still k c) c.close_requested c _ (λ _. (refl, refl))
        (λ _. emit_close-Still code reason _)

  pub set_next-Still :
      (bidi : Bool) (id : ℕ) (c : Connection P) → Still k c (set_next_stream_id bidi id c)
  set_next-Still true id c = (refl, refl)
  set_next-Still false id c = (refl, refl)

  register-Still : (blocked : Bool) (j : ℕ) (c : Connection P) → Still k c (register blocked j c)
  unfolding register push_event tick_clock
  register-Still blocked j c =
      opened-Still k j (λ e. record e { pending_open = blocked; writable = true }) c (λ e. refl)

  opened_with-Still : (bidi : Bool) (j : ℕ) (c : Connection P) → Still k c (opened bidi j c)
  unfolding opened
  opened_with-Still bidi j c =
      let d =
        if not (slt64 j (next_stream_id bidi c))
        then set_next_stream_id bidi (add64 j 4) c
        else c in
      let s : Still k c d =
        if_rule (Still k c) (not (slt64 j (next_stream_id bidi c))) _ c
          (λ _. set_next-Still bidi (add64 j 4) c) (λ _. (refl, refl)) in
      Still-trans k c d (register false j d) s (register-Still false j d)

  postponed-Still : (bidi : Bool) (c : Connection P) → Still k c (postponed bidi c)
  unfolding postponed
  postponed-Still bidi c =
      let next = next_stream_id bidi c in
      let d = set_next_stream_id bidi (add64 next 4) c in
      Still-trans k c d (register true next d) (set_next-Still bidi (add64 next 4) c)
        (register-Still true next d)

  ensure-Still : (bidi : Bool) (c : Connection P) → Still k c (ensure_next_stream_id bidi c)
  unfolding ensure_next_stream_id
  ensure-Still bidi c = set_next-Still bidi _ c

  pub finish_open-Stills :
      (call : LibraryCall) (bidi : Bool) (rv : Status) (j : ℕ) (c : Connection P)
      → Stills c (finish_open call bidi rv j c)
  unfolding finish_open
  finish_open-Stills call bidi success j c =
      let d = ensure_next_stream_id bidi c in
      Still-trans k c d (opened bidi j d) (ensure-Still bidi c) (opened_with-Still bidi j d)
  finish_open-Stills call bidi (failure stream_id_blocked) j c =
      let d = ensure_next_stream_id bidi c in
      Still-trans k c d (postponed bidi d) (ensure-Still bidi c) (postponed-Still bidi d)
  finish_open-Stills call bidi (failure _) j c = (refl, refl)
