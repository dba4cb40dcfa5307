-- ===== src/Connection/Delivery/Feeds.antt =====
-- The receive buffer of a stream over one call of libngtcp2, by what it says it has delivered.
use ext_ngtcp.Prelude.{
  ℕ, ◌≡◌, refl, sym, ap, ◌∙◌, ◌||◌, Option, none, some, [], ◌++◌, append-nil, append_assoc, Bytes,
  if◌then◌else◌, if_rule, option_rule,
}
use ext_ngtcp.Platform.{Platform, Outcome}
use ext_ngtcp.Connection.State.{
  Connection, tick_clock, sync_state, sync_with, sync_draining, sync_closed, push_event,
}
use ext_ngtcp.Callbacks.{absorb}
use ext_ngtcp.Connection.Delivery.Library.{bytes_on, IsRecorded}
use ext_ngtcp.Connection.Delivery.Buffers.{rx}
use ext_ngtcp.Connection.Delivery.Handlers.{Still, Still-trans, handle_all-Adds}

module _ {P : Platform} where
  -- What the handle, if there is one, says that has been delivered on stream k.
  unfoldable pub seen : IsRecorded P → ℕ → Option P.Conn → Bytes
  seen lib k none = []
  seen lib k (some conn) = lib.delivered conn k

  sync_draining-Still : (k : ℕ) (c : Connection P) → Still k c (sync_draining c)
  unfolding sync_draining push_event tick_clock
  sync_draining-Still k c =
      if_rule (Still k c) c.draining_event_emitted _ _ (λ _. (refl, refl)) (λ _. (refl, refl))

  sync_closed-Still : (k : ℕ) (c : Connection P) (conn : P.Conn) → Still k c (sync_closed c conn)
  unfolding sync_closed push_event tick_clock
  sync_closed-Still k c conn =
      if_rule (Still k c) c.close_event_emitted _ _ (λ _. (refl, refl)) (λ _. (refl, refl))

  sync_with-Still : (k : ℕ) (c : Connection P) (conn : P.Conn) → Still k c (sync_with c conn)
  unfolding sync_with
  sync_with-Still k c conn =
      let d = if P.in_draining_period conn then sync_draining c else c in
      let first : Still k c d =
        if_rule (Still k c) (P.in_draining_period conn) _ c (λ _. sync_draining-Still k c)
          (λ _. (refl, refl)) in
      if_rule (Still k c) (P.in_closing_period conn || P.in_draining_period conn) _ d
        (λ _. Still-trans k c d (sync_closed d conn) first (sync_closed-Still k d conn))
        (λ _. first)

  pub sync_state-Still : (k : ℕ) (c : Connection P) → Still k c (sync_state c)
  unfolding sync_state
  sync_state-Still k c =
      option_rule (Still k c) c.conn c _ (λ _. (refl, refl)) (λ conn _. sync_with-Still k c conn)

module _ {P : Platform} (lib : IsRecorded P) (k : ℕ) where
  -- The library has delivered more on stream k, and that has come to the end of the buffer.
  abbrev pub Feeds : Connection P → Connection P → Type 0
  Feeds c d =
      (x : Bytes) × (seen lib k d.conn ≡ seen lib k c.conn ++ x)
      × (rx k d.streams ≡ rx k c.streams ++ x)

  pub Still-Feeds : (c d : Connection P) → Still k c d → Feeds c d
  Still-Feeds c d s = (
    [],
    ap (seen lib k) s.0 ∙ sym (append-nil (seen lib k c.conn)),
    s.1 ∙ sym (append-nil (rx k c.streams)),
  )

  pub Feeds-trans : (c d e : Connection P) → Feeds c d → Feeds d e → Feeds c e
  Feeds-trans c d e f g = (
    f.0 ++ g.0,
    g.1 ∙ ap (λ xs. xs ++ g.0) f.1 ∙ append_assoc (seen lib k c.conn) f.0 g.0,
    g.2 ∙ ap (λ xs. xs ++ g.0) f.2 ∙ append_assoc (rx k c.streams) f.0 g.0,
  )

  -- A call of the library on the handle of the connection.
  pub absorb-Feeds :
      {A : Type 0} (conn : P.Conn) (o : Outcome P.Conn A) (c : Connection P)
      → c.conn ≡ some conn
      → lib.delivered o.conn k ≡ lib.delivered conn k ++ bytes_on k o.calls
      → Feeds c (absorb o c)
  unfolding absorb seen
  absorb-Feeds conn o c at_conn law =
      let added = handle_all-Adds k o.calls c in
      (
        bytes_on k o.calls,
        law ∙ ap (λ p. seen lib k p ++ bytes_on k o.calls) (sym at_conn),
        added.1,
      )

  pub timed-Feeds :
      {A : Type 0} (conn : P.Conn) (o : Outcome P.Conn A) (c : Connection P)
      → c.conn ≡ some conn
      → lib.delivered o.conn k ≡ lib.delivered conn k ++ bytes_on k o.calls
      → Feeds c (absorb o (tick_clock c))
  unfolding tick_clock
  timed-Feeds conn o c at_conn law = absorb-Feeds conn o (tick_clock c) at_conn law
