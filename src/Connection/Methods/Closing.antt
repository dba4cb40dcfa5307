-- ===== src/Connection/Methods/Closing.antt =====
-- The local close of src/connection.c.
use ext_ngtcp.Prelude.{
  ℕ, ◌≡◌, refl, Bool, true, false, not, Option, [], ◌∷◌, ◌++◌, Bytes, arith, if◌then◌else◌,
  minus_one, if_rule,
}
use ext_ngtcp.Event.{connection_closed, milliseconds}
use ext_ngtcp.Platform.{Platform}
use ext_ngtcp.Connection.State.{Connection, push_event, timestamp, tick_clock, reason_string}
use ext_ngtcp.Connection.Methods.{close, emit_close, kept_reason, is_closed}

if_true {ℓ} : {A : Type ℓ} (b : Bool) (x y : A) → b ≡ true → (if b then x else y) ≡ x
if_true true x y h = refl
if_true false x y h = cc

module _ {P : Platform} where
  closing_again :
      (code : ℕ) (reason : Option Bytes) (c : Connection P)
      → c.close_requested ≡ true
      → close code reason c ≡ c
  unfolding close
  closing_again code reason c h = if_true _ c _ h

  close_requested_after :
      (code : ℕ) (reason : Option Bytes) (c : Connection P)
      → (close code reason c).close_requested ≡ true
  unfolding close emit_close push_event tick_clock
  close_requested_after code reason c =
      if_rule (λ (d : Connection P). d.close_requested ≡ true) c.close_requested c _ (λ h. h)
        λ _.
          if_rule (λ (d : Connection P). d.close_requested ≡ true) (not c.close_event_emitted) _ _
            (λ _. refl) (λ _. refl)

  -- After a close the connection counts as closed, and a further close, with whatever code and
  -- reason, changes nothing. The first close on a connection that has not announced its end
  -- announces it, behind all other events, once: with the code that was given, not by the peer, and
  -- with the reason, if there is one, up to its first NUL. On one that has announced its end it
  -- adds no event.
  pub close_lem :
      (code code' : ℕ) (reason reason' : Option Bytes) (c : Connection P)
      → (is_closed (close code reason c) ≡ true)
        × (close code' reason' (close code reason c) ≡ close code reason c)
        × (c.close_requested ≡ false
            → c.close_event_emitted ≡ false
            → (close code reason c).events
              ≡ c.events
                ++ record {
                  type = connection_closed;
                  stream_id = minus_one;
                  error_code = code;
                  by_peer = false;
                  reason = reason_string reason;
                  timestamp = milliseconds (timestamp c);
                }
                  ∷ [])
        × (c.close_event_emitted ≡ true → (close code reason c).events ≡ c.events)
  unfolding is_closed close emit_close push_event tick_clock timestamp kept_reason
  close_lem code code' reason reason' c = (
    ground (arith, close_requested_after code reason c),
    closing_again code' reason' (close code reason c) (close_requested_after code reason c),
    (λ fresh silent. ground arith),
    λ announced. ground arith,
  )
