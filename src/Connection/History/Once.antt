-- ===== src/Connection/History/Once.antt =====
-- How often the events of a connection's life are announced.
use ext_ngtcp.Prelude.{
  ℕ, ◌+◌, ◌≤◌, ◌≡◌, refl, sym, ap, ◌∙◌, Bool, true, false, List, [], ◌∷◌, ◌++◌, append_assoc,
  append-nil, arith, ◌==◌, if◌then◌else◌,
}
use ext_ngtcp.Queue.{Event}
use ext_ngtcp.Event.{handshake_completed, connection_closed, connection_draining}
use ext_ngtcp.Platform.{Platform}
use ext_ngtcp.Connection.State.{Connection, create_object}
use ext_ngtcp.Connection.Methods.{drain_events}
use ext_ngtcp.Connection.History.Moves.{
  Move, quiet, emit, Emits, Announces, of_stream, of_handshake, of_close, of_drain,
}
use ext_ngtcp.Connection.History.Reach.{Reach, reach_keep}

unfoldable pub count : ℕ → List Event → ℕ
count t [] = 0
count t (e ∷ es) = (if e.type == t then 1 else 0) + count t es

abbrev pub bit : Bool → ℕ
bit true = 1
bit false = 0

bit-le : (b : Bool) → bit b ≤ 1
bit-le true = omega arith
bit-le false = omega arith

count-append : (t : ℕ) (es fs : List Event) → count t (es ++ fs) ≡ count t es + count t fs
unfolding count
count-append t [] fs = omega arith
count-append t (e ∷ es) fs = omega (arith, count-append t es fs)

-- All events announced so far: those handed out, then those in the queue.
abbrev pub announced : {P : Platform} → List Event → Connection P → List Event
announced out c = out ++ c.events

-- The events of each kind are as many as the flag that guards them says.
pub record Tally {P : Platform} (out : List Event) (c : Connection P) : Type 0 where
  pub handshakes : count handshake_completed (announced out c) ≡ bit c.established
  pub closes : count connection_closed (announced out c) ≡ bit c.close_event_emitted
  pub drains : count connection_draining (announced out c) ≡ bit c.draining_event_emitted

module _ {P : Platform} where
  count_emitted :
      (t : ℕ) (out : List Event) (e : Event) (c d : Connection P)
      → Emits e c d
      → count t (announced out d) ≡ count t (announced out c) + (if e.type == t then 1 else 0)
  unfolding count
  count_emitted t out e c d em =
      ap (λ es. count t (out ++ es)) em.events
      ∙ ap (count t) (sym (append_assoc out c.events (e ∷ [])))
      ∙ count-append t (out ++ c.events) (e ∷ [])
      ∙ omega arith

  Announces-Tally :
      (out : List Event) (e : Event) (c d : Connection P)
      → Emits e c d
      → Announces e.type c d
      → Tally out c
      → Tally out d
  Announces-Tally out e c d em (of_stream h same) t = record {
    handshakes = ground (arith, count_emitted handshake_completed out e c d em, t.handshakes);
    closes = ground (arith, count_emitted connection_closed out e c d em, t.closes);
    drains = ground (arith, count_emitted connection_draining out e c d em, t.drains);
  }
  Announces-Tally out e c d em (of_handshake h was now close drain) t = record {
    handshakes = ground (arith, count_emitted handshake_completed out e c d em, t.handshakes);
    closes = ground (arith, count_emitted connection_closed out e c d em, t.closes);
    drains = ground (arith, count_emitted connection_draining out e c d em, t.drains);
  }
  Announces-Tally out e c d em (of_close h was now established drain) t = record {
    handshakes = ground (arith, count_emitted handshake_completed out e c d em, t.handshakes);
    closes = ground (arith, count_emitted connection_closed out e c d em, t.closes);
    drains = ground (arith, count_emitted connection_draining out e c d em, t.drains);
  }
  Announces-Tally out e c d em (of_drain h was now established close) t = record {
    handshakes = ground (arith, count_emitted handshake_completed out e c d em, t.handshakes);
    closes = ground (arith, count_emitted connection_closed out e c d em, t.closes);
    drains = ground (arith, count_emitted connection_draining out e c d em, t.drains);
  }

  Move-Tally : (out : List Event) (c d : Connection P) → Move c d → Tally out c → Tally out d
  Move-Tally out c d (quiet later same events) t = record {
    handshakes =
        ap (λ es. count handshake_completed (out ++ es)) events
        ∙ t.handshakes
        ∙ ap bit (sym same.0);
    closes = ap (λ es. count connection_closed (out ++ es)) events ∙ t.closes ∙ ap bit (sym same.1);
    drains =
        ap (λ es. count connection_draining (out ++ es)) events ∙ t.drains ∙ ap bit (sym same.2);
  }
  Move-Tally out c d (emit e later em) t = Announces-Tally out e c d em em.announces t

  drain-Tally :
      (out : List Event) (c : Connection P)
      → Tally out c
      → Tally (out ++ c.events) (drain_events c).1
  unfolding drain_events
  drain-Tally out c t = record {
    handshakes = ap (count handshake_completed) (append-nil (out ++ c.events)) ∙ t.handshakes;
    closes = ap (count connection_closed) (append-nil (out ++ c.events)) ∙ t.closes;
    drains = ap (count connection_draining) (append-nil (out ++ c.events)) ∙ t.drains;
  }

  created-Tally : (zero_addr : P.Sockaddr) → Tally [] (create_object P zero_addr)
  unfolding create_object count
  created-Tally zero_addr = record { handshakes = refl; closes = refl; drains = refl }

  pub Reach-Tally :
      (c d : Connection P) (out : List Event) → Reach c out d → Tally [] c → Tally out d
  Reach-Tally c d out r t = reach_keep Tally Move-Tally drain-Tally r t

  -- Whatever methods are called on a connection object and its streams, in whatever order, and
  -- whatever libngtcp2 answers and calls back: of all the events that are handed out or still in the
  -- queue, at most one says that the handshake is completed, at most one that the connection is
  -- draining, and at most one that it is closed; and there is one exactly when the flag that
  -- guards it is set.
  pub lifecycle_once :
      (zero_addr : P.Sockaddr) (c : Connection P) (out : List Event)
      → Reach (create_object P zero_addr) out c
      → Tally out c
        × (count handshake_completed (announced out c) ≤ 1)
        × (count connection_closed (announced out c) ≤ 1)
        × (count connection_draining (announced out c) ≤ 1)
  lifecycle_once zero_addr c out r =
      let t = Reach-Tally (create_object P zero_addr) c out r (created-Tally zero_addr) in
      (
        t,
        omega (arith, t.handshakes, bit-le c.established),
        omega (arith, t.closes, bit-le c.close_event_emitted),
        omega (arith, t.drains, bit-le c.draining_event_emitted),
      )
