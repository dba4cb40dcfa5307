-- ===== src/Connection/History/Time.antt =====
-- The timestamps of the events of src/connection.c.
use ext_ngtcp.Prelude.{
  ℕ, ◌≤◌, ◌<◌, sym, ap, ◌∙◌, List, [], ◌∷◌, ◌++◌, append_assoc, append-nil, arith, subst, u64_mod,
}
use ext_ngtcp.Queue.{Event}
use ext_ngtcp.Event.{milliseconds}
use ext_ngtcp.Platform.{Platform}
use ext_ngtcp.Connection.State.{Connection, create_object}
use ext_ngtcp.Connection.Methods.{drain_events}
use ext_ngtcp.Connection.History.Moves.{Move, quiet, emit}
use ext_ngtcp.Connection.History.Once.{announced}
use ext_ngtcp.Connection.History.Reach.{Reach, reach_keep}

-- zend_hrtime is monotonic, and a uint64_t.
pub record IsClock (hrtime : ℕ → ℕ) : Type 0 where
  pub monotonic : (m n : ℕ) → m ≤ n → hrtime m ≤ hrtime n
  pub in_range : (n : ℕ) → hrtime n < u64_mod

-- The timestamps do not fall along the list, and lie between the two bounds.
abbrev pub Ordered : ℕ → ℕ → List Event → Type 0
Ordered low high [] = low ≤ high
Ordered low high (e ∷ es) = (low ≤ e.timestamp) × Ordered e.timestamp high es

Ordered-mono : (low a b : ℕ) (es : List Event) → a ≤ b → Ordered low a es → Ordered low b es
Ordered-mono low a b [] h o = omega arith
Ordered-mono low a b (e ∷ es) h o = (o.0, Ordered-mono e.timestamp a b es h o.1)

Ordered-snoc :
    (low high : ℕ) (es : List Event) (e : Event)
    → Ordered low e.timestamp es
    → e.timestamp ≤ high
    → Ordered low high (es ++ e ∷ [])
Ordered-snoc low high [] e o h = (o, h)
Ordered-snoc low high (d ∷ es) e o h = (o.0, Ordered-snoc d.timestamp high es e o.1 h)

milliseconds_mono : (a b : ℕ) → a ≤ b → b < u64_mod → milliseconds a ≤ milliseconds b
milliseconds_mono a b h r = omega arith

module _ {P : Platform} (clock : IsClock P.hrtime) where
  abbrev InTime : List Event → Connection P → Type 0
  InTime out c = Ordered 0 (milliseconds (P.hrtime c.clock_reads)) (announced out c)

  later_reading :
      (c d : Connection P)
      → c.clock_reads ≤ d.clock_reads
      → milliseconds (P.hrtime c.clock_reads) ≤ milliseconds (P.hrtime d.clock_reads)
  later_reading c d h =
      milliseconds_mono _ _ (clock.monotonic c.clock_reads d.clock_reads h)
        (clock.in_range d.clock_reads)

  Move-InTime : (out : List Event) (c d : Connection P) → Move c d → InTime out c → InTime out d
  Move-InTime out c d (quiet later same events) o =
      subst (λ es. Ordered 0 (milliseconds (P.hrtime d.clock_reads)) (out ++ es)) (sym events)
        (Ordered-mono 0 _ _ (announced out c) (later_reading c d later.0) o)
  Move-InTime out c d (emit e later em) o =
      let at_time : Ordered 0 e.timestamp (announced out c) =
        subst (λ t. Ordered 0 t (announced out c)) (sym em.time) o in
      let bound : e.timestamp ≤ milliseconds (P.hrtime d.clock_reads) =
        subst (λ t. t ≤ milliseconds (P.hrtime d.clock_reads)) (sym em.time)
          (later_reading c d later.0) in
      subst (λ es. Ordered 0 (milliseconds (P.hrtime d.clock_reads)) es)
        (append_assoc out c.events (e ∷ []) ∙ ap (◌++◌ out) (sym em.events))
        (Ordered-snoc 0 _ (announced out c) e at_time bound)

  drain-InTime :
      (out : List Event) (c : Connection P)
      → InTime out c
      → InTime (out ++ c.events) (drain_events c).1
  unfolding drain_events
  drain-InTime out c o =
      subst (λ es. Ordered 0 (milliseconds (P.hrtime c.clock_reads)) es)
        (sym (append-nil (out ++ c.events))) o

  -- If zend_hrtime is monotonic, then after any sequence of calls on a connection object and its
  -- streams the events, in the order in which they are handed out and queued, have timestamps that
  -- never fall, and none is after the next reading of the clock.
  pub events_in_time :
      (zero_addr : P.Sockaddr) (c : Connection P) (out : List Event)
      → Reach (create_object P zero_addr) out c
      → Ordered 0 (milliseconds (P.hrtime c.clock_reads)) (announced out c)
  unfolding create_object
  events_in_time zero_addr c out r = reach_keep InTime Move-InTime drain-InTime r (omega arith)
