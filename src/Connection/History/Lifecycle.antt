-- ===== src/Connection/History/Lifecycle.antt =====
-- The flags and the table of a connection of src/connection.c over a sequence of calls.
use ext_ngtcp.Prelude.{ℕ, ◌≡◌, ◌≢◌, true, List, ◌++◌, none}
use ext_ngtcp.Queue.{Event}
use ext_ngtcp.Platform.{Platform}
use ext_ngtcp.Connection.History.Table.{Sound}
use ext_ngtcp.Connection.State.{create_object, Connection, find}
use ext_ngtcp.Connection.Methods.{drain_events}
use ext_ngtcp.Connection.History.Moves.{Move, quiet, emit, Life, Keeps, life_refl, keeps_refl}
use ext_ngtcp.Connection.History.Reach.{Reach, reach_keep}

-- The flags and the streams that the connection had are still there.
abbrev pub Since : {P : Platform} → Connection P → List Event → Connection P → Type 0
Since b out c = Life b c × Keeps b.streams c.streams

module _ {P : Platform} where
  Life_trans : (b c d : Connection P) → Life b c → Life c d → Life b d
  Life_trans b c d l m = (
    (λ h. m.0 (l.0 h)),
    (λ h. m.1 (l.1 h)),
    (λ h. m.2 (l.2 h)),
    (λ h. m.3 (l.3 h)),
    (λ h. m.4 (l.4 h)),
  )

  Move-Since :
      (b : Connection P) (out : List Event) (c d : Connection P)
      → Move c d
      → Since b out c
      → Since b out d
  Move-Since b out c d (quiet later same events) s =
      (Life_trans b c d s.0 later.1, ((λ k h. later.2.0 k (s.1.0 k h)), λ h. later.2.1 (s.1.1 h)))
  Move-Since b out c d (emit e later em) s =
      (Life_trans b c d s.0 later.1, ((λ k h. later.2.0 k (s.1.0 k h)), λ h. later.2.1 (s.1.1 h)))

  drain-Since :
      (b : Connection P) (out : List Event) (c : Connection P)
      → Since b out c
      → Since b (out ++ c.events) (drain_events c).1
  unfolding drain_events
  drain-Since b out c s = s

  -- No call takes anything back: a connection that is established, draining, closed, asked to close,
  -- or done with its close packet stays so, and a stream that has an entry keeps one, so the
  -- pointers to entries that stream objects and the transmission loop use never dangle.
  pub nothing_taken_back :
      (b c : Connection P) (out : List Event)
      → Reach b out c
      → (b.established ≡ true → c.established ≡ true)
        × (b.is_draining ≡ true → c.is_draining ≡ true)
        × (b.closed ≡ true → c.closed ≡ true)
        × (b.close_requested ≡ true → c.close_requested ≡ true)
        × (b.close_packet_sent ≡ true → c.close_packet_sent ≡ true)
        × ((k : ℕ) → find k b.streams ≢ none → find k c.streams ≢ none)
  nothing_taken_back b c out r =
      let s =
        reach_keep (Since b) (Move-Since b) (drain-Since b) r (life_refl b, keeps_refl b.streams) in
      (s.0.0, s.0.1, s.0.2, s.0.3, s.0.4, s.1.0)

  -- After any sequence of calls on a connection object and its streams: no stream has two entries,
  -- each entry carries the id that it is found under, has both of its buffers, has its send offset
  -- inside the send buffer, and says that it is readable only when there are bytes to read.
  pub table-Sound :
      (zero_addr : P.Sockaddr) (c : Connection P) (out : List Event)
      → Reach (create_object P zero_addr) out c
      → Sound c.streams
  unfolding create_object Sound
  table-Sound zero_addr c out r =
      let b = create_object P zero_addr in
      (reach_keep (Since b) (Move-Since b) (drain-Since b) r
          (life_refl b, keeps_refl b.streams)).1.1
        tt
