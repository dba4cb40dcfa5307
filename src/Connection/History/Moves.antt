-- ===== src/Connection/History/Moves.antt =====
-- The moves, and the chains of moves that the shared functions of Connection.State make.
use ext_ngtcp.Prelude.{
  ℕ, ◌≤◌, ◌<◌, ◌≡◌, ◌≢◌, refl, Bool, true, false, inl, inr, Option, none, [], ◌∷◌, ◌++◌, arith,
  Bytes, Option-cases,
}
use ext_ngtcp.Queue.{Event}
use ext_ngtcp.Event.{handshake_completed, connection_closed, connection_draining, milliseconds}
use ext_ngtcp.Event.Objects.{IsStreamType}
use ext_ngtcp.Platform.{Platform}
use ext_ngtcp.Connection.History.Table.{Sound, FitsAt, modify-Sound, snoc-Sound}
use ext_ngtcp.Connection.State.{
  StreamEntry, Streams, Connection, find, modify, tick_clock, push_event, modify_entry,
  open_stream_entry, stream_entry_alloc,
}

-- The flags of a connection's life are not taken back.
abbrev pub Life : {P : Platform} → Connection P → Connection P → Type 0
Life c c' =
    (c.established ≡ true → c'.established ≡ true)
    × (c.is_draining ≡ true → c'.is_draining ≡ true)
    × (c.closed ≡ true → c'.closed ≡ true)
    × (c.close_requested ≡ true → c'.close_requested ≡ true)
    × (c.close_packet_sent ≡ true → c'.close_packet_sent ≡ true)

-- Each key that has an entry keeps one: stream objects and the transmission loop point to entries.
-- And a sound table stays sound.
abbrev pub Keeps : Streams → Streams → Type 0
Keeps s s' = ((k : ℕ) → find k s ≢ none → find k s' ≢ none) × (Sound s → Sound s')

-- What no step takes back.
abbrev pub Later : {P : Platform} → Connection P → Connection P → Type 0
Later c c' = (c.clock_reads ≤ c'.clock_reads) × Life c c' × Keeps c.streams c'.streams

-- The flags that guard the events which are sent once.
abbrev pub SameFlags : {P : Platform} → Connection P → Connection P → Type 0
SameFlags c c' =
    (c'.established ≡ c.established)
    × (c'.close_event_emitted ≡ c.close_event_emitted)
    × (c'.draining_event_emitted ≡ c.draining_event_emitted)

-- An event of this type may be announced, and the flags go with it.
pub data Announces {P : Platform} (t : ℕ) (c c' : Connection P) : Type 0 where
  of_stream : IsStreamType t → SameFlags c c' → Announces t c c'
  of_handshake :
      t ≡ handshake_completed
      → c.established ≡ false
      → c'.established ≡ true
      → c'.close_event_emitted ≡ c.close_event_emitted
      → c'.draining_event_emitted ≡ c.draining_event_emitted
      → Announces t c c'
  of_close :
      t ≡ connection_closed
      → c.close_event_emitted ≡ false
      → c'.close_event_emitted ≡ true
      → c'.established ≡ c.established
      → c'.draining_event_emitted ≡ c.draining_event_emitted
      → Announces t c c'
  of_drain :
      t ≡ connection_draining
      → c.draining_event_emitted ≡ false
      → c'.draining_event_emitted ≡ true
      → c'.established ≡ c.established
      → c'.close_event_emitted ≡ c.close_event_emitted
      → Announces t c c'

pub record Emits {P : Platform} (e : Event) (c c' : Connection P) : Type 0 where
  pub events : c'.events ≡ c.events ++ e ∷ []
  pub time : e.timestamp ≡ milliseconds (P.hrtime c.clock_reads)
  pub reads : c.clock_reads < c'.clock_reads
  pub announces : Announces e.type c c'

pub data Move {P : Platform} (c c' : Connection P) : Type 0 where
  quiet : Later c c' → SameFlags c c' → c'.events ≡ c.events → Move c c'
  emit : (e : Event) → Later c c' → Emits e c c' → Move c c'

pub data Moves {P : Platform} (c : Connection P) : Connection P → Type 0 where
  here : Moves c c
  next : {d d' : Connection P} → Moves c d → Move d d' → Moves c d'

module _ {P : Platform} where
  pub Moves-trans : {c d e : Connection P} → Moves c d → Moves d e → Moves c e
  Moves-trans m here = m
  Moves-trans m (next n s) = next (Moves-trans m n) s

  pub one : {c d : Connection P} → Move c d → Moves c d
  one s = next here s

  abbrev pub life_refl : (c : Connection P) → Life c c
  life_refl c = ((λ h. h), (λ h. h), (λ h. h), (λ h. h), (λ h. h))

abbrev pub keeps_refl : (s : Streams) → Keeps s s
keeps_refl s = ((λ k h. h), λ h. h)

pub find-modify :
    (k j : ℕ) (f : StreamEntry → StreamEntry) (streams : Streams)
    → find k streams ≢ none
    → find k (modify j f streams) ≢ none
unfolding find modify
find-modify k j f [] h = h
find-modify k j f ((i, e) ∷ streams) h = ground (arith, find-modify k j f streams)

find-snoc :
    (k j : ℕ) (e : StreamEntry) (streams : Streams)
    → find k streams ≢ none
    → find k (streams ++ (j, e) ∷ []) ≢ none
unfolding find
find-snoc k j e [] h = absurd (h refl)
find-snoc k j e ((i, d) ∷ streams) h = ground (arith, find-snoc k j e streams)

module _ {P : Platform} where
  pub modify_entry-Move :
      (c : Connection P) (k : ℕ) (f : StreamEntry → StreamEntry)
      → FitsAt k f c.streams
      → Move c (modify_entry c k f)
  unfolding modify_entry
  modify_entry-Move c k f fit =
      quiet
        (
          omega arith,
          life_refl c,
          ((λ j. find-modify j k f c.streams), modify-Sound k f c.streams fit),
        )
        (refl, refl, refl) refl

  pub tick_clock-Move : (c : Connection P) → Move c (tick_clock c)
  unfolding tick_clock
  tick_clock-Move c = quiet (omega arith, life_refl c, keeps_refl c.streams) (refl, refl, refl) refl

  pub open_stream_entry-Moves : (c : Connection P) (k : ℕ) → Moves c (open_stream_entry c k)
  unfolding open_stream_entry
  open_stream_entry-Moves c k = elim (Option-cases (find k c.streams)) [
    | inl e ↦
        rw (e, open_stream_entry)
          (one (
            quiet
              (
                omega arith,
                life_refl c,
                ((λ j. find-snoc j k (stream_entry_alloc k) c.streams), snoc-Sound k c.streams e),
              )
              (refl, refl, refl) refl))
    | inr (d, e) ↦ rw (e, open_stream_entry) here
  ]

  -- A stream event that is pushed with no flag changed.
  pub push_event-Move :
      (c : Connection P) (t stream_id error_code : ℕ) (by_peer : Bool) (reason : Option Bytes)
      → IsStreamType t
      → Move c (push_event c t stream_id error_code by_peer reason)
  unfolding push_event
  push_event-Move c t stream_id error_code by_peer reason h =
      emit _ (omega arith, life_refl c, keeps_refl c.streams)
        (record {
          events = refl;
          time = refl;
          reads = omega arith;
          announces = of_stream h (refl, refl, refl);
        })
