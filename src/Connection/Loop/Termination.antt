-- ===== src/Connection/Loop/Termination.antt =====
-- The end of the transmission loop of src/connection.c.
use ext_ngtcp.Prelude.{
  ℕ, zero, suc, ◌+◌, ◌<◌, ◌≡◌, refl, Bool, true, false, some, List, Bytes, [], ◌∷◌, ◌++◌, arith,
  leb, Bool-cases, inl, inr, ◌⊎◌, ◌≤◌,
}
use ext_ngtcp.Platform.{Platform}
use ext_ngtcp.Exceptions.{Result, returned, thrown}
use ext_ngtcp.Datagram.{Datagram}
use ext_ngtcp.Connection.State.{Connection, sync_state}
use ext_ngtcp.Connection.Transmit.{outgoing}
use ext_ngtcp.Connection.Loop.{Round, continue, break, emit, throw, round_of, react, loop}
use ext_ngtcp.Connection.Loop.Busy.{busy}
use ext_ngtcp.Connection.Loop.Rounds.{round_of-Falls, round_of-Stops}
use ext_ngtcp.Connection.Loop.Answers.{IsDocumented, room_of, Falls, Stops, Moves-Sound}
use ext_ngtcp.Connection.History.Table.{Sound}
use ext_ngtcp.Connection.History.Transmission.{Leads, round_of-Leads}

-- With some fuel there is a result.
abbrev pub Finishes : {P : Platform} → Connection P → ℕ → Bool → List Datagram → Type 0
Finishes {P} c n force acc =
    (fuel : ℕ) × (r : Result (List Datagram) × Connection P) × (loop fuel c n force acc ≡ some r)

-- What happens after a round has a result with some fuel.
abbrev Settles : {P : Platform} → ℕ → List Datagram → Round P → Type 0
Settles {P} n acc r =
    (fuel : ℕ) × (s : Result (List Datagram) × Connection P) × (react (loop fuel) n acc r ≡ some s)

-- After a further datagram the loop finishes.
abbrev Later : Platform → ℕ → Type 0
Later P n =
    (d : Connection P) (acc : List Datagram)
    → Sound d.streams
    → n + 1 < 256
    → Finishes d (n + 1) false acc

module _ {P : Platform} where
  one_more :
      (c : Connection P) (n : ℕ) (force : Bool) (acc : List Datagram)
      → Settles n acc (round_of c.conn force c)
      → Finishes c n force acc
  unfolding loop
  one_more c n force acc s = (suc s.0, s.1, s.2)

  -- After a datagram there is room for another, or the loop is left.
  emitted-Settles :
      (n : ℕ) (acc : List Datagram) (payload : Bytes) (c : Connection P)
      → ((acc' : List Datagram) → n + 1 < 256 → Finishes c (n + 1) false acc')
      → Settles n acc (emit payload c)
  unfolding react
  emitted-Settles n acc payload c later = elim (Bool-cases (leb 256 (n + 1))) [
    | inl full ↦ (zero, (returned (acc ++ outgoing c payload ∷ []), sync_state c), rw (full, react))
    | inr room ↦
        let more = later (acc ++ outgoing c payload ∷ []) (ground arith) in
        (more.0, more.1, rw (room, react) more.2)
  ]

  Stops-Settles :
      (n : ℕ) (acc : List Datagram) (c : Connection P) (r : Round P)
      → Leads c r
      → Sound c.streams
      → Stops r
      → Later P n
      → Settles n acc r
  unfolding react
  Stops-Settles n acc c (continue force d) m sound s later = absurd s
  Stops-Settles n acc c (break d) m sound s later = (zero, (returned acc, sync_state d), refl)
  Stops-Settles n acc c (throw x d) m sound s later = (zero, (thrown x, d), refl)
  Stops-Settles n acc c (emit payload d) m sound s later =
      emitted-Settles n acc payload d λ acc' room. later d acc' (Moves-Sound m sound) room

module _ {P : Platform} (lib : IsDocumented P) where
  forced-Finishes :
      (n : ℕ) (acc : List Datagram) (c : Connection P)
      → Sound c.streams
      → Later P n
      → Finishes c n true acc
  forced-Finishes n acc c sound later = one_more c n true acc (
      Stops-Settles n acc c (round_of c.conn true c) (round_of-Leads c.conn true c) sound
        (round_of-Stops lib c.conn c) later)

  -- `again` is the loop with less room, or with no more room and fewer streams that have output.
  Falls-Settles :
      (n : ℕ) (acc : List Datagram) (c : Connection P) (a b : ℕ) (r : Round P)
      → Leads c r
      → Sound c.streams
      → Falls lib.room a b r
      → Later P n
      → ((d : Connection P)
          → Sound d.streams
          → (room_of lib.room d.conn < a) ⊎ ((room_of lib.room d.conn ≤ a) × (busy d.streams < b))
          → Finishes d n false acc)
      → Settles n acc r
  unfolding react
  Falls-Settles n acc c a b (continue true d) m sound f later again =
      forced-Finishes n acc d (Moves-Sound m sound) later
  Falls-Settles n acc c a b (continue false d) m sound f later again =
      again d (Moves-Sound m sound) f
  Falls-Settles n acc c a b (break d) m sound f later again =
      Stops-Settles n acc c (break d) m sound tt later
  Falls-Settles n acc c a b (throw x d) m sound f later again =
      Stops-Settles n acc c (throw x d) m sound tt later
  Falls-Settles n acc c a b (emit payload d) m sound f later again =
      Stops-Settles n acc c (emit payload d) m sound tt later

  -- Until the next datagram, by the room in the packet and then by the number of streams with
  -- output.
  phase-Finishes :
      (a b n : ℕ) (acc : List Datagram) (c : Connection P)
      → Sound c.streams
      → room_of lib.room c.conn < a
      → busy c.streams < b
      → Later P n
      → Finishes c n false acc
  phase-Finishes zero b n acc c sound within low later = absurd (omega arith)
  phase-Finishes (suc a) zero n acc c sound within low later = absurd (omega arith)
  phase-Finishes (suc a) (suc b) n acc c sound within low later = one_more c n false acc (
      Falls-Settles n acc c (room_of lib.room c.conn) (busy c.streams) (round_of c.conn false c)
        (round_of-Leads c.conn false c) sound (round_of-Falls lib c.conn c sound) later
        λ d sound' fallen. elim fallen [
          | inl less ↦
              phase-Finishes a (suc (busy d.streams)) n acc d sound' (omega (arith, less, within))
                (omega arith) later
          | inr both ↦
              phase-Finishes (suc a) b n acc d sound' (omega (arith, both.0, within))
                (omega (arith, both.1, low)) later
        ])

  -- By the number of datagrams that are left.
  batch-Finishes :
      (left n : ℕ) (acc : List Datagram) (c : Connection P)
      → Sound c.streams
      → n + left ≡ 256
      → Finishes c n false acc
  batch-Finishes zero n acc c sound e =
      phase-Finishes (suc (room_of lib.room c.conn)) (suc (busy c.streams)) n acc c sound
        (omega arith) (omega arith) λ d acc' sound' room. absurd (omega (arith, room, e))
  batch-Finishes (suc left) n acc c sound e =
      phase-Finishes (suc (room_of lib.room c.conn)) (suc (busy c.streams)) n acc c sound
        (omega arith) (omega arith)
        λ d acc' sound' room. batch-Finishes left (n + 1) acc' d sound' (omega (arith, e))

  -- On a library that leaves less room in the packet with each NGTCP2_ERR_WRITE_MORE, and that
  -- answers NGTCP2_ERR_WRITE_MORE and NGTCP2_ERR_STREAM_SHUT_WR only to calls with a stream, and a
  -- sound table of streams: the loop of drainOutgoingDatagrams comes to an end, with a list of
  -- datagrams or an exception.
  pub loop-Finishes : (c : Connection P) → Sound c.streams → Finishes c 0 false []
  loop-Finishes c sound = batch-Finishes 256 0 [] c sound refl
