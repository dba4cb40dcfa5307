-- ===== src/Connection/Loop/Batch.antt =====
-- What one call of drainOutgoingDatagrams of src/connection.c hands out.
use ext_ngtcp.Prelude.{
  ℕ, zero, suc, ◌+◌, ◌≤◌, ◌<◌, ◌≡◌, refl, Bool, true, false, none, some, List, [], ◌∷◌, ◌++◌, arith,
  length, leb, length-append,
}
use ext_ngtcp.Platform.{Platform}
use ext_ngtcp.Exceptions.{returned, thrown}
use ext_ngtcp.Datagram.{Datagram}
use ext_ngtcp.Connection.State.{Connection}
use ext_ngtcp.Connection.Transmit.{outgoing}
use ext_ngtcp.Connection.Loop.{Round, continue, break, emit, throw, round_of, Sent, react, loop}

-- What is returned, if the fuel is enough, is at most 256 datagrams.
abbrev pub Bounded : {P : Platform} → Sent P → Type 0
Bounded none = Unit
Bounded (some (returned ds, d)) = length ds ≤ 256
Bounded (some (thrown x, d)) = Unit

module _ {P : Platform} where
  emit-Bounded :
      (b : Bool) (ds : List Datagram) (d : Connection P) (rest : Sent P)
      → length ds ≤ 256
      → (b ≡ false → Bounded rest)
      → Bounded (elim b [ true ↦ some (returned ds, d) | false ↦ rest ])
  emit-Bounded true ds d rest h k = h
  emit-Bounded false ds d rest h k = k refl

  react-Bounded :
      (again : Connection P → ℕ → Bool → List Datagram → Sent P)
      → ((d : Connection P) (n : ℕ) (b : Bool) (ds : List Datagram)
          → length ds ≡ n
          → n < 256
          → Bounded (again d n b ds))
      → (emitted : ℕ) (acc : List Datagram) (r : Round P) → length acc ≡ emitted
      → emitted < 256
      → Bounded (react again emitted acc r)
  unfolding react
  react-Bounded again h emitted acc (continue force c) e room = h c emitted force acc e room
  react-Bounded again h emitted acc (break c) e room = omega arith
  react-Bounded again h emitted acc (throw x c) e room = tt
  react-Bounded again h emitted acc (emit payload c) e room =
      let acc' = acc ++ outgoing c payload ∷ [] in
      let counted : length acc' ≡ emitted + 1 =
        omega (arith, length-append acc (outgoing c payload ∷ [])) in
      emit-Bounded (leb 256 (emitted + 1)) acc' _ _ (omega (arith, counted))
        (λ more. h c (emitted + 1) false acc' counted (ground arith))

  loop-Bounded :
      (fuel : ℕ) (c : Connection P) (emitted : ℕ) (force : Bool) (acc : List Datagram)
      → length acc ≡ emitted
      → emitted < 256
      → Bounded (loop fuel c emitted force acc)
  unfolding loop
  loop-Bounded zero c emitted force acc e room = tt
  loop-Bounded (suc fuel) c emitted force acc e room =
      react-Bounded (loop fuel) (loop-Bounded fuel) emitted acc (round_of c.conn force c) e room

  -- The bound for the whole loop.
  pub loop_at_most_256 : (fuel : ℕ) (c : Connection P) → Bounded (loop fuel c 0 false [])
  loop_at_most_256 fuel c = loop-Bounded fuel c 0 false [] refl (omega arith)
