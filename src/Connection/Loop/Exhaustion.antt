-- ===== src/Connection/Loop/Exhaustion.antt =====
-- What a whole call of drainOutgoingDatagrams of src/connection.c leaves to send.
use ext_ngtcp.Prelude.{
  Bytes, subst, sym, ℕ, zero, suc, ◌+◌, ◌<◌, ◌≡◌, refl, Bool, true, false, none, some, List, [],
  ◌∷◌, ◌++◌, arith, length, length-append, leb, ◌⊎◌, inl, inr,
}
use ext_ngtcp.Platform.{Platform}
use ext_ngtcp.Exceptions.{Result, returned, thrown}
use ext_ngtcp.Datagram.{Datagram}
use ext_ngtcp.Connection.State.{Connection}
use ext_ngtcp.Connection.Transmit.{first_output, outgoing}
use ext_ngtcp.Connection.Loop.{Round, continue, break, emit, throw, round_of, Sent, react, loop}
use ext_ngtcp.Connection.Loop.Blocked.{Rounds, continued, sent, Blocked, streams-sync_state}
use ext_ngtcp.Connection.Loop.Silence.{Handled, Serves, quiet, round_of-Serves}

-- What is returned is a full batch, or no stream has output any more, or B.
abbrev pub Exhausts : {P : Platform} → Type 0 → Result (List Datagram) × Connection P → Type 0
Exhausts B (returned ds, c) = (length ds ≡ 256) ⊎ ((first_output c.streams ≡ none) ⊎ B)
Exhausts B (thrown x, c) = Unit

abbrev pub Exhausted : {P : Platform} → Type 0 → Sent P → Type 0
Exhausted B none = Unit
Exhausted B (some r) = Exhausts B r

-- After the round r the loop goes on with c and this flag.
abbrev Follows : {P : Platform} → Round P → Connection P → Bool → Type 0
Follows {P} r c force =
    (r ≡ continue force c) ⊎ ((payload : Bytes) × (r ≡ emit payload c) × (force ≡ false))

module _ {P : Platform} where
  emit-Exhausted :
      (B : Type 0) (b : Bool) (ds : List Datagram) (d : Connection P) (rest : Sent P)
      → (b ≡ true → length ds ≡ 256)
      → (b ≡ false → Exhausted B rest)
      → Exhausted B (elim b [ true ↦ some (returned ds, d) | false ↦ rest ])
  emit-Exhausted B true ds d rest h k = inl (h refl)
  emit-Exhausted B false ds d rest h k = k refl

module _ {P : Platform} {B : Type 0} where
  -- A round r, and the rest of the loop from each connection and flag that the round leads to.
  react-Exhausted :
      (again : Connection P → ℕ → Bool → List Datagram → Sent P)
      → (emitted : ℕ) (acc : List Datagram) (r : Round P)
      → ((d : Connection P) (n : ℕ) (force : Bool) (ds : List Datagram)
          → Follows r d force
          → Handled d
          → (force ≡ true → B)
          → length ds ≡ n
          → n < 256
          → Exhausted B (again d n force ds))
      → Serves B r
      → length acc ≡ emitted
      → emitted < 256
      → Exhausted B (react again emitted acc r)
  unfolding react
  react-Exhausted again emitted acc (continue force c) h s e room =
      h c emitted force acc (inl refl) s.1 s.0 e room
  react-Exhausted again emitted acc (break c) h s e room =
      inr (quiet (λ q. rw (streams-sync_state c) q) s)
  react-Exhausted again emitted acc (throw x c) h s e room = tt
  react-Exhausted again emitted acc (emit payload c) h s e room =
      let acc' = acc ++ outgoing c payload ∷ [] in
      let counted : length acc' ≡ emitted + 1 =
        omega (arith, length-append acc (outgoing c payload ∷ [])) in
      emit-Exhausted B (leb 256 (emitted + 1)) acc' _ _ (λ full. ground (arith, counted))
        (λ more.
          h c (emitted + 1) false acc' (inr (payload, refl, refl)) s (λ t. cc) counted
            (ground arith))

module _ {P : Platform} where
  next-Rounds :
      (c d e : Connection P) (f g : Bool)
      → Rounds c d f
      → Follows (round_of d.conn f d) e g
      → Rounds c e g
  next-Rounds c d e f g run (inl same) = continued run same
  next-Rounds c d e f g run (inr (payload, same, off)) =
      subst (Rounds c e) (sym off) (sent run same)

  pub loop-Exhausted :
      (fuel : ℕ) (c d : Connection P) (n : ℕ) (force : Bool) (acc : List Datagram)
      → Rounds c d force
      → Handled d
      → (force ≡ true → Blocked c)
      → length acc ≡ n
      → n < 256
      → Exhausted (Blocked c) (loop fuel d n force acc)
  unfolding loop
  loop-Exhausted zero c d n force acc run h b e room = tt
  loop-Exhausted (suc fuel) c d n force acc run h b e room =
      react-Exhausted (loop fuel) n acc (round_of d.conn force d)
        (λ d' n' force' ds step.
          loop-Exhausted fuel c d' n' force' ds (next-Rounds c d d' force force' run step))
        (round_of-Serves d.conn force d h b (λ conn k entry off there picked stalls.
          (d, conn, k, entry, (subst (Rounds c d) off run, there, picked, stalls))))
        e room
