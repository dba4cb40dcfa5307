-- ===== src/Connection/Delivery/Session.antt =====
-- Stream data from libngtcp2 to the application, over every sequence of calls (src/callbacks.c,
-- src/buffer.c, src/connection.c, src/stream.c).
use ext_ngtcp.Prelude.{
  ℕ, ◌≡◌, refl, sym, ap, ◌∙◌, subst, Bool, true, false, not, inl, inr, Option, List, [], ◌++◌,
  append-nil, append_assoc, Bytes, length, take-append-drop, ◌==◌, ==_iff, if◌then◌else◌,
  positive64, if_rule, option_rule, Bool-cases,
}
use ext_ngtcp.Queue.{Event}
use ext_ngtcp.Platform.{Platform}
use ext_ngtcp.Address.{Address}
use ext_ngtcp.Buffer.{contents}
use ext_ngtcp.Buffer
use ext_ngtcp.Buffer.Pipe.{read_lem}
use ext_ngtcp.Config.Client.{ClientConfig}
use ext_ngtcp.Config.Server.{ServerConfig}
use ext_ngtcp.Datagram.{Datagram}
use ext_ngtcp.Exceptions.{Result, returned, thrown}
use ext_ngtcp.Connection.State.{
  Connection, create_object, get_stream_entry, find, modify, modify_entry,
}
use ext_ngtcp.Connection.Setup.{construct}
use ext_ngtcp.Connection.Accept.Inputs.{Surroundings}
use ext_ngtcp.Connection.Accept.{Left, accept}
use ext_ngtcp.Connection.Methods.{drain_events}
use ext_ngtcp.Connection.Timers.{get_next_timeout, get_next_expiry}
use ext_ngtcp.Stream
use ext_ngtcp.Connection.History.Reach.{Step}
use ext_ngtcp.Connection.Delivery.Library.{IsRecorded}
use ext_ngtcp.Connection.Delivery.Buffers.{rx, rx_at, rx-modify_at, rx-modify_other}
use ext_ngtcp.Connection.Delivery.Tails.{next_timeout_ms-Stills, close-Still}
use ext_ngtcp.Connection.Delivery.Feeds.{seen, Feeds, Still-Feeds}
use ext_ngtcp.Connection.Delivery.Loop.{FeedsSent}
use ext_ngtcp.Connection.Delivery.Methods.{
  recv-FeedsTo, handle_timers-FeedsTo, drain_outgoing_datagrams-FeedsSent, open_stream-FeedsTo,
  open_uni_stream-FeedsTo, write-FeedsTo, end-FeedsTo, reset-FeedsTo,
}
use ext_ngtcp.Connection.Delivery.Starts.{construct-Blanks, Fresh, accept-Fresh}

abbrev bytes_of : Result Bytes → Bytes
bytes_of (returned bytes) = bytes
bytes_of (thrown x) = []

-- What a call hands to the application of stream k.
abbrev pub read_by : {P : Platform} {c d : Connection P} {es : List Event} → ℕ → Step c es d → Bytes
read_by {c = c} k (Step.read j n) = if j == k then bytes_of (Stream.read j n c).0 else []
read_by k s = []

-- A call that sets a connection up, and so may replace the library's handle.
abbrev pub sets_up : {P : Platform} {c d : Connection P} {es : List Event} → Step c es d → Bool
sets_up (Step.constructs remote config dcid scid) = true
sets_up (Step.accepted zero_addr s initial config d left created e) = true
sets_up s = false

-- The connections after a set-up and any further calls, with what Stream::read has returned of
-- stream k so far.
pub data Session {P : Platform} (k : ℕ) : Bytes → Connection P → Type 0 where
  client :
      (zero_addr : P.Sockaddr) (remote : Address) (config : Option ClientConfig)
      (dcid scid : Option Bytes)
      → Session k [] (construct remote config dcid scid (create_object P zero_addr)).1
  server :
      (zero_addr : P.Sockaddr) (s : Surroundings) (initial : Datagram) (config : ServerConfig)
      (d : Connection P) (left : Left P)
      → accept P zero_addr s initial config ≡ (returned d, left)
      → Session k [] d
  call :
      {got : Bytes} {es : List Event} {c d : Connection P}
      → Session k got c
      → (s : Step c es d) → sets_up s ≡ false
      → Session k (got ++ read_by k s) d

module _ {P : Platform} (lib : IsRecorded P) (k : ℕ) where
  -- The library has delivered x more; what was in the buffer and x is what was read and is in the
  -- buffer now.
  Passes : Connection P → Bytes → Connection P → Type 0
  Passes c got d =
      (x : Bytes) × (seen lib k d.conn ≡ seen lib k c.conn ++ x)
      × (rx k c.streams ++ x ≡ got ++ rx k d.streams)

  Feeds-Passes : (c d : Connection P) → Feeds lib k c d → Passes c [] d
  unfolding Passes
  Feeds-Passes c d f = (f.0, f.1, sym f.2)

  nothing-Passes : (c : Connection P) → Passes c [] c
  unfolding Passes
  nothing-Passes c = ([], sym (append-nil (seen lib k c.conn)), append-nil (rx k c.streams))

  read-Passes :
      (n : ℕ) (c : Connection P) → Passes c (bytes_of (Stream.read k n c).0) (Stream.read k n c).1
  unfolding Passes Stream.read get_stream_entry modify_entry
  read-Passes n c =
      let Q = λ (r : Result Bytes × Connection P). Passes c (bytes_of r.0) r.1 in
      let same : Passes c [] c = nothing-Passes c in
      if_rule Q (not (positive64 n)) _ _ (λ _. same)
        λ _.
          option_rule Q (find k c.streams) _ _ (λ _. same)
            λ e found.
              if_rule Q (length (contents e.rx_buffer) == 0) _ _ (λ _. same)
                λ _.
                  let chunk = read_lem e.rx_buffer n in
                  let left = rx-modify_at k (Stream.take_chunk n) c.streams e found in
                  let parts : contents e.rx_buffer
                      ≡ (Buffer.read e.rx_buffer n).0
                        ++ rx k (modify k (Stream.take_chunk n) c.streams) =
                    rw (chunk.0, left ∙ chunk.1)
                      (sym (take-append-drop n (contents e.rx_buffer))) in
                  (
                    [],
                    sym (append-nil (seen lib k c.conn)),
                    append-nil (rx k c.streams) ∙ rx_at k c.streams e found ∙ parts,
                  )

  read_other-Passes :
      (j n : ℕ) (c : Connection P) → (j == k) ≡ false → Passes c [] (Stream.read j n c).1
  unfolding Passes Stream.read get_stream_entry modify_entry
  read_other-Passes j n c apart =
      let Q = λ (r : Result Bytes × Connection P). Passes c [] r.1 in
      let same : Passes c [] c = nothing-Passes c in
      if_rule Q (not (positive64 n)) _ _ (λ _. same)
        λ _.
          option_rule Q (find j c.streams) _ _ (λ _. same)
            λ e found.
              if_rule Q (length (contents e.rx_buffer) == 0) _ _ (λ _. same)
                λ _. (
                  [],
                  sym (append-nil (seen lib k c.conn)),
                  append-nil (rx k c.streams)
                      ∙ sym (rx-modify_other k j (Stream.take_chunk n) c.streams apart),
                )

  step-Passes :
      {es : List Event} {c d : Connection P} (s : Step c es d)
      → sets_up s ≡ false
      → Passes c (read_by k s) d
  unfolding drain_events get_next_timeout get_next_expiry
  step-Passes (Step.constructs remote config dcid scid) plain = cc
  step-Passes (Step.accepted zero_addr s initial config d left created e) plain = cc
  step-Passes {c = c} (Step.receive d) plain = Feeds-Passes c _ (recv-FeedsTo lib k d c)
  step-Passes {c = c} Step.timers plain = Feeds-Passes c _ (handle_timers-FeedsTo lib k c)
  step-Passes {c = c} {d = d} Step.timeout plain =
      Feeds-Passes c d (Still-Feeds lib k c d (next_timeout_ms-Stills k c))
  step-Passes {c = c} {d = d} Step.expiry plain =
      Feeds-Passes c d (Still-Feeds lib k c d (next_timeout_ms-Stills k c))
  step-Passes {c = c} {d = d} Step.drain plain =
      Feeds-Passes c d (Still-Feeds lib k c d (refl, refl))
  step-Passes {c = c} (Step.send fuel r d e) plain =
      Feeds-Passes c d
        (subst (FeedsSent lib k c) e (drain_outgoing_datagrams-FeedsSent lib k fuel c))
  step-Passes {c = c} Step.open_bidi plain = Feeds-Passes c _ (open_stream-FeedsTo lib k c)
  step-Passes {c = c} Step.open_uni plain = Feeds-Passes c _ (open_uni_stream-FeedsTo lib k c)
  step-Passes {c = c} {d = d} (Step.closes code reason) plain =
      Feeds-Passes c d (Still-Feeds lib k c d (close-Still k code reason c))
  step-Passes {c = c} (Step.read j n) plain = elim (Bool-cases (j == k)) [
    | inl same ↦ rw same (
        subst (λ i. Passes c (bytes_of (Stream.read i n c).0) (Stream.read i n c).1)
          (sym ((==_iff j k).0 same)) (read-Passes n c))
    | inr apart ↦ rw apart (read_other-Passes j n c apart)
  ]
  step-Passes {c = c} (Step.write j bytes) plain = Feeds-Passes c _ (write-FeedsTo lib k j bytes c)
  step-Passes {c = c} (Step.end j bytes) plain = Feeds-Passes c _ (end-FeedsTo lib k j bytes c)
  step-Passes {c = c} (Step.reset j code) plain = Feeds-Passes c _ (reset-FeedsTo lib k j code c)

  -- On a library whose record of what it delivers is kept as its callbacks say: after a set-up and
  -- any sequence of calls, what Stream::read has returned of stream k, followed by what is in its
  -- receive buffer, is exactly what the library has delivered on the stream, in order.
  pub received_in_order :
      (got : Bytes) (c : Connection P) → Session k got c → seen lib k c.conn ≡ got ++ rx k c.streams
  unfolding Passes seen rx find create_object
  received_in_order got c (Session.client zero_addr remote config dcid scid) =
      let b =
        construct-Blanks lib k remote config dcid scid (create_object P zero_addr) (refl, refl) in
      b.0 ∙ sym b.1
  received_in_order got c (Session.server zero_addr s initial config d left e) =
      subst (Fresh lib k) e (accept-Fresh lib k zero_addr s initial config)
  received_in_order _ d (Session.call {got} {c = c} m s plain) =
      let p = step-Passes s plain in
      p.1
      ∙ ap (λ xs. xs ++ p.0) (received_in_order got c m)
      ∙ append_assoc got (rx k c.streams) p.0
      ∙ ap (λ xs. got ++ xs) p.2
      ∙ sym (append_assoc got (read_by k s) (rx k d.streams))
