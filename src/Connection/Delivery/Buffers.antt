-- ===== src/Connection/Delivery/Buffers.antt =====
-- The receive buffer of a stream in the table of src/connection.c.
use ext_ngtcp.Prelude.{
  ℕ, ◌≡◌, ◌≢◌, refl, sym, ap, ◌∙◌, subst, false, inl, inr, Option, none, some, [], ◌∷◌, ◌++◌,
  append-nil, arith, Bytes, length, ltb, ◌==◌, if◌then◌else◌, if_rule, Bool-cases, Option-cases,
  ==_iff,
}
use ext_ngtcp.Buffer.{contents}
use ext_ngtcp.Buffer.Pipe.{contents-append}
use ext_ngtcp.Connection.State.{StreamEntry, Streams, find, modify, stream_entry_alloc}
use ext_ngtcp.Callbacks.{receive}

-- What stream k has received and nobody has read.
unfoldable pub rx : ℕ → Streams → Bytes
unfolding contents find
rx k streams = elim (find k streams) [ none ↦ [] | some e ↦ contents e.rx_buffer ]

-- A change of an entry that leaves the receive buffer alone.
abbrev pub KeepsRx : (StreamEntry → StreamEntry) → Type 0
KeepsRx f = (e : StreamEntry) → contents (f e).rx_buffer ≡ contents e.rx_buffer

pub rx-modify :
    (k j : ℕ) (f : StreamEntry → StreamEntry) (streams : Streams)
    → KeepsRx f
    → rx k (modify j f streams) ≡ rx k streams
unfolding rx modify find
rx-modify k j f [] keep = refl
rx-modify k j f ((i, e) ∷ streams) keep = ground (arith, rx-modify k j f streams keep, keep e)

pub rx-modify_other :
    (k j : ℕ) (f : StreamEntry → StreamEntry) (streams : Streams)
    → (j == k) ≡ false
    → rx k (modify j f streams) ≡ rx k streams
unfolding rx modify find
rx-modify_other k j f [] apart = refl
rx-modify_other k j f ((i, e) ∷ streams) apart = ground (arith, rx-modify_other k j f streams apart)

pub rx-modify_at :
    (k : ℕ) (f : StreamEntry → StreamEntry) (streams : Streams) (e : StreamEntry)
    → find k streams ≡ some e
    → rx k (modify k f streams) ≡ contents (f e).rx_buffer
unfolding rx modify find
rx-modify_at k f [] e found = cc
rx-modify_at k f ((i, d) ∷ streams) e found = ground (arith, rx-modify_at k f streams e)

pub rx_snoc :
    (k j : ℕ) (streams : Streams) → rx k (streams ++ (j, stream_entry_alloc j) ∷ []) ≡ rx k streams
unfolding rx find stream_entry_alloc
rx_snoc k j [] = ground arith
rx_snoc k j ((i, e) ∷ streams) = ground (arith, rx_snoc k j streams)

pub find_snoc_self :
    (j : ℕ) (e : StreamEntry) (streams : Streams) → find j (streams ++ (j, e) ∷ []) ≢ none
unfolding find
find_snoc_self j e [] gone = ground arith
find_snoc_self j e ((i, d) ∷ streams) gone = ground (arith, find_snoc_self j e streams)

contents-receive :
    (bytes : Bytes) (e : StreamEntry)
    → contents (receive bytes e).rx_buffer ≡ contents e.rx_buffer ++ bytes
contents-receive bytes e =
    if_rule (λ (d : StreamEntry). contents d.rx_buffer ≡ contents e.rx_buffer ++ bytes)
      (ltb 0 (length bytes)) _ _ (λ _. contents-append e.rx_buffer bytes)
      λ none_came.
        let empty : bytes ≡ [] = ground arith in rw empty (sym (append-nil (contents e.rx_buffer)))

pub rx_at :
    (k : ℕ) (streams : Streams) (e : StreamEntry)
    → find k streams ≡ some e
    → rx k streams ≡ contents e.rx_buffer
unfolding rx
rx_at k streams e found =
    ap (λ (o : Option StreamEntry). elim o [ none ↦ [] | some d ↦ contents d.rx_buffer ]) found

rx-receive_at :
    (k : ℕ) (bytes : Bytes) (streams : Streams) (e : StreamEntry)
    → find k streams ≡ some e
    → rx k (modify k (receive bytes) streams) ≡ rx k streams ++ bytes
rx-receive_at k bytes streams e found =
    rx-modify_at k (receive bytes) streams e found
    ∙ contents-receive bytes e
    ∙ ap (λ xs. xs ++ bytes) (sym (rx_at k streams e found))

pub rx-receive :
    (k j : ℕ) (bytes : Bytes) (streams : Streams)
    → find j streams ≢ none
    → rx k (modify j (receive bytes) streams) ≡ rx k streams ++ (if j == k then bytes else [])
unfolding find
rx-receive k j bytes streams there = elim (Bool-cases (j == k)) [
  | inr apart ↦
      rw apart (rx-modify_other k j (receive bytes) streams apart ∙ sym (append-nil (rx k streams)))
  | inl same ↦ elim (Option-cases (find j streams)) [
    | inl gone ↦ absurd (there gone)
    | inr (e, found) ↦
        let eq : j ≡ k = (==_iff j k).0 same in
        rw same (
          subst (λ i. rx k (modify i (receive bytes) streams) ≡ rx k streams ++ bytes) (sym eq)
            (rx-receive_at k bytes streams e (subst (λ i. find i streams ≡ some e) eq found)))
  ]
]
