-- ===== src/Connection/History/Table.antt =====
-- The table of streams of src/connection.c: what every entry satisfies, and the changes that keep
-- it.
use ext_ngtcp.Prelude.{
  ℕ, ◌+◌, ◌≤◌, ◌<◌, ◌≡◌, ◌≢◌, refl, subst, sym, Bool, true, false, Option, none, some, [], ◌∷◌,
  ◌++◌, arith, Bytes, length, ltb, ◌==◌, length-append, if_rule, ltb→lt,
}
use ext_ngtcp.Buffer.{contents, append}
use ext_ngtcp.Buffer
use ext_ngtcp.Buffer.Pipe.{contents-append}
use ext_ngtcp.Connection.State.{StreamEntry, Streams, find, modify, stream_entry_alloc}
use ext_ngtcp.Connection.Transmit.{tx_len, clamp_offset, account, discarded}
use ext_ngtcp.Callbacks.{receive}
use ext_ngtcp.Stream.{take_chunk, ended}

-- An entry at its key: it has the key's id, both buffers are allocated, the send offset lies in the
-- buffer, and where it is said to be readable there are bytes to read.
abbrev pub Entry : ℕ → StreamEntry → Type 0
Entry k e =
    (e.stream_id ≡ k)
    × (e.rx_buffer ≢ none)
    × (e.tx_buffer ≢ none)
    × (e.tx_offset ≤ tx_len e)
    × (e.readable ≡ true → 0 < length (contents e.rx_buffer))

-- No key has two entries, and every entry fits its key.
unfoldable pub Sound : Streams → Type 0
Sound [] = Unit
Sound ((k, e) ∷ streams) = Entry k e × (find k streams ≡ none) × Sound streams

abbrev pub Fits : (StreamEntry → StreamEntry) → Type 0
Fits f = (k : ℕ) (e : StreamEntry) → Entry k e → Entry k (f e)

modify-none :
    (k j : ℕ) (f : StreamEntry → StreamEntry) (streams : Streams)
    → find k streams ≡ none
    → find k (modify j f streams) ≡ none
unfolding find modify
modify-none k j f [] h = refl
modify-none k j f ((i, e) ∷ streams) h = ground (arith, modify-none k j f streams)

-- A change that fits the entry at its key.
abbrev pub FitsAt : ℕ → (StreamEntry → StreamEntry) → Streams → Type 0
FitsAt k f streams = (e : StreamEntry) → find k streams ≡ some e → Entry k e → Entry k (f e)

pub modify-Sound :
    (j : ℕ) (f : StreamEntry → StreamEntry) (streams : Streams)
    → FitsAt j f streams
    → Sound streams
    → Sound (modify j f streams)
unfolding Sound modify find
modify-Sound j f [] fit h = tt
modify-Sound j f ((i, e) ∷ streams) fit h =
    if_rule Sound (i == j) _ _
      (λ same.
        let eq : j ≡ i = ground arith in
        let found : find j ((i, e) ∷ streams) ≡ some e = ground arith in
        (
          subst (λ k. Entry k (f e)) eq (fit e found (subst (λ k. Entry k e) (sym eq) h.0)),
          h.1,
          h.2,
        ))
      λ other. (
        h.0,
        modify-none i j f streams h.1,
        modify-Sound j f streams (λ d found. fit d (ground (arith, found))) h.2,
      )

find_snoc_none :
    (j k : ℕ) (e : StreamEntry) (streams : Streams)
    → find j streams ≡ none
    → (k == j) ≡ false
    → find j (streams ++ (k, e) ∷ []) ≡ none
unfolding find
find_snoc_none j k e [] h apart = ground arith
find_snoc_none j k e ((i, d) ∷ streams) h apart = ground (arith, find_snoc_none j k e streams)

pub snoc-Sound :
    (k : ℕ) (streams : Streams)
    → find k streams ≡ none
    → Sound streams
    → Sound (streams ++ (k, stream_entry_alloc k) ∷ [])
unfolding Sound stream_entry_alloc contents find
snoc-Sound k [] free h = ((refl, (λ e. cc), (λ e. cc), omega arith, λ r. cc), refl, tt)
snoc-Sound k ((i, e) ∷ streams) free h =
    let apart : (k == i) ≡ false = ground arith in
    let free' : find k streams ≡ none = ground arith in
    (
      h.0,
      find_snoc_none i k (stream_entry_alloc k) streams h.1 apart,
      snoc-Sound k streams free' h.2,
    )

append_some : (b : Option Bytes) (bytes : Bytes) → b ≢ none → append b bytes ≢ none
unfolding append
append_some b bytes h = ground (arith, h)

append_len :
    (b : Option Bytes) (bytes : Bytes)
    → length (contents (append b bytes)) ≡ length (contents b) + length bytes
append_len b bytes = rw (contents-append b bytes, length-append (contents b) bytes)

pub receive-Fits : (bytes : Bytes) → Fits (receive bytes)
receive-Fits bytes k e h =
    if_rule (Entry k) (ltb 0 (length bytes)) _ _
      (λ _. (
        h.0,
        append_some e.rx_buffer bytes h.1,
        h.2,
        h.3,
        λ r. omega (arith, append_len e.rx_buffer bytes, h.4 r),
      ))
      (λ _. h)

read_some : (b : Option Bytes) (n : ℕ) → b ≢ none → (Buffer.read b n).1 ≢ none
unfolding Buffer.read Buffer.read_bytes
read_some none n h = h
read_some (some bytes) n h = ground arith

pub take_chunk-Fits : (n : ℕ) → Fits (take_chunk n)
take_chunk-Fits n k e h = (h.0, read_some e.rx_buffer n h.1, h.2, h.3, λ r. ltb→lt 0 _ r)

pub clamp_offset-Fits : Fits clamp_offset
unfolding clamp_offset
clamp_offset-Fits k e h =
    if_rule (Entry k) (ltb (tx_len e) e.tx_offset) _ _ (λ _. (h.0, h.1, h.2, omega arith, h.4))
      (λ _. h)

pub buffered-Fits :
    (bytes : Bytes)
    → Fits (λ e. record e { tx_buffer = append e.tx_buffer bytes; writable = false })
buffered-Fits bytes k e h = (
  h.0,
  h.1,
  append_some e.tx_buffer bytes h.2,
  omega (arith, append_len e.tx_buffer bytes, h.3),
  h.4,
)

pub ended-Fits : (final_data : Option Bytes) → Fits (ended final_data)
unfolding ended
ended-Fits none k e h = h
ended-Fits (some bytes) k e h = buffered-Fits bytes k e h

pub discarded-Fits : Fits discarded
unfolding discarded contents
discarded-Fits k e h = ground (arith, h)

pub account-Fits : (w : ℕ) (fin emitted : Bool) → Fits (account w fin emitted)
unfolding account clamp_offset contents
account-Fits w fin emitted k e h = ground (arith, h)
