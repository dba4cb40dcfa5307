-- ===== src/Connection/Transmit/Accounting.antt =====
-- The outgoing data of a stream of src/connection.c, and its FIN.
use ext_ngtcp.Prelude.{
  drop_of_length_le, ℕ, zero, suc, ◌+◌, ◌≤◌, ◌<◌, ◌≡◌, refl, sym, ap, ◌∙◌, Bool, not, ◌&&◌, ◌||◌,
  List, [], ◌∷◌, ◌++◌, append-nil, append_assoc, arith, Bytes, length, take, drop, ◌==◌,
  if◌then◌else◌, i64_min, positive64, length-append, length-drop, take-append-drop,
}
use ext_ngtcp.Buffer.{contents, append}
use ext_ngtcp.Stream.{buffered}
use ext_ngtcp.Buffer.Pipe.{contents-append}
use ext_ngtcp.Connection.State.{StreamEntry}
use ext_ngtcp.Connection.Transmit.{tx_len, clamp_offset, account}

-- The bytes of a stream that libngtcp2 has not taken yet.
abbrev pub unsent : StreamEntry → Bytes
unsent e = drop e.tx_offset (contents e.tx_buffer)

-- How many bytes an ngtcp2_ssize at pdatalen says were taken: none if it is not positive.
abbrev pub taken : ℕ → ℕ
taken wdatalen = if positive64 wdatalen then wdatalen else 0

module _ {ℓ} {A : Type ℓ} where
  drop-drop : (m n k : ℕ) (xs : List A) → m + n ≡ k → drop n (drop m xs) ≡ drop k xs
  drop-drop zero n k xs e = let e' : n ≡ k = omega arith in rw e'
  drop-drop (suc m) n zero xs e = absurd (omega arith)
  drop-drop (suc m) n (suc k) [] e = drop_of_length_le n [] (omega arith)
  drop-drop (suc m) n (suc k) (x ∷ xs) e = drop-drop m n k xs (omega arith)

  drop-append : (n : ℕ) (xs ys : List A) → n ≤ length xs → drop n (xs ++ ys) ≡ drop n xs ++ ys
  drop-append zero xs ys h = refl
  drop-append (suc n) [] ys h = absurd (omega arith)
  drop-append (suc n) (x ∷ xs) ys h = drop-append n xs ys (omega arith)

-- The offset lies in the buffer, and the buffer is no longer than an allocation can be.
pub record InBuffer (e : StreamEntry) : Type 0 where
  pub offset : e.tx_offset ≤ tx_len e
  pub allocated : tx_len e < i64_min

module _ (e : StreamEntry) (h : InBuffer e) (w : ℕ) (fin emitted : Bool) where
  account-unsent : unsent (account w fin emitted e) ≡ drop (taken w) (unsent e)
  unfolding account clamp_offset contents
  account-unsent = ground (
    arith,
    h.offset,
    h.allocated,
    drop-drop e.tx_offset w (e.tx_offset + w) (contents e.tx_buffer) refl,
    drop_of_length_le (e.tx_offset + w) (contents e.tx_buffer),
    drop_of_length_le (tx_len e) (contents e.tx_buffer),
  )

  account-InBuffer : InBuffer (account w fin emitted e)
  unfolding account clamp_offset contents
  account-InBuffer = ground (arith, h.offset, h.allocated)

  account-tx_len : tx_len (account w fin emitted e) ≤ tx_len e
  unfolding account clamp_offset contents
  account-tx_len = ground (arith, h.offset, h.allocated)

  -- FIN counts as sent when it was attempted, a packet came out, and nothing is left to send; until
  -- then it stays pending.
  pub account_fin :
      let e' = account w fin emitted e in
      let out = fin && emitted && e.fin_pending && length (unsent e') == 0 in
      (e'.fin_sent ≡ (e.fin_sent || out)) × (e'.fin_pending ≡ (e.fin_pending && not out))
  unfolding account clamp_offset contents
  account_fin = (
    ground (
      arith,
      h.offset,
      h.allocated,
      length-drop (tx_len e) (contents e.tx_buffer),
      length-drop e.tx_offset (contents e.tx_buffer),
      length-drop (e.tx_offset + w) (contents e.tx_buffer),
    ),
    ground (
      arith,
      h.offset,
      h.allocated,
      length-drop (tx_len e) (contents e.tx_buffer),
      length-drop e.tx_offset (contents e.tx_buffer),
      length-drop (e.tx_offset + w) (contents e.tx_buffer),
    ),
  )

-- What happens to an entry's outgoing data: a write, or a result of libngtcp2 being accounted for.
pub data Traffic : Type 0 where
  written : Bytes → Traffic
  accounted : (wdatalen : ℕ) (fin emitted : Bool) → Traffic

-- The bytes that libngtcp2 took, in order, from what request_of offered it; and the entry then.
pub carry : StreamEntry → List Traffic → Bytes × StreamEntry
carry e [] = ([], e)
carry e (written bytes ∷ traffic) = carry (buffered bytes e) traffic
carry e (accounted w fin emitted ∷ traffic) =
    let rest = carry (account w fin emitted e) traffic in
    (take (taken w) (unsent e) ++ rest.0, rest.1)

unfoldable pub all_written : List Traffic → Bytes
all_written [] = []
all_written (written bytes ∷ traffic) = bytes ++ all_written traffic
all_written (accounted w fin emitted ∷ traffic) = all_written traffic

buffered-unsent :
    (bytes : Bytes) (e : StreamEntry) → InBuffer e → unsent (buffered bytes e) ≡ unsent e ++ bytes
unfolding buffered
buffered-unsent bytes e h =
    ap (drop e.tx_offset) (contents-append e.tx_buffer bytes)
    ∙ drop-append e.tx_offset (contents e.tx_buffer) bytes h.offset

buffered-tx_len :
    (bytes : Bytes) (e : StreamEntry) → tx_len (buffered bytes e) ≡ tx_len e + length bytes
unfolding buffered
buffered-tx_len bytes e =
    ap length (contents-append e.tx_buffer bytes) ∙ length-append (contents e.tx_buffer) bytes

buffered-InBuffer :
    (bytes : Bytes) (e : StreamEntry)
    → InBuffer e
    → tx_len e + length bytes < i64_min
    → InBuffer (buffered bytes e)
unfolding buffered
buffered-InBuffer bytes e h room = record {
  offset = omega (arith, h.offset, buffered_len);
  allocated = omega (arith, buffered_len);
}
  where
    buffered_len : length (contents (append e.tx_buffer bytes)) ≡ tx_len e + length bytes
    buffered_len = buffered-tx_len bytes e

-- However writes and results of libngtcp2 alternate, as long as the buffer fits into memory: the
-- bytes that libngtcp2 took, followed by those that are unsent in the end, are those that were
-- unsent at first, followed by all that was written. So no byte is lost, sent twice or reordered.
pub carry_conserves :
    (e : StreamEntry) (traffic : List Traffic)
    → InBuffer e
    → tx_len e + length (all_written traffic) < i64_min
    → (carry e traffic).0 ++ unsent (carry e traffic).1 ≡ unsent e ++ all_written traffic
unfolding carry all_written
carry_conserves e [] h room = sym (append-nil (unsent e))
carry_conserves e (written bytes ∷ traffic) h room =
    carry_conserves (buffered bytes e) traffic
      (buffered-InBuffer bytes e h (omega (arith, length-append bytes (all_written traffic))))
      (omega (arith, length-append bytes (all_written traffic), buffered-tx_len bytes e))
    ∙ ap (λ xs. xs ++ all_written traffic) (buffered-unsent bytes e h)
    ∙ append_assoc (unsent e) bytes (all_written traffic)
carry_conserves e (accounted w fin emitted ∷ traffic) h room =
    append_assoc (take (taken w) (unsent e)) (carry (account w fin emitted e) traffic).0 _
    ∙ ap (◌++◌ (take (taken w) (unsent e))) (
        carry_conserves (account w fin emitted e) traffic (account-InBuffer e h w fin emitted)
          (omega (arith, account-tx_len e h w fin emitted)))
    ∙ sym (append_assoc (take (taken w) (unsent e)) (unsent (account w fin emitted e)) _)
    ∙ ap (λ xs. (take (taken w) (unsent e) ++ xs) ++ all_written traffic)
        (account-unsent e h w fin emitted)
    ∙ ap (λ xs. xs ++ all_written traffic) (take-append-drop (taken w) (unsent e))
