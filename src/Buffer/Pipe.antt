-- ===== src/Buffer/Pipe.antt =====
-- A buffer of src/buffer.c as a pipe of bytes.
use ext_ngtcp.Prelude.{
  drop_of_length_le, ℕ, zero, suc, ◌-◌, ◌≤◌, ◌≡◌, refl, sym, ap, ◌∙◌, subst, Option, none, some,
  List, [], ◌∷◌, ◌++◌, append-nil, append_assoc, arith, Bytes, length, take, drop, take_all,
  length-drop, take-append_left, take-append-drop,
}
use ext_ngtcp.Buffer.{contents, append, memmove, read_bytes, read}

pub contents-append :
    (b : Option Bytes) (bytes : Bytes) → contents (append b bytes) ≡ contents b ++ bytes
unfolding contents append
contents-append b [] = sym (append-nil (contents b))
contents-append b (x ∷ bytes) = ground arith

-- The in-place move and the truncation leave exactly the bytes that were not read.
memmove_suffix :
    (n : ℕ) (bytes : Bytes)
    → take (length bytes - n) (memmove bytes n (length bytes - n)) ≡ drop n bytes
memmove_suffix n bytes =
    let whole : take (length bytes - n) (drop n bytes) ≡ drop n bytes =
      subst (λ k. take k (drop n bytes) ≡ drop n bytes) (length-drop n bytes)
        (take_all (drop n bytes)) in
    subst (λ xs. take (length bytes - n) (xs ++ drop (length bytes - n) bytes) ≡ drop n bytes)
      (sym whole) (take-append_left (length bytes - n) (drop n bytes) _ (length-drop n bytes))

module _ {ℓ} {A : Type ℓ} where
  take_of_length_le : (n : ℕ) (xs : List A) → length xs ≤ n → take n xs ≡ xs
  take_of_length_le zero [] h = refl
  take_of_length_le zero (x ∷ xs) h = absurd (omega arith)
  take_of_length_le (suc n) [] h = refl
  take_of_length_le (suc n) (x ∷ xs) h = ap (◌∷◌ x) (take_of_length_le n xs (omega arith))

abbrev Reads : ℕ → Bytes → Bytes × Option Bytes → Type 0
Reads n bytes r = (r.0 ≡ take n bytes) × (contents r.1 ≡ drop n bytes)

read_bytes-Reads : (bytes : Bytes) (n : ℕ) → Reads n bytes (read_bytes bytes n)
unfolding contents read_bytes
read_bytes-Reads bytes n = ground (
  arith,
  memmove_suffix n bytes,
  take_all bytes,
  take_of_length_le n bytes,
  drop_of_length_le n bytes,
)

-- What php_quic_buffer_read returns and leaves, for every buffer and every size asked for: the
-- first max_len bytes of the buffer, or all of them if there are fewer, and the bytes after those.
pub read_lem :
    (b : Option Bytes) (n : ℕ)
    → ((read b n).0 ≡ take n (contents b)) × (contents (read b n).1 ≡ drop n (contents b))
unfolding contents read
read_lem none n =
    (sym (take_of_length_le n [] (omega arith)), sym (drop_of_length_le n [] (omega arith)))
read_lem (some []) n =
    (sym (take_of_length_le n [] (omega arith)), sym (drop_of_length_le n [] (omega arith)))
read_lem (some (x ∷ bytes)) zero = ground arith
read_lem (some (x ∷ bytes)) (suc n) = ground (arith, read_bytes-Reads (x ∷ bytes) (suc n))

-- A use of the buffer: bytes arrive, or at most so many are asked for.
pub data Use : Type 0 where
  arrive : Bytes → Use
  ask : ℕ → Use

-- The buffer after a sequence of uses, and all the bytes that reads returned, in order.
pub run : Option Bytes → List Use → Bytes × Option Bytes
run b [] = ([], b)
run b (arrive bytes ∷ uses) = run (append b bytes) uses
run b (ask n ∷ uses) = let rest = run (read b n).1 uses in ((read b n).0 ++ rest.0, rest.1)

pub arrived : List Use → Bytes
arrived [] = []
arrived (arrive bytes ∷ uses) = bytes ++ arrived uses
arrived (ask n ∷ uses) = arrived uses

split_read : (b : Option Bytes) (n : ℕ) → (read b n).0 ++ contents (read b n).1 ≡ contents b
split_read b n =
    ap (λ c. c ++ contents (read b n).1) (read_lem b n).0
    ∙ ap (◌++◌ (take n (contents b))) (read_lem b n).1
    ∙ take-append-drop n (contents b)

-- However appends and reads of any sizes alternate, no byte is lost, made up or reordered: what the
-- reads returned, followed by what the buffer holds in the end, is what it held at first, followed
-- by what arrived.
pub run_conserves :
    (b : Option Bytes) (uses : List Use)
    → (run b uses).0 ++ contents (run b uses).1 ≡ contents b ++ arrived uses
unfolding run arrived
run_conserves b [] = sym (append-nil (contents b))
run_conserves b (arrive bytes ∷ uses) =
    run_conserves (append b bytes) uses
    ∙ ap (λ c. c ++ arrived uses) (contents-append b bytes)
    ∙ append_assoc (contents b) bytes (arrived uses)
run_conserves b (ask n ∷ uses) =
    append_assoc (read b n).0 (run (read b n).1 uses).0 _
    ∙ ap (◌++◌ (read b n).0) (run_conserves (read b n).1 uses)
    ∙ sym (append_assoc (read b n).0 (contents (read b n).1) (arrived uses))
    ∙ ap (λ c. c ++ arrived uses) (split_read b n)
