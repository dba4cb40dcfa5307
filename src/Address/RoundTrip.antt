-- ===== src/Address/RoundTrip.antt =====
-- Address::fromString of src/address.c on what "%s:%ld" and "[%s]:%ld" print.
use ext_ngtcp.Prelude.{
  ℕ, zero, suc, ◌+◌, ◌-◌, ◌*◌, ◌/◌, ◌%◌, ◌≤◌, ◌<◌, ◌≡◌, refl, ap, ◌∙◌, true, false, none, some, [],
  ◌∷◌, ◌++◌, Bytes, arith, ltb, ◌==◌, c_string, digits_from, show_ℕ, if_rule, ltb→lt,
}
use ext_ngtcp.Address.Parse.{
  split_at, is_digit, is_space, read_digits, skip_space, sign, starts_with_digit, saturate, strtol,
  parse_port, with_port, parse_bracketed, parse_plain, parse_endpoint, from_string,
}

-- No byte of the text is c.
abbrev pub Without : ℕ → Bytes → Type 0
Without c [] = Unit
Without c (b ∷ bytes) = ((b == c) ≡ false) × Without c bytes

abbrev Digits : Bytes → Type 0
Digits [] = Unit
Digits (b ∷ bytes) = (is_digit b ≡ true) × Digits bytes

Digits-Without : (c : ℕ) (bytes : Bytes) → is_digit c ≡ false → Digits bytes → Without c bytes
unfolding is_digit
Digits-Without c [] h d = tt
Digits-Without c (b ∷ bytes) h d = (ground (arith, d.0), Digits-Without c bytes h d.1)

last_digit : (n : ℕ) → is_digit (48 + n % 10) ≡ true
unfolding is_digit
last_digit n = ground arith

digits_from-Digits : (fuel n : ℕ) (acc : Bytes) → Digits acc → Digits (digits_from fuel n acc)
unfolding digits_from is_digit
digits_from-Digits zero n acc d = d
digits_from-Digits (suc fuel) n acc d =
    let front : is_digit (48 + n % 10) ≡ true = ground arith in
    if_rule Digits (ltb n 10) _ _ (λ _. (front, d))
      (λ _. digits_from-Digits fuel (n / 10) ((48 + n % 10) ∷ acc) (front, d))

smaller : (n fuel : ℕ) → ltb n 10 ≡ false → n < suc fuel → n / 10 < fuel
smaller n fuel large h = ground arith

read_digit :
    (v n : ℕ) (acc : Bytes)
    → read_digits v ((48 + n % 10) ∷ acc) ≡ read_digits (v * 10 + n % 10) acc
unfolding read_digits
read_digit v n acc =
    let digit : is_digit (48 + n % 10) ≡ true = last_digit n in
    let value : v * 10 + (48 + n % 10 - 48) ≡ v * 10 + n % 10 = omega arith in rw (digit, value)

-- Reading the printed digits gives the number, whatever digits come behind them.
read_digits-digits_from :
    (fuel n : ℕ) (acc : Bytes)
    → n < fuel
    → read_digits 0 (digits_from fuel n acc) ≡ read_digits n acc
unfolding digits_from read_digits is_digit
read_digits-digits_from zero n acc h = absurd (omega arith)
read_digits-digits_from (suc fuel) n acc h =
    if_rule (λ bytes. read_digits 0 bytes ≡ read_digits n acc) (ltb n 10) _ _
      (λ small.
        read_digit 0 n acc ∙ ap (λ v. read_digits v acc) (let e = ltb→lt n 10 small in omega arith))
      (λ large.
        read_digits-digits_from fuel (n / 10) ((48 + n % 10) ∷ acc) (smaller n fuel large h)
        ∙ read_digit (n / 10) n acc
        ∙ ap (λ v. read_digits v acc) (omega arith))

starts-digits_from :
    (fuel n : ℕ) (acc : Bytes)
    → starts_with_digit acc ≡ true
    → starts_with_digit (digits_from fuel n acc) ≡ true
unfolding digits_from starts_with_digit is_digit
starts-digits_from zero n acc h = h
starts-digits_from (suc fuel) n acc h =
    if_rule (λ bytes. starts_with_digit bytes ≡ true) (ltb n 10) _ _ (λ _. ground arith)
      (λ _. starts-digits_from fuel (n / 10) ((48 + n % 10) ∷ acc) (ground arith))

split_at-append :
    (c : ℕ) (before behind : Bytes)
    → Without c before
    → split_at c (before ++ c ∷ behind) ≡ some (before, behind)
unfolding split_at
split_at-append c [] behind h = ground arith
split_at-append c (b ∷ before) behind h = ground (arith, h.0, split_at-append c before behind h.1)

split_at-none : (c : ℕ) (bytes : Bytes) → Without c bytes → split_at c bytes ≡ none
unfolding split_at
split_at-none c [] h = refl
split_at-none c (b ∷ bytes) h = ground (arith, h.0, split_at-none c bytes h.1)

pub c_string-Without : (bytes : Bytes) → Without 0 bytes → c_string bytes ≡ bytes
unfolding c_string
c_string-Without [] h = refl
c_string-Without (b ∷ bytes) h = ground (arith, h.0, c_string-Without bytes h.1)

Without-append : (c : ℕ) (xs ys : Bytes) → Without c xs → Without c ys → Without c (xs ++ ys)
Without-append c [] ys h k = k
Without-append c (x ∷ xs) ys h k = (h.0, Without-append c xs ys h.1 k)

show-Digits : (n : ℕ) → Digits (show_ℕ n)
unfolding show_ℕ
show-Digits n = digits_from-Digits (suc n) n [] tt

show_starts : (n : ℕ) → starts_with_digit (show_ℕ n) ≡ true
unfolding show_ℕ digits_from starts_with_digit
show_starts n =
    if_rule (λ bytes. starts_with_digit bytes ≡ true) (ltb n 10) _ _ (λ _. last_digit n)
      (λ _. starts-digits_from n (n / 10) ((48 + n % 10) ∷ []) (last_digit n))

pub show_value : (n : ℕ) → read_digits 0 (show_ℕ n) ≡ (n, [])
unfolding show_ℕ read_digits
show_value n = read_digits-digits_from (suc n) n [] (omega arith)

-- A text that starts with a digit has no space and no sign to skip.
sign-digits :
    (bytes : Bytes) → starts_with_digit bytes ≡ true → sign (skip_space bytes) ≡ (false, bytes)
unfolding starts_with_digit sign skip_space is_digit is_space
sign-digits [] h = cc
sign-digits (b ∷ bytes) h = ground arith

saturate_small : (n : ℕ) → n ≤ 65535 → saturate false n ≡ n
unfolding saturate
saturate_small n h = ground arith

strtol_of :
    (bytes : Bytes) (n : ℕ)
    → starts_with_digit bytes ≡ true
    → read_digits 0 bytes ≡ (n, [])
    → n ≤ 65535
    → strtol bytes ≡ some (false, n, [])
unfolding strtol
strtol_of bytes n starts reads h =
    let exact : saturate false n ≡ n = saturate_small n h in
    rw (sign-digits bytes starts, strtol) (rw (starts, reads, exact))

parse_port_of :
    (bytes : Bytes) (n : ℕ)
    → starts_with_digit bytes ≡ true
    → read_digits 0 bytes ≡ (n, [])
    → n ≤ 65535
    → parse_port bytes ≡ some n
unfolding parse_port starts_with_digit
parse_port_of [] n starts reads h = cc
parse_port_of (b ∷ bytes) n starts reads h =
    rw (strtol_of (b ∷ bytes) n starts reads h, parse_port) (ground arith)

parse_port-show : (port : ℕ) → port ≤ 65535 → parse_port (show_ℕ port) ≡ some port
parse_port-show port h = parse_port_of (show_ℕ port) port (show_starts port) (show_value port) h

with_port-show :
    (host : Bytes) (port : ℕ) → port ≤ 65535 → with_port host (show_ℕ port) ≡ some (host, port)
unfolding with_port
with_port-show host port h = rw (parse_port-show port h, with_port)

-- The printed port has no byte of another kind than digits.
pub show-Without : (c port : ℕ) → is_digit c ≡ false → Without c (show_ℕ port)
show-Without c port h = Digits-Without c (show_ℕ port) h (show-Digits port)

no_nul : (port : ℕ) → Without 0 (show_ℕ port)
unfolding is_digit
no_nul port = show-Without 0 port refl

no_colon : (port : ℕ) → Without b':' (show_ℕ port)
unfolding is_digit
no_colon port = show-Without b':' port refl

parse_plain-show :
    (h : ℕ) (host : Bytes) (port : ℕ)
    → port ≤ 65535
    → parse_plain (some (h ∷ host, show_ℕ port)) ≡ some (h ∷ host, port)
unfolding parse_plain
parse_plain-show h host port small =
    rw (split_at-none b':' (show_ℕ port) (no_colon port), parse_plain)
      (with_port-show (h ∷ host) port small)

parse_bracketed-show :
    (h : ℕ) (host : Bytes) (port : ℕ)
    → port ≤ 65535
    → parse_bracketed (some (h ∷ host, b':' ∷ show_ℕ port)) ≡ some (h ∷ host, port)
unfolding parse_bracketed
parse_bracketed-show h host port small = with_port-show (h ∷ host) port small

parse_endpoint-plain :
    (h : ℕ) (host : Bytes) (port : ℕ)
    → port ≤ 65535
    → Without 0 (h ∷ host)
    → (h == b'[') ≡ false
    → Without b':' (h ∷ host)
    → parse_endpoint ((h ∷ host) ++ b':' ∷ show_ℕ port) ≡ some (h ∷ host, port)
unfolding parse_endpoint
parse_endpoint-plain h host port small text plain single =
    let whole : Without 0 ((h ∷ host) ++ b':' ∷ show_ℕ port) =
      Without-append 0 (h ∷ host) (b':' ∷ show_ℕ port) text (refl, no_nul port) in
    rw plain (
      ap (λ bytes. parse_plain (split_at b':' bytes)) (c_string-Without _ whole)
      ∙ ap parse_plain (split_at-append b':' (h ∷ host) (show_ℕ port) single)
      ∙ parse_plain-show h host port small)

parse_endpoint-bracketed :
    (h : ℕ) (host : Bytes) (port : ℕ)
    → port ≤ 65535
    → Without 0 (h ∷ host)
    → Without b']' (h ∷ host)
    → parse_endpoint (b'[' ∷ (h ∷ host) ++ b']' ∷ b':' ∷ show_ℕ port) ≡ some (h ∷ host, port)
unfolding parse_endpoint
parse_endpoint-bracketed h host port small text single =
    let whole : Without 0 ((h ∷ host) ++ b']' ∷ b':' ∷ show_ℕ port) =
      Without-append 0 (h ∷ host) (b']' ∷ b':' ∷ show_ℕ port) text (refl, (refl, no_nul port)) in
    ap (λ bytes. parse_bracketed (split_at b']' bytes)) (c_string-Without _ whole)
    ∙ ap parse_bracketed (split_at-append b']' (h ∷ host) (b':' ∷ show_ℕ port) single)
    ∙ parse_bracketed-show h host port small

-- For every port up to 65535: "host:port" is read as that host and that port, if the host is not
-- empty, has no colon and no NUL, and does not start with an opening bracket; and "[host]:port" is,
-- if the host is not empty and has no closing bracket and no NUL.
pub from_string-print :
    (h : ℕ) (host : Bytes) (port : ℕ)
    → port ≤ 65535
    → Without 0 (h ∷ host)
    → ((h == b'[') ≡ false
        → Without b':' (h ∷ host)
        → from_string ((h ∷ host) ++ b':' ∷ show_ℕ port)
          ≡ some (record { host = h ∷ host; port = port }))
      × (Without b']' (h ∷ host)
          → from_string (b'[' ∷ (h ∷ host) ++ b']' ∷ b':' ∷ show_ℕ port)
            ≡ some (record { host = h ∷ host; port = port }))
unfolding from_string
from_string-print h host port small text = (
  (λ plain single. rw (parse_endpoint-plain h host port small text plain single, from_string)),
  (λ single. rw (parse_endpoint-bracketed h host port small text single, from_string)),
)
