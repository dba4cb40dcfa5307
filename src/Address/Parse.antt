-- ===== src/Address/Parse.antt =====
-- Address::fromString of src/address.c, with the parts of the C library that it uses on C strings.
use ext_ngtcp.Prelude.{
  ℕ, ◌+◌, ◌-◌, ◌*◌, Bool, true, false, ◌&&◌, ◌||◌, Option, none, some, [], ◌∷◌, Bytes, ltb, leb,
  ◌==◌, if◌then◌else◌, c_string, i64_min,
}
use ext_ngtcp.Address.{Address}

-- strchr: what comes before the first c, and what comes behind it.
unfoldable pub split_at : ℕ → Bytes → Option (Bytes × Bytes)
split_at c [] = none
split_at c (b ∷ bytes) =
    let rest = split_at c bytes in
    if b == c
    then some ([], bytes)
    else elim rest [ none ↦ none | some (before, behind) ↦ some (b ∷ before, behind) ]

unfoldable pub is_digit : ℕ → Bool
is_digit c = leb b'0' c && leb c b'9'

unfoldable pub is_space : ℕ → Bool
is_space c = c == 32 || leb 9 c && leb c 13

-- The number that the digits in front continue, and what is behind them.
unfoldable pub read_digits : ℕ → Bytes → ℕ × Bytes
unfolding is_digit
read_digits v [] = (v, [])
read_digits v (c ∷ bytes) =
    let rest = read_digits (v * 10 + (c - b'0')) bytes in
    if is_digit c then rest else (v, c ∷ bytes)

unfoldable pub skip_space : Bytes → Bytes
unfolding is_space
skip_space [] = []
skip_space (c ∷ bytes) = let rest = skip_space bytes in if is_space c then rest else c ∷ bytes

-- A minus sign or a plus sign in front, if there is one, and what is behind it.
unfoldable pub sign : Bytes → Bool × Bytes
sign [] = (false, [])
sign (c ∷ bytes) =
    if c == b'-' then (true, bytes) else if c == b'+' then (false, bytes) else (false, c ∷ bytes)

unfoldable pub starts_with_digit : Bytes → Bool
unfolding is_digit
starts_with_digit [] = false
starts_with_digit (c ∷ bytes) = is_digit c

-- LONG_MAX, and the magnitude of LONG_MIN.
unfoldable pub saturate : Bool → ℕ → ℕ
saturate negative v =
    if negative
    then (if ltb i64_min v then i64_min else v)
    else (if leb i64_min v then i64_min - 1 else v)

-- strtol with base 10, where it converts: whether the number is negative, its magnitude, and what
-- endptr points to. `none` is that there is nothing to convert, and endptr is the start.
unfoldable pub strtol : Bytes → Option (Bool × ℕ × Bytes)
unfolding skip_space sign starts_with_digit saturate
strtol bytes =
    let (negative, digits) = sign (skip_space bytes) in
    let (v, behind) = read_digits 0 digits in
    if starts_with_digit digits then some (negative, saturate negative v, behind) else none

-- Lines 81 to 94: the port, from the text at port_start.
unfoldable pub parse_port : Bytes → Option ℕ
unfolding strtol
parse_port [] = none
parse_port (c ∷ bytes) = elim (strtol (c ∷ bytes)) [
  | none ↦ none
  | some (negative, v, x ∷ behind) ↦ none
  | some (negative, v, []) ↦ if negative && ltb 0 v || ltb 65535 v then none else some v
]

unfoldable pub with_port : Bytes → Bytes → Option (Bytes × ℕ)
with_port host port = elim (parse_port port) [ none ↦ none | some p ↦ some (host, p) ]

-- Lines 51 to 67: the text behind the opening bracket. That the closing bracket is the last byte is
-- a case of no colon behind it.
unfoldable pub parse_bracketed : Option (Bytes × Bytes) → Option (Bytes × ℕ)
unfolding with_port
parse_bracketed none = none
parse_bracketed (some ([], behind)) = none
parse_bracketed (some (h ∷ host, [])) = none
parse_bracketed (some (h ∷ host, c ∷ port)) = if c == b':' then with_port (h ∷ host) port else none

-- Lines 69 to 80: split at the first colon, which has to be the last one.
unfoldable pub parse_plain : Option (Bytes × Bytes) → Option (Bytes × ℕ)
unfolding with_port
parse_plain none = none
parse_plain (some ([], port)) = none
parse_plain (some (h ∷ host, port)) = elim (split_at b':' port) [
  | none ↦ with_port (h ∷ host) port
  | some second ↦ none
]

-- php_quic_address_parse_endpoint; FAILURE is `none`.
unfoldable pub parse_endpoint : Bytes → Option (Bytes × ℕ)
unfolding parse_bracketed parse_plain
parse_endpoint [] = none
parse_endpoint (c ∷ bytes) =
    if c == b'['
    then parse_bracketed (split_at b']' (c_string bytes))
    else parse_plain (split_at b':' (c_string (c ∷ bytes)))

-- Address::fromString; `none` is the InvalidArgumentException.
unfoldable pub from_string : Bytes → Option Address
unfolding parse_endpoint
from_string endpoint = elim (parse_endpoint endpoint) [
  | none ↦ none
  | some (host, port) ↦ some (record { host = host; port = port })
]
