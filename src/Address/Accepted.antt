-- ===== src/Address/Accepted.antt =====
-- What Address::fromString of src/address.c accepts.
use ext_ngtcp.Prelude.{
  ℕ, ◌≤◌, ◌≢◌, subst, Bool, ◌&&◌, ◌||◌, Option, none, some, [], ◌∷◌, Bytes, arith, ltb, ◌==◌,
  if◌then◌else◌, c_string, if_rule, option_rule,
}
use ext_ngtcp.Address.{Address}
use ext_ngtcp.Address.Parse.{
  split_at, strtol, parse_port, with_port, parse_bracketed, parse_plain, parse_endpoint,
  from_string,
}

abbrev InRange : Option ℕ → Type 0
InRange none = Unit
InRange (some p) = p ≤ 65535

abbrev Valid : Option (Bytes × ℕ) → Type 0
Valid none = Unit
Valid (some (host, port)) = (host ≢ []) × (port ≤ 65535)

read-InRange :
    (o : Option (Bool × ℕ × Bytes))
    → InRange (elim o [
      | none ↦ none
      | some (negative, v, x ∷ behind) ↦ none
      | some (negative, v, []) ↦ if negative && ltb 0 v || ltb 65535 v then none else some v
    ])
read-InRange none = tt
read-InRange (some (negative, v, x ∷ behind)) = tt
read-InRange (some (negative, v, [])) =
    if_rule InRange (negative && ltb 0 v || ltb 65535 v) _ _ (λ _. tt) (λ e. ground arith)

parse_port-InRange : (bytes : Bytes) → InRange (parse_port bytes)
unfolding parse_port
parse_port-InRange [] = tt
parse_port-InRange (c ∷ bytes) = read-InRange (strtol (c ∷ bytes))

with_port-Valid : (h : ℕ) (host port : Bytes) → Valid (with_port (h ∷ host) port)
unfolding with_port
with_port-Valid h host port =
    option_rule Valid (parse_port port) _ _ (λ _. tt)
      λ p e. ((λ bad. cc), subst InRange e (parse_port-InRange port))

parse_bracketed-Valid : (o : Option (Bytes × Bytes)) → Valid (parse_bracketed o)
unfolding parse_bracketed
parse_bracketed-Valid none = tt
parse_bracketed-Valid (some ([], behind)) = tt
parse_bracketed-Valid (some (h ∷ host, [])) = tt
parse_bracketed-Valid (some (h ∷ host, c ∷ port)) =
    if_rule Valid (c == b':') _ _ (λ _. with_port-Valid h host port) (λ _. tt)

parse_plain-Valid : (o : Option (Bytes × Bytes)) → Valid (parse_plain o)
unfolding parse_plain
parse_plain-Valid none = tt
parse_plain-Valid (some ([], port)) = tt
parse_plain-Valid (some (h ∷ host, port)) =
    option_rule Valid (split_at b':' port) _ _ (λ _. with_port-Valid h host port) (λ second _. tt)

parse_endpoint-Valid : (endpoint : Bytes) → Valid (parse_endpoint endpoint)
unfolding parse_endpoint
parse_endpoint-Valid [] = tt
parse_endpoint-Valid (c ∷ bytes) =
    if_rule Valid (c == b'[') _ _ (λ _. parse_bracketed-Valid (split_at b']' (c_string bytes)))
      (λ _. parse_plain-Valid (split_at b':' (c_string (c ∷ bytes))))

-- An address with a host that is not empty and a port of at most 65535.
abbrev pub Usable : Option Address → Type 0
Usable none = Unit
Usable (some a) = (a.host ≢ []) × (a.port ≤ 65535)

-- Whatever text is read, the address that comes out, if one does, has a host that is not empty and a
-- port of at most 65535.
pub from_string-Usable : (endpoint : Bytes) → Usable (from_string endpoint)
unfolding from_string
from_string-Usable endpoint =
    option_rule Usable (parse_endpoint endpoint) _ _ (λ _. tt)
      λ parsed e. subst Valid e (parse_endpoint-Valid endpoint)
