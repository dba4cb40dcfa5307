-- ===== src/Address.antt =====
-- src/address.c: the address objects, and their way to a socket address. A zend_long port is an
-- int64_t pattern.
pub mod Parse
pub mod RoundTrip
pub mod Accepted
use ext_ngtcp.Prelude.{
  ℕ, Option, none, some, List, [], ◌∷◌, Bytes, length, slt64, ◌==◌, ◌||◌, if◌then◌else◌, c_string,
  show_long,
}
use ext_ngtcp.Platform.{Platform, Family, inet, inet6, unsupported}

pub record Address : Type 0 where
  pub host : Bytes
  pub port : ℕ

-- A zval that holds an object of one class, or none.
pub data Zval {ℓ} (A : Type ℓ) : Type ℓ where
  undef null : Zval A
  object : A → Zval A

-- The first result of an IPv4 or IPv6 family.
first_supported {ℓ} : {S : Type ℓ} → List (Family × S) → Option S
first_supported [] = none
first_supported ((inet, s) ∷ results) = some s
first_supported ((inet6, s) ∷ results) = some s
first_supported ((unsupported, s) ∷ results) = first_supported results

module _ (P : Platform) where
  resolve : Address → Option P.Sockaddr
  resolve address =
      if length address.host == 0
      then none
      else if slt64 address.port 0 || slt64 65535 address.port
      then none
      else elim (P.getaddrinfo (c_string address.host) (show_long address.port)) [
        | none ↦ none
        | some results ↦ first_supported results
      ]

  -- FAILURE is `none`. The warnings that it raises are not modelled.
  unfoldable pub to_sockaddr : Zval Address → Option P.Sockaddr
  unfolding resolve first_supported
  to_sockaddr undef = none
  to_sockaddr null = none
  to_sockaddr (object address) = resolve address
