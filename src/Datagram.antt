-- ===== src/Datagram.antt =====
-- src/datagram.c: the datagram objects, values with optional metadata.
use ext_ngtcp.Prelude.{ℕ, Bool, true, false, not, Option, none, some, [], Bytes, if◌then◌else◌}
use ext_ngtcp.Address.{Address, Zval, undef, null, object}

pub record Datagram : Type 0 where
  pub payload : Bytes
  pub peer_address : Zval Address
  pub local_address : Zval Address
  pub ecn : ℕ
  pub received_at : ℕ
  pub has_ecn : Bool
  pub has_received_at : Bool

unfoldable pub create_object : Datagram
create_object = record {
  payload = [];
  peer_address = undef;
  local_address = undef;
  ecn = 0;
  received_at = 0;
  has_ecn = false;
  has_received_at = false;
}

abbrev given : Option ℕ → Bool
given none = false
given (some n) = true

abbrev value : Option ℕ → ℕ
value none = 0
value (some n) = n

abbrev pub nullable {ℓ} : {A : Type ℓ} → Option A → Zval A
nullable none = null
nullable (some a) = object a

-- Datagram::__construct; an argument that is null or left out is `none`.
pub construct :
    Datagram
    → Bytes
    → Address
    → (local_address : Option Address) (ecn received_at : Option ℕ) → Datagram
construct d payload peer_address local_address ecn received_at = record d {
  payload = payload;
  peer_address = object peer_address;
  local_address = nullable local_address;
  has_ecn = given ecn;
  ecn = value ecn;
  has_received_at = given received_at;
  received_at = value received_at;
}

-- A null return is `none`.
pub get_ecn : Datagram → Option ℕ
get_ecn d = if not d.has_ecn then none else some d.ecn

pub get_received_at : Datagram → Option ℕ
get_received_at d = if not d.has_received_at then none else some d.received_at
