-- ===== src/Connection/Accept/Inputs.antt =====
-- What ServerConnection::accept of src/server_connection.c reads and checks.
use ext_ngtcp.Prelude.{
  ℕ, ◌*◌, ◌+◌, Bool, false, not, ◌&&◌, ◌||◌, Option, none, some, [], ◌∷◌, Bytes, length, ltb, leb,
  if◌then◌else◌, bytes_eq,
}
use ext_ngtcp.Address.{Address, object, to_sockaddr}
use ext_ngtcp.Platform.{
  Platform, inet, inet6, unsupported, TransportParams, Decoded, Code, version_negotiation, Status,
  success, failure,
}
use ext_ngtcp.Exceptions.{
  accept_cid_length, accept_local_address, accept_datagram_local_address, accept_decode,
  accept_unsupported, Result, returned, thrown,
}
use ext_ngtcp.Connection.Setup.{default_local_addr, seconds}

-- What the process and the random source give to one call: the value of
-- NGTCP2_TEST_FORCE_SERVER_NEW_FAILURE, and the draws of php_quic_fill_random that succeed.
pub record Surroundings : Type 0 where
  pub force_failure : Option Bytes
  pub scid : Option Bytes
  pub token : Option Bytes

-- tolower of the C locale.
abbrev lower : ℕ → ℕ
lower c = if leb b'A' c && leb c b'Z' then c + 32 else c

unfoldable pub lower_all : Bytes → Bytes
lower_all [] = []
lower_all (c ∷ bytes) = lower c ∷ lower_all bytes

-- php_quic_test_force_server_new_failure: the flag is a C string.
unfoldable pub test_force_server_new_failure : Option Bytes → Bool
unfolding lower_all
test_force_server_new_failure none = false
test_force_server_new_failure (some flag) =
    bytes_eq flag (b'1' ∷ [])
    || bytes_eq (lower_all flag) (b't' ∷ b'r' ∷ b'u' ∷ b'e' ∷ [])
    || bytes_eq (lower_all flag) (b'y' ∷ b'e' ∷ b's' ∷ [])

abbrev pub hq_interop : Bytes
hq_interop = b'h' ∷ b'q' ∷ b'-' ∷ b'i' ∷ b'n' ∷ b't' ∷ b'e' ∷ b'r' ∷ b'o' ∷ b'p' ∷ []

-- NGTCP2_MAX_CIDLEN
abbrev pub max_cidlen : ℕ
max_cidlen = 20

unfoldable pub server_params : Bytes → Bytes → TransportParams
server_params token original_dcid = record {
  initial_max_streams_bidi = 16;
  initial_max_streams_uni = 16;
  initial_max_stream_data_bidi_local = 64 * 1024;
  initial_max_stream_data_bidi_remote = 64 * 1024;
  initial_max_stream_data_uni = some (64 * 1024);
  initial_max_data = 1024 * 1024;
  max_idle_timeout = 30 * seconds;
  active_connection_id_limit = some 7;
  stateless_reset_token = some token;
  original_dcid = some original_dcid;
}

-- A return value of ngtcp2_pkt_decode_version_cid that is refused, lines 404 to 409.
unfoldable pub decode_error : Status → Option Code
decode_error success = none
decode_error (failure version_negotiation) = none
decode_error (failure code) = some code

module _ (P : Platform) where
  -- php_quic_address_init_from_sockaddr
  unfoldable pub init_from_sockaddr : P.Sockaddr → Address
  init_from_sockaddr addr = elim (P.family addr) [
    | inet ↦ record { host = P.inet_ntop addr; port = P.port addr }
    | inet6 ↦ record { host = P.inet_ntop addr; port = P.port addr }
    | unsupported ↦ record { host = []; port = 0 }
  ]

  -- Lines 427 to 456: the local socket address, or the exception.
  unfoldable pub local_of : Option Address → Option Address → P.Sockaddr → Result P.Sockaddr
  unfolding default_local_addr
  local_of (some a) datagram remote_addr = elim (to_sockaddr P (object a)) [
    | none ↦ thrown accept_local_address
    | some addr ↦ returned addr
  ]
  local_of none (some a) remote_addr = elim (to_sockaddr P (object a)) [
    | none ↦ thrown accept_datagram_local_address
    | some addr ↦ returned addr
  ]
  local_of none none remote_addr = returned (default_local_addr P (P.family remote_addr))

  -- Lines 462 to 470.
  unfoldable pub local_object : Option Address → Option Address → P.Sockaddr → Address
  unfolding init_from_sockaddr
  local_object (some a) datagram addr = a
  local_object none (some a) addr = a
  local_object none none addr = init_from_sockaddr addr

  -- Lines 404 to 423: the checks of what was decoded.
  unfoldable pub check_decoded : Decoded → Result (Unit {0})
  unfolding decode_error
  check_decoded vc = elim (decode_error vc.rv) [
    | some code ↦ thrown (accept_decode code)
    | none ↦
        if not (P.is_supported_version vc.version)
        then thrown (accept_unsupported vc.version)
        else if ltb max_cidlen (length vc.dcid) || ltb max_cidlen (length vc.scid)
        then thrown accept_cid_length
        else returned tt
  ]
