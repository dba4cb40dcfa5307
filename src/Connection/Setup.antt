-- ===== src/Connection/Setup.antt =====
-- Connection::__construct of src/connection.c: the client side of a connection.
use ext_ngtcp.Prelude.{
  ℕ, ◌*◌, Bool, false, not, Option, none, some, [], ◌∷◌, Bytes, if◌then◌else◌, c_string,
}
use ext_ngtcp.Address.{Address, Zval, undef, null, object, to_sockaddr}
use ext_ngtcp.Platform.{Platform, Family, inet6, TransportParams}
use ext_ngtcp.Exceptions.{
  invalid_remote_address, invalid_local_address, tls_failed, native_failed, server_name_failed,
  returned, thrown,
}
use ext_ngtcp.Config.Client.{ClientConfig}
use ext_ngtcp.Tls.{h3, init_client}
use ext_ngtcp.Connection.State.{Connection, tick_clock, timestamp}
use ext_ngtcp.Connection.Methods.{Done}
use ext_ngtcp.Datagram.{nullable}

-- php_quic_default_local_addr; it always succeeds.
unfoldable pub default_local_addr : (P : Platform) → Family → P.Sockaddr
default_local_addr P inet6 = P.any_inet6
default_local_addr P _ = P.any_inet

-- The object in a zval, if it holds one.
unfoldable pub object_of {ℓ} : {A : Type ℓ} → Zval A → Option A
object_of undef = none
object_of null = none
object_of (object a) = some a

unfoldable pub config_local : Option ClientConfig → Option Address
unfolding object_of
config_local none = none
config_local (some config) = object_of config.local_address

unfoldable pub alpn_or : Bytes → Option Bytes → Bytes
alpn_or default none = default
alpn_or default (some alpn) = alpn

unfoldable pub config_alpn : Option ClientConfig → Bytes
unfolding alpn_or
config_alpn none = h3
config_alpn (some config) = c_string (alpn_or h3 config.alpn)

abbrev localhost : Bytes
localhost = b'l' ∷ b'o' ∷ b'c' ∷ b'a' ∷ b'l' ∷ b'h' ∷ b'o' ∷ b's' ∷ b't' ∷ []

unfoldable pub host_sni : Platform → Address → Bytes
host_sni P remote = let host = c_string remote.host in if P.is_numeric host then localhost else host

-- Lines 791 to 799.
unfoldable pub sni_of : Platform → Address → Option ClientConfig → Bytes
unfolding host_sni
sni_of P remote none = host_sni P remote
sni_of P remote (some config) = elim config.server_name [
  | none ↦ host_sni P remote
  | some server_name ↦ c_string server_name
]

unfoldable pub refuses_sni : Platform → Bytes → Bool
refuses_sni P [] = false
refuses_sni P (b ∷ sni) = not (P.server_name_set (b ∷ sni))

-- NGTCP2_PROTO_VER_V1, and NGTCP2_SECONDS.
abbrev pub proto_ver_v1 : ℕ
proto_ver_v1 = 1

abbrev pub seconds : ℕ
seconds = 1000000000

abbrev pub client_params : TransportParams
client_params = record {
  initial_max_streams_bidi = 16;
  initial_max_streams_uni = 3;
  initial_max_stream_data_bidi_local = 128 * 1024;
  initial_max_stream_data_bidi_remote = 128 * 1024;
  initial_max_stream_data_uni = none;
  initial_max_data = 1024 * 1024;
  max_idle_timeout = 30 * seconds;
  active_connection_id_limit = none;
  stateless_reset_token = none;
  original_dcid = none;
}

-- The socket address that is bound: that of the local address, or a wildcard.
unfoldable pub bound_addr : (P : Platform) → Option Address → P.Sockaddr → Option P.Sockaddr
unfolding default_local_addr
bound_addr P none remote_addr = some (default_local_addr P (P.family remote_addr))
bound_addr P (some address) remote_addr = to_sockaddr P (object address)

module _ {P : Platform} where
  -- Lines 360 to 394: ngtcp2_conn_client_new with the ids that were drawn.
  unfoldable pub client_new : Bytes → Bytes → Connection P → Done P
  client_new dcid scid c =
      let c1 = tick_clock c in
      elim (P.client_new (record { dcid = dcid; scid = scid; version = proto_ver_v1 }) c.local_addr
        c.remote_addr (timestamp c) client_params) [
          | none ↦ (thrown native_failed, c1)
          | some conn ↦ (returned tt, record c1 { conn = some conn })
        ]

  -- php_quic_connection_init_native; `dcid` and `scid` are what php_quic_fill_random draws, if it
  -- succeeds. A failure becomes the exception that the constructor throws.
  unfoldable pub init_native : (dcid scid : Option Bytes) → Connection P → Done P
  unfolding client_new
  init_native none scid c = (thrown native_failed, c)
  init_native (some dcid) none c = (thrown native_failed, c)
  init_native (some dcid) (some scid) c = client_new dcid scid c

  -- Lines 791 to 814.
  unfoldable pub named : Bytes → (dcid scid : Option Bytes) → Connection P → Done P
  unfolding init_native refuses_sni
  named sni dcid scid c =
      if refuses_sni P sni then (thrown server_name_failed, c) else init_native dcid scid c

  -- Lines 781 to 814.
  unfoldable pub secured : (alpn sni : Bytes) (dcid scid : Option Bytes) → Connection P → Done P
  unfolding named
  secured alpn sni dcid scid c =
      if c.tls.session
      then named sni dcid scid c
      else (let (success, tls) = init_client P.gnutls_client alpn c.tls in
          let c1 = record c { tls = tls } in
          if success then named sni dcid scid c1 else (thrown tls_failed, c1))

  -- Connection::__construct
  unfoldable pub construct :
      Address → Option ClientConfig → (dcid scid : Option Bytes) → Connection P → Done P
  unfolding bound_addr secured config_local sni_of
  construct remote config dcid scid c =
      let local = config_local config in
      let c1 = record c { remote_address = object remote; local_address = nullable local } in
      elim (to_sockaddr P (object remote)) [
        | none ↦ (thrown invalid_remote_address, c1)
        | some remote_addr ↦
            let c2 = record c1 { remote_addr = remote_addr } in
            elim (bound_addr P local remote_addr) [
              | none ↦ (thrown invalid_local_address, c2)
              | some local_addr ↦
                  secured (config_alpn config) (sni_of P remote config) dcid scid
                    (record c2 { local_addr = local_addr })
            ]
      ]
