-- ===== src/Platform.antt =====
-- What the extension calls and does not implement: libngtcp2 with its crypto helper, the resolver,
-- and the clocks. Each is a field of `Platform`; a call that can reach back into the extension
-- returns the callbacks that it makes, in order, and the caller runs them (src/callbacks.c).
use ext_ngtcp.Prelude.{ℕ, Bool, Option, Bytes, List}
use ext_ngtcp.Tls.{Gnutls}

-- A negative return value of libngtcp2: the constants that the source names, and all others.
pub data Code : Type 0 where
  closing draining idle_close crypto write_more stream_data_blocked stream_shut_wr stream_id_blocked
        version_negotiation :
      Code
  other : ℕ → Code

-- An int that is 0 or an error.
pub data Status : Type 0 where
  success : Status
  failure : Code → Status

-- An ngtcp2_ssize: the bytes put into the packet buffer (none for 0), or an error.
pub data Written : Type 0 where
  wrote : Bytes → Written
  failed : Code → Written

-- The callbacks registered by php_quic_callbacks_init that touch a connection's state, with those
-- of their arguments that the handlers read. The flag is the one that the handler tests.
pub data Callback (C : Type 0) : Type 0 where
  handshake_completed : Callback C
  stream_open : C → (stream_id : ℕ) → Callback C
  recv_stream_data : (fin : Bool) (stream_id : ℕ) (bytes : Bytes) → Callback C
  stream_close : (app_error_code_set : Bool) (stream_id app_error_code : ℕ) → Callback C
  stream_reset : (stream_id app_error_code : ℕ) → Callback C
  acked_stream_data_offset : (stream_id : ℕ) → Callback C

pub record Outcome (C A : Type 0) : Type 0 where
  pub result : A
  pub conn : C
  pub calls : List (Callback C)

-- The stream part of an ngtcp2_conn_writev_stream call: the FIN flag, the stream (or -1), and the
-- one vector, if any.
pub record Request : Type 0 where
  pub fin : Bool
  pub stream_id : ℕ
  pub datav : Option Bytes

pub data Family : Type 0 where
  inet inet6 unsupported : Family

-- The connection ids and the version that a connection is made with.
pub record Initial : Type 0 where
  pub dcid : Bytes
  pub scid : Bytes
  pub version : ℕ

-- What the source sets of ngtcp2_transport_params.
pub record TransportParams : Type 0 where
  pub initial_max_streams_bidi : ℕ
  pub initial_max_streams_uni : ℕ
  pub initial_max_stream_data_bidi_local : ℕ
  pub initial_max_stream_data_bidi_remote : ℕ
  pub initial_max_stream_data_uni : Option ℕ
  pub initial_max_data : ℕ
  pub max_idle_timeout : ℕ
  pub active_connection_id_limit : Option ℕ
  pub stateless_reset_token : Option Bytes
  pub original_dcid : Option Bytes

-- What ngtcp2_pkt_decode_version_cid returns and stores.
pub record Decoded : Type 0 where
  pub rv : Status
  pub version : ℕ
  pub dcid : Bytes
  pub scid : Bytes

pub record Platform : Type 1 where
  pub Conn : Type 0
  pub Ccerr : Type 0
  pub Sockaddr : Type 0
  pub is_server : Conn → Bool
  pub is_local_stream : Conn → ℕ → Bool
  pub is_bidi_stream : ℕ → Bool
  pub in_closing_period : Conn → Bool
  pub in_draining_period : Conn → Bool
  pub get_expiry : Conn → ℕ
  pub get_tls_alert : Conn → ℕ
  -- a null pointer is `none`
  pub get_ccerr : Conn → Option Ccerr
  pub error_code : Ccerr → ℕ
  pub ccerr_default : Ccerr
  pub set_liberr : Code → Ccerr
  pub set_tls_alert : ℕ → Ccerr
  pub set_application_error : ℕ → Bytes → Ccerr
  -- local address, remote address, packet, time
  pub read_pkt : Conn → Sockaddr → Sockaddr → Bytes → ℕ → Outcome Conn Status
  pub handle_expiry : Conn → ℕ → Outcome Conn Status
  pub write_connection_close : Conn → Ccerr → ℕ → Outcome Conn Written
  -- the result's second part is what is stored at pdatalen
  pub writev_stream : Conn → Request → ℕ → Outcome Conn (record { nwrite : Written; wdatalen : ℕ })
  pub open_bidi_stream : Conn → Outcome Conn (record { rv : Status; stream_id : ℕ })
  pub open_uni_stream : Conn → Outcome Conn (record { rv : Status; stream_id : ℕ })
  -- stream, error code
  pub shutdown_stream : Conn → ℕ → ℕ → Outcome Conn Status
  -- host and service, as C strings
  pub getaddrinfo : Bytes → Bytes → Option (List (Family × Sockaddr))
  pub family : Sockaddr → Family
  -- the wildcard addresses with port 0
  pub any_inet : Sockaddr
  pub any_inet6 : Sockaddr
  -- inet_pton takes the text as an address of one of the families
  pub is_numeric : Bytes → Bool
  -- the printed address and the port of an IPv4 or IPv6 socket address
  pub inet_ntop : Sockaddr → Bytes
  pub port : Sockaddr → ℕ
  pub server_name_set : Bytes → Bool
  pub gnutls_client : Gnutls
  pub gnutls_server : Gnutls
  -- ids, path (local, remote), version, time, parameters
  pub client_new : Initial → Sockaddr → Sockaddr → ℕ → TransportParams → Option Conn
  pub server_new : Initial → Sockaddr → Sockaddr → ℕ → TransportParams → Option Conn
  pub decode_version_cid : Bytes → Decoded
  pub is_supported_version : ℕ → Bool
  -- the n-th reading of zend_hrtime that is made for a connection, and of gettimeofday
  pub hrtime : ℕ → ℕ
  pub epoch : ℕ → Option (ℕ × ℕ)
