-- ===== src/Examples/Sample.antt =====
-- A library that answers every call, for runs of the model: packets carry what they are asked to,
-- and a peer whose first packet completes the handshake and carries the bytes of stream 0.
use ext_ngtcp.Prelude.{
  ℕ, zero, suc, ◌+◌, ◌*◌, ◌%◌, Bool, true, false, none, some, [], ◌∷◌, Bytes, length, ltb, ◌==◌,
  if◌then◌else◌,
}
use ext_ngtcp.Platform.{
  Platform, draining, Status, success, failure, Written, wrote, Callback, Outcome, Request, inet,
}
use ext_ngtcp.Tls.{Gnutls}
use ext_ngtcp.Address.{Address, object}
use ext_ngtcp.Datagram.{Datagram}
use ext_ngtcp.Datagram

-- The library's own state: its side, the control packets that it has left to send, and whether it
-- is draining.
pub record Peer : Type 0 where
  pub server : Bool
  pub left : ℕ
  pub drained : Bool

abbrev quietly : {A : Type 0} → A → Peer → Outcome Peer A
quietly a conn = record { result = a; conn = conn; calls = [] }

-- A packet with bytes completes the handshake and brings them on stream 0; an empty one drains.
unfoldable pub read_pkt : Peer → ℕ → ℕ → Bytes → ℕ → Outcome Peer Status
read_pkt conn local_addr remote_addr [] now = record {
  result = failure draining;
  conn = record conn { drained = true };
  calls = [];
}
read_pkt conn local_addr remote_addr (b ∷ bytes) now = record {
  result = success;
  conn = conn;
  calls =
      Callback.handshake_completed
      ∷ Callback.recv_stream_data true 0 (b ∷ bytes)
      ∷ Callback.acked_stream_data_offset 0
      ∷ [];
}

unfoldable pub control : ℕ → Peer → Outcome Peer (record { nwrite : Written; wdatalen : ℕ })
control zero conn = quietly (record { nwrite = wrote []; wdatalen = 0 }) conn
control (suc n) conn =
    quietly (record { nwrite = wrote (64 ∷ []); wdatalen = 0 }) (record conn { left = n })

-- Data goes out whole, a FIN alone in a packet of its own, and then the control packets.
unfoldable pub writev_stream :
    Peer → Request → ℕ → Outcome Peer (record { nwrite : Written; wdatalen : ℕ })
unfolding control
writev_stream conn request now = elim request.datav [
  | some bytes ↦ quietly (record { nwrite = wrote bytes; wdatalen = length bytes }) conn
  | none ↦
      if request.fin
      then quietly (record { nwrite = wrote (70 ∷ []); wdatalen = 0 }) conn
      else control conn.left conn
]

abbrev gnutls : Gnutls
gnutls = record {
  allocate_credentials = true;
  set_x509_key_file = λ cert_file key_file. true;
  init = true;
  priority_set_direct = true;
  configure_session = true;
  credentials_set = true;
  alpn_set_protocols = λ alpn. true;
}

abbrev opens : ℕ → Peer → Outcome Peer (record { rv : Status; stream_id : ℕ })
opens stream_id conn = quietly (record { rv = success; stream_id = stream_id }) conn

abbrev pub sample : Platform
sample = record {
  Conn = Peer;
  Ccerr = ℕ;
  Sockaddr = ℕ;
  is_server = λ conn. conn.server;
  is_local_stream = λ conn stream_id. stream_id % 2 == 0;
  is_bidi_stream = λ stream_id. ltb (stream_id % 4) 2;
  in_closing_period = λ conn. false;
  in_draining_period = λ conn. conn.drained;
  get_expiry = λ conn. 7500000;
  get_tls_alert = λ conn. 40;
  get_ccerr = λ conn. some 0;
  error_code = λ ccerr. ccerr;
  ccerr_default = 0;
  set_liberr = λ code. 1;
  set_tls_alert = λ alert. 256 + alert;
  set_application_error = λ code reason. code;
  read_pkt = read_pkt;
  handle_expiry = λ conn now. quietly success conn;
  write_connection_close = λ conn ccerr now. quietly (wrote (88 ∷ [])) conn;
  writev_stream = writev_stream;
  open_bidi_stream = opens 0;
  open_uni_stream = opens 2;
  shutdown_stream = λ conn stream_id code. quietly success conn;
  getaddrinfo = λ host service. some ((inet, 4) ∷ []);
  family = λ addr. inet;
  any_inet = 0;
  any_inet6 = 6;
  is_numeric = λ host. false;
  inet_ntop = λ addr. b'0' ∷ [];
  port = λ addr. 0;
  server_name_set = λ sni. true;
  gnutls_client = gnutls;
  gnutls_server = gnutls;
  client_new = λ initial local_addr remote_addr now params.
      some (record { server = false; left = 2; drained = false });
  server_new = λ initial local_addr remote_addr now params.
      some (record { server = true; left = 2; drained = false });
  decode_version_cid =
      λ payload. record { rv = success; version = 1; dcid = 1 ∷ 2 ∷ []; scid = 3 ∷ 4 ∷ [] };
  is_supported_version = λ version. version == 1;
  hrtime = λ n. (if ltb n 1000 then n else 1000) * 1000000;
  epoch = λ n. some (1700000000, 250000);
}

abbrev pub peer_address : Address
peer_address = record { host = b'h' ∷ []; port = 443 }

unfoldable pub packet : Bytes → Datagram
unfolding Datagram.create_object
packet payload = record Datagram.create_object {
  payload = payload;
  peer_address = object peer_address;
}
