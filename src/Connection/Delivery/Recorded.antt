-- ===== src/Connection/Delivery/Recorded.antt =====
-- Any library, with a record of the stream data that it delivers kept beside each connection.
use ext_ngtcp.Prelude.{ℕ, ◌≡◌, refl, sym, ap, Option, none, some, List, [], ◌∷◌, ◌++◌, Bytes}
use ext_ngtcp.Platform.{Platform, Callback, Outcome}
use ext_ngtcp.Connection.Delivery.Library.{bytes_on, IsRecorded}

pub record WithRecord (C : Type 0) : Type 0 where
  pub conn : C
  pub delivered : ℕ → Bytes

abbrev with : {C : Type 0} → (ℕ → Bytes) → C → WithRecord C
with delivered conn = record { conn = conn; delivered = delivered }

abbrev relabel : {C : Type 0} → (ℕ → Bytes) → Callback C → Callback (WithRecord C)
relabel delivered Callback.handshake_completed = Callback.handshake_completed
relabel delivered (Callback.stream_open conn k) = Callback.stream_open (with delivered conn) k
relabel delivered (Callback.recv_stream_data fin k bytes) = Callback.recv_stream_data fin k bytes
relabel delivered (Callback.stream_close set k code) = Callback.stream_close set k code
relabel delivered (Callback.stream_reset k code) = Callback.stream_reset k code
relabel delivered (Callback.acked_stream_data_offset k) = Callback.acked_stream_data_offset k

abbrev relabel_all : {C : Type 0} → (ℕ → Bytes) → List (Callback C) → List (Callback (WithRecord C))
relabel_all delivered [] = []
relabel_all delivered (call ∷ calls) = relabel delivered call ∷ relabel_all delivered calls

abbrev noted : {C A : Type 0} → (ℕ → Bytes) → Outcome C A → Outcome (WithRecord C) A
noted delivered o =
    let calls = relabel_all delivered o.calls in
    record {
      result = o.result;
      conn = with (λ k. delivered k ++ bytes_on k calls) o.conn;
      calls = calls;
    }

abbrev new : {C : Type 0} → Option C → Option (WithRecord C)
new none = none
new (some conn) = some (with (λ k. []) conn)

abbrev pub recorded : Platform → Platform
recorded P = record {
  Conn = WithRecord P.Conn;
  Ccerr = P.Ccerr;
  Sockaddr = P.Sockaddr;
  is_server = λ c. P.is_server c.conn;
  is_local_stream = λ c. P.is_local_stream c.conn;
  is_bidi_stream = P.is_bidi_stream;
  in_closing_period = λ c. P.in_closing_period c.conn;
  in_draining_period = λ c. P.in_draining_period c.conn;
  get_expiry = λ c. P.get_expiry c.conn;
  get_tls_alert = λ c. P.get_tls_alert c.conn;
  get_ccerr = λ c. P.get_ccerr c.conn;
  error_code = P.error_code;
  ccerr_default = P.ccerr_default;
  set_liberr = P.set_liberr;
  set_tls_alert = P.set_tls_alert;
  set_application_error = P.set_application_error;
  read_pkt =
      λ c local remote payload now. noted c.delivered (P.read_pkt c.conn local remote payload now);
  handle_expiry = λ c now. noted c.delivered (P.handle_expiry c.conn now);
  write_connection_close =
      λ c ccerr now. noted c.delivered (P.write_connection_close c.conn ccerr now);
  writev_stream = λ c r now. noted c.delivered (P.writev_stream c.conn r now);
  open_bidi_stream = λ c. noted c.delivered (P.open_bidi_stream c.conn);
  open_uni_stream = λ c. noted c.delivered (P.open_uni_stream c.conn);
  shutdown_stream = λ c k code. noted c.delivered (P.shutdown_stream c.conn k code);
  getaddrinfo = P.getaddrinfo;
  family = P.family;
  any_inet = P.any_inet;
  any_inet6 = P.any_inet6;
  is_numeric = P.is_numeric;
  inet_ntop = P.inet_ntop;
  port = P.port;
  server_name_set = P.server_name_set;
  gnutls_client = P.gnutls_client;
  gnutls_server = P.gnutls_server;
  client_new = λ i local remote now params. new (P.client_new i local remote now params);
  server_new = λ i local remote now params. new (P.server_new i local remote now params);
  decode_version_cid = P.decode_version_cid;
  is_supported_version = P.is_supported_version;
  hrtime = P.hrtime;
  epoch = P.epoch;
}

new_empty :
    {C : Type 0} (o : Option C) (c : WithRecord C) (k : ℕ) → new o ≡ some c → c.delivered k ≡ []
new_empty none c k e = cc
new_empty (some conn) c k e =
    ap (λ (o : Option (WithRecord _)). elim o [ none ↦ [] | some d ↦ d.delivered k ]) (sym e)

-- The record is kept as IsRecorded asks.
pub recorded-IsRecorded : (P : Platform) → IsRecorded (recorded P)
recorded-IsRecorded P = record {
  delivered = λ c. c.delivered;
  at_client =
      λ i local remote now params c k e. new_empty (P.client_new i local remote now params) c k e;
  at_server =
      λ i local remote now params c k e. new_empty (P.server_new i local remote now params) c k e;
  at_read = λ c local remote payload now k. refl;
  at_expiry = λ c now k. refl;
  at_close = λ c ccerr now k. refl;
  at_write = λ c r now k. refl;
  at_bidi = λ c k. refl;
  at_uni = λ c k. refl;
  at_shutdown = λ c stream_id code k. refl;
}
