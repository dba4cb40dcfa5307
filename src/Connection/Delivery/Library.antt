-- ===== src/Connection/Delivery/Library.antt =====
-- The stream data that libngtcp2 hands to the callback php_quic_recv_stream_data_cb.
use ext_ngtcp.Prelude.{some, ℕ, ◌≡◌, List, [], ◌∷◌, ◌++◌, Bytes, ◌==◌, if◌then◌else◌}
use ext_ngtcp.Platform.{Platform, Callback, Request, Initial, TransportParams}

-- The bytes that a callback brings on stream k.
unfoldable pub brings : {C : Type 0} → ℕ → Callback C → Bytes
brings k (Callback.recv_stream_data fin j bytes) = if j == k then bytes else []
brings k call = []

unfoldable pub bytes_on : {C : Type 0} → ℕ → List (Callback C) → Bytes
unfolding brings
bytes_on k [] = []
bytes_on k (call ∷ calls) = brings k call ++ bytes_on k calls

-- `delivered` is what libngtcp2 has handed to the callback on each stream of a connection since the
-- connection was made: each call adds what its callbacks bring.
pub record IsRecorded (P : Platform) : Type 0 where
  pub delivered : P.Conn → ℕ → Bytes
  pub at_client :
      (i : Initial) (local_addr remote_addr : P.Sockaddr) (now : ℕ) (params : TransportParams)
      (conn : P.Conn) (k : ℕ)
      → P.client_new i local_addr remote_addr now params ≡ some conn
      → delivered conn k ≡ []
  pub at_server :
      (i : Initial) (local_addr remote_addr : P.Sockaddr) (now : ℕ) (params : TransportParams)
      (conn : P.Conn) (k : ℕ)
      → P.server_new i local_addr remote_addr now params ≡ some conn
      → delivered conn k ≡ []
  pub at_read :
      (conn : P.Conn) (local_addr remote_addr : P.Sockaddr) (payload : Bytes) (now k : ℕ)
      → let o = P.read_pkt conn local_addr remote_addr payload now in
        delivered o.conn k ≡ delivered conn k ++ bytes_on k o.calls
  pub at_expiry :
      (conn : P.Conn) (now k : ℕ)
      → let o = P.handle_expiry conn now in
        delivered o.conn k ≡ delivered conn k ++ bytes_on k o.calls
  pub at_close :
      (conn : P.Conn) (ccerr : P.Ccerr) (now k : ℕ)
      → let o = P.write_connection_close conn ccerr now in
        delivered o.conn k ≡ delivered conn k ++ bytes_on k o.calls
  pub at_write :
      (conn : P.Conn) (r : Request) (now k : ℕ)
      → let o = P.writev_stream conn r now in
        delivered o.conn k ≡ delivered conn k ++ bytes_on k o.calls
  pub at_bidi :
      (conn : P.Conn) (k : ℕ)
      → let o = P.open_bidi_stream conn in
        delivered o.conn k ≡ delivered conn k ++ bytes_on k o.calls
  pub at_uni :
      (conn : P.Conn) (k : ℕ)
      → let o = P.open_uni_stream conn in
        delivered o.conn k ≡ delivered conn k ++ bytes_on k o.calls
  pub at_shutdown :
      (conn : P.Conn) (stream_id code k : ℕ)
      → let o = P.shutdown_stream conn stream_id code in
        delivered o.conn k ≡ delivered conn k ++ bytes_on k o.calls
