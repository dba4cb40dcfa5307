-- ===== src/Connection/Free.antt =====
-- The end of a connection object of src/connection.c.
use ext_ngtcp.Prelude.{none, []}
use ext_ngtcp.Platform.{Platform}
use ext_ngtcp.Address.{undef}
use ext_ngtcp.Tls.{cleanup}
use ext_ngtcp.Connection.State.{Connection}

-- php_quic_connection_free_object: libngtcp2's handle is deleted, and all that the object holds is
-- released.
unfoldable pub free_object : {P : Platform} → Connection P → Connection P
free_object c = record c {
  conn = none;
  remote_address = undef;
  local_address = undef;
  close_reason = none;
  tls = cleanup c.tls;
  events = [];
  streams = [];
}
