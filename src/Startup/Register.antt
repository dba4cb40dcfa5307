-- ===== src/Startup/Register.antt =====
-- The functions of src/address.c, src/datagram.c, src/event.c, src/connection.c,
-- src/server_connection.c, src/server_endpoint.c and src/stream.c that register the classes, and
-- the start in src/ngtcp2.c.
use Prim.Native.String.{String}
use ext_ngtcp.Prelude.{ℕ, Bool, true, false, []}
use ext_ngtcp.Event.{
  EventClass, handshake_completed, connection_closed, connection_draining, stream_opened,
  stream_readable, stream_writable, stream_closed, stream_reset,
}
use ext_ngtcp.Startup.Tables.{
  address_methods, datagram_methods, event_methods, client_config_methods, connection_methods,
  server_config_methods, server_connection_methods, server_endpoint_methods, stream_methods,
}
use ext_ngtcp.Startup.Engine.{
  address_ce, datagram_ce, client_config_ce, connection_ce, server_config_ce, server_connection_ce,
  server_endpoint_ce, stream_ce, event_ce, Layout, Globals, register_class, register_class_ex,
  set_create_object, set_abstract, set_handlers, declare_constant,
}

abbrev ngtcp2 : String
ngtcp2 = "Varion\\Ngtcp2"

abbrev events : String
events = "Varion\\Nghttp2\\Events"

-- SUCCESS, and the variables then.
abbrev pub Started : Type 0
Started = Bool × Globals

unfoldable pub address_init : Globals → Started
address_init s =
    let s1 = register_class address_ce ngtcp2 "Address" address_methods s in
    let s2 = set_create_object address_ce Layout.address s1 in
    (
      true,
      set_handlers Layout.address (record { offset = Layout.address; free_obj = Layout.address })
          s2,
    )

unfoldable pub datagram_init : Globals → Started
datagram_init s =
    let s1 = register_class datagram_ce ngtcp2 "Datagram" datagram_methods s in
    let s2 = set_create_object datagram_ce Layout.datagram s1 in
    (
      true,
      set_handlers Layout.datagram (record { offset = Layout.datagram; free_obj = Layout.datagram })
          s2,
    )

-- Lines 205 to 208.
unfoldable pub register_event : Globals → Globals
register_event s =
    let s1 = register_class (event_ce EventClass.event) ngtcp2 "Event" event_methods s in
    set_abstract (event_ce EventClass.event)
      (set_create_object (event_ce EventClass.event) Layout.event s1)

abbrev under : EventClass → EventClass → String → Globals → Globals
under parent e name s = register_class_ex (event_ce e) events name [] (event_ce parent) s

-- Lines 210 to 224.
unfoldable pub register_kinds : Globals → Globals
register_kinds s =
    let s1 =
      set_abstract (event_ce EventClass.connection_event)
        (under EventClass.event EventClass.connection_event "ConnectionEvent" s) in
    let s2 =
      set_abstract (event_ce EventClass.stream_event)
        (under EventClass.event EventClass.stream_event "StreamEvent" s1) in
    set_abstract (event_ce EventClass.terminal_stream_event)
      (under EventClass.stream_event EventClass.terminal_stream_event "TerminalStreamEvent" s2)

-- Lines 226 to 256.
unfoldable pub register_events : Globals → Globals
register_events s =
    let s1 =
      under EventClass.connection_event EventClass.handshake_completed_ce "HandshakeCompleted" s in
    let s2 =
      under EventClass.connection_event EventClass.connection_closed_ce "ConnectionClosed" s1 in
    let s3 =
      under EventClass.connection_event EventClass.connection_draining_ce "ConnectionDraining" s2 in
    let s4 = under EventClass.stream_event EventClass.stream_opened_ce "StreamOpened" s3 in
    let s5 = under EventClass.stream_event EventClass.stream_readable_ce "StreamReadable" s4 in
    let s6 = under EventClass.stream_event EventClass.stream_writable_ce "StreamWritable" s5 in
    let s7 = under EventClass.terminal_stream_event EventClass.stream_closed_ce "StreamClosed" s6 in
    under EventClass.terminal_stream_event EventClass.stream_reset_ce "StreamReset" s7

abbrev constant : String → ℕ → Globals → Globals
constant = declare_constant (event_ce EventClass.event)

-- Lines 263 to 278.
unfoldable pub declare_constants : Globals → Globals
declare_constants s =
    let s1 = constant "HANDSHAKE_COMPLETED" handshake_completed s in
    let s2 = constant "CONNECTION_CLOSED" connection_closed s1 in
    let s3 = constant "CONNECTION_DRAINING" connection_draining s2 in
    let s4 = constant "STREAM_OPENED" stream_opened s3 in
    let s5 = constant "STREAM_READABLE" stream_readable s4 in
    let s6 = constant "STREAM_WRITABLE" stream_writable s5 in
    let s7 = constant "STREAM_CLOSED" stream_closed s6 in constant "STREAM_RESET" stream_reset s7

unfoldable pub event_init : Globals → Started
unfolding register_event register_kinds register_events declare_constants
event_init s =
    let s1 = register_events (register_kinds (register_event s)) in
    (
      true,
      declare_constants (
          set_handlers Layout.event (record { offset = Layout.event; free_obj = Layout.event }) s1),
    )

unfoldable pub connection_init : Globals → Started
connection_init s =
    let s1 = register_class client_config_ce ngtcp2 "ClientConfig" client_config_methods s in
    let s2 = set_create_object client_config_ce Layout.client_config s1 in
    let s3 =
      set_handlers Layout.client_config
        (record { offset = Layout.client_config; free_obj = Layout.client_config }) s2 in
    let s4 = register_class connection_ce ngtcp2 "Connection" connection_methods s3 in
    let s5 = set_create_object connection_ce Layout.connection s4 in
    (
      true,
      set_handlers Layout.connection
          (record { offset = Layout.connection; free_obj = Layout.connection }) s5,
    )

unfoldable pub server_connection_init : Globals → Started
server_connection_init s =
    let s1 = register_class server_config_ce ngtcp2 "ServerConfig" server_config_methods s in
    let s2 = set_create_object server_config_ce Layout.server_config s1 in
    let s3 =
      set_handlers Layout.server_config
        (record { offset = Layout.server_config; free_obj = Layout.server_config }) s2 in
    (
      true,
      register_class_ex server_connection_ce ngtcp2 "ServerConnection" server_connection_methods
          connection_ce s3,
    )

unfoldable pub server_endpoint_init : Globals → Started
server_endpoint_init s =
    let s1 = register_class server_endpoint_ce ngtcp2 "ServerEndpoint" server_endpoint_methods s in
    let s2 = set_create_object server_endpoint_ce Layout.server_endpoint s1 in
    (
      true,
      set_handlers Layout.server_endpoint
          (record { offset = Layout.server_endpoint; free_obj = Layout.server_endpoint }) s2,
    )

unfoldable pub stream_init : Globals → Started
stream_init s =
    let s1 = register_class stream_ce ngtcp2 "Stream" stream_methods s in
    let s2 = set_create_object stream_ce Layout.stream s1 in
    (
      true,
      set_handlers Layout.stream (record { offset = Layout.stream; free_obj = Layout.stream }) s2,
    )

-- An early return where an initialisation has failed.
abbrev and_then : Started → (Globals → Started) → Started
and_then (true, s) next = next s
and_then (false, s) next = (false, s)

-- PHP_MINIT_FUNCTION; the flag is whether gnutls_global_init has returned 0.
unfoldable pub module_startup : Bool → Globals → Started
unfolding address_init datagram_init event_init connection_init server_connection_init
    server_endpoint_init stream_init
module_startup false s = (false, s)
module_startup true s =
    and_then
      (and_then
        (and_then
          (and_then (and_then (and_then (address_init s) datagram_init) event_init) connection_init)
          server_connection_init)
        server_endpoint_init)
      stream_init
