-- ===== src/Examples/Server.antt =====
-- The connections of the model, over the sample library, as an endpoint needs them.
use ext_ngtcp.Prelude.{false, Option, none, some, List, [], ◌∷◌}
use ext_ngtcp.Event.{EventObject}
use ext_ngtcp.Datagram.{Datagram}
use ext_ngtcp.Exceptions.{Result}
use ext_ngtcp.Exceptions
use ext_ngtcp.Config.Server.{ServerConfig}
use ext_ngtcp.Config.Server
use ext_ngtcp.Connection.State.{Connection}
use ext_ngtcp.Connection.State
use ext_ngtcp.Connection.Accept.Inputs.{Surroundings}
use ext_ngtcp.Connection.Accept.{accept}
use ext_ngtcp.Connection.Methods
use ext_ngtcp.Connection.Timers
use ext_ngtcp.Connection.Methods.{Done}
use ext_ngtcp.Endpoint.State.{Dispatch, failed, raised, other, value, Handler}
use ext_ngtcp.Examples.Sample.{sample}

-- A method call as the endpoint sees it.
abbrev pub dispatched : {A : Type 0} → Result A × Connection sample → Dispatch A × Connection sample
dispatched (Exceptions.returned a, c) = (value a, c)
dispatched (Exceptions.thrown x, c) = (raised, c)

abbrev pub nullable : {A : Type 0} → Option A × Connection sample → Dispatch A × Connection sample
nullable (none, c) = (other, c)
nullable (some a, c) = (value a, c)

abbrev pub accepted : Result (Connection sample) → Dispatch (Connection sample)
accepted (Exceptions.returned c) = value c
accepted (Exceptions.thrown x) = raised

abbrev pub sent :
    Option (Result (List Datagram) × Connection sample)
    → Connection sample
    → Dispatch (List Datagram) × Connection sample
sent none c = (failed, c)
sent (some r) c = dispatched r

abbrev pub around : Surroundings
around = record { force_failure = none; scid = some (5 ∷ []); token = some (6 ∷ []) }

-- The connections of the model, over the sample library, behind the endpoint.
abbrev pub connections : Handler
connections = record {
  Object = Connection sample;
  Config = ServerConfig;
  Event = EventObject;
  fails_while_pending = false;
  closed = λ c. c.closed;
  close_requested = λ c. c.close_requested;
  close_packet_sent = λ c. c.close_packet_sent;
  accept = λ d config. accepted (accept sample 0 around d config).0;
  recv = λ d c. dispatched (Methods.recv d c);
  handle_timers = λ c. dispatched (Methods.handle_timers c);
  get_next_expiry = λ c. nullable (Timers.get_next_expiry c);
  get_next_timeout = λ c. nullable (Timers.get_next_timeout c);
  drain_outgoing_datagrams = λ c. sent (Methods.drain_outgoing_datagrams 600 c) c;
  drain_events = λ c. let (events, d) = Methods.drain_events c in (value events, d);
}

abbrev pub blank : Connection sample
blank = State.create_object sample 0

abbrev pub config : ServerConfig
config = record Server.create_object { cert_file = some (1 ∷ []); key_file = some (2 ∷ []) }
