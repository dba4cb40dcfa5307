-- ===== src/Endpoint/Calls.antt =====
-- The calls of an endpoint of src/server_endpoint.c in sequence.
use ext_ngtcp.Prelude.{ℕ, []}
use ext_ngtcp.Datagram.{Datagram}
use ext_ngtcp.Endpoint.State.{Handler, Endpoint}
use ext_ngtcp.Endpoint.Methods.{
  construct, recv, handle_timers, get_next_expiry, get_next_timeout, drain_accepted_connections,
  drain_outgoing_datagrams, drain_events,
}

-- The endpoint that a first call of the constructor makes.
abbrev pub created : {H : Handler} → H.Config → (ℕ → H.Object) → Endpoint H
created config objects = record {
  config = config;
  accepted_queue = [];
  connections = [];
  objects = objects;
  next_handle = 0;
}

-- One method call, whatever it returns or throws.
pub data Call {H : Handler} (e : Endpoint H) : Endpoint H → Type 0 where
  constructs : (config : H.Config) → Call e (construct config e)
  receives : (d : Datagram) → Call e (recv d e).1
  timers : Call e (handle_timers e).1
  expiry : Call e (get_next_expiry e).1
  timeout : Call e (get_next_timeout e).1
  accepted : Call e (drain_accepted_connections e).1
  datagrams : Call e (drain_outgoing_datagrams e).1
  events : Call e (drain_events e).1

-- Any number of calls.
pub data Calls {H : Handler} (e : Endpoint H) : Endpoint H → Type 0 where
  here : Calls e e
  next : {d d' : Endpoint H} → Calls e d → Call d d' → Calls e d'
