-- ===== src/Startup/Tables.antt =====
-- The method tables of the classes: the tables of type zend_function_entry in src/address.c,
-- src/datagram.c, src/event.c, src/connection.c, src/server_connection.c, src/server_endpoint.c and
-- src/stream.c.
use Prim.Native.String.{String}
use ext_ngtcp.Prelude.{Bool, true, false, List, [], ◌∷◌}

-- An entry of a table: every method is public.
pub record Method : Type 0 where
  pub name : String
  pub is_static : Bool
  pub is_final : Bool

abbrev public : String → Method
public name = record { name = name; is_static = false; is_final = false }

abbrev public_static : String → Method
public_static name = record { name = name; is_static = true; is_final = false }

abbrev public_final : String → Method
public_final name = record { name = name; is_static = false; is_final = true }

abbrev pub address_methods : List Method
address_methods =
    public "__construct" ∷ public_static "fromString" ∷ public "getHost" ∷ public "getPort" ∷ []

abbrev pub datagram_methods : List Method
datagram_methods =
    public "__construct"
    ∷ public "getPayload"
    ∷ public "getPeerAddress"
    ∷ public "getLocalAddress"
    ∷ public "getEcn"
    ∷ public "getReceivedAt"
    ∷ []

abbrev pub event_methods : List Method
event_methods =
    public "__construct"
    ∷ public "getType"
    ∷ public "getStreamId"
    ∷ public "getErrorCode"
    ∷ public "isByPeer"
    ∷ public "getReason"
    ∷ public "getTimestamp"
    ∷ []

abbrev pub client_config_methods : List Method
client_config_methods =
    public "__construct"
    ∷ public "withLocalAddress"
    ∷ public "withServerName"
    ∷ public "withAlpn"
    ∷ public "getLocalAddress"
    ∷ public "getServerName"
    ∷ public "getAlpn"
    ∷ []

abbrev pub connection_methods : List Method
connection_methods =
    public "__construct"
    ∷ public "recv"
    ∷ public "onTimeout"
    ∷ public "handleTimers"
    ∷ public "tick"
    ∷ public "getNextTimeout"
    ∷ public "getNextExpiry"
    ∷ public "getTimeoutAt"
    ∷ public "drainEvents"
    ∷ public "drainOutgoingDatagrams"
    ∷ public "openStream"
    ∷ public "openUniStream"
    ∷ public "getStream"
    ∷ public "close"
    ∷ public "isEstablished"
    ∷ public "isClosed"
    ∷ public "isDraining"
    ∷ []

abbrev pub server_config_methods : List Method
server_config_methods =
    public "__construct"
    ∷ public "withLocalAddress"
    ∷ public "withCertificate"
    ∷ public "withAlpn"
    ∷ public "getLocalAddress"
    ∷ public "getCertFile"
    ∷ public "getKeyFile"
    ∷ public "getAlpn"
    ∷ []

abbrev pub server_connection_methods : List Method
server_connection_methods = public_final "__construct" ∷ public_static "accept" ∷ []

abbrev pub server_endpoint_methods : List Method
server_endpoint_methods =
    public "__construct"
    ∷ public "recv"
    ∷ public "handleTimers"
    ∷ public "onTimeout"
    ∷ public "tick"
    ∷ public "getNextExpiry"
    ∷ public "getTimeoutAt"
    ∷ public "getNextTimeout"
    ∷ public "drainAcceptedConnections"
    ∷ public "drainOutgoingDatagrams"
    ∷ public "drainEvents"
    ∷ public "getConnectionCount"
    ∷ []

abbrev pub stream_methods : List Method
stream_methods =
    public_final "__construct"
    ∷ public "getId"
    ∷ public "read"
    ∷ public "write"
    ∷ public "end"
    ∷ public "reset"
    ∷ public "isReadable"
    ∷ public "isWritable"
    ∷ public "isClosed"
    ∷ []
