-- ===== src/Lib.antt =====
-- A PHP extension that exposes libngtcp2 as a QUIC transport without I/O of its own.
--
-- The program. A Connection (src/connection.c) holds a handle of libngtcp2, a table of streams and a
-- queue of events. A caller hands datagrams in (recv), asks when to call again (getNextTimeout,
-- getNextExpiry), lets timers fire (handleTimers), takes datagrams out (drainOutgoingDatagrams) and
-- takes events out (drainEvents). libngtcp2 calls back (src/callbacks.c) while one of its functions
-- runs; a handler changes the table and queues events. A Stream object (src/stream.c) is a view of one
-- entry of the table. ServerConnection::accept (src/server_connection.c) makes a connection from a
-- first datagram, and a ServerEndpoint (src/server_endpoint.c) keeps many, by the peer's address.
--
-- The files.
--   Prelude: numbers, lists, machine words, C strings. Platform: libngtcp2, GnuTLS, the resolver, the
--   clocks, as one record that every definition takes; Exceptions: what the methods throw.
--   Buffer: src/buffer.c. Queue: src/queue.c, by pointers on a heap; Queue.Refinement relates it
--   to a list, and the connection keeps the list. Event, Datagram, Address: src/event.c,
--   src/datagram.c, src/address.c. Config: the configuration objects. Tls: src/tls_gnutls.c.
--   Connection.State: the record php_quic_connection (src/internal/types.h), php_quic_stream_entry,
--   and the functions that all others use (push_event, sync_state, the stream table).
--   Connection.Transmit: pick_tx_stream, update_tx_entry, discard_tx_entry. Connection.Loop: the loop
--   of drainOutgoingDatagrams, a round at a time. Connection.Methods, Connection.Timers,
--   Connection.Open: the methods. Connection.Setup: the constructor. Connection.Accept:
--   ServerConnection::accept, with its inputs, its error paths and what each path leaves allocated.
--   Connection.Free: the release of an object. Callbacks: the handlers. Stream: the methods of a
--   stream. Connection.Delivery: stream data on its way from libngtcp2 to read, on a library that
--   records what it delivers. Stream.Object: the stream objects, which refer to their connection;
--   Stream.World, Stream.Counts, Stream.Kept, Stream.Lifetime: what a script does with them, and the
--   counts of the references.
--   Connection.History: every sequence of calls, as a relation of steps (Reach). The children
--   take each call apart into moves, which the invariants of all histories are about.
--   Endpoint: the server endpoint, over the record Handler of what it needs of a connection object.
--   In it fails_while_pending is what call_user_function answers while an exception is pending, a
--   failure in old versions of PHP and a success in new ones; both are covered. Endpoint.Calls has
--   the sequences of its calls, Endpoint.Handles and Endpoint.Removed what holds along them,
--   Endpoint.Tables and Endpoint.Others the lemmas on the table.
--   Startup: the start of the module in ngtcp2.c. Startup.Register: the registration functions of each
--   file, over Startup.Engine; Startup.Tables: the method tables; Startup.Classes: the classes then;
--   Startup.Names: the names of the Event constants and classes.
--   Examples: a concrete library, on which the definitions run, and the theorems at these runs.
--
-- How it is modelled. Pointers to stream entries are keys, and a write through a pointer is `modify`
-- at the key. A library call returns the callbacks that it makes, and `absorb` runs the handlers in
-- that order before the caller goes on. A reading of the clock is numbered. Integers of fixed width
-- are bit patterns, with the wrap-around written out. A NULL is `none`; an exception is `thrown`.
--
-- Fuel. Connection.Loop.loop runs on fuel, since its end depends on what libngtcp2 answers; `none` is
-- that the fuel ran out. Its measure is the room in the packet that libngtcp2 builds, then the number
-- of streams with output, until the next datagram, and the number of datagrams up to 256
-- (Connection.Loop.Busy, Connection.Loop.Answers, Connection.Loop.Rounds,
-- Connection.Loop.Termination). The histories take a call with the result that it has on enough fuel.
-- Queue.drain runs on fuel, with one more than there are events as enough.
--
-- Not modelled: memory management of the PHP engine but for the references to connection objects,
-- argument parsing and argument information, warnings, the cryptography, and the fields of
-- libngtcp2's settings that are left at their defaults.
pub mod Prelude
pub mod Buffer
pub mod Queue
pub mod Platform
pub mod Address
pub mod Event
pub mod Exceptions
pub mod Datagram
pub mod Config
pub mod Tls
pub mod Connection
pub mod Callbacks
pub mod Startup
pub mod Stream
pub mod Endpoint
pub mod Examples
