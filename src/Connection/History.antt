-- ===== src/Connection/History.antt =====
-- What any step of src/connection.c, src/callbacks.c and src/stream.c may do to the events and the
-- flags of a connection: a step is a chain of moves, each of which announces at most one event.
pub mod Table
pub mod Moves
pub mod Steps
pub mod Transmission
pub mod Calls
pub mod StreamCalls
pub mod SetupCalls
pub mod AcceptCalls
pub mod Reach
pub mod Once
pub mod Time
pub mod Kinds
pub mod Lifecycle
pub mod Draining
