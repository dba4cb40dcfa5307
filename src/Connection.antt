-- ===== src/Connection.antt =====
-- src/connection.c, by parts: the state and its table of streams, the transmission of stream data,
-- the methods, and the proofs.
pub mod State
pub mod Transmit
pub mod Loop
pub mod Methods
pub mod Timers
pub mod Open
pub mod Setup
pub mod Free
pub mod Accept
pub mod History
pub mod Delivery
