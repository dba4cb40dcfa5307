-- ===== src/Connection/Delivery.antt =====
-- The way of stream data from libngtcp2 through the handlers of src/callbacks.c and the buffers of
-- src/connection.c to the calls of Stream::read.
pub mod Library
pub mod Buffers
pub mod Handlers
pub mod Feeds
pub mod Loop
pub mod Tails
pub mod Methods
pub mod Starts
pub mod Recorded
pub mod Session
