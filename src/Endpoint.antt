-- ===== src/Endpoint.antt =====
-- src/server_endpoint.c: a server endpoint routes datagrams to connections by the peer's address.
pub mod State
pub mod Methods
pub mod Cleanup
pub mod Routing
pub mod Keys
pub mod Deadlines
pub mod Gather
pub mod Tables
pub mod Calls
pub mod Handles
pub mod Others
pub mod Removed
