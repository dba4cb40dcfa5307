-- ===== src/Startup.antt =====
-- src/ngtcp2.c: the start of the extension.
pub mod Tables
pub mod Engine
pub mod Register
pub mod Classes
pub mod Names
