-- ===== src/Config.antt =====
-- The configuration objects: ClientConfig of src/connection.c and ServerConfig of
-- src/server_connection.c. A null string is `none`; an argument that is left out is null.
pub mod Client
pub mod Server
pub mod Proper
use ext_ngtcp.Prelude.{Bool, true, false, Option, none, some, [], ◌∷◌, Bytes}

-- A string is given, and has no bytes.
unfoldable pub is_empty_string : Option Bytes → Bool
is_empty_string none = false
is_empty_string (some []) = true
is_empty_string (some (b ∷ bytes)) = false
