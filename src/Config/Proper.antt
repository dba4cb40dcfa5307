-- ===== src/Config/Proper.antt =====
-- The strings of the configuration objects of src/connection.c and src/server_connection.c.
use ext_ngtcp.Prelude.{◌≡◌, refl, false, Option, List, [], ◌∷◌, Bytes, arith}
use ext_ngtcp.Address.{Address}
use ext_ngtcp.Config.{is_empty_string}
use ext_ngtcp.Config.Client
use ext_ngtcp.Config.Client.{ClientConfig}
use ext_ngtcp.Config.Server
use ext_ngtcp.Config.Server.{ServerConfig}

-- A call of a method that sets a field of a ClientConfig or of a ServerConfig.
pub data ClientUse : Type 0 where
  construct : Option Address → (server_name alpn : Option Bytes) → ClientUse
  with_local_address : Option Address → ClientUse
  with_server_name : Option Bytes → ClientUse
  with_alpn : Option Bytes → ClientUse

pub data ServerUse : Type 0 where
  construct : Option Address → (cert_file key_file alpn : Option Bytes) → ServerUse
  with_local_address : Option Address → ServerUse
  with_certificate : (cert_file key_file : Bytes) → ServerUse
  with_alpn : Option Bytes → ServerUse

client_use : ClientUse → ClientConfig → ClientConfig
client_use (ClientUse.construct a n p) c = (Client.construct a n p c).1
client_use (ClientUse.with_local_address a) c = (Client.with_local_address a c).1
client_use (ClientUse.with_server_name n) c = (Client.with_server_name n c).1
client_use (ClientUse.with_alpn p) c = (Client.with_alpn p c).1

server_use : ServerUse → ServerConfig → ServerConfig
server_use (ServerUse.construct a f k p) c = (Server.construct a f k p c).1
server_use (ServerUse.with_local_address a) c = (Server.with_local_address a c).1
server_use (ServerUse.with_certificate f k) c = (Server.with_certificate f k c).1
server_use (ServerUse.with_alpn p) c = (Server.with_alpn p c).1

pub client_uses : List ClientUse → ClientConfig → ClientConfig
client_uses [] c = c
client_uses (u ∷ us) c = client_uses us (client_use u c)

pub server_uses : List ServerUse → ServerConfig → ServerConfig
server_uses [] c = c
server_uses (u ∷ us) c = server_uses us (server_use u c)

abbrev ClientProper : ClientConfig → Type 0
ClientProper c = (is_empty_string c.server_name ≡ false) × (is_empty_string c.alpn ≡ false)

abbrev ServerProper : ServerConfig → Type 0
ServerProper c =
    (is_empty_string c.cert_file ≡ false)
    × (is_empty_string c.key_file ≡ false)
    × (is_empty_string c.alpn ≡ false)

client_use-Proper :
    (u : ClientUse) (c : ClientConfig) → ClientProper c → ClientProper (client_use u c)
unfolding client_use Client.construct Client.with_local_address Client.with_server_name
    Client.with_alpn
client_use-Proper (ClientUse.construct a n p) c h = ground (arith, h)
client_use-Proper (ClientUse.with_local_address a) c h = h
client_use-Proper (ClientUse.with_server_name n) c h = ground (arith, h)
client_use-Proper (ClientUse.with_alpn p) c h = ground (arith, h)

server_use-Proper :
    (u : ServerUse) (c : ServerConfig) → ServerProper c → ServerProper (server_use u c)
unfolding server_use Server.construct Server.with_local_address Server.with_certificate
    Server.with_alpn
server_use-Proper (ServerUse.construct a f k p) c h = ground (arith, h)
server_use-Proper (ServerUse.with_local_address a) c h = h
server_use-Proper (ServerUse.with_certificate f k) c h = ground (arith, h)
server_use-Proper (ServerUse.with_alpn p) c h = ground (arith, h)

client_uses-Proper :
    (us : List ClientUse) (c : ClientConfig) → ClientProper c → ClientProper (client_uses us c)
unfolding client_uses
client_uses-Proper [] c h = h
client_uses-Proper (u ∷ us) c h = client_uses-Proper us (client_use u c) (client_use-Proper u c h)

server_uses-Proper :
    (us : List ServerUse) (c : ServerConfig) → ServerProper c → ServerProper (server_uses us c)
unfolding server_uses
server_uses-Proper [] c h = h
server_uses-Proper (u ∷ us) c h = server_uses-Proper us (server_use u c) (server_use-Proper u c h)

-- Whatever methods are called on a new ClientConfig or ServerConfig, with whatever arguments: none
-- of the names, paths and protocols that it holds afterwards is the empty string.
pub strings_given :
    (us : List ClientUse) (vs : List ServerUse)
    → (let c = client_uses us Client.create_object in
        (is_empty_string c.server_name ≡ false) × (is_empty_string c.alpn ≡ false))
      × (let s = server_uses vs Server.create_object in
          (is_empty_string s.cert_file ≡ false)
          × (is_empty_string s.key_file ≡ false)
          × (is_empty_string s.alpn ≡ false))
unfolding Client.create_object Server.create_object is_empty_string
strings_given us vs = (
  client_uses-Proper us Client.create_object (refl, refl),
  server_uses-Proper vs Server.create_object (refl, refl, refl),
)
