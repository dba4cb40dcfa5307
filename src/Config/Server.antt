-- ===== src/Config/Server.antt =====
-- ServerConfig of src/server_connection.c.
use ext_ngtcp.Prelude.{Option, none, some, Bytes, if◌then◌else◌}
use ext_ngtcp.Address.{Address, Zval, null}
use ext_ngtcp.Datagram.{nullable}
use ext_ngtcp.Exceptions.{argument_value_error, Result, returned, thrown}
use ext_ngtcp.Config.{is_empty_string}

-- php_quic_server_config
pub record ServerConfig : Type 0 where
  pub local_address : Zval Address
  pub cert_file : Option Bytes
  pub key_file : Option Bytes
  pub alpn : Option Bytes

-- php_quic_server_config_create_object
unfoldable pub create_object : ServerConfig
create_object = record { local_address = null; cert_file = none; key_file = none; alpn = none }

-- A void method's result, or a method's that returns the object itself.
abbrev pub Answer : Type 0
Answer = Result (Unit {0}) × ServerConfig

unfoldable pub construct :
    (local_address : Option Address) (cert_file key_file alpn : Option Bytes)
    → ServerConfig
    → Answer
unfolding is_empty_string
construct local_address cert_file key_file alpn config =
    if is_empty_string cert_file
    then (thrown (argument_value_error 2), config)
    else if is_empty_string key_file
    then (thrown (argument_value_error 3), config)
    else if is_empty_string alpn
    then (thrown (argument_value_error 4), config)
    else (
      returned tt,
      record config {
        local_address = nullable local_address;
        cert_file = cert_file;
        key_file = key_file;
        alpn = alpn;
      },
    )

unfoldable pub with_local_address : Option Address → ServerConfig → Answer
with_local_address local_address config =
    (returned tt, record config { local_address = nullable local_address })

-- The two paths are not nullable here.
unfoldable pub with_certificate : (cert_file key_file : Bytes) → ServerConfig → Answer
unfolding is_empty_string
with_certificate cert_file key_file config =
    if is_empty_string (some cert_file)
    then (thrown (argument_value_error 1), config)
    else if is_empty_string (some key_file)
    then (thrown (argument_value_error 2), config)
    else (returned tt, record config { cert_file = some cert_file; key_file = some key_file })

unfoldable pub with_alpn : Option Bytes → ServerConfig → Answer
unfolding is_empty_string
with_alpn alpn config =
    if is_empty_string alpn
    then (thrown (argument_value_error 1), config)
    else (returned tt, record config { alpn = alpn })
