-- ===== src/Config/Client.antt =====
-- ClientConfig of src/connection.c.
use ext_ngtcp.Prelude.{Option, none, Bytes, if◌then◌else◌}
use ext_ngtcp.Address.{Address, Zval, null}
use ext_ngtcp.Datagram.{nullable}
use ext_ngtcp.Exceptions.{argument_value_error, Result, returned, thrown}
use ext_ngtcp.Config.{is_empty_string}

-- php_quic_client_config
pub record ClientConfig : Type 0 where
  pub local_address : Zval Address
  pub server_name : Option Bytes
  pub alpn : Option Bytes

-- php_quic_client_config_create_object
unfoldable pub create_object : ClientConfig
create_object = record { local_address = null; server_name = none; alpn = none }

-- A void method's result, or a method's that returns the object itself.
abbrev pub Answer : Type 0
Answer = Result (Unit {0}) × ClientConfig

unfoldable pub construct :
    (local_address : Option Address) (server_name alpn : Option Bytes) → ClientConfig → Answer
unfolding is_empty_string
construct local_address server_name alpn config =
    if is_empty_string server_name
    then (thrown (argument_value_error 2), config)
    else if is_empty_string alpn
    then (thrown (argument_value_error 3), config)
    else (
      returned tt,
      record config {
        local_address = nullable local_address;
        server_name = server_name;
        alpn = alpn;
      },
    )

unfoldable pub with_local_address : Option Address → ClientConfig → Answer
with_local_address local_address config =
    (returned tt, record config { local_address = nullable local_address })

unfoldable pub with_server_name : Option Bytes → ClientConfig → Answer
unfolding is_empty_string
with_server_name server_name config =
    if is_empty_string server_name
    then (thrown (argument_value_error 1), config)
    else (returned tt, record config { server_name = server_name })

unfoldable pub with_alpn : Option Bytes → ClientConfig → Answer
unfolding is_empty_string
with_alpn alpn config =
    if is_empty_string alpn
    then (thrown (argument_value_error 1), config)
    else (returned tt, record config { alpn = alpn })
