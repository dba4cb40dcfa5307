-- ===== src/Connection/History/SetupCalls.antt =====
-- The set-up of a client's connection (src/connection.c) as chains of moves.
use ext_ngtcp.Prelude.{refl, Option, none, some, Bytes, arith, if_rule, option_rule}
use ext_ngtcp.Address.{Address, object, to_sockaddr}
use ext_ngtcp.Datagram.{nullable}
use ext_ngtcp.Platform.{Platform}
use ext_ngtcp.Config.Client.{ClientConfig}
use ext_ngtcp.Tls.{Tls, init_client}
use ext_ngtcp.Connection.State.{Connection, tick_clock, timestamp}
use ext_ngtcp.Connection.Setup.{
  client_new, init_native, named, secured, bound_addr, construct, config_local, config_alpn, sni_of,
  refuses_sni, client_params, proto_ver_v1,
}
use ext_ngtcp.Connection.History.Moves.{
  life_refl, keeps_refl, quiet, Moves, here, Moves-trans, one, tick_clock-Move,
}
use ext_ngtcp.Connection.History.Calls.{Reaches}

module _ {P : Platform} where
  client_new-Reaches : (dcid scid : Bytes) (c : Connection P) → Reaches c (client_new dcid scid c)
  unfolding client_new tick_clock
  client_new-Reaches dcid scid c =
      option_rule (Reaches c)
        (P.client_new (record { dcid = dcid; scid = scid; version = proto_ver_v1 }) c.local_addr
          c.remote_addr (timestamp c) client_params)
        _ _ (λ _. one (tick_clock-Move c))
        λ conn _.
          one (quiet (omega arith, life_refl c, keeps_refl c.streams) (refl, refl, refl) refl)

  init_native-Reaches :
      (dcid scid : Option Bytes) (c : Connection P) → Reaches c (init_native dcid scid c)
  unfolding init_native
  init_native-Reaches none scid c = here
  init_native-Reaches (some dcid) none c = here
  init_native-Reaches (some dcid) (some scid) c = client_new-Reaches dcid scid c

  named-Reaches :
      (sni : Bytes) (dcid scid : Option Bytes) (c : Connection P)
      → Reaches c (named sni dcid scid c)
  unfolding named
  named-Reaches sni dcid scid c =
      if_rule (Reaches c) (refuses_sni P sni) _ _ (λ _. here) (λ _. init_native-Reaches dcid scid c)

  set_tls-Moves : (c : Connection P) (tls : Tls) → Moves c (record c { tls = tls })
  set_tls-Moves c tls =
      one (quiet (omega arith, life_refl c, keeps_refl c.streams) (refl, refl, refl) refl)

  secured-Reaches :
      (alpn sni : Bytes) (dcid scid : Option Bytes) (c : Connection P)
      → Reaches c (secured alpn sni dcid scid c)
  unfolding secured
  secured-Reaches alpn sni dcid scid c =
      let r = init_client P.gnutls_client alpn c.tls in
      if_rule (Reaches c) c.tls.session _ _ (λ _. named-Reaches sni dcid scid c)
        λ _.
          if_rule (Reaches c) r.0 _ _
            (λ _.
              Moves-trans (set_tls-Moves c r.1)
                (named-Reaches sni dcid scid (record c { tls = r.1 })))
            (λ _. set_tls-Moves c r.1)

  pub construct-Reaches :
      (remote : Address) (config : Option ClientConfig) (dcid scid : Option Bytes)
      (c : Connection P)
      → Reaches c (construct remote config dcid scid c)
  unfolding construct
  construct-Reaches remote config dcid scid c =
      let c1 = record c {
        remote_address = object remote;
        local_address = nullable (config_local config);
      } in
      option_rule (Reaches c) (to_sockaddr P (object remote)) _ _
        (λ _. one (quiet (omega arith, life_refl c, keeps_refl c.streams) (refl, refl, refl) refl))
        λ remote_addr _.
          option_rule (Reaches c) (bound_addr P (config_local config) remote_addr) _ _
            (λ _.
              one (quiet (omega arith, life_refl c, keeps_refl c.streams) (refl, refl, refl) refl))
            λ local_addr _.
              Moves-trans
                (one
                  (quiet (omega arith, life_refl c, keeps_refl c.streams) (refl, refl, refl) refl))
                (secured-Reaches (config_alpn config) (sni_of P remote config) dcid scid
                  (record c1 { remote_addr = remote_addr; local_addr = local_addr }))
