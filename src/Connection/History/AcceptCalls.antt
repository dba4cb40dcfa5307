-- ===== src/Connection/History/AcceptCalls.antt =====
-- ServerConnection::accept of src/server_connection.c as chains of moves.
use ext_ngtcp.Prelude.{
  ℕ, refl, subst, not, Option, some, Bytes, arith, length, ◌==◌, c_string, if_rule, option_rule,
}
use ext_ngtcp.Address.{Address, to_sockaddr}
use ext_ngtcp.Datagram.{Datagram}
use ext_ngtcp.Platform.{Platform, Decoded, Status, success, failure}
use ext_ngtcp.Exceptions.{Result, returned, thrown, result_rule}
use ext_ngtcp.Config.Server.{ServerConfig}
use ext_ngtcp.Tls.{init_server}
use ext_ngtcp.Callbacks.{absorb}
use ext_ngtcp.Connection.State.{Connection, create_object, tick_clock, timestamp}
use ext_ngtcp.Connection.Setup.{object_of, alpn_or}
use ext_ngtcp.Connection.Accept.Inputs.{
  Surroundings, check_decoded, local_of, test_force_server_new_failure, server_params, hq_interop,
}
use ext_ngtcp.Connection.Accept.{
  Accepted, finish_initial, read_initial, server_new, set_up, addressed, accept_files, accept,
}
use ext_ngtcp.Connection.History.Moves.{life_refl, keeps_refl, quiet, Moves, Moves-trans, one}
use ext_ngtcp.Connection.History.Steps.{timed-Moves}

-- A connection that is returned is reached by moves.
abbrev pub Builds : {P : Platform} → Connection P → Accepted P → Type 0
Builds c (returned d, left) = Moves c d
Builds c (thrown x, left) = Unit

Builds-trans :
    {P : Platform} {c d : Connection P} (r : Accepted P) → Moves c d → Builds d r → Builds c r
Builds-trans (returned e, left) m b = Moves-trans m b
Builds-trans (thrown x, left) m b = tt

-- The same, where nothing can be left.
abbrev Sets : {P : Platform} → Connection P → Result (Connection P) → Type 0
Sets c (returned d) = Moves c d
Sets c (thrown x) = Unit

module _ {P : Platform} where
  finish_initial-Builds :
      (s : Status) (c d : Connection P) → Moves c d → Builds c (finish_initial s d)
  unfolding finish_initial
  finish_initial-Builds success c d m = m
  finish_initial-Builds (failure code) c d m = tt

  read_initial-Builds :
      (conn : P.Conn) (payload : Bytes) (c : Connection P) → Builds c (read_initial conn payload c)
  unfolding read_initial
  read_initial-Builds conn payload c =
      let c1 = record c { conn = some conn } in
      let o = P.read_pkt conn c.local_addr c.remote_addr payload (timestamp c) in
      finish_initial-Builds o.result c (absorb o (tick_clock c1)) (
        Moves-trans
          (one (quiet (omega arith, life_refl c, keeps_refl c.streams) (refl, refl, refl) refl))
          (timed-Moves o c1))

  server_new-Builds :
      (s : Surroundings) (vc : Decoded) (scid token payload : Bytes) (initial_ts : ℕ)
      (c : Connection P)
      → Builds c (server_new s vc scid token payload initial_ts c)
  unfolding server_new
  server_new-Builds s vc scid token payload initial_ts c =
      if_rule (Builds c) (test_force_server_new_failure s.force_failure) _ _ (λ _. tt)
        λ _.
          option_rule (Builds c)
            (P.server_new (record { dcid = vc.scid; scid = scid; version = vc.version })
              c.local_addr c.remote_addr initial_ts (server_params token vc.dcid))
            _ _ (λ _. tt) λ conn _. read_initial-Builds conn payload c

  set_up-Builds :
      (s : Surroundings) (vc : Decoded) (cert_file key_file alpn payload : Bytes) (c : Connection P)
      → Builds c (set_up s vc cert_file key_file alpn payload c)
  unfolding set_up tick_clock timestamp
  set_up-Builds s vc cert_file key_file alpn payload c =
      let r =
        init_server P.gnutls_server (c_string cert_file) (c_string key_file) (c_string alpn)
          c.tls in
      let d = tick_clock (record c { tls = r.1 }) in
      if_rule (Builds c) (not r.0) _ _ (λ _. tt)
        λ _.
          option_rule (Builds c) s.scid _ _ (λ _. tt)
            λ scid _.
              option_rule (Builds c) s.token _ _ (λ _. tt)
                λ token _.
                  Builds-trans {c = c} {d = d} (server_new s vc scid token payload (timestamp c) d)
                    (one (
                      quiet (omega arith, life_refl c, keeps_refl c.streams) (refl, refl, refl)
                        refl))
                    (server_new-Builds s vc scid token payload (timestamp c) d)

  addressed-Sets :
      (initial : Datagram) (config_address : Option Address) (c : Connection P)
      → Sets c (addressed initial config_address c)
  unfolding addressed
  addressed-Sets initial config_address c =
      option_rule (Sets c) (to_sockaddr P initial.peer_address) _ _ (λ _. tt)
        λ remote _.
          result_rule (Sets c) (local_of P config_address (object_of initial.local_address) remote)
            _ _
            (λ addr _.
              one (quiet (omega arith, life_refl c, keeps_refl c.streams) (refl, refl, refl) refl))
            λ x _. tt

  accept_files-Builds :
      (s : Surroundings) (initial : Datagram) (config_address : Option Address)
      (cert_file key_file alpn : Bytes) (c : Connection P)
      → Builds c (accept_files s initial config_address cert_file key_file alpn c)
  unfolding accept_files
  accept_files-Builds s initial config_address cert_file key_file alpn c =
      let vc = P.decode_version_cid initial.payload in
      if_rule (Builds c) (length initial.payload == 0) _ _ (λ _. tt)
        λ _.
          result_rule (Builds c) (check_decoded P vc) _ _
            (λ u _.
              result_rule (Builds c) (addressed initial config_address c) _ _
                (λ d e.
                  Builds-trans (set_up s vc cert_file key_file alpn initial.payload d)
                    (subst (Sets c) e (addressed-Sets initial config_address c))
                    (set_up-Builds s vc cert_file key_file alpn initial.payload d))
                λ x _. tt)
            λ x _. tt

pub accept-Builds :
    (P : Platform) (zero_addr : P.Sockaddr) (s : Surroundings) (initial : Datagram)
    (config : ServerConfig)
    → Builds (create_object P zero_addr) (accept P zero_addr s initial config)
unfolding accept
accept-Builds P zero_addr s initial config =
    let c = create_object P zero_addr in
    option_rule (Builds c) config.cert_file _ _ (λ _. tt)
      λ cert_file _.
        option_rule (Builds c) config.key_file _ _ (λ _. tt)
          λ key_file _.
            accept_files-Builds s initial (object_of config.local_address) cert_file key_file
              (alpn_or hq_interop config.alpn) c
