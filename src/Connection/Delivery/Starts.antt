-- ===== src/Connection/Delivery/Starts.antt =====
-- The receive buffers of a connection that Connection::__construct (src/connection.c) has set up or
-- ServerConnection::accept (src/server_connection.c) has returned.
use ext_ngtcp.Prelude.{
  ℕ, ◌≡◌, refl, sym, ap, ◌∙◌, subst, not, Option, none, some, [], ◌++◌, Bytes, length, ◌==◌,
  c_string, if_rule, option_rule,
}
use ext_ngtcp.Address.{Address, object, to_sockaddr}
use ext_ngtcp.Datagram.{Datagram, nullable}
use ext_ngtcp.Platform.{Platform, Decoded, Status, success, failure}
use ext_ngtcp.Exceptions.{Result, returned, thrown, result_rule}
use ext_ngtcp.Config.Client.{ClientConfig}
use ext_ngtcp.Config.Server.{ServerConfig}
use ext_ngtcp.Tls.{init_client, init_server}
use ext_ngtcp.Callbacks.{absorb}
use ext_ngtcp.Connection.State.{Connection, create_object, find, tick_clock, timestamp}
use ext_ngtcp.Connection.Setup.{
  client_new, init_native, named, secured, bound_addr, construct, config_local, config_alpn, sni_of,
  refuses_sni, object_of, alpn_or, client_params, proto_ver_v1,
}
use ext_ngtcp.Connection.Accept.Inputs.{
  Surroundings, check_decoded, local_of, test_force_server_new_failure, server_params, hq_interop,
}
use ext_ngtcp.Connection.Accept.{
  Accepted, give_up, finish_initial, read_initial, server_new, set_up, addressed, accept_files,
  accept,
}
use ext_ngtcp.Connection.Delivery.Library.{IsRecorded}
use ext_ngtcp.Connection.Delivery.Buffers.{rx}
use ext_ngtcp.Connection.Delivery.Feeds.{seen, timed-Feeds}

module _ {P : Platform} (lib : IsRecorded P) (k : ℕ) where
  -- Nothing has been delivered on stream k, and nothing is in its buffer.
  abbrev Blank : Connection P → Type 0
  Blank c = (seen lib k c.conn ≡ []) × (rx k c.streams ≡ [])

  abbrev Blanks {ℓ} : {A : Type ℓ} → A × Connection P → Type 0
  Blanks r = Blank r.1

  client_new-Blanks :
      (dcid scid : Bytes) (c : Connection P) → Blank c → Blanks (client_new dcid scid c)
  unfolding client_new tick_clock seen
  client_new-Blanks dcid scid c b =
      option_rule Blanks
        (P.client_new (record { dcid = dcid; scid = scid; version = proto_ver_v1 }) c.local_addr
          c.remote_addr (timestamp c) client_params)
        _ _ (λ _. b)
        (λ conn made.
          (lib.at_client _ c.local_addr c.remote_addr (timestamp c) client_params conn k made, b.1))

  init_native-Blanks :
      (dcid scid : Option Bytes) (c : Connection P) → Blank c → Blanks (init_native dcid scid c)
  unfolding init_native
  init_native-Blanks none scid c b = b
  init_native-Blanks (some dcid) none c b = b
  init_native-Blanks (some dcid) (some scid) c b = client_new-Blanks dcid scid c b

  named-Blanks :
      (sni : Bytes) (dcid scid : Option Bytes) (c : Connection P)
      → Blank c
      → Blanks (named sni dcid scid c)
  unfolding named
  named-Blanks sni dcid scid c b =
      if_rule Blanks (refuses_sni P sni) _ _ (λ _. b) (λ _. init_native-Blanks dcid scid c b)

  secured-Blanks :
      (alpn sni : Bytes) (dcid scid : Option Bytes) (c : Connection P)
      → Blank c
      → Blanks (secured alpn sni dcid scid c)
  unfolding secured
  secured-Blanks alpn sni dcid scid c b =
      let r = init_client P.gnutls_client alpn c.tls in
      if_rule Blanks c.tls.session _ _ (λ _. named-Blanks sni dcid scid c b)
        λ _.
          if_rule Blanks r.0 _ _ (λ _. named-Blanks sni dcid scid (record c { tls = r.1 }) b)
            (λ _. b)

  pub construct-Blanks :
      (remote : Address) (config : Option ClientConfig) (dcid scid : Option Bytes)
      (c : Connection P)
      → Blank c
      → Blanks (construct remote config dcid scid c)
  unfolding construct
  construct-Blanks remote config dcid scid c b =
      let c1 = record c {
        remote_address = object remote;
        local_address = nullable (config_local config);
      } in
      option_rule Blanks (to_sockaddr P (object remote)) _ _ (λ _. b)
        λ remote_addr _.
          option_rule Blanks (bound_addr P (config_local config) remote_addr) _ _ (λ _. b)
            λ local_addr _.
              secured-Blanks (config_alpn config) (sni_of P remote config) dcid scid
                (record c1 { remote_addr = remote_addr; local_addr = local_addr }) b

  -- In a connection that is returned, all that has been delivered is in the buffer.
  abbrev pub Fresh : Accepted P → Type 0
  Fresh (returned d, left) = seen lib k d.conn ≡ rx k d.streams
  Fresh (thrown x, left) = Unit

  finish_initial-Fresh :
      (s : Status) (c : Connection P)
      → seen lib k c.conn ≡ rx k c.streams
      → Fresh (finish_initial s c)
  unfolding finish_initial give_up
  finish_initial-Fresh success c e = e
  finish_initial-Fresh (failure code) c e = tt

  read_initial-Fresh :
      (conn : P.Conn) (payload : Bytes) (c : Connection P)
      → lib.delivered conn k ≡ []
      → rx k c.streams ≡ []
      → Fresh (read_initial conn payload c)
  unfolding read_initial seen
  read_initial-Fresh conn payload c new empty =
      let c1 = record c { conn = some conn } in
      let now = timestamp c in
      let o = P.read_pkt conn c.local_addr c.remote_addr payload now in
      let d = absorb o (tick_clock c1) in
      let f =
        timed-Feeds lib k conn o c1 refl
          (lib.at_read conn c.local_addr c.remote_addr payload now k) in
      finish_initial-Fresh o.result d (f.1 ∙ ap (λ xs. xs ++ f.0) (new ∙ sym empty) ∙ sym f.2)

  server_new-Fresh :
      (s : Surroundings) (vc : Decoded) (scid token payload : Bytes) (initial_ts : ℕ)
      (c : Connection P)
      → rx k c.streams ≡ []
      → Fresh (server_new s vc scid token payload initial_ts c)
  unfolding server_new give_up
  server_new-Fresh s vc scid token payload initial_ts c empty =
      if_rule Fresh (test_force_server_new_failure s.force_failure) _ _ (λ _. tt)
        λ _.
          option_rule Fresh
            (P.server_new (record { dcid = vc.scid; scid = scid; version = vc.version })
              c.local_addr c.remote_addr initial_ts (server_params token vc.dcid))
            _ _ (λ _. tt)
            λ conn made.
              read_initial-Fresh conn payload c
                (lib.at_server _ c.local_addr c.remote_addr initial_ts (server_params token vc.dcid)
                  conn k made)
                empty

  set_up-Fresh :
      (s : Surroundings) (vc : Decoded) (cert_file key_file alpn payload : Bytes) (c : Connection P)
      → rx k c.streams ≡ []
      → Fresh (set_up s vc cert_file key_file alpn payload c)
  unfolding set_up tick_clock timestamp give_up
  set_up-Fresh s vc cert_file key_file alpn payload c empty =
      let r =
        init_server P.gnutls_server (c_string cert_file) (c_string key_file) (c_string alpn)
          c.tls in
      let c1 = record c { tls = r.1 } in
      if_rule Fresh (not r.0) _ _ (λ _. tt)
        λ _.
          option_rule Fresh s.scid _ _ (λ _. tt)
            λ scid _.
              option_rule Fresh s.token _ _ (λ _. tt)
                λ token _.
                  server_new-Fresh s vc scid token payload (timestamp c1) (tick_clock c1) empty

  Unread : Connection P → Result (Connection P) → Type 0
  Unread c (returned d) = d.streams ≡ c.streams
  Unread c (thrown x) = Unit

  addressed-Unread :
      (initial : Datagram) (config_address : Option Address) (c : Connection P)
      → Unread c (addressed initial config_address c)
  unfolding addressed Unread
  addressed-Unread initial config_address c =
      option_rule (Unread c) (to_sockaddr P initial.peer_address) _ _ (λ _. tt)
        λ remote _.
          result_rule (Unread c)
            (local_of P config_address (object_of initial.local_address) remote) _ _
            (λ addr _. refl) (λ x _. tt)

  accept_files-Fresh :
      (s : Surroundings) (initial : Datagram) (config_address : Option Address)
      (cert_file key_file alpn : Bytes) (c : Connection P)
      → rx k c.streams ≡ []
      → Fresh (accept_files s initial config_address cert_file key_file alpn c)
  unfolding accept_files Unread
  accept_files-Fresh s initial config_address cert_file key_file alpn c empty =
      let vc = P.decode_version_cid initial.payload in
      if_rule Fresh (length initial.payload == 0) _ _ (λ _. tt)
        λ _.
          result_rule Fresh (check_decoded P vc) _ _
            (λ u _.
              result_rule Fresh (addressed initial config_address c) _ _
                (λ d e. set_up-Fresh s vc cert_file key_file alpn initial.payload d (
                  ap (rx k) (subst (Unread c) e (addressed-Unread initial config_address c))
                  ∙ empty))
                (λ x _. tt))
            (λ x _. tt)

  pub accept-Fresh :
      (zero_addr : P.Sockaddr) (s : Surroundings) (initial : Datagram) (config : ServerConfig)
      → Fresh (accept P zero_addr s initial config)
  unfolding accept create_object rx find
  accept-Fresh zero_addr s initial config =
      option_rule Fresh config.cert_file _ _ (λ _. tt)
        λ cert_file _.
          option_rule Fresh config.key_file _ _ (λ _. tt)
            λ key_file _.
              accept_files-Fresh s initial (object_of config.local_address) cert_file key_file
                (alpn_or hq_interop config.alpn) (create_object P zero_addr) refl
