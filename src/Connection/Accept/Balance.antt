-- ===== src/Connection/Accept/Balance.antt =====
-- What ServerConnection::accept of src/server_connection.c gives back.
use ext_ngtcp.Prelude.{
  ◌∙◌, ℕ, ◌≡◌, ◌≢◌, refl, sym, subst, Bool, true, false, not, Option, none, some, Bytes, [], arith,
  length, ◌==◌, c_string, if◌then◌else◌, if_rule, option_rule, ltb, ◌||◌,
}
use ext_ngtcp.Address.{Address, object, to_sockaddr}
use ext_ngtcp.Datagram.{Datagram}
use ext_ngtcp.Platform.{Platform, Decoded, Status, success, failure}
use ext_ngtcp.Exceptions.{
  Exception, Result, returned, thrown, result_rule, accept_empty_payload, accept_cid_length,
  accept_decode, accept_unsupported, accept_read_initial, accept_forced_failure, accept_new_failed,
  accept_tls, accept_cid, accept_token,
}
use ext_ngtcp.Config.Server.{ServerConfig}
use ext_ngtcp.Tls.{Tls, no_tls, init_server}
use ext_ngtcp.Tls.Handles.{Owned, handles-Owned}
use ext_ngtcp.Callbacks.Untouched.{handle_all-SameTls}
use ext_ngtcp.Callbacks.{absorb}
use ext_ngtcp.Connection.State.{Connection, create_object, tick_clock, timestamp}
use ext_ngtcp.Connection.Free.{free_object}
use ext_ngtcp.Connection.Setup.{object_of, alpn_or}
use ext_ngtcp.Connection.Accept.Inputs.{
  Surroundings, test_force_server_new_failure, hq_interop, server_params, local_of, check_decoded,
  decode_error, max_cidlen,
}
use ext_ngtcp.Connection.Accept.{
  Accepted, give_up, finish_initial, read_initial, server_new, set_up, addressed, accept_files,
  accept,
}

-- The failures of the checks that are made of the datagram alone.
abbrev pub early : Exception → Bool
early accept_empty_payload = true
early (accept_decode code) = true
early (accept_unsupported version) = true
early accept_cid_length = true
early x = false

-- An object that was made and destroyed holds nothing any more.
abbrev pub Gone : {P : Platform} → Option (Connection P) → Type 0
Gone none = Unit
Gone (some c) = (c.conn ≡ none) × (c.tls ≡ no_tls)

-- After a success the connection has the library's handle and owns both handles of GnuTLS, and no
-- text and no other object is left. After a failure the object, if there was one, is gone; and the
-- texts are released, except by the checks of the datagram.
abbrev pub Balanced : {P : Platform} → Accepted P → Type 0
Balanced (returned c, left) =
    (c.conn ≢ none)
    × Owned c.tls
    × (c.tls.cred ≡ true)
    × (c.tls.session ≡ true)
    × (left.texts ≡ 0)
    × (left.object ≡ none)
Balanced (thrown x, left) = Gone left.object × (left.texts ≡ (if early x then 3 else 0))

-- A failure, if it is one, is early or not.
abbrev Fails {ℓ} : {A : Type ℓ} → Bool → Result A → Type 0
Fails b (returned a) = Unit
Fails b (thrown x) = early x ≡ b

abbrev OwnsBoth : Tls → Type 0
OwnsBoth t = Owned t × (t.cred ≡ true) × (t.session ≡ true)

local_of-Fails :
    (P : Platform) (config datagram : Option Address) (remote : P.Sockaddr)
    → Fails false (local_of P config datagram remote)
unfolding local_of
local_of-Fails P (some a) datagram remote =
    option_rule (Fails false) (to_sockaddr P (object a)) _ _ (λ _. refl) (λ addr _. tt)
local_of-Fails P none (some a) remote =
    option_rule (Fails false) (to_sockaddr P (object a)) _ _ (λ _. refl) (λ addr _. tt)
local_of-Fails P none none remote = tt

check_decoded-Fails : (P : Platform) (vc : Decoded) → Fails true (check_decoded P vc)
unfolding check_decoded
check_decoded-Fails P vc =
    option_rule (Fails true) (decode_error vc.rv) _ _
      (λ _.
        if_rule (Fails true) (not (P.is_supported_version vc.version)) _ _ (λ _. refl)
          λ _.
            if_rule (Fails true)
              (ltb max_cidlen (length vc.dcid) || ltb max_cidlen (length vc.scid)) _ _ (λ _. refl)
              (λ _. tt))
      (λ code _. refl)

module _ {P : Platform} where
  -- Owned handles are given back with the object.
  give_up-Balanced :
      (x : Exception) (c : Connection P) → early x ≡ false → Owned c.tls → Balanced (give_up x c)
  unfolding give_up free_object
  give_up-Balanced x c late owned =
      ((refl, (handles-Owned P.gnutls_server [] [] [] c.tls).2 owned), rw late (omega arith))

  finish_initial-Balanced :
      (s : Status) (c : Connection P)
      → c.conn ≢ none
      → OwnsBoth c.tls
      → Balanced (finish_initial s c)
  unfolding finish_initial
  finish_initial-Balanced success c made owns = (made, owns.0, owns.1, owns.2, omega arith, refl)
  finish_initial-Balanced (failure code) c made owns =
      give_up-Balanced (accept_read_initial code) c refl owns.0

  read_initial-Balanced :
      (conn : P.Conn) (payload : Bytes) (c : Connection P)
      → OwnsBoth c.tls
      → Balanced (read_initial conn payload c)
  unfolding read_initial absorb tick_clock
  read_initial-Balanced conn payload c owns =
      let o = P.read_pkt conn c.local_addr c.remote_addr payload (timestamp c) in
      let c1 = tick_clock (record c { conn = some conn }) in
      finish_initial-Balanced o.result (absorb o c1) (λ e. cc)
        (subst OwnsBoth (sym (handle_all-SameTls o.calls c1)) owns)

  server_new-Balanced :
      (s : Surroundings) (vc : Decoded) (scid token payload : Bytes) (initial_ts : ℕ)
      (c : Connection P)
      → OwnsBoth c.tls
      → Balanced (server_new s vc scid token payload initial_ts c)
  unfolding server_new
  server_new-Balanced s vc scid token payload initial_ts c owns =
      if_rule Balanced (test_force_server_new_failure s.force_failure) _ _
        (λ _. give_up-Balanced accept_forced_failure c refl owns.0)
        λ _.
          option_rule Balanced
            (P.server_new (record { dcid = vc.scid; scid = scid; version = vc.version })
              c.local_addr c.remote_addr initial_ts (server_params token vc.dcid))
            _ _ (λ _. give_up-Balanced accept_new_failed c refl owns.0)
            (λ conn _. read_initial-Balanced conn payload c owns)

  set_up-Balanced :
      (s : Surroundings) (vc : Decoded) (cert_file key_file alpn payload : Bytes) (c : Connection P)
      → c.tls ≡ no_tls
      → Balanced (set_up s vc cert_file key_file alpn payload c)
  unfolding set_up tick_clock timestamp
  set_up-Balanced s vc cert_file key_file alpn payload c fresh =
      let tls_of = λ (t : Tls).
        init_server P.gnutls_server (c_string cert_file) (c_string key_file) (c_string alpn) t in
      let c1 = record c { tls = (tls_of c.tls).1 } in
      let made =
        subst
          (λ t.
            Owned (tls_of t).1
            × ((tls_of t).1.cred ≡ (tls_of t).0)
            × ((tls_of t).1.session ≡ (tls_of t).0))
          (sym fresh)
          (handles-Owned P.gnutls_server (c_string cert_file) (c_string key_file) (c_string alpn)
            c.tls).1 in
      if_rule Balanced (not (tls_of c.tls).0) _ _ (λ _. give_up-Balanced accept_tls c1 refl made.0)
        λ ready.
          let owns : OwnsBoth c1.tls =
            (made.0, ground (arith, made.1, ready), ground (arith, made.2, ready)) in
          option_rule Balanced s.scid _ _ (λ _. give_up-Balanced accept_cid c1 refl made.0)
            λ scid _.
              option_rule Balanced s.token _ _
                (λ _. give_up-Balanced accept_token (tick_clock c1) refl made.0)
                λ token _.
                  server_new-Balanced s vc scid token payload (timestamp c1) (tick_clock c1) owns

  Addressed : Connection P → Result (Connection P) → Type 0
  Addressed c (returned d) = d.tls ≡ c.tls
  Addressed c (thrown x) = early x ≡ false

  addressed-Addressed :
      (initial : Datagram) (config_address : Option Address) (c : Connection P)
      → Addressed c (addressed initial config_address c)
  unfolding addressed Addressed
  addressed-Addressed initial config_address c =
      option_rule (Addressed c) (to_sockaddr P initial.peer_address) _ _ (λ _. refl)
        λ remote _.
          result_rule (Addressed c)
            (local_of P config_address (object_of initial.local_address) remote) _ _
            (λ addr _. refl)
            λ x e.
              subst (Fails false) e
                (local_of-Fails P config_address (object_of initial.local_address) remote)

  accept_files-Balanced :
      (s : Surroundings) (initial : Datagram) (config_address : Option Address)
      (cert_file key_file alpn : Bytes) (c : Connection P)
      → c.tls ≡ no_tls
      → Balanced (accept_files s initial config_address cert_file key_file alpn c)
  unfolding accept_files Addressed
  accept_files-Balanced s initial config_address cert_file key_file alpn c fresh =
      let vc = P.decode_version_cid initial.payload in
      if_rule Balanced (length initial.payload == 0) _ _ (λ _. (tt, refl))
        λ _.
          result_rule Balanced (check_decoded P vc) _ _
            (λ u _.
              result_rule Balanced (addressed initial config_address c) _ _
                (λ d e.
                  set_up-Balanced s vc cert_file key_file alpn initial.payload d
                    (subst (Addressed c) e (addressed-Addressed initial config_address c) ∙ fresh))
                λ x e. (
                  tt,
                  rw (subst (Addressed c) e (addressed-Addressed initial config_address c))
                      (omega arith),
                ))
            λ x e. (tt, rw (subst (Fails true) e (check_decoded-Fails P vc)) refl)

-- Whatever GnuTLS, libngtcp2 and the random source answer: if accept returns a connection, it has
-- the library's handle and owns a session and credentials of GnuTLS, and no reference to a text is
-- left; if it throws, the object that it had made, if any, has no handle left; and the references
-- to the two paths and the protocol are released on every path but four: the empty payload, the
-- failed decode, the unsupported version and the connection id that is too long keep all three.
pub accept-Balanced :
    (P : Platform) (zero_addr : P.Sockaddr) (s : Surroundings) (initial : Datagram)
    (config : ServerConfig)
    → Balanced (accept P zero_addr s initial config)
unfolding accept create_object
accept-Balanced P zero_addr s initial config =
    option_rule Balanced config.cert_file _ _ (λ _. (tt, refl))
      λ cert_file _.
        option_rule Balanced config.key_file _ _ (λ _. (tt, refl))
          λ key_file _.
            accept_files-Balanced s initial (object_of config.local_address) cert_file key_file
              (alpn_or hq_interop config.alpn) (create_object P zero_addr) refl
