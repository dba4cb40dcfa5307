-- ===== src/Tls.antt =====
-- src/tls_gnutls.c: the TLS handles of a connection. A handle is known by whether it is null;
-- `held` counts what GnuTLS has given out and not taken back, and is no field of the C record.
pub mod Handles
use ext_ngtcp.Prelude.{
  ℕ, ◌+◌, ◌-◌, Bool, true, false, not, Option, none, some, [], ◌∷◌, Bytes, if◌then◌else◌,
}

pub record Tls : Type 0 where
  pub cred : Bool
  pub session : Bool
  pub held_creds : ℕ
  pub held_sessions : ℕ

-- What the calls of GnuTLS and of ngtcp2's crypto helper answer: true is success.
pub record Gnutls : Type 0 where
  pub allocate_credentials : Bool
  pub set_x509_key_file : (cert_file key_file : Bytes) → Bool
  pub init : Bool
  pub priority_set_direct : Bool
  pub configure_session : Bool
  pub credentials_set : Bool
  pub alpn_set_protocols : Bytes → Bool

abbrev pub no_tls : Tls
no_tls = record { cred = false; session = false; held_creds = 0; held_sessions = 0 }

-- php_quic_tls_gnutls_cleanup
deinit : Tls → Tls
deinit t =
    if t.session then record t { session = false; held_sessions = t.held_sessions - 1 } else t

free_cred : Tls → Tls
free_cred t = if t.cred then record t { cred = false; held_creds = t.held_creds - 1 } else t

unfoldable pub cleanup : Tls → Tls
unfolding deinit free_cred
cleanup t = free_cred (deinit t)

with_cred : Tls → Tls
with_cred t = record t { cred = true; held_creds = t.held_creds + 1 }

with_session : Tls → Tls
with_session t = record t { session = true; held_sessions = t.held_sessions + 1 }

-- The name of the protocol that a client falls back to: "h3".
abbrev pub h3 : Bytes
h3 = b'h' ∷ b'3' ∷ []

unfoldable pub client_alpn : Bytes → Bytes
client_alpn [] = h3
client_alpn (b ∷ alpn) = b ∷ alpn

-- php_quic_tls_gnutls_init_client: whether it succeeds, and the handles then. A failed call of
-- gnutls_certificate_set_x509_system_trust only warns.
unfoldable pub init_client : Gnutls → (alpn : Bytes) → Tls → Bool × Tls
unfolding cleanup with_cred with_session client_alpn free_cred deinit
init_client g alpn t =
    if not g.allocate_credentials
    then (false, t)
    else (let t1 = with_cred t in
        if not g.init
        then (false, free_cred t1)
        else (let t2 = with_session t1 in
            if not g.priority_set_direct
            then (false, cleanup t2)
            else if not g.configure_session
            then (false, free_cred (deinit t2))
            else if not g.credentials_set
            then (false, cleanup t2)
            else if not (g.alpn_set_protocols (client_alpn alpn))
            then (false, cleanup t2)
            else (true, t2)))

-- php_quic_tls_gnutls_init_server, with pointers that are not null.
unfoldable pub init_server : Gnutls → (cert_file key_file alpn : Bytes) → Tls → Bool × Tls
unfolding cleanup with_cred with_session
init_server g cert_file key_file [] t = (false, t)
init_server g cert_file key_file (b ∷ alpn) t =
    if not g.allocate_credentials
    then (false, t)
    else (let t1 = with_cred t in
        if not (g.set_x509_key_file cert_file key_file)
        then (false, cleanup t1)
        else if not g.init
        then (false, cleanup t1)
        else (let t2 = with_session t1 in
            if not g.priority_set_direct
            then (false, cleanup t2)
            else if not g.configure_session
            then (false, cleanup t2)
            else if not g.credentials_set
            then (false, cleanup t2)
            else if not (g.alpn_set_protocols (b ∷ alpn))
            then (false, cleanup t2)
            else (true, t2)))
