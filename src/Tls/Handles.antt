-- ===== src/Tls/Handles.antt =====
-- Which TLS handles of src/tls_gnutls.c are held.
use ext_ngtcp.Prelude.{◌≡◌, Bytes, [], ◌∷◌, arith, if◌then◌else◌}
use ext_ngtcp.Tls.{
  Tls, Gnutls, no_tls, cleanup, deinit, free_cred, with_cred, with_session, init_client,
  init_server,
}

-- GnuTLS has given out the handles that the connection holds, and no others.
pub Owned : Tls → Type 0
Owned t =
    (t.held_creds ≡ (if t.cred then 1 else 0)) × (t.held_sessions ≡ (if t.session then 1 else 0))

-- Where the connection holds no handle, the set-up of a client or of a server session either
-- succeeds, and the connection owns both handles, or it fails, and every handle that it had taken
-- has been given back; and a clean-up of handles that are owned gives all of them back.
pub handles-Owned :
    (g : Gnutls) (cert_file key_file alpn : Bytes) (t : Tls)
    → (let r = init_client g alpn no_tls in Owned r.1 × (r.1.cred ≡ r.0) × (r.1.session ≡ r.0))
      × (let r = init_server g cert_file key_file alpn no_tls in
          Owned r.1 × (r.1.cred ≡ r.0) × (r.1.session ≡ r.0))
      × (Owned t → cleanup t ≡ no_tls)
unfolding init_client init_server cleanup Owned with_cred with_session free_cred deinit
handles-Owned g cert_file key_file [] t = (
  (ground arith, ground arith, ground arith),
  (ground arith, ground arith, ground arith),
  λ o. ground (arith, o),
)
handles-Owned g cert_file key_file (b ∷ alpn) t = (
  (ground arith, ground arith, ground arith),
  (ground arith, ground arith, ground arith),
  λ o. ground (arith, o),
)
