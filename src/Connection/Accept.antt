-- ===== src/Connection/Accept.antt =====
-- ServerConnection::accept of src/server_connection.c: the server side of a connection.
pub mod Inputs
pub mod Balance
use ext_ngtcp.Prelude.{
  ℕ, ◌-◌, ◌*◌, ◌+◌, Bool, false, not, ◌&&◌, ◌||◌, Option, none, some, [], ◌∷◌, Bytes, length, ltb,
  leb, ◌==◌, if◌then◌else◌, c_string, bytes_eq,
}
use ext_ngtcp.Address.{Address, object, to_sockaddr}
use ext_ngtcp.Datagram.{Datagram}
use ext_ngtcp.Platform.{
  Platform, inet, inet6, unsupported, TransportParams, Decoded, Code, version_negotiation, Status,
  success, failure,
}
use ext_ngtcp.Exceptions.{
  Exception, accept_config_incomplete, accept_empty_payload, accept_cid_length, accept_peer_address,
  accept_local_address, accept_datagram_local_address, accept_tls, accept_cid, accept_token,
  accept_forced_failure, accept_new_failed, accept_decode, accept_read_initial, accept_unsupported,
  Result, returned, thrown,
}
use ext_ngtcp.Config.Server.{ServerConfig}
use ext_ngtcp.Tls.{init_server}
use ext_ngtcp.Callbacks.{absorb}
use ext_ngtcp.Connection.State.{Connection, create_object, tick_clock, timestamp}
use ext_ngtcp.Connection.Setup.{default_local_addr, object_of, alpn_or, seconds}
use ext_ngtcp.Connection.Free.{free_object}
use ext_ngtcp.Connection.Accept.Inputs.{
  Surroundings, test_force_server_new_failure, hq_interop, server_params, local_of, local_object,
  check_decoded,
}

-- The references that the call takes: to the two paths and to the protocol.
abbrev texts_taken : ℕ
texts_taken = 3

-- What a call of accept leaves besides its result: the references to texts that it has taken and not
-- released, and the object of a failed call as its destruction leaves it, if there was one.
pub record Left (P : Platform) : Type 0 where
  pub texts : ℕ
  pub object : Option (Connection P)

abbrev pub Accepted : Platform → Type 0
Accepted P = Result (Connection P) × Left P

module _ {P : Platform} where
  -- An early return, which releases nothing.
  abbrev leave : Exception → Accepted P
  leave x = (thrown x, record { texts = texts_taken; object = none })

  -- A return that releases the texts, before there is an object.
  abbrev release : Exception → Accepted P
  release x = (thrown x, record { texts = texts_taken - texts_taken; object = none })

  -- A return that releases the texts and the object.
  unfoldable pub give_up : Exception → Connection P → Accepted P
  unfolding free_object
  give_up x c =
      (thrown x, record { texts = texts_taken - texts_taken; object = some (free_object c) })

  -- Lines 566 to 588, with the connection that the reading leaves.
  unfoldable pub finish_initial : Status → Connection P → Accepted P
  unfolding give_up
  finish_initial success c =
      (returned c, record { texts = texts_taken - texts_taken; object = none })
  finish_initial (failure code) c = give_up (accept_read_initial code) c

  -- Lines 563 to 588.
  unfoldable pub read_initial : P.Conn → Bytes → Connection P → Accepted P
  unfolding finish_initial
  read_initial conn payload c =
      let o = P.read_pkt conn c.local_addr c.remote_addr payload (timestamp c) in
      finish_initial o.result (absorb o (tick_clock (record c { conn = some conn })))

  -- Lines 528 to 588, after the clock has been read for the settings.
  unfoldable pub server_new :
      Surroundings
      → Decoded
      → (scid token payload : Bytes) (initial_ts : ℕ) → Connection P
      → Accepted P
  unfolding read_initial server_params give_up
  server_new s vc scid token payload initial_ts c =
      if test_force_server_new_failure s.force_failure
      then give_up accept_forced_failure c
      else elim (P.server_new (record { dcid = vc.scid; scid = scid; version = vc.version })
          c.local_addr c.remote_addr initial_ts (server_params token vc.dcid)) [
            | none ↦ give_up accept_new_failed c
            | some conn ↦ read_initial conn payload c
          ]

  -- Lines 481 to 588. A failure destroys the new object.
  unfoldable pub set_up :
      Surroundings → Decoded → (cert_file key_file alpn payload : Bytes) → Connection P → Accepted P
  unfolding server_new give_up
  set_up s vc cert_file key_file alpn payload c =
      let (ready, tls) =
        init_server P.gnutls_server (c_string cert_file) (c_string key_file) (c_string alpn)
          c.tls in
      let c1 = record c { tls = tls } in
      if not ready then give_up accept_tls c1 else elim s.scid [
        | none ↦ give_up accept_cid c1
        | some scid ↦ elim s.token [
          | none ↦ give_up accept_token (tick_clock c1)
          | some token ↦ server_new s vc scid token payload (timestamp c1) (tick_clock c1)
        ]
      ]

  -- Lines 420 to 479: the new object with its addresses; `c` is the object that object_init_ex
  -- makes.
  unfoldable pub addressed : Datagram → Option Address → Connection P → Result (Connection P)
  unfolding local_of local_object
  addressed initial config_address c = elim (to_sockaddr P initial.peer_address) [
    | none ↦ thrown accept_peer_address
    | some remote_addr ↦
        let datagram_address = object_of initial.local_address in
        elim (local_of P config_address datagram_address remote_addr) [
          | thrown x ↦ thrown x
          | returned local_addr ↦ returned (record c {
            remote_address = initial.peer_address;
            local_address = object (local_object P config_address datagram_address local_addr);
            remote_addr = remote_addr;
            local_addr = local_addr;
          })
        ]
  ]

  -- Lines 391 to 588, where both files are given.
  unfoldable pub accept_files :
      Surroundings
      → Datagram
      → Option Address
      → (cert_file key_file alpn : Bytes) → Connection P
      → Accepted P
  unfolding check_decoded addressed set_up
  accept_files s initial config_address cert_file key_file alpn c =
      if length initial.payload == 0
      then leave accept_empty_payload
      else (let vc = P.decode_version_cid initial.payload in
          elim (check_decoded P vc) [
            | thrown x ↦ leave x
            | returned _ ↦ elim (addressed initial config_address c) [
              | thrown x ↦ release x
              | returned c1 ↦ set_up s vc cert_file key_file alpn initial.payload c1
            ]
          ])

-- ServerConnection::accept; the connection that is returned, or the exception, with what is left.
unfoldable pub accept :
    (P : Platform) → P.Sockaddr → Surroundings → Datagram → ServerConfig → Accepted P
unfolding accept_files
accept P zero_addr s initial config = elim config.cert_file [
  | none ↦ (thrown accept_config_incomplete, record { texts = 0; object = none })
  | some cert_file ↦ elim config.key_file [
    | none ↦ (thrown accept_config_incomplete, record { texts = 0; object = none })
    | some key_file ↦
        accept_files s initial (object_of config.local_address) cert_file key_file
          (alpn_or hq_interop config.alpn) (create_object P zero_addr)
  ]
]
