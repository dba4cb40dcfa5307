-- ===== src/Exceptions.antt =====
-- The exceptions that the methods throw, and the result of a method. A message that libngtcp2's
-- strerror would fill is the failed call with its code.
use ext_ngtcp.Prelude.{ℕ, ◌≡◌, refl}
use ext_ngtcp.Platform.{Code}

pub data LibraryCall : Type 0 where
  conn_handle_expiry conn_read_pkt conn_write_connection_close conn_writev_stream
        conn_open_bidi_stream conn_open_uni_stream conn_shutdown_stream :
      LibraryCall

pub data Exception : Type 0 where
  connection_is_not_initialized peer_address_is_invalid local_address_is_invalid
        connection_is_closed :
      Exception
  stream_cannot_be_constructed stream_entry_does_not_exist stream_connection_is_not_available
        cannot_write_to_remote_unidirectional cannot_end_remote_unidirectional
        stream_is_not_writable :
      Exception
  invalid_remote_address invalid_local_address tls_failed native_failed : Exception
  server_name_failed accept_config_incomplete accept_empty_payload accept_cid_length
        accept_peer_address accept_local_address accept_datagram_local_address accept_tls accept_cid
        accept_token accept_forced_failure accept_new_failed :
      Exception
  accept_decode accept_read_initial : Code → Exception
  -- the version
  accept_unsupported : ℕ → Exception
  stream_id_mismatch : (expected actual : ℕ) → Exception
  call_failed : LibraryCall → Code → Exception
  -- the number of the argument
  argument_value_error : ℕ → Exception

pub data Result {ℓ} (A : Type ℓ) : Type ℓ where
  returned : A → Result A
  thrown : Exception → Result A

-- A branch on the result of a step.
pub result_rule {ℓ κ μ} :
    {A : Type ℓ} {B : Type κ} (Q : B → Type μ) (r : Result A) (f : A → B) (g : Exception → B)
    → ((a : A) → r ≡ returned a → Q (f a))
    → ((x : Exception) → r ≡ thrown x → Q (g x))
    → Q (elim r [ returned a ↦ f a | thrown x ↦ g x ])
result_rule Q (returned a) f g h k = h a refl
result_rule Q (thrown x) f g h k = k x refl
