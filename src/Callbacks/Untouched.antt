-- ===== src/Callbacks/Untouched.antt =====
-- The TLS handles of a connection while the handlers of src/callbacks.c run.
use ext_ngtcp.Prelude.{◌∙◌, List, ℕ, ◌≡◌, refl, Option, none, some, [], ◌∷◌, arith, if_rule}
use ext_ngtcp.Platform.{Platform}
use ext_ngtcp.Platform.{Callback}
use ext_ngtcp.Callbacks.{
  handle_all, handle, handshake_completed_cb, stream_open_cb, recv_stream_data_cb, stream_close_cb,
  stream_reset_cb, acked_stream_data_offset_cb, acked_entry, notify_readable, receive,
}
use ext_ngtcp.Connection.State.{
  Connection, StreamEntry, get_stream_entry, modify_entry, push_event, open_stream_entry,
  tick_clock,
}

module _ {P : Platform} where
  abbrev pub SameTls : Connection P → Connection P → Type 0
  SameTls c d = d.tls ≡ c.tls

  open_stream_entry-SameTls : (c : Connection P) (k : ℕ) → SameTls c (open_stream_entry c k)
  unfolding open_stream_entry
  open_stream_entry-SameTls c k = ground arith

  notify_readable-SameTls :
      (k : ℕ) (o : Option StreamEntry) (c : Connection P) → SameTls c (notify_readable k o c)
  unfolding notify_readable push_event tick_clock modify_entry
  notify_readable-SameTls k none c = refl
  notify_readable-SameTls k (some e) c = ground arith

  acked_entry-SameTls :
      (k : ℕ) (o : Option StreamEntry) (c : Connection P) → SameTls c (acked_entry k o c)
  unfolding acked_entry push_event tick_clock modify_entry
  acked_entry-SameTls k none c = refl
  acked_entry-SameTls k (some e) c = ground arith

  handle-SameTls : (call : Callback P.Conn) (c : Connection P) → SameTls c (handle call c)
  unfolding handle handshake_completed_cb stream_open_cb recv_stream_data_cb stream_close_cb
      stream_reset_cb acked_stream_data_offset_cb push_event tick_clock modify_entry
  handle-SameTls Callback.handshake_completed c = ground arith
  handle-SameTls (Callback.stream_open conn k) c = open_stream_entry-SameTls c k
  handle-SameTls (Callback.recv_stream_data fin k bytes) c =
      let c1 = modify_entry (open_stream_entry c k) k (receive bytes) in
      let c2 = notify_readable k (get_stream_entry c1 k) c1 in
      let same : SameTls c c2 =
        notify_readable-SameTls k (get_stream_entry c1 k) c1 ∙ open_stream_entry-SameTls c k in
      if_rule (SameTls c) fin _ c2 (λ _. same) (λ _. same)
  handle-SameTls (Callback.stream_close set k code) c = open_stream_entry-SameTls c k
  handle-SameTls (Callback.stream_reset k code) c = open_stream_entry-SameTls c k
  handle-SameTls (Callback.acked_stream_data_offset k) c = acked_entry-SameTls k _ c

  pub handle_all-SameTls :
      (calls : List (Callback P.Conn)) (c : Connection P) → SameTls c (handle_all calls c)
  unfolding handle_all
  handle_all-SameTls [] c = refl
  handle_all-SameTls (call ∷ calls) c = handle_all-SameTls calls _ ∙ handle-SameTls call c
