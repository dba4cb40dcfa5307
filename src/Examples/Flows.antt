-- ===== src/Examples/Flows.antt =====
-- A client with data to send, over the sample library.
use ext_ngtcp.Prelude.{ℕ, refl, ◌≡◌, true, false, not, ◌&&◌, none, some, [], ◌∷◌, ◌++◌, c_string}
use ext_ngtcp.Connection.State.{
  Connection, create_object, tick_clock, get_stream_entry, modify_entry, sync_state, push_event,
  find, modify, open_stream_entry, stream_entry_alloc,
}
use ext_ngtcp.Buffer.{contents, append}
use ext_ngtcp.Callbacks.{
  absorb, handle_all, handle, acked_stream_data_offset_cb, recv_stream_data_cb,
  handshake_completed_cb,
}
use ext_ngtcp.Connection.Methods.{recv, drain_events}
use ext_ngtcp.Connection.History.Kinds.{Kinds, events_of_kind}
use ext_ngtcp.Startup.Register.{module_startup}
use ext_ngtcp.Examples.Loads.{fresh}
use ext_ngtcp.Connection.Setup.{
  construct, config_local, sni_of, bound_addr, secured, named, init_native, client_new, refuses_sni,
  host_sni, config_alpn, alpn_or,
}
use ext_ngtcp.Tls.{init_client, client_alpn}
use ext_ngtcp.Address.{to_sockaddr}
use ext_ngtcp.Stream.{write, refuses_write, is_remote_unidirectional}
use ext_ngtcp.Connection.History.Reach.{Step, Reach}
use ext_ngtcp.Connection.History.Draining.{Drained, drain_exhausts}
use ext_ngtcp.Examples.Histories.{c0, c1, hello, sample-IsDocumented}
use ext_ngtcp.Examples.Sample.{peer_address, sample, packet, read_pkt}

abbrev full : Connection sample
full = (write 0 hello (recv (packet hello) c1).1).1

filled : Reach c0 ((([] ++ []) ++ []) ++ []) full
filled =
    Reach.call
      (Reach.call
        (Reach.call Reach.start (Step.constructs peer_address none (some (1 ∷ [])) (some (2 ∷ []))))
        (Step.receive (packet hello)))
      (Step.write 0 hello)

-- The handle is set, and no close is under way.
stands :
    (full.conn ≡ some (record { server = false; left = 2; drained = false }))
    × ((full.close_requested && not full.close_packet_sent) ≡ false)
unfolding construct to_sockaddr create_object config_local sni_of bound_addr secured named
    init_native client_new refuses_sni host_sni init_client config_alpn client_alpn alpn_or
    tick_clock c_string recv packet read_pkt sync_state absorb handle_all push_event find
    get_stream_entry modify_entry modify write refuses_write is_remote_unidirectional
    open_stream_entry handle acked_stream_data_offset_cb recv_stream_data_cb handshake_completed_cb
    stream_entry_alloc contents append
stands = (refl, refl)

drain_exhausts_example : (fuel : ℕ) × Drained fuel full
drain_exhausts_example =
    drain_exhausts sample-IsDocumented 0 full ((([] ++ []) ++ []) ++ []) filled
      (λ gone. cc (stands.0, gone)) stands.1

events_of_kind_example : Kinds (module_startup true fresh).1.classes (drain_events full).0
events_of_kind_example = events_of_kind fresh 0 full ((([] ++ []) ++ []) ++ []) filled
