-- ===== src/Connection/Loop/Handlers.antt =====
-- What the handlers of src/callbacks.c do to the number of streams with output.
use ext_ngtcp.Prelude.{
  ℕ, ◌≤◌, Bool, not, ◌&&◌, ◌||◌, Option, none, some, List, [], ◌∷◌, Bytes, arith, length, ltb,
  if_rule, option_rule,
}
use ext_ngtcp.Buffer.{contents}
use ext_ngtcp.Platform.{Platform, Callback, Outcome}
use ext_ngtcp.Connection.State.{
  StreamEntry, Connection, find, open_stream_entry, modify_entry, push_event, tick_clock,
}
use ext_ngtcp.Connection.Transmit.{has_output}
use ext_ngtcp.Callbacks.{
  receive, closed_entry, reset_entry, handshake_completed_cb, stream_open_cb, notify_readable,
  recv_stream_data_cb, stream_close_cb, stream_reset_cb, acked_entry, acked_stream_data_offset_cb,
  handle, handle_all, absorb,
}
use ext_ngtcp.Connection.Loop.Busy.{Mute, load, busy_but, modify-busy_but, alloc-busy_but}

abbrev pub Calms : {P : Platform} → ℕ → Connection P → Connection P → Type 0
Calms k c d = busy_but k d.streams ≤ busy_but k c.streams

module _ {P : Platform} where
  pub Calms-trans : (k : ℕ) (c d e : Connection P) → Calms k c d → Calms k d e → Calms k c e
  Calms-trans k c d e h l = omega arith

  pub modify_entry-Calms :
      (k j : ℕ) (f : StreamEntry → StreamEntry) (c d : Connection P)
      → Mute f
      → Calms k c d
      → Calms k c (modify_entry d j f)
  unfolding modify_entry
  modify_entry-Calms k j f c d mute h = omega (arith, modify-busy_but k j f d.streams mute)

  push_event-Calms :
      (k : ℕ) (c d : Connection P) (t i code : ℕ) (by_peer : Bool) (reason : Option Bytes)
      → Calms k c d
      → Calms k c (push_event d t i code by_peer reason)
  unfolding push_event tick_clock
  push_event-Calms k c d t i code by_peer reason h = h

  open_stream_entry-Calms : (k j : ℕ) (c : Connection P) → Calms k c (open_stream_entry c j)
  unfolding open_stream_entry
  open_stream_entry-Calms k j c =
      option_rule (Calms k c) (find j c.streams) _ _ (λ _. alloc-busy_but k j c.streams)
        (λ e _. omega arith)

  notify_readable-Calms :
      (k j : ℕ) (o : Option StreamEntry) (c d : Connection P)
      → Calms k c d
      → Calms k c (notify_readable j o d)
  unfolding notify_readable has_output
  notify_readable-Calms k j none c d h = h
  notify_readable-Calms k j (some e) c d h =
      if_rule (Calms k c) (not e.readable && ltb 0 (length (contents e.rx_buffer))) _ _
        (λ _. push_event-Calms k c _ _ _ _ _ _ (modify_entry-Calms k j _ c d (λ e. omega arith) h))
        (λ _. h)

  acked_entry-Calms :
      (k j : ℕ) (o : Option StreamEntry) (c : Connection P) → Calms k c (acked_entry j o c)
  unfolding acked_entry has_output
  acked_entry-Calms k j none c = omega arith
  acked_entry-Calms k j (some e) c =
      if_rule (Calms k c) (e.closed || e.reset || e.fin_sent) _ _ (λ _. omega arith)
        λ _.
          if_rule (Calms k c) (not e.writable) _ _
            (λ _.
              push_event-Calms k c _ _ _ _ _ _
                (modify_entry-Calms k j _ c c (λ e. omega arith) (omega arith)))
            (λ _. omega arith)

receive-Mute : (bytes : Bytes) → Mute (receive bytes)
unfolding has_output
receive-Mute bytes e =
    if_rule (λ d. load d ≤ load e) (ltb 0 (length bytes)) _ _ (λ _. omega arith) (λ _. omega arith)

closed-Mute : Mute closed_entry
unfolding has_output
closed-Mute e = omega arith

reset-Mute : Mute reset_entry
unfolding has_output
reset-Mute e = omega arith

module _ {P : Platform} where
  opened-Calms :
      (k j : ℕ) (f : StreamEntry → StreamEntry) (c : Connection P)
      → Mute f
      → Calms k c (modify_entry (open_stream_entry c j) j f)
  opened-Calms k j f c mute = modify_entry-Calms k j f c _ mute (open_stream_entry-Calms k j c)

  handle-Calms : (k : ℕ) (call : Callback P.Conn) (c : Connection P) → Calms k c (handle call c)
  unfolding has_output handle handshake_completed_cb stream_open_cb recv_stream_data_cb
      stream_close_cb stream_reset_cb acked_stream_data_offset_cb push_event tick_clock
  handle-Calms k Callback.handshake_completed c =
      if_rule (Calms k c) (not c.established) _ c (λ _. omega arith) (λ _. omega arith)
  handle-Calms k (Callback.stream_open conn j) c = opened-Calms k j _ c (λ e. omega arith)
  handle-Calms k (Callback.recv_stream_data fin j bytes) c =
      let got =
        notify_readable-Calms k j _ c _ (opened-Calms k j (receive bytes) c (receive-Mute bytes)) in
      if_rule (Calms k c) fin _ _ (λ _. modify_entry-Calms k j _ c _ (λ e. omega arith) got)
        (λ _. got)
  handle-Calms k (Callback.stream_close set j code) c = opened-Calms k j closed_entry c closed-Mute
  handle-Calms k (Callback.stream_reset j code) c = opened-Calms k j reset_entry c reset-Mute
  handle-Calms k (Callback.acked_stream_data_offset j) c = acked_entry-Calms k j _ c

  handle_all-Calms :
      (k : ℕ) (calls : List (Callback P.Conn)) (c : Connection P) → Calms k c (handle_all calls c)
  unfolding handle_all
  handle_all-Calms k [] c = omega arith
  handle_all-Calms k (call ∷ calls) c =
      Calms-trans k c (handle call c) (handle_all calls (handle call c)) (handle-Calms k call c)
        (handle_all-Calms k calls (handle call c))

  pub absorb-Calms :
      {A : Type 0} (k : ℕ) (o : Outcome P.Conn A) (c : Connection P) → Calms k c (absorb o c)
  unfolding absorb
  absorb-Calms k o c = handle_all-Calms k o.calls c
