-- ===== src/Connection/Transmit.antt =====
-- How src/connection.c chooses the stream to send from, and accounts for the data that was sent.
pub mod Accounting
use ext_ngtcp.Prelude.{
  ℕ, Bool, true, false, not, ◌&&◌, ◌||◌, Option, none, some, [], ◌∷◌, Bytes, length, drop, ltb, leb,
  ◌==◌, if◌then◌else◌, minus_one, add64, positive64,
}
use ext_ngtcp.Buffer.{contents}
use ext_ngtcp.Event.{stream_writable}
use ext_ngtcp.Platform.{Platform, Request}
use ext_ngtcp.Datagram.{Datagram, create_object}
use ext_ngtcp.Connection.State.{
  StreamEntry, Streams, Connection, push_event, modify_entry, get_stream_entry,
}

abbrev pub tx_len : StreamEntry → ℕ
tx_len e = length (contents e.tx_buffer)

-- The entry has bytes or a FIN to send, and may send.
unfoldable pub has_output : StreamEntry → Bool
has_output e = not (e.closed || e.reset) && (ltb e.tx_offset (tx_len e) || e.fin_pending)

unfoldable pub clamp_offset : StreamEntry → StreamEntry
clamp_offset e = if ltb (tx_len e) e.tx_offset then record e { tx_offset = tx_len e } else e

-- The key and the entry, clamped, of the first stream with output.
unfoldable pub first_output : Streams → Option (ℕ × StreamEntry)
unfolding has_output clamp_offset
first_output [] = none
first_output ((k, e) ∷ streams) =
    if has_output e then some (k, clamp_offset e) else first_output streams

-- An entry pointer, as its key, and what is asked of libngtcp2 for it.
pub record Choice : Type 0 where
  pub entry : Option ℕ
  pub request : Request

abbrev pub no_stream : Choice
no_stream = record {
  entry = none;
  request = record { fin = false; stream_id = minus_one; datav = none };
}

unfoldable pub request_of : StreamEntry → Request
request_of e = record {
  fin = e.fin_pending;
  stream_id = e.stream_id;
  datav =
      if ltb e.tx_offset (tx_len e) then some (drop e.tx_offset (contents e.tx_buffer)) else none;
}

-- What php_quic_connection_pick_tx_stream stores at its out parameters for the entry it returns.
unfoldable pub choice_of : Option (ℕ × StreamEntry) → Choice
unfolding request_of
choice_of none = no_stream
choice_of (some (k, e)) = record { entry = some k; request = request_of e }

module _ {P : Platform} where
  -- The clamped offset is written back to the entry that is picked.
  unfoldable pub write_back :
      Option (ℕ × StreamEntry) → Connection P → Connection P × Option (ℕ × StreamEntry)
  write_back none c = (c, none)
  write_back (some (k, e)) c = (modify_entry c k clamp_offset, some (k, e))

  -- php_quic_connection_pick_tx_stream: the entry with its key, and the connection then.
  unfoldable pub pick_tx_stream : Connection P → Connection P × Option (ℕ × StreamEntry)
  unfolding first_output write_back
  pick_tx_stream c = write_back (first_output c.streams) c

-- Lines 300 to 319.
unfoldable pub account : ℕ → Bool → Bool → StreamEntry → StreamEntry
unfolding clamp_offset
account wdatalen fin_attempted packet_emitted e =
    let e1 =
      clamp_offset
        (if positive64 wdatalen then record e { tx_offset = add64 e.tx_offset wdatalen } else e) in
    let done = leb (tx_len e1) e1.tx_offset in
    let e2 =
      if fin_attempted && packet_emitted && e1.fin_pending && done
      then record e1 { fin_pending = false; fin_sent = true; writable = false }
      else e1 in
    if done && ltb 0 (tx_len e1) then record e2 { tx_buffer = some []; tx_offset = 0 } else e2

-- Lines 321 and 322.
unfoldable pub is_drained : StreamEntry → Bool
is_drained e =
    not e.fin_pending
    && not e.fin_sent
    && not e.closed
    && not e.writable
    && e.tx_offset == 0
    && tx_len e == 0

unfoldable pub discarded : StreamEntry → StreamEntry
discarded e = record e {
  tx_buffer = elim e.tx_buffer [ none ↦ none | some _ ↦ some [] ];
  tx_offset = 0;
  fin_pending = false;
  fin_sent = true;
  writable = false;
}

module _ {P : Platform} where
  unfoldable pub notify_writable : ℕ → Option StreamEntry → Connection P → Connection P
  unfolding is_drained
  notify_writable k none c = c
  notify_writable k (some e) c =
      if is_drained e
      then push_event (modify_entry c k (λ d. record d { writable = true })) stream_writable
          e.stream_id 0 false none
      else c

  -- php_quic_connection_update_tx_entry
  unfoldable pub update_tx_entry : Connection P → Option ℕ → ℕ → Bool → Bool → Connection P
  unfolding account notify_writable
  update_tx_entry c none wdatalen fin_attempted packet_emitted = c
  update_tx_entry c (some k) wdatalen fin_attempted packet_emitted =
      let c1 = modify_entry c k (account wdatalen fin_attempted packet_emitted) in
      notify_writable k (get_stream_entry c1 k) c1

  -- php_quic_connection_discard_tx_entry
  unfoldable pub discard_tx_entry : Connection P → Option ℕ → Connection P
  unfolding discarded
  discard_tx_entry c none = c
  discard_tx_entry c (some k) = modify_entry c k discarded

  -- The object that carries a packet out.
  unfoldable pub outgoing : Connection P → Bytes → Datagram
  outgoing c payload = record create_object {
    payload = payload;
    peer_address = c.remote_address;
    local_address = c.local_address;
  }
