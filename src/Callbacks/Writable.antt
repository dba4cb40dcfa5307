-- ===== src/Callbacks/Writable.antt =====
-- What the handlers of src/callbacks.c tell about writing, against what src/stream.c accepts.
use ext_ngtcp.Prelude.{
  ℕ, ◌≡◌, refl, Bool, true, false, not, ◌&&◌, Option, none, some, [], ◌∷◌, ◌++◌, ◌∙◌, Bytes, arith,
}
use ext_ngtcp.Event.{stream_writable, milliseconds}
use ext_ngtcp.Platform.{Platform}
use ext_ngtcp.Exceptions.{stream_is_not_writable, thrown}
use ext_ngtcp.Connection.State.{
  reason_string, StreamEntry, Streams, Connection, push_event, get_stream_entry, modify_entry, find,
  modify, tick_clock, timestamp,
}
use ext_ngtcp.Callbacks.{acked_entry, acked_stream_data_offset_cb}
use ext_ngtcp.Stream.{write, is_writable, is_remote_unidirectional, refuses_write}

find-modify :
    (k : ℕ) (f : StreamEntry → StreamEntry) (streams : Streams) (e : StreamEntry)
    → find k streams ≡ some e
    → find k (modify k f streams) ≡ some (f e)
unfolding find modify
find-modify k f [] e h = cc
find-modify k f ((j, d) ∷ streams) e h = ground (arith, find-modify k f streams e)

refuses_pending :
    (e : StreamEntry)
    → (e.fin_pending ≡ true) × (e.writable ≡ false)
    → refuses_write (record e { writable = true }) ≡ true
unfolding refuses_write
refuses_pending e ending = ground (arith, ending)

module _ {P : Platform} where
  acked_pushes :
      (k : ℕ) (c : Connection P) (e : StreamEntry)
      → (e.fin_pending ≡ true) × (e.writable ≡ false)
      → (e.closed ≡ false) × (e.reset ≡ false) × (e.fin_sent ≡ false)
      → acked_entry k (some e) c
        ≡ push_event
            (modify_entry c k (λ d. record d { writable = true }))
            stream_writable
            k
            0
            true
            none
  unfolding acked_entry
  acked_pushes k c e ending alive = ground (arith, ending, alive)

  entry_after :
      (k : ℕ) (c : Connection P) (e : StreamEntry)
      → get_stream_entry c k ≡ some e
      → get_stream_entry
          (push_event
            (modify_entry c k (λ d. record d { writable = true }))
            stream_writable
            k
            0
            true
            none)
          k
        ≡ some (record e { writable = true })
  unfolding get_stream_entry push_event tick_clock modify_entry
  entry_after k c e found = find-modify k (λ d. record d { writable = true }) c.streams e found

  same_side :
      (k : ℕ) (c : Connection P)
      → is_remote_unidirectional P
          (push_event
            (modify_entry c k (λ d. record d { writable = true }))
            stream_writable
            k
            0
            true
            none).conn
          k
        ≡ is_remote_unidirectional P c.conn k
  unfolding push_event tick_clock modify_entry
  same_side k c = refl

  is_writable_of :
      (k : ℕ) (c : Connection P) (e : StreamEntry)
      → get_stream_entry c k ≡ some e
      → is_writable k c ≡ (e.writable && not e.closed)
  unfolding is_writable
  is_writable_of k c e found = rw (found, is_writable)

  write_refused :
      (k : ℕ) (bytes : Bytes) (c : Connection P) (e : StreamEntry)
      → get_stream_entry c k ≡ some e
      → is_remote_unidirectional P c.conn k ≡ false
      → refuses_write e ≡ true
      → write k bytes c ≡ (thrown stream_is_not_writable, c)
  unfolding write
  write_refused k bytes c e found ours refused = rw (found, write) (rw (ours, refused))

  pushed_events :
      (c : Connection P) (t k code : ℕ) (by_peer : Bool) (reason : Option Bytes)
      → (push_event c t k code by_peer reason).events
        ≡ c.events
          ++ record {
            type = t;
            stream_id = k;
            error_code = code;
            by_peer = by_peer;
            reason = reason_string reason;
            timestamp = milliseconds (timestamp c);
          }
            ∷ []
  unfolding push_event tick_clock
  pushed_events c t k code by_peer reason = refl

  -- Where an entry is not writable because `end` has been called on the stream, its FIN is still
  -- pending, and it is not closed, reset or unwritable by direction: when data of it is
  -- acknowledged, the stream is reported as writable, by isWritable and by an event, although
  -- every write on it then throws.
  pub acked_while_ending :
      (k : ℕ) (bytes : Bytes) (c : Connection P) (e : StreamEntry)
      → get_stream_entry c k ≡ some e
      → (e.fin_pending ≡ true) × (e.writable ≡ false)
      → (e.closed ≡ false) × (e.reset ≡ false) × (e.fin_sent ≡ false)
      → is_remote_unidirectional P c.conn k ≡ false
      → let d = acked_stream_data_offset_cb k c in
        (is_writable k c ≡ false)
        × (is_writable k d ≡ true)
        × (d.events
            ≡ c.events
              ++ record {
                type = stream_writable;
                stream_id = k;
                error_code = 0;
                by_peer = true;
                reason = none;
                timestamp = milliseconds (timestamp c);
              }
                ∷ [])
        × (write k bytes d ≡ (thrown stream_is_not_writable, d))
  unfolding acked_stream_data_offset_cb modify_entry timestamp
  acked_while_ending k bytes c e found ending alive ours =
      let acked = acked_pushes k c e ending alive in
      let now = entry_after k c e found in
      rw (found, acked)
        (
          is_writable_of k c e found ∙ ground (arith, ending),
          is_writable_of k _ _ now ∙ ground (arith, alive),
          pushed_events _ stream_writable k 0 true none,
          write_refused k bytes _ _ now (same_side k c ∙ ours) (refuses_pending e ending),
        )
