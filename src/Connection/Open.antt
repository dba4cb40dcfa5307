-- ===== src/Connection/Open.antt =====
-- Opening and finding streams in src/connection.c.
pub mod Ids
use ext_ngtcp.Prelude.{
  ℕ, ◌%◌, Bool, true, false, not, ◌||◌, Option, none, some, ◌==◌, slt64, add64, if◌then◌else◌,
}
use ext_ngtcp.Event.{stream_opened, stream_writable}
use ext_ngtcp.Platform.{Platform, stream_id_blocked, Status, success, failure}
use ext_ngtcp.Exceptions.{
  connection_is_closed, call_failed, LibraryCall, conn_open_bidi_stream, conn_open_uni_stream,
  Result, returned, thrown,
}
use ext_ngtcp.Callbacks.{absorb}
use ext_ngtcp.Connection.State.{
  Connection, push_event, get_stream_entry, modify_entry, open_stream_entry,
}

unfoldable pub serves : (P : Platform) → Option P.Conn → Bool
serves P none = false
serves P (some conn) = P.is_server conn

-- The lowest id of the streams that this side opens.
unfoldable pub minimum_stream_id : Bool → Bool → ℕ
minimum_stream_id server bidi = if server then (if bidi then 1 else 3) else (if bidi then 0 else 2)

-- Lines 416 to 419: the id that is next, or the minimum where that is too low or of another kind.
unfoldable pub ensured : ℕ → ℕ → ℕ
ensured minimum next = if slt64 next minimum || not (next % 4 == minimum % 4) then minimum else next

abbrev pub next_stream_id : {P : Platform} → Bool → Connection P → ℕ
next_stream_id bidi c = if bidi then c.next_bidi_stream_id else c.next_uni_stream_id

abbrev pub set_next_stream_id : {P : Platform} → Bool → ℕ → Connection P → Connection P
set_next_stream_id bidi id c =
    if bidi then record c { next_bidi_stream_id = id } else record c { next_uni_stream_id = id }

module _ {P : Platform} where
  -- php_quic_connection_ensure_next_stream_id
  unfoldable pub ensure_next_stream_id : Bool → Connection P → Connection P
  unfolding serves minimum_stream_id ensured
  ensure_next_stream_id bidi c =
      let minimum = minimum_stream_id (serves P c.conn) bidi in
      set_next_stream_id bidi (ensured minimum (next_stream_id bidi c)) c

  -- Lines 1195 to 1211 (1236 to 1252), where the stream has been opened or has to wait: the id of
  -- the stream that is returned.
  unfoldable pub register : Bool → ℕ → Connection P → Connection P
  register blocked stream_id c =
      let c1 = open_stream_entry c stream_id in
      let c2 =
        modify_entry c1 stream_id (λ e. record e { pending_open = blocked; writable = true }) in
      let c3 = push_event c2 stream_opened stream_id 0 false none in
      push_event c3 stream_writable stream_id 0 false none

  unfoldable pub opened : Bool → ℕ → Connection P → Connection P
  unfolding register
  opened bidi stream_id c =
      let next = next_stream_id bidi c in
      register false stream_id
        (if not (slt64 stream_id next) then set_next_stream_id bidi (add64 stream_id 4) c else c)

  unfoldable pub postponed : Bool → Connection P → Connection P
  unfolding register
  postponed bidi c =
      let next = next_stream_id bidi c in
      register true next (set_next_stream_id bidi (add64 next 4) c)

  -- Lines 1187 to 1211 (1228 to 1252).
  unfoldable pub finish_open :
      LibraryCall → Bool → Status → ℕ → Connection P → Result ℕ × Connection P
  unfolding ensure_next_stream_id opened postponed
  finish_open call bidi success stream_id c =
      (returned stream_id, opened bidi stream_id (ensure_next_stream_id bidi c))
  finish_open call bidi (failure stream_id_blocked) stream_id c =
      let c1 = ensure_next_stream_id bidi c in
      (returned (next_stream_id bidi c1), postponed bidi c1)
  finish_open call bidi (failure code) stream_id c = (thrown (call_failed call code), c)

  -- Connection::openStream; the Stream object that is returned is its id.
  unfoldable pub open_stream : Connection P → Result ℕ × Connection P
  unfolding finish_open
  open_stream c = elim c.conn [
    | none ↦ (thrown connection_is_closed, c)
    | some conn ↦
        if c.closed
        then (thrown connection_is_closed, c)
        else (let o = P.open_bidi_stream conn in
            finish_open conn_open_bidi_stream true o.result.rv o.result.stream_id (absorb o c))
  ]

  -- Connection::openUniStream
  unfoldable pub open_uni_stream : Connection P → Result ℕ × Connection P
  unfolding finish_open
  open_uni_stream c = elim c.conn [
    | none ↦ (thrown connection_is_closed, c)
    | some conn ↦
        if c.closed
        then (thrown connection_is_closed, c)
        else (let o = P.open_uni_stream conn in
            finish_open conn_open_uni_stream false o.result.rv o.result.stream_id (absorb o c))
  ]

  -- Connection::getStream: the id of the Stream object, or null.
  unfoldable pub get_stream : ℕ → Connection P → Option ℕ
  get_stream stream_id c = elim (get_stream_entry c stream_id) [
    | none ↦ none
    | some _ ↦ some stream_id
  ]
