-- ===== src/Event.antt =====
-- src/event.c: the event objects that PHP code gets, and src/internal/types.h's event codes.
-- An object's class is its constructor in EventClass; numbers are bit patterns.
pub mod Objects
use ext_ngtcp.Prelude.{
  ℕ, ◌/◌, ◌%◌, Bool, true, false, Option, none, some, [], Bytes, ◌==◌, if◌then◌else◌, u32_mod,
  u64_mod, minus_one,
}
use ext_ngtcp.Queue.{Event}

abbrev pub handshake_completed : ℕ
handshake_completed = 1

abbrev pub connection_closed : ℕ
connection_closed = 2

abbrev pub connection_draining : ℕ
connection_draining = 3

abbrev pub stream_opened : ℕ
stream_opened = 10

abbrev pub stream_readable : ℕ
stream_readable = 11

abbrev pub stream_writable : ℕ
stream_writable = 12

abbrev pub stream_closed : ℕ
stream_closed = 13

abbrev pub stream_reset : ℕ
stream_reset = 14

-- The classes of which events are made, and the abstract ones above them.
pub data EventClass : Type 0 where
  event connection_event stream_event terminal_stream_event : EventClass
  handshake_completed_ce connection_closed_ce connection_draining_ce : EventClass
  stream_opened_ce stream_readable_ce stream_writable_ce stream_closed_ce stream_reset_ce :
      EventClass

-- The parent that php_ngtcp2_event_init registers a class under.
unfoldable pub parent : EventClass → Option EventClass
parent EventClass.event = none
parent EventClass.connection_event = some EventClass.event
parent EventClass.stream_event = some EventClass.event
parent EventClass.terminal_stream_event = some EventClass.stream_event
parent EventClass.handshake_completed_ce = some EventClass.connection_event
parent EventClass.connection_closed_ce = some EventClass.connection_event
parent EventClass.connection_draining_ce = some EventClass.connection_event
parent EventClass.stream_opened_ce = some EventClass.stream_event
parent EventClass.stream_readable_ce = some EventClass.stream_event
parent EventClass.stream_writable_ce = some EventClass.stream_event
parent EventClass.stream_closed_ce = some EventClass.terminal_stream_event
parent EventClass.stream_reset_ce = some EventClass.terminal_stream_event

unfoldable pub class_for_type : ℕ → EventClass
class_for_type t =
    if t == handshake_completed
    then EventClass.handshake_completed_ce
    else if t == connection_closed
    then EventClass.connection_closed_ce
    else if t == connection_draining
    then EventClass.connection_draining_ce
    else if t == stream_readable
    then EventClass.stream_readable_ce
    else if t == stream_writable
    then EventClass.stream_writable_ce
    else if t == stream_closed
    then EventClass.stream_closed_ce
    else if t == stream_reset
    then EventClass.stream_reset_ce
    else EventClass.stream_opened_ce

pub record EventObject : Type 0 where
  pub ce : EventClass
  pub type : ℕ
  pub stream_id : ℕ
  pub error_code : ℕ
  pub by_peer : Bool
  pub reason : Bytes
  pub timestamp : ℕ

-- php_quic_event_create_object: the state before the constructor or the conversion sets it.
pub create_object : EventClass → EventObject
create_object ce = record {
  ce = ce;
  type = stream_opened;
  stream_id = minus_one;
  error_code = 0;
  by_peer = false;
  reason = [];
  timestamp = 0;
}

-- The text of a reason that may be null.
abbrev pub reason_text : Option Bytes → Bytes
reason_text none = []
reason_text (some r) = r

-- The timestamp of an event: zend_hrtime () / 1000000 as uint64_t.
abbrev pub milliseconds : ℕ → ℕ
milliseconds hrtime = hrtime / 1000000 % u64_mod

unfoldable pub create_from_native : Event → EventObject
unfolding class_for_type create_object
create_from_native e =
    let object = create_object (class_for_type e.type) in
    record object {
      type = e.type;
      stream_id = e.stream_id;
      error_code = e.error_code;
      by_peer = e.by_peer;
      timestamp = e.timestamp;
      reason = reason_text e.reason;
    }

-- Event::__construct, the optional arguments at their defaults where they are not given.
pub construct :
    EventObject
    → (type stream_id error_code : ℕ) (by_peer : Bool) (reason : Option Bytes) (hrtime : ℕ)
    → EventObject
construct object type stream_id error_code by_peer reason hrtime = record object {
  type = type % u32_mod;
  stream_id = stream_id;
  error_code = error_code;
  by_peer = by_peer;
  timestamp = milliseconds hrtime;
  reason = reason_text reason;
}

-- The six getters, in one tuple.
pub getters : EventObject → ℕ × ℕ × ℕ × Bool × Bytes × ℕ
getters o = (o.type, o.stream_id, o.error_code, o.by_peer, o.reason, o.timestamp)
