-- ===== src/Event/Objects.antt =====
-- What the event objects of src/event.c tell about the native events.
use ext_ngtcp.Prelude.{ℕ, ◌≡◌, ◌⊎◌, refl, some, arith}
use ext_ngtcp.Queue.{Event}
use ext_ngtcp.Event.{
  EventClass, handshake_completed, connection_closed, connection_draining, stream_opened,
  stream_readable, stream_writable, stream_closed, stream_reset, class_for_type, create_from_native,
  getters, reason_text, parent,
}

abbrev pub IsStreamType : ℕ → Type 0
IsStreamType t =
    (t ≡ stream_opened)
    ⊎ (t ≡ stream_readable)
    ⊎ (t ≡ stream_writable)
    ⊎ (t ≡ stream_closed)
    ⊎ (t ≡ stream_reset)

abbrev pub IsConnectionType : ℕ → Type 0
IsConnectionType t = (t ≡ handshake_completed) ⊎ (t ≡ connection_closed) ⊎ (t ≡ connection_draining)

-- An object of a native event shows each of its fields, a null reason as the empty text, and is of
-- the class that belongs to its type.
pub create_from_native_lem :
    (e : Event)
    → (getters (create_from_native e)
        ≡ (e.type, e.stream_id, e.error_code, e.by_peer, reason_text e.reason, e.timestamp))
      × ((create_from_native e).ce ≡ class_for_type e.type)
unfolding create_from_native getters
create_from_native_lem e = (refl, refl)

-- The class of a connection event lies directly under ConnectionEvent, the class of a stream event
-- under StreamEvent, and those of a closed or a reset stream under TerminalStreamEvent below it.
pub parent-class_for_type :
    (t : ℕ)
    → (IsConnectionType t → parent (class_for_type t) ≡ some EventClass.connection_event)
      × ((t ≡ stream_closed) ⊎ (t ≡ stream_reset)
          → parent (class_for_type t) ≡ some EventClass.terminal_stream_event)
      × ((t ≡ stream_opened) ⊎ (t ≡ stream_readable) ⊎ (t ≡ stream_writable)
          → parent (class_for_type t) ≡ some EventClass.stream_event)
unfolding class_for_type parent
parent-class_for_type t = ((λ h. ground arith), (λ h. ground arith), (λ h. ground arith))
