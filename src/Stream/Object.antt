-- ===== src/Stream/Object.antt =====
-- src/stream.c: the stream objects, which hold a reference to the object of their connection, and
-- the methods of src/connection.c that make them. A zval with an object is its handle; objects and
-- references are as the engine counts them.
use ext_ngtcp.Prelude.{
  ℕ, ◌+◌, ◌-◌, Bool, true, false, not, Option, none, some, [], Bytes, leb, ◌==◌, positive64,
  minus_one, if◌then◌else◌,
}
use ext_ngtcp.Platform.{Platform}
use ext_ngtcp.Address.{Zval, undef, null, object}
use ext_ngtcp.Exceptions.{
  argument_value_error, stream_entry_does_not_exist, stream_cannot_be_constructed, Result, returned,
  thrown,
}
use ext_ngtcp.Connection.State.{Connection}
use ext_ngtcp.Connection.Free
use ext_ngtcp.Connection.Open
use ext_ngtcp.Stream

-- The memory of a connection object: not yet allocated, in use, or freed.
pub data Slot (P : Platform) : Type 0 where
  vacant : Slot P
  live : Connection P → Slot P
  freed : Connection P → Slot P

pub record Heap (P : Platform) : Type 0 where
  pub objects : ℕ → Slot P
  pub references : ℕ → ℕ

-- php_quic_stream
pub record StreamObject : Type 0 where
  pub connection : Zval ℕ
  pub stream_id : ℕ

unfoldable pub create_object : StreamObject
create_object = record { connection = undef; stream_id = minus_one }

-- Stream::__construct
unfoldable pub construct : Result StreamObject
construct = thrown stream_cannot_be_constructed

abbrev pub get_id : StreamObject → ℕ
get_id s = s.stream_id

abbrev pub resolve_connection : StreamObject → Option ℕ
resolve_connection s = elim s.connection [ undef ↦ none | null ↦ none | object i ↦ some i ]

module _ {P : Platform} where
  abbrev pub store : Heap P → ℕ → Slot P → Heap P
  store h i slot = record h { objects = λ j. if j == i then slot else h.objects j }

  abbrev pub set_references : Heap P → ℕ → ℕ → Heap P
  set_references h i n = record h { references = λ j. if j == i then n else h.references j }

  -- ZVAL_COPY, for an object.
  unfoldable pub add_reference : ℕ → Heap P → Heap P
  add_reference i h = set_references h i (h.references i + 1)

  abbrev pub free : Slot P → Slot P
  free (live c) = freed (Free.free_object c)
  free slot = slot

  -- zval_ptr_dtor, for an object: the last reference frees it.
  unfoldable pub release : ℕ → Heap P → Heap P
  release i h =
      if leb (h.references i) 1
      then store (set_references h i 0) i (free (h.objects i))
      else set_references h i (h.references i - 1)

  -- php_quic_stream_create
  unfoldable pub create : ℕ → ℕ → Heap P → StreamObject × Heap P
  unfolding create_object add_reference
  create connection stream_id h = (
    record create_object { connection = object connection; stream_id = stream_id },
    add_reference connection h,
  )

  -- php_quic_stream_free_object
  unfoldable pub free_object : StreamObject → Heap P → StreamObject × Heap P
  unfolding release
  free_object s h = elim s.connection [
    | undef ↦ (s, h)
    | null ↦ (record s { connection = undef }, h)
    | object i ↦ (record s { connection = undef }, release i h)
  ]

  -- A method on the connection object of a handle; `none` is that its memory is not in use.
  unfoldable pub on_live :
      {A : Type 0} → ℕ → (Connection P → A × Connection P) → Heap P → Option (A × Heap P)
  on_live i method h = elim (h.objects i) [
    | vacant ↦ none
    | live c ↦ some ((method c).0, store h i (live (method c).1))
    | freed c ↦ none
  ]

  -- php_quic_stream_resolve_entry, and what a method does with the connection; `absent` is its
  -- result where there is none.
  unfoldable pub on_connection :
      {A : Type 0}
      → StreamObject
      → A
      → (Connection P → A × Connection P)
      → Heap P
      → Option (A × Heap P)
  unfolding on_live
  on_connection s absent method h = elim (resolve_connection s) [
    | none ↦ some (absent, h)
    | some i ↦ on_live i method h
  ]

  unfoldable pub read : ℕ → StreamObject → Heap P → Option (Result Bytes × Heap P)
  unfolding on_connection
  read max_len s h =
      if not (positive64 max_len)
      then some (thrown (argument_value_error 1), h)
      else on_connection s (returned []) (Stream.read s.stream_id max_len) h

  unfoldable pub write : Bytes → StreamObject → Heap P → Option (Result ℕ × Heap P)
  unfolding on_connection
  write bytes s h =
      on_connection s (thrown stream_entry_does_not_exist) (Stream.write s.stream_id bytes) h

  unfoldable pub end : Option Bytes → StreamObject → Heap P → Option (Result (Unit {0}) × Heap P)
  unfolding on_connection
  end final_data s h =
      on_connection s (thrown stream_entry_does_not_exist) (Stream.end s.stream_id final_data) h

  -- The entry is looked for first, so the check of the connection that follows never fails.
  unfoldable pub reset : ℕ → StreamObject → Heap P → Option (Result (Unit {0}) × Heap P)
  unfolding on_connection
  reset error_code s h =
      on_connection s (thrown stream_entry_does_not_exist) (Stream.reset s.stream_id error_code) h

  -- isReadable, isWritable, isClosed
  unfoldable pub ask :
      (absent : Bool) → (ℕ → Connection P → Bool) → StreamObject → Heap P → Option (Bool × Heap P)
  unfolding on_connection
  ask absent question s h = on_connection s absent (λ c. (question s.stream_id c, c)) h

  abbrev pub is_readable : StreamObject → Heap P → Option (Bool × Heap P)
  is_readable = ask false Stream.is_readable

  abbrev pub is_writable : StreamObject → Heap P → Option (Bool × Heap P)
  is_writable = ask false Stream.is_writable

  abbrev pub is_closed : StreamObject → Heap P → Option (Bool × Heap P)
  is_closed = ask true Stream.is_closed

  -- The end of openStream and openUniStream of the connection object i.
  unfoldable pub hand_out : ℕ → Result ℕ → Heap P → Result StreamObject × Heap P
  unfolding create
  hand_out i (returned stream_id) h = let (s, h') = create i stream_id h in (returned s, h')
  hand_out i (thrown x) h = (thrown x, h)

  unfoldable pub opened_on : ℕ → Option (Result ℕ × Heap P) → Option (Result StreamObject × Heap P)
  unfolding hand_out
  opened_on i none = none
  opened_on i (some (r, h)) = some (hand_out i r h)

  -- Connection::openStream and Connection::openUniStream.
  unfoldable pub open_stream : ℕ → Heap P → Option (Result StreamObject × Heap P)
  unfolding on_live opened_on
  open_stream i h = opened_on i (on_live i Open.open_stream h)

  unfoldable pub open_uni_stream : ℕ → Heap P → Option (Result StreamObject × Heap P)
  unfolding on_live opened_on
  open_uni_stream i h = opened_on i (on_live i Open.open_uni_stream h)

  unfoldable pub found_on : ℕ → Option (Option ℕ × Heap P) → Option (Option StreamObject × Heap P)
  unfolding create
  found_on i none = none
  found_on i (some (none, h)) = some (none, h)
  found_on i (some (some stream_id, h)) = let (s, h') = create i stream_id h in some (some s, h')

  -- Connection::getStream
  unfoldable pub get_stream : ℕ → ℕ → Heap P → Option (Option StreamObject × Heap P)
  unfolding on_live found_on
  get_stream stream_id i h = found_on i (on_live i (λ c. (Open.get_stream stream_id c, c)) h)
