-- ===== src/Stream/World.antt =====
-- What a script does with the connection and stream objects of src/stream.c.
use ext_ngtcp.Prelude.{
  ℕ, ◌+◌, ◌-◌, ◌<◌, ◌≡◌, Bool, true, false, Option, none, some, List, [], ◌∷◌, ◌++◌, Bytes, ◌==◌,
  if◌then◌else◌,
}
use ext_ngtcp.Platform.{Platform}
use ext_ngtcp.Address.{Zval, undef, null, object}
use ext_ngtcp.Exceptions.{Result, returned, thrown}
use ext_ngtcp.Connection.State.{Connection}
use ext_ngtcp.Stream.Object.{
  Slot, vacant, live, freed, Heap, StreamObject, store, set_references, add_reference, release,
  free_object, on_live, read, write, end, reset, open_stream, open_uni_stream, get_stream,
}

-- What a script has: the heap, how many variables hold each connection object, and the stream
-- objects that it holds.
pub record World (P : Platform) : Type 0 where
  pub heap : Heap P
  pub held : ℕ → ℕ
  pub streams : List StreamObject

abbrev pub is_live : {P : Platform} → Slot P → Bool
is_live vacant = false
is_live (live c) = true
is_live (freed c) = false

abbrev pub refers : ℕ → Zval ℕ → ℕ
refers i undef = 0
refers i null = 0
refers i (object j) = if i == j then 1 else 0

-- How many of the stream objects hold a connection object.
unfoldable pub count : ℕ → List StreamObject → ℕ
count i [] = 0
count i (s ∷ streams) = refers i s.connection + count i streams

abbrev pub given : Result StreamObject → List StreamObject
given (returned s) = s ∷ []
given (thrown x) = []

abbrev pub got : Option StreamObject → List StreamObject
got none = []
got (some s) = s ∷ []

abbrev pub set : ℕ → ℕ → (ℕ → ℕ) → ℕ → ℕ
set i n f j = if j == i then n else f j

-- The script makes a connection object, copies or drops a variable with one, calls a method on one,
-- opens or finds a stream, calls a method on a stream object, or drops it.
pub data Step {P : Platform} (w : World P) : World P → Type 0 where
  makes :
      (i : ℕ) (c : Connection P)
      → w.heap.objects i ≡ vacant
      → Step w
          (record w { heap = set_references (store w.heap i (live c)) i 1; held = set i 1 w.held })
  copies :
      (i : ℕ)
      → 0 < w.held i
      → Step w (record w { heap = add_reference i w.heap; held = set i (w.held i + 1) w.held })
  forgets :
      (i : ℕ)
      → 0 < w.held i
      → Step w (record w { heap = release i w.heap; held = set i (w.held i - 1) w.held })
  calls :
      (i : ℕ) (method : Connection P → Connection P) (h : Heap P)
      → 0 < w.held i
      → on_live i (λ c. (tt, method c)) w.heap ≡ some (tt, h)
      → Step w (record w { heap = h })
  opens :
      (i : ℕ) (r : Result StreamObject) (h : Heap P)
      → 0 < w.held i
      → open_stream i w.heap ≡ some (r, h)
      → Step w (record w { heap = h; streams = given r ++ w.streams })
  opens_uni :
      (i : ℕ) (r : Result StreamObject) (h : Heap P)
      → 0 < w.held i
      → open_uni_stream i w.heap ≡ some (r, h)
      → Step w (record w { heap = h; streams = given r ++ w.streams })
  gets :
      (stream_id i : ℕ) (r : Option StreamObject) (h : Heap P)
      → 0 < w.held i
      → get_stream stream_id i w.heap ≡ some (r, h)
      → Step w (record w { heap = h; streams = got r ++ w.streams })
  reads :
      (n : ℕ) (before after : List StreamObject) (s : StreamObject) (r : Result Bytes) (h : Heap P)
      → w.streams ≡ before ++ s ∷ after
      → read n s w.heap ≡ some (r, h)
      → Step w (record w { heap = h })
  writes :
      (bytes : Bytes) (before after : List StreamObject) (s : StreamObject) (r : Result ℕ)
      (h : Heap P)
      → w.streams ≡ before ++ s ∷ after
      → write bytes s w.heap ≡ some (r, h)
      → Step w (record w { heap = h })
  ends :
      (final_data : Option Bytes) (before after : List StreamObject) (s : StreamObject)
      (r : Result (Unit {0})) (h : Heap P)
      → w.streams ≡ before ++ s ∷ after
      → end final_data s w.heap ≡ some (r, h)
      → Step w (record w { heap = h })
  resets :
      (code : ℕ) (before after : List StreamObject) (s : StreamObject) (r : Result (Unit {0}))
      (h : Heap P)
      → w.streams ≡ before ++ s ∷ after
      → reset code s w.heap ≡ some (r, h)
      → Step w (record w { heap = h })
  drops :
      (before after : List StreamObject) (s : StreamObject)
      → w.streams ≡ before ++ s ∷ after
      → Step w (record w { heap = (free_object s w.heap).1; streams = before ++ after })

pub data Reach {P : Platform} (w : World P) : World P → Type 0 where
  start : Reach w w
  step : {u v : World P} → Reach w u → Step u v → Reach w v
