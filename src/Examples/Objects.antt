-- ===== src/Examples/Objects.antt =====
-- A script that drops its connection and keeps a stream of it, over the sample library.
use ext_ngtcp.Prelude.{ℕ, ◌+◌, false, ◌≡◌, refl, ltb, some, List, [], ◌∷◌, ◌++◌, arith}
use ext_ngtcp.Connection.State.{Connection, create_object}
use ext_ngtcp.Exceptions.{returned}
use ext_ngtcp.Connection.Open
use ext_ngtcp.Address.{object}
use ext_ngtcp.Stream.Object.{
  StreamObject, Heap, open_stream, add_reference, on_live, set_references, store, live, release,
}
use ext_ngtcp.Stream.World.{World, Step, Reach, count, is_live, set}
use ext_ngtcp.Stream.Lifetime.{Works, empty, streams_keep_connection}
use ext_ngtcp.Examples.Server.{blank}
use ext_ngtcp.Examples.Sample.{sample}

abbrev talking : Connection sample
talking = record blank { conn = some (record { server = false; left = 2; drained = false }) }

abbrev nothing : World sample
nothing = empty

abbrev made : World sample
made = record {
  heap = set_references (store nothing.heap 0 (live talking)) 0 1;
  held = set 0 1 nothing.held;
  streams = [];
}

abbrev stream : StreamObject
stream = record { connection = object 0; stream_id = 0 }

abbrev opened : Heap sample
opened = add_reference 0 (store made.heap 0 (live (Open.open_stream talking).1))

given_out : open_stream 0 made.heap ≡ some (returned stream, opened)
unfolding open_stream on_live Open.open_stream create_object
given_out = refl

-- The variable is dropped, and the stream object is what is left.
abbrev left : World sample
left = record { heap = release 0 opened; held = set 0 0 made.held; streams = stream ∷ [] }

script : Reach empty left
script =
    Reach.step
      (Reach.step (Reach.step Reach.start (Step.makes 0 talking refl))
        (Step.opens 0 (returned stream) opened (omega arith) given_out))
      (Step.forgets 0 (omega arith))

streams_keep_connection_example :
    ((i : ℕ) → is_live (left.heap.objects i) ≡ ltb 0 (left.held i + count i left.streams))
    × ((before after : List StreamObject) (s : StreamObject)
        → left.streams ≡ before ++ s ∷ after
        → Works s left.heap)
streams_keep_connection_example = streams_keep_connection left script
