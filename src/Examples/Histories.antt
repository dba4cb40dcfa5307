-- ===== src/Examples/Histories.antt =====
-- Histories of a client and of a server connection over the sample library.
use ext_ngtcp.Prelude.{ℕ, ◌≤◌, ◌≡◌, ◌≢◌, true, none, some, List, [], ◌∷◌, ◌++◌, Bytes, arith}
use ext_ngtcp.Queue.{Event}
use ext_ngtcp.Event.{handshake_completed, connection_closed, connection_draining, milliseconds}
use ext_ngtcp.Connection.State.{Connection, create_object, find}
use ext_ngtcp.Connection.History.Reach.{Step, Reach}
use ext_ngtcp.Connection.Methods.{recv, close, drain_events}
use ext_ngtcp.Connection.Setup.{construct}
use ext_ngtcp.Connection.History.Once.{Tally, count, announced, lifecycle_once}
use ext_ngtcp.Connection.History.Time.{IsClock, Ordered, events_in_time}
use ext_ngtcp.Connection.History.Lifecycle.{nothing_taken_back, table-Sound}
use ext_ngtcp.Connection.History.Table.{Sound}
use ext_ngtcp.Exceptions.{Result}
use ext_ngtcp.Datagram.{Datagram}
use ext_ngtcp.Connection.Methods.{drain_outgoing_datagrams}
use ext_ngtcp.Connection.Loop.Answers.{IsDocumented}
use ext_ngtcp.Connection.History.Draining.{drain_ends}
use ext_ngtcp.Examples.Sample.{writev_stream, control, sample, peer_address, packet}

abbrev pub hello : Bytes
hello = b'h' ∷ b'i' ∷ []

abbrev pub c0 : Connection sample
c0 = create_object sample 0

abbrev pub c1 : Connection sample
c1 = (construct peer_address none (some (1 ∷ [])) (some (2 ∷ [])) c0).1

abbrev c2 : Connection sample
c2 = (recv (packet hello) c1).1

abbrev c3 : Connection sample
c3 = (drain_events c2).1

abbrev c4 : Connection sample
c4 = close 7 none c3

abbrev c5 : Connection sample
c5 = (recv (packet []) c4).1

abbrev handed : List Event
handed = ((((([] ++ []) ++ []) ++ c2.events) ++ []) ++ [])

-- A client is made, gets a packet, hands out its events, is closed, and is told to drain.
history : Reach c0 handed c5
history =
    Reach.call
      (Reach.call
        (Reach.call
          (Reach.call
            (Reach.call Reach.start
              (Step.constructs peer_address none (some (1 ∷ [])) (some (2 ∷ []))))
            (Step.receive (packet hello)))
          Step.drain)
        (Step.closes 7 none))
      (Step.receive (packet []))

lifecycle_once_example :
    Tally handed c5
    × (count handshake_completed (announced handed c5) ≤ 1)
    × (count connection_closed (announced handed c5) ≤ 1)
    × (count connection_draining (announced handed c5) ≤ 1)
lifecycle_once_example = lifecycle_once 0 c5 handed history

clock : IsClock sample.hrtime
clock = record { monotonic = λ m n h. ground arith; in_range = λ n. ground arith }

events_in_time_example :
    Ordered 0 (milliseconds (sample.hrtime c5.clock_reads)) (announced handed c5)
events_in_time_example = events_in_time clock 0 c5 handed history

nothing_taken_back_example :
    (c0.established ≡ true → c5.established ≡ true)
    × (c0.is_draining ≡ true → c5.is_draining ≡ true)
    × (c0.closed ≡ true → c5.closed ≡ true)
    × (c0.close_requested ≡ true → c5.close_requested ≡ true)
    × (c0.close_packet_sent ≡ true → c5.close_packet_sent ≡ true)
    × ((k : ℕ) → find k c0.streams ≢ none → find k c5.streams ≢ none)
nothing_taken_back_example = nothing_taken_back c0 c5 handed history

table-Sound_example : Sound c5.streams
table-Sound_example = table-Sound 0 c5 handed history

pub sample-IsDocumented : IsDocumented sample
unfolding writev_stream control
sample-IsDocumented = record {
  room = λ conn. 0;
  fills = λ conn r now e. ground arith;
  keeps = λ conn r now e. ground arith;
  opens_bidi = λ conn. omega arith;
  opens_uni = λ conn. omega arith;
  no_more = λ conn now. ground arith;
  no_shut = λ conn now. ground arith;
}

drain_ends_example :
    (fuel : ℕ) × (r : Result (List Datagram) × Connection sample) × (drain_outgoing_datagrams fuel
        c5
      ≡ some r)
drain_ends_example = drain_ends sample-IsDocumented 0 c5 handed history
