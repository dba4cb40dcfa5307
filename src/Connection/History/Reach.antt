-- ===== src/Connection/History/Reach.antt =====
-- Every sequence of method calls on a connection and on its streams, with the events handed out.
use ext_ngtcp.Prelude.{ℕ, ◌≡◌, Option, some, List, [], ◌++◌, append-nil, Bytes, subst, sym}
use ext_ngtcp.Queue.{Event}
use ext_ngtcp.Platform.{Platform}
use ext_ngtcp.Exceptions.{Result, returned}
use ext_ngtcp.Address.{Address}
use ext_ngtcp.Config.Client.{ClientConfig}
use ext_ngtcp.Config.Server.{ServerConfig}
use ext_ngtcp.Datagram.{Datagram}
use ext_ngtcp.Connection.State.{Connection, create_object}
use ext_ngtcp.Connection.Setup
use ext_ngtcp.Connection.Accept.Inputs.{Surroundings}
use ext_ngtcp.Connection.Accept.{Left, accept}
use ext_ngtcp.Connection.History.SetupCalls.{construct-Reaches}
use ext_ngtcp.Connection.History.AcceptCalls.{Builds, accept-Builds}
use ext_ngtcp.Connection.Methods.{
  recv, handle_timers, drain_events, drain_outgoing_datagrams, close,
}
use ext_ngtcp.Connection.Timers.{get_next_timeout, get_next_expiry}
use ext_ngtcp.Connection.Open.{open_stream, open_uni_stream}
use ext_ngtcp.Stream
use ext_ngtcp.Connection.History.Moves.{Move, Moves, here, next}
use ext_ngtcp.Connection.History.Calls.{
  recv-Reaches, handle_timers-Reaches, get_next_timeout-Reaches, get_next_expiry-Reaches,
  drain_outgoing_datagrams-Ends, close-Moves,
}
use ext_ngtcp.Connection.History.StreamCalls.{
  open_stream-Reaches, open_uni_stream-Reaches, read-Reaches, write-Reaches, end-Reaches,
  reset-Reaches,
}
use ext_ngtcp.Connection.History.Transmission.{Ends}

-- One method call: the native events that it hands out, and the connection after it. A call that
-- throws is a step too. `accepted` makes a new object the server's side. `send` is
-- drainOutgoingDatagrams, whose loop came to its end.
pub data Step {P : Platform} (c : Connection P) : List Event → Connection P → Type 0 where
  constructs :
      (remote : Address) (config : Option ClientConfig) (dcid scid : Option Bytes)
      → Step c [] (Setup.construct remote config dcid scid c).1
  accepted :
      (zero_addr : P.Sockaddr) (s : Surroundings) (initial : Datagram) (config : ServerConfig)
      (d : Connection P) (left : Left P)
      → c ≡ create_object P zero_addr
      → accept P zero_addr s initial config ≡ (returned d, left)
      → Step c [] d
  receive : (d : Datagram) → Step c [] (recv d c).1
  timers : Step c [] (handle_timers c).1
  timeout : Step c [] (get_next_timeout c).1
  expiry : Step c [] (get_next_expiry c).1
  drain : Step c c.events (drain_events c).1
  send :
      (fuel : ℕ) (r : Result (List Datagram)) (d : Connection P)
      → drain_outgoing_datagrams fuel c ≡ some (r, d)
      → Step c [] d
  open_bidi : Step c [] (open_stream c).1
  open_uni : Step c [] (open_uni_stream c).1
  closes : (code : ℕ) (reason : Option Bytes) → Step c [] (close code reason c)
  read : (k n : ℕ) → Step c [] (Stream.read k n c).1
  write : (k : ℕ) (bytes : Bytes) → Step c [] (Stream.write k bytes c).1
  end : (k : ℕ) (bytes : Option Bytes) → Step c [] (Stream.end k bytes c).1
  reset : (k code : ℕ) → Step c [] (Stream.reset k code c).1

pub data Reach {P : Platform} (c : Connection P) : List Event → Connection P → Type 0 where
  start : Reach c [] c
  call :
      {out es : List Event} {d d' : Connection P}
      → Reach c out d
      → Step d es d'
      → Reach c (out ++ es) d'

-- An invariant of the events handed out and the connection holds along every sequence of calls if it
-- survives a move, and if it survives that the queue is handed out.
module _ {P : Platform} (I : List Event → Connection P → Type 0)
    (keep : (out : List Event) (c d : Connection P) → Move c d → I out c → I out d)
    (hand_out : (out : List Event) (c : Connection P)
      → I out c
      → I (out ++ c.events) (drain_events c).1) where
  moves_keep : {c d : Connection P} (out : List Event) → Moves c d → I out c → I out d
  moves_keep out here i = i
  moves_keep out (next {d = e} {d' = f} m s) i = keep out e f s (moves_keep out m i)

  ends_keep :
      {c : Connection P} (out : List Event) (fuel : ℕ) (r : Result (List Datagram))
      (d : Connection P)
      → drain_outgoing_datagrams fuel c ≡ some (r, d)
      → I out c
      → I out d
  ends_keep {c} out fuel r d e i =
      moves_keep out (subst (Ends c) e (drain_outgoing_datagrams-Ends fuel c)) i

  unhanded : (out : List Event) (c : Connection P) → I out c → I (out ++ []) c
  unhanded out c i = subst (λ es. I es c) (sym (append-nil out)) i

  step_keep : {out es : List Event} {c d : Connection P} → Step c es d → I out c → I (out ++ es) d
  step_keep {out} {c = c} (constructs remote config dcid scid) i =
      unhanded out _ (moves_keep out (construct-Reaches remote config dcid scid c) i)
  step_keep {out} {c = c} (accepted zero_addr s initial config d left created e) i =
      unhanded out d (
        moves_keep out
          (subst (λ r. Builds (create_object P zero_addr) r) e
            (accept-Builds P zero_addr s initial config))
          (subst (I out) created i))
  step_keep {out} {c = c} (receive d) i = unhanded out _ (moves_keep out (recv-Reaches d c) i)
  step_keep {out} {c = c} timers i = unhanded out _ (moves_keep out (handle_timers-Reaches c) i)
  step_keep {out} {c = c} timeout i = unhanded out _ (moves_keep out (get_next_timeout-Reaches c) i)
  step_keep {out} {c = c} expiry i = unhanded out _ (moves_keep out (get_next_expiry-Reaches c) i)
  step_keep {out} {c = c} drain i = hand_out out c i
  step_keep {out} (send fuel r d e) i = unhanded out d (ends_keep out fuel r d e i)
  step_keep {out} {c = c} open_bidi i = unhanded out _ (moves_keep out (open_stream-Reaches c) i)
  step_keep {out} {c = c} open_uni i = unhanded out _ (moves_keep out (open_uni_stream-Reaches c) i)
  step_keep {out} {c = c} (closes code reason) i =
      unhanded out _ (moves_keep out (close-Moves code reason c) i)
  step_keep {out} {c = c} (read k n) i = unhanded out _ (moves_keep out (read-Reaches k n c) i)
  step_keep {out} {c = c} (write k bytes) i =
      unhanded out _ (moves_keep out (write-Reaches k bytes c) i)
  step_keep {out} {c = c} (end k bytes) i =
      unhanded out _ (moves_keep out (end-Reaches k bytes c) i)
  step_keep {out} {c = c} (reset k code) i =
      unhanded out _ (moves_keep out (reset-Reaches k code c) i)

  pub reach_keep : {c d : Connection P} {out : List Event} → Reach c out d → I [] c → I out d
  reach_keep start i = i
  reach_keep (call r s) i = step_keep s (reach_keep r i)
