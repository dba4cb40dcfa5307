-- ===== src/Connection/History/StreamCalls.antt =====
-- The methods that open a stream or act on one (src/connection.c, src/stream.c) as chains of moves.
use ext_ngtcp.Prelude.{
  ℕ, refl, Bool, true, false, not, inl, inr, Option, none, some, arith, ◌==◌, if◌then◌else◌, Bytes,
  length, slt64, add64, positive64, if_rule, option_rule,
}
use ext_ngtcp.Buffer.{contents}
use ext_ngtcp.Event.{stream_writable, stream_opened, stream_reset}
use ext_ngtcp.Platform.{Platform, stream_id_blocked, Status, success, failure}
use ext_ngtcp.Exceptions.{LibraryCall}
use ext_ngtcp.Callbacks.{absorb}
use ext_ngtcp.Stream
use ext_ngtcp.Connection.State.{Connection, get_stream_entry}
use ext_ngtcp.Connection.Open.{
  next_stream_id, set_next_stream_id, ensure_next_stream_id, register, opened, postponed,
  finish_open, open_stream, open_uni_stream,
}
use ext_ngtcp.Connection.History.Moves.{
  life_refl, keeps_refl, quiet, Moves, here, Moves-trans, one, open_stream_entry-Moves,
}
use ext_ngtcp.Connection.History.Table.{take_chunk-Fits, buffered-Fits, ended-Fits}
use ext_ngtcp.Connection.History.Steps.{then_push, then_modify, absorb-Moves}
use ext_ngtcp.Connection.History.Calls.{Reaches}

module _ {P : Platform} where
  set_next-Moves :
      (bidi : Bool) (id : ℕ) (c : Connection P) → Moves c (set_next_stream_id bidi id c)
  set_next-Moves true id c =
      one (quiet (omega arith, life_refl c, keeps_refl c.streams) (refl, refl, refl) refl)
  set_next-Moves false id c =
      one (quiet (omega arith, life_refl c, keeps_refl c.streams) (refl, refl, refl) refl)

  ensure-Moves : (bidi : Bool) (c : Connection P) → Moves c (ensure_next_stream_id bidi c)
  unfolding ensure_next_stream_id
  ensure-Moves bidi c = set_next-Moves bidi _ c

  register-Moves : (blocked : Bool) (k : ℕ) (c : Connection P) → Moves c (register blocked k c)
  unfolding register
  register-Moves blocked k c =
      then_push _ stream_writable k 0 false
        (then_push _ stream_opened k 0 false
          (then_modify _ k _ (λ k e h. h) (open_stream_entry-Moves c k)) (inl refl))
        (inr (inr (inl refl)))

  opened-Moves : (bidi : Bool) (k : ℕ) (c : Connection P) → Moves c (opened bidi k c)
  unfolding opened
  opened-Moves bidi k c =
      let d =
        if not (slt64 k (next_stream_id bidi c))
        then set_next_stream_id bidi (add64 k 4) c
        else c in
      let m : Moves c d =
        if_rule (Moves c) (not (slt64 k (next_stream_id bidi c))) _ c (λ _. set_next-Moves bidi _ c)
          (λ _. here) in
      Moves-trans m (register-Moves false k d)

  postponed-Moves : (bidi : Bool) (c : Connection P) → Moves c (postponed bidi c)
  unfolding postponed
  postponed-Moves bidi c = Moves-trans (set_next-Moves bidi _ c) (register-Moves true _ _)

  finish_open-Reaches :
      (call : LibraryCall) (bidi : Bool) (rv : Status) (k : ℕ) (c : Connection P)
      → Reaches c (finish_open call bidi rv k c)
  unfolding finish_open
  finish_open-Reaches call bidi success k c =
      Moves-trans (ensure-Moves bidi c) (opened-Moves bidi k _)
  finish_open-Reaches call bidi (failure stream_id_blocked) k c =
      Moves-trans (ensure-Moves bidi c) (postponed-Moves bidi _)
  finish_open-Reaches call bidi (failure _) k c = here

  pub open_stream-Reaches : (c : Connection P) → Reaches c (open_stream c)
  unfolding open_stream
  open_stream-Reaches c =
      option_rule (Reaches c) c.conn _ _ (λ _. here)
        λ conn _.
          if_rule (Reaches c) c.closed _ _ (λ _. here)
            λ _.
              let o = P.open_bidi_stream conn in
              Moves-trans (absorb-Moves o c)
                (finish_open-Reaches _ true o.result.rv o.result.stream_id _)

  pub open_uni_stream-Reaches : (c : Connection P) → Reaches c (open_uni_stream c)
  unfolding open_uni_stream
  open_uni_stream-Reaches c =
      option_rule (Reaches c) c.conn _ _ (λ _. here)
        λ conn _.
          if_rule (Reaches c) c.closed _ _ (λ _. here)
            λ _.
              let o = P.open_uni_stream conn in
              Moves-trans (absorb-Moves o c)
                (finish_open-Reaches _ false o.result.rv o.result.stream_id _)

  pub read-Reaches : (k n : ℕ) (c : Connection P) → Reaches c (Stream.read k n c)
  unfolding Stream.read
  read-Reaches k n c =
      if_rule (Reaches c) (not (positive64 n)) _ _ (λ _. here)
        λ _.
          option_rule (Reaches c) (get_stream_entry c k) _ _ (λ _. here)
            λ e _.
              if_rule (Reaches c) (length (contents e.rx_buffer) == 0) _ _ (λ _. here)
                (λ _. then_modify c k _ (take_chunk-Fits n) here)

  pub write-Reaches :
      (k : ℕ) (bytes : Bytes) (c : Connection P) → Reaches c (Stream.write k bytes c)
  unfolding Stream.write
  write-Reaches k bytes c =
      option_rule (Reaches c) (get_stream_entry c k) _ _ (λ _. here)
        λ e _.
          if_rule (Reaches c) (Stream.is_remote_unidirectional P c.conn k) _ _ (λ _. here)
            λ _.
              if_rule (Reaches c) (Stream.refuses_write e) _ _ (λ _. here)
                (λ _. then_modify c k _ (buffered-Fits bytes) here)

  pub end-Reaches :
      (k : ℕ) (bytes : Option Bytes) (c : Connection P) → Reaches c (Stream.end k bytes c)
  unfolding Stream.end
  end-Reaches k bytes c =
      option_rule (Reaches c) (get_stream_entry c k) _ _ (λ _. here)
        λ e _.
          if_rule (Reaches c) (Stream.is_remote_unidirectional P c.conn k) _ _ (λ _. here)
            (λ _. then_modify c k _ (ended-Fits bytes) here)

  after_shutdown-Reaches :
      (s : Status) (k code : ℕ) (c : Connection P) → Reaches c (Stream.after_shutdown s k code c)
  unfolding Stream.after_shutdown Stream.finish_reset
  after_shutdown-Reaches success k code c =
      then_push _ stream_reset k code false
        (then_modify c k _ (λ k e h. (h.0, h.1, h.2, h.3, λ r. cc)) here)
        (inr (inr (inr (inr refl))))
  after_shutdown-Reaches (failure x) k code c = here

  shutdown-Reaches :
      (o : Option P.Conn) (k code : ℕ) (c : Connection P) → Reaches c (Stream.shutdown o k code c)
  unfolding Stream.shutdown
  shutdown-Reaches none k code c = after_shutdown-Reaches success k code c
  shutdown-Reaches (some conn) k code c =
      if_rule (Reaches c) c.closed _ _ (λ _. after_shutdown-Reaches success k code c)
        λ _.
          let o = P.shutdown_stream conn k code in
          Moves-trans (absorb-Moves o c) (after_shutdown-Reaches o.result k code (absorb o c))

  pub reset-Reaches : (k code : ℕ) (c : Connection P) → Reaches c (Stream.reset k code c)
  unfolding Stream.reset
  reset-Reaches k code c =
      option_rule (Reaches c) (get_stream_entry c k) _ _ (λ _. here)
        λ e _. shutdown-Reaches c.conn k code c
