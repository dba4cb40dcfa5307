-- ===== src/Connection/Open/Ids.antt =====
-- The ids of the streams that src/connection.c opens.
use ext_ngtcp.Prelude.{
  ℕ, ◌+◌, ◌%◌, ◌≤◌, ◌<◌, ◌≡◌, refl, Bool, true, false, not, arith, if◌then◌else◌, slt64, add64,
  i64_min, if_rule, option_rule, subst, sym, ◌∙◌,
}
use ext_ngtcp.Platform.{Platform, success}
use ext_ngtcp.Exceptions.{LibraryCall, returned}
use ext_ngtcp.Connection.State.{
  Connection, open_stream_entry, modify_entry, push_event, tick_clock, find,
}
use ext_ngtcp.Connection.Open.{
  serves, minimum_stream_id, ensured, next_stream_id, set_next_stream_id, ensure_next_stream_id,
  register, opened, finish_open,
}

-- Far enough below 2 ^ 63 for one more stream.
abbrev pub InRange : ℕ → Type 0
InRange id = id + 4 < i64_min

ensured_lem :
    (minimum next : ℕ)
    → minimum < 4
    → InRange next
    → (ensured minimum next % 4 ≡ minimum)
      × (minimum ≤ ensured minimum next)
      × InRange (ensured minimum next)
unfolding ensured
ensured_lem minimum next low room = (ground arith, ground arith, ground arith)

minimum_low : (server bidi : Bool) → minimum_stream_id server bidi < 4
unfolding minimum_stream_id
minimum_low server bidi = ground arith

plus_four : (id : ℕ) → InRange id → add64 id 4 ≡ id + 4
plus_four id room = omega arith

module _ {P : Platform} where
  next-open_stream_entry :
      (bidi : Bool) (id : ℕ) (c : Connection P)
      → next_stream_id bidi (open_stream_entry c id) ≡ next_stream_id bidi c
  unfolding open_stream_entry
  next-open_stream_entry bidi id c =
      option_rule (λ (d : Connection P). next_stream_id bidi d ≡ next_stream_id bidi c)
        (find id c.streams) _ _ (λ _. refl) (λ e _. refl)

  next-register :
      (bidi blocked : Bool) (id : ℕ) (c : Connection P)
      → next_stream_id bidi (register blocked id c) ≡ next_stream_id bidi c
  unfolding register push_event tick_clock modify_entry
  next-register bidi blocked id c = next-open_stream_entry bidi id c

  next-set :
      (bidi : Bool) (id : ℕ) (c : Connection P)
      → next_stream_id bidi (set_next_stream_id bidi id c) ≡ id
  next-set true id c = refl
  next-set false id c = refl

  next-ensure :
      (bidi : Bool) (c : Connection P)
      → next_stream_id bidi (ensure_next_stream_id bidi c)
        ≡ ensured (minimum_stream_id (serves P c.conn) bidi) (next_stream_id bidi c)
  unfolding ensure_next_stream_id
  next-ensure bidi c = next-set bidi _ c

  Above : Bool → ℕ → Connection P → Type 0
  Above bidi s d = s < next_stream_id bidi d

  opened-Above :
      (bidi : Bool) (s : ℕ) (c : Connection P)
      → InRange (next_stream_id bidi c)
      → InRange s
      → Above bidi s (opened bidi s c)
  unfolding opened Above
  opened-Above bidi s c room low =
      let next = next_stream_id bidi c in
      let d = if not (slt64 s next) then set_next_stream_id bidi (add64 s 4) c else c in
      let above : Above bidi s d =
        if_rule (Above bidi s) (not (slt64 s next)) _ _
          (λ late.
            subst (λ i. s < i) (sym (next-set bidi (add64 s 4) c ∙ plus_four s low)) (omega arith))
          (λ early. ground arith) in
      subst (λ i. s < i) (sym (next-register bidi false s d)) above

  -- Where libngtcp2 opens a stream: the id that it gives is returned, and the next id of that
  -- direction lies above it, so that a stream which has to wait later gets another one. Ids stay
  -- below the end of the range by assumption.
  pub opened_id :
      (call : LibraryCall) (bidi : Bool) (s : ℕ) (c : Connection P)
      → InRange (next_stream_id bidi c)
      → InRange s
      → let r = finish_open call bidi success s c in
        (r.0 ≡ returned s) × (s < next_stream_id bidi r.1)
  unfolding finish_open Above
  opened_id call bidi s c room low =
      let minimum = minimum_stream_id (serves P c.conn) bidi in
      let fit = ensured_lem minimum (next_stream_id bidi c) (minimum_low _ bidi) room in
      (
        refl,
        opened-Above bidi s (ensure_next_stream_id bidi c)
            (subst InRange (sym (next-ensure bidi c)) fit.2) low,
      )
