-- ===== src/Connection/Timers/Bounds.antt =====
-- The timeouts of src/connection.c against the library's deadlines.
use ext_ngtcp.Prelude.{
  ℕ, ◌+◌, ◌-◌, ◌*◌, ◌/◌, ◌≤◌, ◌<◌, ◌≡◌, ◌≢◌, true, false, none, some, arith, leb, if◌then◌else◌,
  u64_mod, Option-cases, inl, inr,
}
use ext_ngtcp.Platform.{Platform}
use ext_ngtcp.Connection.State.{Connection, timestamp}
use ext_ngtcp.Connection.Timers.{nanoseconds_per_ms, next_timeout_ms, get_next_timeout}

module _ {P : Platform} where
  -- On a connection that is open, with a handle of libngtcp2, whose deadline is later than the time
  -- now: getNextTimeout returns a number of milliseconds that does not lead past the deadline and
  -- that one millisecond more would; where the deadline has come it returns 0. On a connection that
  -- is closed or has no handle it returns null. Where libngtcp2 has no timer, which it tells by the
  -- deadline UINT64_MAX, an open connection returns a number too, and not null.
  pub get_next_timeout_lem :
      (c : Connection P)
      → (c.conn ≡ none → (get_next_timeout c).0 ≡ none)
        × (c.closed ≡ true → (get_next_timeout c).0 ≡ none)
        × ((conn : P.Conn)
            → c.conn ≡ some conn
            → c.closed ≡ false
            → (ms : ℕ) × ((get_next_timeout c).0 ≡ some ms)
              × (P.get_expiry conn ≤ timestamp c → ms ≡ 0)
              × (timestamp c < P.get_expiry conn
                  → (timestamp c + ms * nanoseconds_per_ms ≤ P.get_expiry conn)
                    × (P.get_expiry conn < timestamp c + (ms + 1) * nanoseconds_per_ms)))
        × ((conn : P.Conn)
            → c.conn ≡ some conn
            → c.closed ≡ false
            → P.get_expiry conn ≡ u64_mod - 1
            → (get_next_timeout c).0 ≢ none)
  unfolding get_next_timeout next_timeout_ms timestamp
  get_next_timeout_lem c = (
    (λ e. rw e),
    (λ closed. elim (Option-cases c.conn) [ inl e ↦ rw e | inr (conn, e) ↦ rw (e, closed) ]),
    (λ conn e active.
        let now = timestamp c in
        let expiry = P.get_expiry conn in
        (
          (if leb expiry now then 0 else (expiry - now) / nanoseconds_per_ms),
          rw (e, active),
          (λ past. ground arith),
          λ future. (ground arith, ground arith),
        )),
    λ conn e active unset. rw (e, active) (λ gone. cc),
  )
