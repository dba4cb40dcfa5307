-- ===== src/Connection/Timers.antt =====
-- The deadlines of src/connection.c. Library time is in nanoseconds, results in milliseconds.
pub mod Bounds
use ext_ngtcp.Prelude.{ℕ, ◌+◌, ◌-◌, ◌*◌, ◌/◌, Option, none, some, leb, if◌then◌else◌, add64}
use ext_ngtcp.Platform.{Platform}
use ext_ngtcp.Connection.State.{Connection, tick_clock, timestamp}

-- NGTCP2_MILLISECONDS
abbrev pub nanoseconds_per_ms : ℕ
nanoseconds_per_ms = 1000000

module _ {P : Platform} where
  -- php_quic_connection_get_next_timeout_ms with php_quic_connection_get_next_expiry: `none` is
  -- that there is no timeout, and otherwise the clock is read once.
  unfoldable pub next_timeout_ms : Connection P → Option ℕ × Connection P
  next_timeout_ms c = elim c.conn [
    | none ↦ (none, c)
    | some conn ↦
        if c.closed
        then (none, c)
        else (let now = timestamp c in
            let expiry = P.get_expiry conn in
            (
              some (if leb expiry now then 0 else (expiry - now) / nanoseconds_per_ms),
              tick_clock c,
            ))
  ]

  -- Connection::getNextTimeout
  unfoldable pub get_next_timeout : Connection P → Option ℕ × Connection P
  unfolding next_timeout_ms
  get_next_timeout c = next_timeout_ms c

-- php_quic_epoch_milliseconds, from the seconds and microseconds of gettimeofday, if it succeeds.
unfoldable pub epoch_milliseconds : Option (ℕ × ℕ) → ℕ
epoch_milliseconds none = 0
epoch_milliseconds (some (sec, usec)) = (sec * 1000 + usec / 1000)

module _ {P : Platform} where
  -- Connection::getNextExpiry; gettimeofday is read after zend_hrtime. The sum is a zend_long.
  unfoldable pub get_next_expiry : Connection P → Option ℕ × Connection P
  unfolding next_timeout_ms epoch_milliseconds
  get_next_expiry c =
      let (timeout, c1) = next_timeout_ms c in
      (
        elim timeout [
          | none ↦ none
          | some ms ↦ some (add64 (epoch_milliseconds (P.epoch c1.clock_reads)) ms)
        ],
        c1,
      )
