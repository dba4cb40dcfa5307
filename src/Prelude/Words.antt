-- ===== src/Prelude/Words.antt =====
-- Machine integers as bit patterns: a 64-bit value is a number below 2 ^ 64, an int64_t its two's
-- complement pattern.
use Prim.Native.Nat.{ℕ, ◌+◌, ◌-◌, ◌%◌, ◌^◌}
use mathlib.Core.Bool.{Bool, ◌&&◌}
use ext_ngtcp.Prelude.Tests.{ltb}

abbrev pub u32_mod : ℕ
u32_mod = 2 ^ 32

abbrev pub u64_mod : ℕ
u64_mod = 2 ^ 64

abbrev pub i64_min : ℕ
i64_min = 2 ^ 63

-- The pattern of -1.
abbrev pub minus_one : ℕ
minus_one = u64_mod - 1

abbrev pub add64 : ℕ → ℕ → ℕ
add64 a b = (a + b) % u64_mod

-- a < b as int64_t.
abbrev pub slt64 : ℕ → ℕ → Bool
slt64 a b = ltb ((a + i64_min) % u64_mod) ((b + i64_min) % u64_mod)

-- 0 < a as int64_t.
abbrev pub positive64 : ℕ → Bool
positive64 a = ltb 0 a && ltb a i64_min
