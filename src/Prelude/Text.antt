-- ===== src/Prelude/Text.antt =====
-- C strings, and numbers printed by "%ld".
use Prim.Native.Nat.{ℕ, zero, suc, ◌+◌, ◌-◌, ◌/◌, ◌%◌}
use mathlib.Core.Path.{◌≡◌, refl, subst}
use mathlib.Core.Logic.{◌↔◌}
use mathlib.Core.Bool.{Bool, true, false, ◌&&◌}
use mathlib.Core.List.{[], ◌∷◌}
use native.Mathlib.Omega.{arith}
use ext_ngtcp.Prelude.Tests.{ltb, ◌==◌, if◌then◌else◌}
use ext_ngtcp.Prelude.Lists.{Bytes}
use ext_ngtcp.Prelude.Words.{u64_mod, i64_min}

-- The bytes that a char pointer shows: those before the first NUL.
unfoldable pub c_string : Bytes → Bytes
c_string [] = []
c_string (c ∷ bytes) = if c == 0 then [] else c ∷ c_string bytes

unfoldable pub digits_from : ℕ → ℕ → Bytes → Bytes
digits_from zero n acc = acc
digits_from (suc fuel) n acc =
    let rest = digits_from fuel (n / 10) ((48 + n % 10) ∷ acc) in
    if ltb n 10 then (48 + n % 10) ∷ acc else rest

-- A number n has at most n + 1 digits.
unfoldable pub show_ℕ : ℕ → Bytes
unfolding digits_from
show_ℕ n = digits_from (suc n) n []

-- "%ld" of an int64_t pattern.
unfoldable pub show_long : ℕ → Bytes
unfolding show_ℕ
show_long n = if ltb n i64_min then show_ℕ n else b'-' ∷ show_ℕ (u64_mod - n)

unfoldable pub bytes_eq : Bytes → Bytes → Bool
bytes_eq [] [] = true
bytes_eq [] (b ∷ ys) = false
bytes_eq (a ∷ xs) [] = false
bytes_eq (a ∷ xs) (b ∷ ys) = a == b && bytes_eq xs ys

bytes_eq_to : (xs ys : Bytes) → bytes_eq xs ys ≡ true → xs ≡ ys
unfolding bytes_eq
bytes_eq_to [] [] h = refl
bytes_eq_to [] (b ∷ ys) h = cc
bytes_eq_to (a ∷ xs) [] h = cc
bytes_eq_to (a ∷ xs) (b ∷ ys) h = ground (arith, bytes_eq_to xs ys)

pub bytes_eq_refl : (xs : Bytes) → bytes_eq xs xs ≡ true
unfolding bytes_eq
bytes_eq_refl [] = refl
bytes_eq_refl (a ∷ xs) = ground (arith, bytes_eq_refl xs)

pub bytes_eq_iff : (xs ys : Bytes) → (bytes_eq xs ys ≡ true) ↔ (xs ≡ ys)
bytes_eq_iff xs ys =
    (bytes_eq_to xs ys, λ e. subst (λ zs. bytes_eq xs zs ≡ true) e (bytes_eq_refl xs))
