-- ===== src/Prelude/Words.antt =====
-- Machine words. A value of a fixed-width C++ type is kept as its bit pattern, a number below
-- `2 ^ w`; `std::bit_cast` between signed and unsigned types of one width is then the identity,
-- and `signed w` is the integer that a pattern stands for.
use Prim.Native.Nat.{ℕ, ◌-◌, ◌%◌, ◌^◌, ◌<◌}
use mathlib.Core.Path.{◌≡◌}
use mathlib.Core.Bool.{Bool}
use native.Mathlib.Omega.{arith}
use geevm.Prelude.Tests.{ltb, if◌then◌else◌}
use geevm.Prelude.Int.{ℤ, pos, negsuc}

-- Two's complement.
abbrev pub signed : ℕ → ℕ → ℤ
signed w x = if ltb x (2 ^ (w - 1)) then pos x else negsuc (2 ^ w - x - 1)

-- `static_cast` of an integer to a type of width `w`: reduction modulo `2 ^ w`.
abbrev pub pattern_of : ℕ → ℤ → ℕ
pattern_of w (pos n) = n % 2 ^ w
pattern_of w (negsuc n) = 2 ^ w - 1 - n % 2 ^ w

-- `static_cast` from a signed type of width `v` to a type of width `w`.
abbrev pub sign_extend : ℕ → ℕ → ℕ → ℕ
sign_extend v w x = pattern_of w (signed v x)

-- The integer fits a signed type of width `w`.
abbrev pub fits : ℕ → ℤ → Bool
fits w (pos n) = ltb n (2 ^ (w - 1))
fits w (negsuc n) = ltb n (2 ^ (w - 1))

pub pattern_of-signed32 : (x : ℕ) → x < 2 ^ 32 → pattern_of 32 (signed 32 x) ≡ x
pattern_of-signed32 x h = ground arith

pub signed32-pattern_of : (z : ℤ) → fits 32 z ≡ Bool.true → signed 32 (pattern_of 32 z) ≡ z
signed32-pattern_of (pos n) h = ground arith
signed32-pattern_of (negsuc n) h = ground arith

pub pattern_of-signed64 : (x : ℕ) → x < 2 ^ 64 → pattern_of 64 (signed 64 x) ≡ x
pattern_of-signed64 x h = ground arith

pub signed64-pattern_of : (z : ℤ) → fits 64 z ≡ Bool.true → signed 64 (pattern_of 64 z) ≡ z
signed64-pattern_of (pos n) h = ground arith
signed64-pattern_of (negsuc n) h = ground arith
