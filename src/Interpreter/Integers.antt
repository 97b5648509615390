-- ===== src/Interpreter/Integers.antt =====
-- Integer arithmetic as src/vm/Interpreter.cpp computes it, at any width: the wrapping operations of
-- `WrapSignedArithmetic`, and the signed C++ operators, which are undefined on overflow and on
-- division by zero.
pub mod Division
pub mod Wrapping
use geevm.Prelude.{ℕ, zero, suc, ◌+◌, ◌-◌, ◌*◌, ◌/◌, ◌%◌, ◌^◌, ◌≤◌, ◌<◌, ◌≡◌, refl, Bool, true}
use geevm.Prelude.{false, ltb, ◌==◌, if◌then◌else◌, Result, ok, fault, ◌>>=◌, undefined, arith}
use geevm.Prelude.{bit_and}
use geevm.Prelude.Int.{ℤ, pos, negsuc, sub_ℕ, ◌+ℤ◌, ◌-ℤ◌, ◌*ℤ◌, pos_part, neg_part}
use geevm.Prelude.Words.{signed, pattern_of, fits}

-- `WrapSignedArithmetic<T, std::plus<>>` and its siblings
unfoldable pub wrap_add : ℕ → ℕ → ℕ → ℕ
wrap_add w a b = (a + b) % 2 ^ w

pub wrap_sub : ℕ → ℕ → ℕ → ℕ
wrap_sub w a b = (a + 2 ^ w - b) % 2 ^ w

unfoldable pub wrap_mul : ℕ → ℕ → ℕ → ℕ
wrap_mul w a b = a * b % 2 ^ w

-- The result of a signed operator, which must fit its type.
unfoldable pub checked : ℕ → ℤ → Result ℕ
checked w z = if fits w z then ok (pattern_of w z) else fault undefined

-- Division rounds towards zero.
abbrev pub truncated_div : ℤ → ℤ → ℤ
truncated_div (pos a) (pos b) = pos (a / b)
truncated_div (pos a) (negsuc b) = sub_ℕ 0 (a / suc b)
truncated_div (negsuc a) (pos b) = sub_ℕ 0 (suc a / b)
truncated_div (negsuc a) (negsuc b) = pos (suc a / suc b)

-- The remainder has the sign of the dividend.
abbrev pub truncated_rem : ℤ → ℤ → ℤ
truncated_rem (pos a) (pos b) = pos (a % b)
truncated_rem (pos a) (negsuc b) = pos (a % suc b)
truncated_rem (negsuc a) (pos b) = sub_ℕ 0 (suc a % b)
truncated_rem (negsuc a) (negsuc b) = sub_ℕ 0 (suc a % suc b)

-- `a + b`, `a - b`, `a * b`, `a / b` and `-a` on a signed type
unfoldable pub signed_add : ℕ → ℕ → ℕ → Result ℕ
unfolding checked ◌+ℤ◌
signed_add w a b = checked w (signed w a +ℤ signed w b)

pub signed_sub : ℕ → ℕ → ℕ → Result ℕ
unfolding checked ◌-ℤ◌
signed_sub w a b = checked w (signed w a -ℤ signed w b)

pub signed_mul : ℕ → ℕ → ℕ → Result ℕ
unfolding checked ◌*ℤ◌
signed_mul w a b = checked w (signed w a *ℤ signed w b)

unfoldable pub signed_div : ℕ → ℕ → ℕ → Result ℕ
unfolding checked
signed_div w a b =
    if b == 0 then fault undefined else checked w (truncated_div (signed w a) (signed w b))

unfoldable pub signed_neg : ℕ → ℕ → Result ℕ
unfolding checked ◌-ℤ◌
signed_neg w a = checked w (pos 0 -ℤ signed w a)

-- `value1 - (value1 / value2) * value2`, as `rem` computes it
unfoldable pub signed_rem : ℕ → ℕ → ℕ → Result ℕ
unfolding signed_div signed_mul signed_sub
signed_rem w a b = do q ← signed_div w a b; p ← signed_mul w q b; signed_sub w a p
