-- ===== src/Interpreter/Arithmetic/Quotients.antt =====
-- The instructions of src/vm/Interpreter.cpp that divide integers: `div` and `rem`, and `neg`.
use geevm.Prelude.{ℕ, ◌+◌, ◌-◌, ◌*◌, ◌%◌, ◌^◌, ◌<◌, ◌≤◌, ◌≡◌, ◌≢◌, refl, true, List, ok}
use geevm.Prelude.{arith, length, not_zero, ◌>>=◌, fault, undefined, Result, ◌∙◌, sym}
use geevm.Prelude.Int.{ℤ, pos, negsuc, ◌-ℤ◌}
use geevm.Prelude.Words.{signed}
use geevm.Prelude.Text.{codes}
use geevm.Frame.{CallFrame, JvmType, int8, int16, int32, int64, char16, float32, float64, uint32}
use geevm.Frame.{reference, width}
use geevm.Frame.Stack.{Holds}
use geevm.Frame.Operands.{Operand, slots_of, length-Operand, pop_operand-Operand}
use geevm.Frame.Operands.{push_operand-Operand}
use geevm.Interpreter.Machine.{Machine, Runtime, Floats, throw_new}
use geevm.Interpreter.Integers.{truncated_div, truncated_rem, signed_div, signed_neg}
use geevm.Interpreter.Integers.Division.{negated-fits, signed-fits, checked-fits}
use geevm.Interpreter.Integers.Division.{signed_div-truncated_div, signed_rem-truncated_rem}
use geevm.Interpreter.Arithmetic.{neg, div, rem, is_integer, min_value}

-- The width of an integer type has a positive half.
half :
    (t : JvmType)
    → is_integer t ≡ true
    → (2 ^ width t ≡ 2 * 2 ^ (width t - 1)) × (0 < 2 ^ (width t - 1)) × (0 < 2 ^ width t)
half int8 h = omega arith
half int16 h = omega arith
half int32 h = omega arith
half int64 h = omega arith
half char16 h = cc
half float32 h = cc
half float64 h = cc
half uint32 h = cc
half reference h = cc

-- The values that the type reads from two slots, and the case of the quotient that does not fit.
abbrev pub value_at : JvmType → ℕ → ℤ
value_at t x = signed (width t) (x % 2 ^ width t)

-- One operand is left in place of two.
pub record Divided (t : JvmType) (start : CallFrame) (xs : List ℕ) (value : ℤ) (f : CallFrame)
    : Type 0 where
  pub result : ℕ
  pub stack : List ℕ
  pub result_is : signed (width t) result ≡ value
  pub on_top : Operand t result xs stack
  pub holds : Holds start stack f

module _ {W : Type 0} (rt : Runtime W) (fl : Floats) (t : JvmType)
    (integer : is_integer t ≡ true) where
  module _ (a b : ℕ) (xs ys zs : List ℕ) (one : Operand t a xs ys) (two : Operand t b ys zs) where
    module _ (nonzero : b % 2 ^ width t ≢ 0)
        (fits : value_at t a ≡ min_value (width t) → value_at t b ≢ negsuc 0) where
      -- `div` on integers, with a divisor that is not zero and except for the least integer by -1,
      -- leaves the quotient rounded towards zero in place of the operands, and throws nothing.
      pub div-Divided :
          (m : Machine W)
          → Holds m.frame zs m.frame
          → (f : CallFrame) × (div rt fl t m ≡ ok (record m { frame = f }))
            × Divided t m.frame xs (truncated_div (value_at t a) (value_at t b)) f
      unfolding div
      div-Divided m h =
          let (twice, positive, some_value) = half t integer in
          let (f₁, e₁, h₁) = pop_operand-Operand t b ys m.frame zs two h in
          let (f₂, e₂, h₂) = pop_operand-Operand t a xs f₁ ys one h₁ in
          let (q, e, small, s) =
            signed_div-truncated_div (width t) twice positive (a % 2 ^ width t) (b % 2 ^ width t)
              (omega arith) (omega arith) nonzero fits in
          let deep : length xs + slots_of t ≤ length m.frame.operand_stack =
            omega (arith, length-Operand one, length-Operand two) in
          let (f₃, us, e₃, top, h₃) = push_operand-Operand t q xs f₂ deep h₂ in
          (
            f₃,
            rw (e₁, e₂, integer, (not_zero _).1 nonzero, e, e₃) refl,
            record { result = q; stack = us; result_is = s; on_top = top; holds = h₃ },
          )

      -- `rem` on integers, with a divisor that is not zero and except for the least integer by -1, leaves
      -- the remainder with the sign of the dividend in place of the operands.
      pub rem-Divided :
          (start f : CallFrame)
          → Holds start zs f
          → (f' : CallFrame) × (rem fl t f ≡ ok f')
            × Divided t start xs (truncated_rem (value_at t a) (value_at t b)) f'
      unfolding rem
      rem-Divided start f h =
          let (twice, positive, some_value) = half t integer in
          let (f₁, e₁, h₁) = pop_operand-Operand t b ys f zs two h in
          let (f₂, e₂, h₂) = pop_operand-Operand t a xs f₁ ys one h₁ in
          let (q, e, small, s) =
            signed_rem-truncated_rem (width t) twice positive (a % 2 ^ width t) (b % 2 ^ width t)
              (omega arith) (omega arith) nonzero fits in
          let deep : length xs + slots_of t ≤ length start.operand_stack =
            omega (arith, length-Operand one, length-Operand two) in
          let (f₃, us, e₃, top, h₃) = push_operand-Operand t q xs f₂ deep h₂ in
          (
            f₃,
            rw (e₁, e₂, integer, e, e₃) refl,
            record { result = q; stack = us; result_is = s; on_top = top; holds = h₃ },
          )

    -- With a divisor of zero, `div` on integers takes both operands, throws an ArithmeticException with the
    -- message "Divison by zero", and then, where throwing ends, divides by zero all the same, which C++
    -- leaves undefined; so it never returns.
    pub div-throw_new :
        b % 2 ^ width t ≡ 0
        → (m : Machine W) → Holds m.frame zs m.frame
        → (f : CallFrame) × Holds m.frame xs f
          × (div rt fl t m
              ≡ throw_new rt
                  (codes "java/lang/ArithmeticException")
                  (codes "Divison by zero")
                  (record m { frame = f })
                >>= λ thrown. fault undefined)
          × ((m' : Machine W) → div rt fl t m ≢ ok m')
    unfolding div signed_div
    div-throw_new is_zero m h =
        let (f₁, e₁, h₁) = pop_operand-Operand t b ys m.frame zs two h in
        let (f₂, e₂, h₂) = pop_operand-Operand t a xs f₁ ys one h₁ in
        let throws : Result (Machine W) =
          throw_new rt (codes "java/lang/ArithmeticException") (codes "Divison by zero")
            (record m { frame = f₂ }) in
        let e : div rt fl t m ≡ throws >>= λ thrown. fault undefined =
          rw (div, e₁, e₂, integer, is_zero) refl in
        (f₂, h₂, e, λ m' returns. never throws (sym e ∙ returns))
      where
        never :
            (r : Result (Machine W)) {m' : Machine W} → (r >>= λ thrown. fault undefined) ≢ ok m'
        never (ok x) is = cc
        never (fault why) is = cc

  module _ (a : ℕ) (xs ys : List ℕ) (one : Operand t a xs ys) where
    -- `neg` on integers, except for the least integer, leaves the negated value.
    pub neg-Divided :
        value_at t a ≢ min_value (width t)
        → (start f : CallFrame) → Holds start ys f
        → (f' : CallFrame) × (neg fl t f ≡ ok f') × Divided t start xs (pos 0 -ℤ value_at t a) f'
    unfolding neg signed_neg
    neg-Divided fits start f h =
        let (twice, positive, some_value) = half t integer in
        let (f₁, e₁, h₁) = pop_operand-Operand t a xs f ys one h in
        let (q, e, small, s) = checked-fits (width t) twice positive (pos 0 -ℤ value_at t a) (
          negated-fits (width t) twice positive (value_at t a)
            (signed-fits (width t) twice positive (a % 2 ^ width t) (omega arith)) fits) in
        let deep : length xs + slots_of t ≤ length start.operand_stack =
          omega (arith, length-Operand one) in
        let (f₂, us, e₂, top, h₂) = push_operand-Operand t q xs f₁ deep h₁ in
        (
          f₂,
          rw (e₁, integer, e, e₂) refl,
          record { result = q; stack = us; result_is = s; on_top = top; holds = h₂ },
        )
