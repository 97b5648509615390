-- ===== src/Interpreter/Arithmetic/Comparisons.antt =====
-- What `compare` of src/vm/Interpreter.cpp leaves for two operands of type `long`.
use geevm.Prelude.{ℕ, ◌+◌, ◌%◌, ◌^◌, ◌<◌, ◌≡◌, inl, inr, refl, true, false, List, ◌∷◌, ok, arith}
use geevm.Prelude.{length, ltb→lt, lt→ltb, ◌-◌, Bool-cases, ◌==◌, ==_iff, ap}
use geevm.Prelude.Int.{ℤ, pos, negsuc, pos_part, neg_part, ltb_ℤ}
use geevm.Prelude.Words.{signed}
use geevm.Frame.{CallFrame, int32, int64}
use geevm.Frame.Stack.{Holds, push_operand-Holds_one}
use geevm.Frame.Operands.{Operand, length-Operand, pop_operand-Operand}
use geevm.Interpreter.Machine.{Floats}
use geevm.Interpreter.Arithmetic.{compare_op}
use geevm.Interpreter.Arithmetic.Quotients.{value_at}

-- The strict order on the integers.
abbrev pub IsLess : ℤ → ℤ → Type 0
IsLess x y = pos_part x + neg_part y < pos_part y + neg_part x

-- The three results of a comparison.
pub data Compares (x y : ℤ) : ℤ → Type 0 where
  greater : IsLess y x → Compares x y (pos 1)
  equal : x ≡ y → Compares x y (pos 0)
  less : IsLess x y → Compares x y (negsuc 0)

-- A word is greater than another as a `long`, or the two are the same word, or it is less.
trichotomy :
    (a b : ℕ)
    → a < 2 ^ 64
    → b < 2 ^ 64
    → ltb_ℤ (signed 64 b) (signed 64 a) ≡ false
    → (a == b) ≡ false
    → IsLess (signed 64 a) (signed 64 b)
trichotomy a b ha hb not_greater not_equal = ground arith

-- `compare_op` on two operands of type `long` leaves an `int` in their place: 1, 0 or -1, as the first
-- pushed is greater than, equal to or less than the last pushed.
pub compare_op-Compares :
    (fl : Floats) (not_equal_value : ℤ) (a b : ℕ) (xs ys zs : List ℕ) (start f : CallFrame)
    → Operand int64 a xs ys
    → Operand int64 b ys zs
    → Holds start zs f
    → (f' : CallFrame) × (r : ℕ) × (compare_op fl int64 not_equal_value f ≡ ok f')
      × Holds start (r ∷ xs) f'
      × Compares (value_at int64 a) (value_at int64 b) (signed 32 r)
unfolding compare_op
compare_op-Compares fl not_equal_value a b xs ys zs start f one two h =
    let (f₁, e₁, h₁) = pop_operand-Operand int64 b ys f zs two h in
    let (f₂, e₂, h₂) = pop_operand-Operand int64 a xs f₁ ys one h₁ in
    let room : length xs < length start.operand_stack =
      omega (arith, length-Operand one, length-Operand two) in
    let push = λ (r : ℕ). push_operand-Holds_one int32 xs f₂ r refl h₂ room in
    let v = a % 2 ^ 64 in
    let w = b % 2 ^ 64 in
    elim (Bool-cases (ltb_ℤ (signed 64 w) (signed 64 v))) [
      | inl g ↦
          let (f₃, e₃, h₃) = push 1 in (f₃, 1, rw (e₁, e₂, g, e₃) refl, h₃, greater (ltb→lt _ _ g))
      | inr not_greater ↦ elim (Bool-cases (v == w)) [
        | inl same ↦
            let (f₃, e₃, h₃) = push 0 in
            (
              f₃,
              0,
              rw (e₁, e₂, not_greater, same, e₃) refl,
              h₃,
              equal (ap (signed 64) ((==_iff v w).0 same)),
            )
        | inr other ↦
            let is_less = trichotomy v w (omega arith) (omega arith) not_greater other in
            let l : ltb_ℤ (signed 64 v) (signed 64 w) ≡ true = lt→ltb _ _ is_less in
            let (f₃, e₃, h₃) = push (2 ^ 32 - 1) in
            (f₃, 2 ^ 32 - 1, rw (e₁, e₂, not_greater, other, l, e₃) refl, h₃, less is_less)
      ]
    ]
