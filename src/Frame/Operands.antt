-- ===== src/Frame/Operands.antt =====
-- The operands of src/vm/Frame.h of either category, as slots on the operand stack.
use geevm.Prelude.{Bool-cases, inl, inr, ℕ, ◌+◌, ◌%◌, ◌^◌, ◌≤◌, ◌≡◌, true, false, List, ◌∷◌, ok}
use geevm.Prelude.{arith, length, if◌then◌else◌}
use geevm.Frame.{CallFrame, JvmType, width, category_two, push_operand, pop_operand}
use geevm.Frame.Stack.{Holds, push_operand-Holds_one, push_operand-Holds_two, pop_operand-Holds_one}
use geevm.Frame.Stack.{pop_operand-Holds_two}

-- The stack `ys` is `xs` under a value `x`: a value of category two lies below a slot whose content
-- does not matter.
pub data Operand (t : JvmType) (x : ℕ) (xs : List ℕ) : List ℕ → Type 0 where
  one_slot : category_two t ≡ false → Operand t x xs (x ∷ xs)
  two_slots : (upper : ℕ) → category_two t ≡ true → Operand t x xs (upper ∷ x ∷ xs)

abbrev pub slots_of : JvmType → ℕ
slots_of t = if category_two t then 2 else 1

pub length-Operand :
    {t : JvmType} {x : ℕ} {xs ys : List ℕ} → Operand t x xs ys → length ys ≡ length xs + slots_of t
length-Operand (one_slot one) = rw one (omega arith)
length-Operand (two_slots upper two) = rw two (omega arith)

module _ {start : CallFrame} (t : JvmType) (x : ℕ) (xs : List ℕ) (f : CallFrame) where
  pub pop_operand-Operand :
      (ys : List ℕ)
      → Operand t x xs ys
      → Holds start ys f
      → (f' : CallFrame) × (pop_operand t f ≡ ok (x % 2 ^ width t, f')) × Holds start xs f'
  pop_operand-Operand _ (one_slot one) h = pop_operand-Holds_one t x xs f one h
  pop_operand-Operand _ (two_slots upper two) h = pop_operand-Holds_two t upper x xs f two h

  pub push_operand-Operand :
      length xs + slots_of t ≤ length start.operand_stack
      → Holds start xs f
      → (f' : CallFrame) × (ys : List ℕ) × (push_operand t x f ≡ ok f')
        × Operand t x xs ys
        × Holds start ys f'
  push_operand-Operand room h = elim (Bool-cases (category_two t)) [
    | inl two ↦
        let room' : length xs + 2 ≤ length start.operand_stack = rw two at room in
        let (f', upper, e, h') = push_operand-Holds_two t xs f x two h (omega arith) in
        (f', upper ∷ x ∷ xs, e, two_slots upper two, h')
    | inr one ↦
        let room' : length xs + 1 ≤ length start.operand_stack = rw one at room in
        let (f', e, h') = push_operand-Holds_one t xs f x one h (omega arith) in
        (f', x ∷ xs, e, one_slot one, h')
  ]
