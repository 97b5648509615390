-- ===== src/Interpreter/Arithmetic/InPlace.antt =====
-- What the operations in place of src/vm/Interpreter.cpp leave on the operand stack.
use geevm.Prelude.{ℕ, suc, ◌-◌, ◌%◌, ◌^◌, ◌≡◌, refl, true, false, List, ◌∷◌, arith, length, leb}
use geevm.Prelude.{ltb, lt→ltb, le→leb}
use geevm.Frame.{CallFrame, JvmType, width, category_two, top_of_stack}
use geevm.Frame.Stack.{Holds, pop_operand-Holds_one, pop_operand-Holds_two}
use geevm.Frame.Replace.{Holds-set_top, Holds-set_second, element-top, element-second}
use geevm.Interpreter.StackOps.{LeadsTo}
use geevm.Interpreter.Arithmetic.{simple_op}

module _ {start : CallFrame} (t : JvmType) (op : ℕ → ℕ → ℕ) (a b : ℕ) (xs : List ℕ)
    (f : CallFrame) where
  simple_op-one :
      category_two t ≡ false
      → Holds start (b ∷ a ∷ xs) f
      → LeadsTo start (op (a % 2 ^ width t) (b % 2 ^ width t) ∷ xs) (simple_op t op f)
  unfolding simple_op top_of_stack
  simple_op-one one h =
      let (f', e, h') = pop_operand-Holds_one t b (a ∷ xs) f one h in
      let p : f'.stack_pointer ≡ suc (length xs) = omega arith in
      let room : ltb f'.stack_pointer (length f'.operand_stack) ≡ true = lt→ltb _ _ (omega arith) in
      let here : f'.stack_pointer - 1 ≡ length xs = omega arith in
      let deep : leb 1 f'.stack_pointer ≡ true = le→leb _ _ (omega arith) in
      (
        _,
        rw (e, one, room, deep, here, element-top f' (length xs) a xs h' p) refl,
        Holds-set_top f' (length xs) a _ xs h' p,
      )

  simple_op-two :
      (u v : ℕ)
      → category_two t ≡ true
      → Holds start (u ∷ b ∷ v ∷ a ∷ xs) f
      → LeadsTo start (v ∷ op (a % 2 ^ width t) (b % 2 ^ width t) ∷ xs) (simple_op t op f)
  unfolding simple_op top_of_stack
  simple_op-two u v two h =
      let (f', e, h') = pop_operand-Holds_two t u b (v ∷ a ∷ xs) f two h in
      let p : f'.stack_pointer ≡ suc (suc (length xs)) = omega arith in
      let room : ltb f'.stack_pointer (length f'.operand_stack) ≡ true = lt→ltb _ _ (omega arith) in
      let here : f'.stack_pointer - 2 ≡ length xs = omega arith in
      let deep : leb 2 f'.stack_pointer ≡ true = le→leb _ _ (omega arith) in
      (
        _,
        rw (e, two, room, deep, here, element-second f' (length xs) v a xs h' p) refl,
        Holds-set_second f' (length xs) v a _ xs h' p,
      )

-- Two operands of a type on the stack, the first pushed and the last pushed, and the stack with a
-- value in their place: a value of category two lies below a slot that is not used.
pub data Operands (t : JvmType) (a b : ℕ) : List ℕ → (ℕ → List ℕ) → Type 0 where
  one_slot : {xs : List ℕ} → category_two t ≡ false → Operands t a b (b ∷ a ∷ xs) (λ r. r ∷ xs)
  two_slots :
      {u v : ℕ} {xs : List ℕ}
      → category_two t ≡ true
      → Operands t a b (u ∷ b ∷ v ∷ a ∷ xs) (λ r. v ∷ r ∷ xs)

-- `simple_op` replaces its two operands by the result of the operation on them, the first pushed one
-- as the first argument, for both categories; the rest of the frame is kept.
pub simple_op-LeadsTo :
    {start : CallFrame} (t : JvmType) (op : ℕ → ℕ → ℕ) (a b : ℕ) (before : List ℕ)
    (after : ℕ → List ℕ) (f : CallFrame)
    → Operands t a b before after
    → Holds start before f
    → LeadsTo start (after (op (a % 2 ^ width t) (b % 2 ^ width t))) (simple_op t op f)
simple_op-LeadsTo t op a b _ _ f (one_slot {xs} one) h = simple_op-one t op a b xs f one h
simple_op-LeadsTo t op a b _ _ f (two_slots {u} {v} {xs} two) h =
    simple_op-two t op a b xs f u v two h
