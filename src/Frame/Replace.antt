-- ===== src/Frame/Replace.antt =====
-- Writing to a slot of the operand stack in place, as the instructions of src/vm/Interpreter.cpp do
-- through `topOfStack`.
use geevm.Prelude.{ℕ, suc, ◌-◌, ◌≡◌, ◌∙◌, List, ◌∷◌, set, arith, length-set, ok}
use geevm.Frame.{CallFrame, element}
use geevm.Frame.Stack.{Holds}
use geevm.Frame.Slots.{slots-set_top, slots-set_second, slots-cons, element-get_or}

module _ {start : CallFrame} (f : CallFrame) where
  -- A write to the top slot.
  pub Holds-set_top :
      (i x v : ℕ) (xs : List ℕ)
      → Holds start (x ∷ xs) f
      → f.stack_pointer ≡ suc i
      → Holds start (v ∷ xs) (record f { operand_stack = set f.operand_stack i v })
  Holds-set_top i x v xs h p = record {
    slots_are =
        slots-set_top 0 f.operand_stack f.stack_pointer i x v xs p (omega arith) h.slots_are;
    depth = h.depth;
    bounded = omega (arith, length-set {A = ℕ} f.operand_stack i v);
    capacity = length-set f.operand_stack i v ∙ h.capacity;
    locals_kept = h.locals_kept;
    position_kept = h.position_kept;
    code_kept = h.code_kept;
  }

  -- A write to the slot below the top.
  pub Holds-set_second :
      (i u x v : ℕ) (xs : List ℕ)
      → Holds start (u ∷ x ∷ xs) f
      → f.stack_pointer ≡ suc (suc i)
      → Holds start (u ∷ v ∷ xs) (record f { operand_stack = set f.operand_stack i v })
  Holds-set_second i u x v xs h p = record {
    slots_are =
        slots-set_second 0 f.operand_stack f.stack_pointer i u x v xs p (omega arith) h.slots_are;
    depth = h.depth;
    bounded = omega (arith, length-set {A = ℕ} f.operand_stack i v);
    capacity = length-set f.operand_stack i v ∙ h.capacity;
    locals_kept = h.locals_kept;
    position_kept = h.position_kept;
    code_kept = h.code_kept;
  }

  -- Reading the top slot, and the one below.
  pub element-top :
      (i x : ℕ) (xs : List ℕ)
      → Holds start (x ∷ xs) f
      → f.stack_pointer ≡ suc i
      → element f.operand_stack i ≡ ok x
  element-top i x xs h p =
      let t = slots-cons 0 f.operand_stack f.stack_pointer x xs h.slots_are in
      let q : f.stack_pointer - 1 ≡ i = omega arith in
      element-get_or f.operand_stack i (omega arith) ∙ rw (← q, t.0)

  pub element-second :
      (i u x : ℕ) (xs : List ℕ)
      → Holds start (u ∷ x ∷ xs) f
      → f.stack_pointer ≡ suc (suc i)
      → element f.operand_stack i ≡ ok x
  element-second i u x xs h p =
      let t = slots-cons 0 f.operand_stack f.stack_pointer u (x ∷ xs) h.slots_are in
      let t' = slots-cons 0 f.operand_stack (f.stack_pointer - 1) x xs t.1 in
      let q : f.stack_pointer - 1 - 1 ≡ i = omega arith in
      element-get_or f.operand_stack i (omega arith) ∙ rw (← q, t'.0)
