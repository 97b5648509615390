-- ===== src/Interpreter/Jumps/Targets.antt =====
-- Where the conditional jumps and `goto` of src/vm/Interpreter.cpp go.
use geevm.Prelude.{ℕ, suc, ◌+◌, ◌%◌, ◌^◌, ◌<◌, ◌≤◌, ◌≡◌, refl, Bool, true, false, List, ◌∷◌, ◌++◌}
use geevm.Prelude.{if◌then◌else◌, ok, arith, length}
use geevm.Prelude.Int.{ℤ, pos, ◌+ℤ◌, suc-sub-one}
use geevm.Prelude.Words.{signed}
use geevm.Frame.{CallFrame, JvmType, width, category_two, set_position}
use geevm.Frame.Stack.{Holds, view, Holds-self, pop_operand-Holds_one}
use geevm.Frame.Reading.{IsAt, bytes2, bytes4, moved, read_u2-IsAt, read_u4-IsAt, IsAt-kept}
use geevm.Interpreter.Jumps.{binary_jump_if, unary_jump_if, goto, goto_w, jump_if, opcode_position}

-- The instruction has taken its operands and left `xs` on the stack, stands at `target`, and has
-- changed nothing else.
pub record Arrives (start : CallFrame) (xs : List ℕ) (target : ℤ) (f : CallFrame) : Type 0 where
  pub slots_are : view f ≡ xs
  pub position_is : f.position ≡ target
  pub locals_kept : f.local_variables ≡ start.local_variables
  pub code_kept : f.code ≡ start.code

Arrives-jump_if :
    (start f : CallFrame) (xs : List ℕ) (taken : Bool) (target : ℤ) (m : ℕ)
    → Holds start xs f
    → Arrives start xs (if taken then target else pos m) (jump_if taken target (moved f m))
unfolding set_position
Arrives-jump_if start f xs true target m h = record {
  slots_are = h.slots_are;
  position_is = refl;
  locals_kept = h.locals_kept;
  code_kept = h.code_kept;
}
Arrives-jump_if start f xs false target m h = record {
  slots_are = h.slots_are;
  position_is = refl;
  locals_kept = h.locals_kept;
  code_kept = h.code_kept;
}

module _ (t : JvmType) (n o : ℕ) (rest xs : List ℕ) (f : CallFrame) where
  -- A jump on two operands of category one, with its opcode at `n` and the offset `o`: it goes to the
  -- opcode's position plus the offset, read as a signed 16-bit number, if the test of the operands
  -- holds, and behind the instruction, three bytes on, if it does not.
  pub binary_jump_if-Arrives :
      (a b : ℕ) (test : ℕ → ℕ → Bool)
      → category_two t ≡ false
      → o < 2 ^ 16
      → IsAt (suc n) (bytes2 o ++ rest) f
      → Holds f (b ∷ a ∷ xs) f
      → (f' : CallFrame) × (binary_jump_if t test f ≡ ok f')
        × Arrives f xs
            (if test (a % 2 ^ width t) (b % 2 ^ width t) then pos n +ℤ signed 16 o else pos (n + 3))
            f'
  unfolding binary_jump_if
  binary_jump_if-Arrives a b test one ho at h =
      let (f₁, e₁, h₁) = pop_operand-Holds_one t b (a ∷ xs) f one h in
      let (f₂, e₂, h₂) = pop_operand-Holds_one t a xs f₁ one h₁ in
      let (e₃, _) =
        read_u2-IsAt (suc n) rest f₂ o ho
          (IsAt-kept (suc n) _ f f₂ h₂.position_kept h₂.code_kept at) in
      let p : opcode_position f ≡ pos n = rw at.position_is (suc-sub-one n) in
      let behind : suc n + 2 ≡ n + 3 = omega arith in
      (
        jump_if (test (a % 2 ^ width t) (b % 2 ^ width t)) (pos n +ℤ signed 16 o)
            (moved f₂ (n + 3)),
        rw (e₁, e₂, e₃, p, behind),
        Arrives-jump_if f f₂ xs _ _ (n + 3) h₂,
      )

  -- A jump that compares one operand of category one with a constant, with its opcode at `n` and the
  -- offset `o`: it goes to the opcode's position plus the offset, read as a signed 16-bit number, if the
  -- test holds, and behind the instruction, three bytes on, if it does not.
  pub unary_jump_if-Arrives :
      (a checked_value : ℕ) (test : ℕ → ℕ → Bool)
      → category_two t ≡ false
      → o < 2 ^ 16
      → IsAt (suc n) (bytes2 o ++ rest) f
      → Holds f (a ∷ xs) f
      → (f' : CallFrame) × (unary_jump_if t checked_value test f ≡ ok f')
        × Arrives f xs
            (if test (a % 2 ^ width t) checked_value then pos n +ℤ signed 16 o else pos (n + 3))
            f'
  unfolding unary_jump_if
  unary_jump_if-Arrives a checked_value test one ho at h =
      let (f₁, e₁, h₁) = pop_operand-Holds_one t a xs f one h in
      let (e₂, _) =
        read_u2-IsAt (suc n) rest f₁ o ho
          (IsAt-kept (suc n) _ f f₁ h₁.position_kept h₁.code_kept at) in
      let p : opcode_position f ≡ pos n = rw at.position_is (suc-sub-one n) in
      let behind : suc n + 2 ≡ n + 3 = omega arith in
      (
        jump_if (test (a % 2 ^ width t) checked_value) (pos n +ℤ signed 16 o) (moved f₁ (n + 3)),
        rw (e₁, e₂, p, behind),
        Arrives-jump_if f f₁ xs _ _ (n + 3) h₁,
      )

module _ (n o : ℕ) (rest : List ℕ) (f : CallFrame) where
  -- `goto`, with its opcode at `n`, goes to its own position plus the signed 16-bit offset behind it,
  -- and leaves the stack, the local variables and the code as they are.
  pub goto-Arrives :
      f.stack_pointer ≤ length f.operand_stack
      → o < 2 ^ 16
      → IsAt (suc n) (bytes2 o ++ rest) f
      → (f' : CallFrame) × (goto f ≡ ok f') × Arrives f (view f) (pos n +ℤ signed 16 o) f'
  unfolding goto
  goto-Arrives h ho at =
      let (e, _) = read_u2-IsAt (suc n) rest f o ho at in
      let p : opcode_position f ≡ pos n = rw at.position_is (suc-sub-one n) in
      (
        jump_if true (pos n +ℤ signed 16 o) (moved f (suc n + 2)),
        rw (e, p) refl,
        Arrives-jump_if f f _ true _ (suc n + 2) (Holds-self f h),
      )

  -- `goto_w`, with its opcode at `n`, goes to its own position plus the signed 32-bit offset behind it,
  -- and leaves the stack, the local variables and the code as they are.
  pub goto_w-Arrives :
      f.stack_pointer ≤ length f.operand_stack
      → o < 2 ^ 32
      → IsAt (suc n) (bytes4 o ++ rest) f
      → (f' : CallFrame) × (goto_w f ≡ ok f') × Arrives f (view f) (pos n +ℤ signed 32 o) f'
  unfolding goto_w
  goto_w-Arrives h ho at =
      let (e, _) = read_u4-IsAt (suc n) rest f o ho at in
      let p : opcode_position f ≡ pos n = rw at.position_is (suc-sub-one n) in
      (
        jump_if true (pos n +ℤ signed 32 o) (moved f (suc n + 4)),
        rw (e, p) refl,
        Arrives-jump_if f f _ true _ (suc n + 4) (Holds-self f h),
      )
