-- ===== src/Frame/Stack.antt =====
-- The operand stack of src/vm/Frame.h as a list of slots, the top first: what pushing and popping do
-- to it, with everything else of the frame left alone.
use native.Mathlib.Numerals.{add-one}
use native.Mathlib.Nat.{le_refl}
use geevm.Prelude.{ℕ, ◌+◌, ◌-◌, ◌%◌, ◌^◌, ◌≤◌, ◌<◌, ◌≡◌, refl, sym, ap, ap₂, ◌∙◌, true, false, List}
use geevm.Prelude.{◌∷◌, length, get_or, set, ok, arith, length-set, lt→ltb}
use geevm.Frame.Slots.{slots, length-slots, slots-set, slots-cons, element-get_or, get_or-set_self}
use geevm.Frame.{CallFrame, JvmType, width, category_two, push_generic_operand, pop_generic_operand}
use geevm.Frame.{push_operand, pop_operand, pop_upper_slot}

abbrev pub view : CallFrame → List ℕ
view f = slots 0 f.operand_stack f.stack_pointer

-- `f` is `start` with another operand stack, on which the slots `xs` lie.
pub record Holds (start : CallFrame) (xs : List ℕ) (f : CallFrame) : Type 0 where
  pub slots_are : view f ≡ xs
  pub depth : f.stack_pointer ≡ length xs
  pub bounded : f.stack_pointer ≤ length f.operand_stack
  pub capacity : length f.operand_stack ≡ length start.operand_stack
  pub locals_kept : f.local_variables ≡ start.local_variables
  pub position_kept : f.position ≡ start.position
  pub code_kept : f.code ≡ start.code

-- A frame whose stack pointer is within its array holds its own slots.
pub Holds-self : (f : CallFrame) → f.stack_pointer ≤ length f.operand_stack → Holds f (view f) f
Holds-self f h = record {
  slots_are = refl;
  depth = sym (length-slots 0 f.operand_stack f.stack_pointer);
  bounded = h;
  capacity = refl;
  locals_kept = refl;
  position_kept = refl;
  code_kept = refl;
}

module _ {start : CallFrame} where
  pub push_generic_operand-Holds :
      (xs : List ℕ) (f : CallFrame) (v : ℕ)
      → Holds start xs f
      → length xs < length start.operand_stack
      → (f' : CallFrame) × (push_generic_operand v f ≡ ok f') × Holds start (v ∷ xs) f'
  unfolding push_generic_operand
  push_generic_operand-Holds xs f v h room =
      let lt : f.stack_pointer < length f.operand_stack = omega arith in
      (
        record f {
          operand_stack = set f.operand_stack f.stack_pointer v;
          stack_pointer = f.stack_pointer + 1;
        },
        rw (lt→ltb _ _ lt),
        record {
          slots_are = rw add-one (
              ap₂ ◌∷◌ (get_or-set_self 0 _ _ v lt)
                (slots-set 0 _ _ v f.stack_pointer (le_refl _) ∙ h.slots_are));
          depth = omega arith;
          bounded = omega (arith, length-set {A = ℕ} f.operand_stack f.stack_pointer v);
          capacity = length-set _ _ _ ∙ h.capacity;
          locals_kept = h.locals_kept;
          position_kept = h.position_kept;
          code_kept = h.code_kept;
        },
      )

  pub pop_generic_operand-Holds :
      (x : ℕ) (xs : List ℕ) (f : CallFrame)
      → Holds start (x ∷ xs) f
      → (f' : CallFrame) × (pop_generic_operand f ≡ ok (x, f')) × Holds start xs f'
  unfolding pop_generic_operand
  pop_generic_operand-Holds x xs f h =
      let top = slots-cons 0 f.operand_stack f.stack_pointer x xs h.slots_are in
      let lt : f.stack_pointer - 1 < length f.operand_stack = omega arith in
      (
        record f { stack_pointer = f.stack_pointer - 1 },
        rw (lt→ltb 0 f.stack_pointer (omega arith), element-get_or _ _ lt, top.0),
        record {
          slots_are = top.1;
          depth = omega arith;
          bounded = omega arith;
          capacity = h.capacity;
          locals_kept = h.locals_kept;
          position_kept = h.position_kept;
          code_kept = h.code_kept;
        },
      )

  pub push_operand-Holds_one :
      (t : JvmType) (xs : List ℕ) (f : CallFrame) (v : ℕ)
      → category_two t ≡ false
      → Holds start xs f
      → length xs < length start.operand_stack
      → (f' : CallFrame) × (push_operand t v f ≡ ok f') × Holds start (v ∷ xs) f'
  unfolding push_operand
  push_operand-Holds_one t xs f v one h room =
      let (f', e, h') = push_generic_operand-Holds xs f v h room in (f', rw (e, one), h')

  pub pop_operand-Holds_one :
      (t : JvmType) (x : ℕ) (xs : List ℕ) (f : CallFrame)
      → category_two t ≡ false
      → Holds start (x ∷ xs) f
      → (f' : CallFrame) × (pop_operand t f ≡ ok (x % 2 ^ width t, f')) × Holds start xs f'
  unfolding pop_operand
  pop_operand-Holds_one t x xs f one h =
      let (f', e, h') = pop_generic_operand-Holds x xs f h in (f', rw (one, e), h')

  -- The upper slot of a value of category two keeps what the array held there.
  pub push_operand-Holds_two :
      (t : JvmType) (xs : List ℕ) (f : CallFrame) (v : ℕ)
      → category_two t ≡ true
      → Holds start xs f
      → length xs + 1 < length start.operand_stack
      → (f' : CallFrame) × (upper : ℕ) × (push_operand t v f ≡ ok f')
        × Holds start (upper ∷ v ∷ xs) f'
  unfolding push_operand
  push_operand-Holds_two t xs f v two h room =
      let (f', e, h') = push_generic_operand-Holds xs f v h (omega arith) in
      let lt : f'.stack_pointer < length f'.operand_stack = omega arith in
      (
        record f' { stack_pointer = f'.stack_pointer + 1 },
        get_or f'.operand_stack f'.stack_pointer 0,
        rw (e, two, lt→ltb _ _ lt),
        record {
          slots_are =
              rw add-one (ap (◌∷◌ (get_or f'.operand_stack f'.stack_pointer 0)) h'.slots_are);
          depth = omega arith;
          bounded = omega arith;
          capacity = h'.capacity;
          locals_kept = h'.locals_kept;
          position_kept = h'.position_kept;
          code_kept = h'.code_kept;
        },
      )

  pub pop_operand-Holds_two :
      (t : JvmType) (upper x : ℕ) (xs : List ℕ) (f : CallFrame)
      → category_two t ≡ true
      → Holds start (upper ∷ x ∷ xs) f
      → (f' : CallFrame) × (pop_operand t f ≡ ok (x % 2 ^ width t, f')) × Holds start xs f'
  unfolding pop_operand pop_upper_slot
  pop_operand-Holds_two t upper x xs f two h =
      let top = slots-cons 0 f.operand_stack f.stack_pointer upper (x ∷ xs) h.slots_are in
      let h' : Holds start (x ∷ xs) (record f { stack_pointer = f.stack_pointer - 1 }) = record {
        slots_are = top.1;
        depth = omega arith;
        bounded = omega arith;
        capacity = h.capacity;
        locals_kept = h.locals_kept;
        position_kept = h.position_kept;
        code_kept = h.code_kept;
      } in
      let (f', e, h'') = pop_generic_operand-Holds x xs _ h' in
      (f', rw (two, lt→ltb 0 f.stack_pointer (omega arith), e), h'')
