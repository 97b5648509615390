-- ===== src/Interpreter/Arrays/Loading.antt =====
-- What `arrayLoad` of src/vm/Interpreter.cpp does on each of its branches.
use native.Mathlib.Numerals.{add-one}
use geevm.Prelude.{◌⊎◌, ℕ, zero, suc, ◌+◌, ◌-◌, ◌%◌, ◌^◌, ◌<◌, ◌≤◌, ◌≡◌, ◌≢◌, refl, ap, true, false}
use geevm.Prelude.{List, [], ◌∷◌, ok, Result, arith, length, ltb, lt→ltb, leb, ◌==◌, get_elem?}
use geevm.Prelude.{some, inl, inr, Bool-cases, get_or, le→leb, not_zero}
use geevm.Prelude.Text.{codes}
use geevm.Frame.{CallFrame, JvmType, int32, category_two, top_of_stack, advance_stack_pointer}
use geevm.Frame.Slots.{element-some}
use geevm.Frame.Stack.{Holds, pop_operand-Holds_one}
use geevm.Frame.Operands.{Operand, one_slot, two_slots}
use geevm.Frame.Replace.{Holds-set_top, element-top}
use geevm.Instance.{JavaArray, array, object_at, is_out_of_bounds}
use geevm.Instance.Arrays.{is_out_of_bounds_iff}
use geevm.Interpreter.Machine.{Machine, Runtime, throw_new}
use geevm.Interpreter.Arrays.{array_load, load_element, widened, null_pointer}

-- The slot above a value of category two.
advance-Holds :
    {start : CallFrame} (xs : List ℕ) (f : CallFrame)
    → Holds start xs f
    → length xs < length start.operand_stack
    → (f' : CallFrame) × (upper : ℕ) × (advance_stack_pointer 1 f ≡ ok f')
      × Holds start (upper ∷ xs) f'
unfolding advance_stack_pointer
advance-Holds xs f h room = (
  record f { stack_pointer = f.stack_pointer + 1 },
  get_or f.operand_stack f.stack_pointer 0,
  rw (le→leb (f.stack_pointer + 1) (length f.operand_stack) (omega arith)) refl,
  record {
    slots_are = rw add-one (ap (◌∷◌ (get_or f.operand_stack f.stack_pointer 0)) h.slots_are);
    depth = omega arith;
    bounded = omega arith;
    capacity = h.capacity;
    locals_kept = h.locals_kept;
    position_kept = h.position_kept;
    code_kept = h.code_kept;
  },
)

module _ {W : Type 0} (rt : Runtime W) (t : JvmType) (index r : ℕ) (xs : List ℕ)
    (m : Machine W) where
  -- How `array_load` ends: with the element, widened to `int` where it is stored as one; or as an
  -- exception is thrown on the frame without the index.
  pub data Loads : Result (Machine W) → Type 0 where
    loaded :
        {a : JavaArray} {x : ℕ} {f : CallFrame} {ys : List ℕ}
        → object_at m.heap r ≡ ok (array a)
        → get_elem? a.elements (index % 2 ^ 32) ≡ some x
        → Operand t (widened t x) xs ys
        → Holds m.frame ys f
        → Loads (ok (record m { frame = f }))
    null :
        {f : CallFrame}
        → r ≡ 0
        → Holds m.frame (r ∷ xs) f
        → Loads (throw_new rt null_pointer (codes "") (record m { frame = f }))
    outside :
        {a : JavaArray} {f : CallFrame}
        → object_at m.heap r ≡ ok (array a)
        → length a.elements ≤ index % 2 ^ 32
        → Holds m.frame (r ∷ xs) f
        → Loads (
            throw_new rt
              (codes "java/lang/ArrayIndexOutOfBoundsException")
              (codes "")
              (record m { frame = f }))

not_below :
    (i : ℕ) (a : JavaArray)
    → i < 2 ^ 32
    → length a.elements < 2 ^ 31
    → is_out_of_bounds i a ≡ true
    → length a.elements ≤ i
not_below i a hi hl out = ground arith

get_elem?-of_lt : (xs : List ℕ) (i : ℕ) → i < length xs → (x : ℕ) × (get_elem? xs i ≡ some x)
get_elem?-of_lt [] i h = elim h [ ]
get_elem?-of_lt (x ∷ xs) zero h = (x, refl)
get_elem?-of_lt (x ∷ xs) (suc i) h = get_elem?-of_lt xs i (omega arith)

module _ {W : Type 0} (rt : Runtime W) (t : JvmType) (index r : ℕ) (xs : List ℕ)
    (m : Machine W) where
  -- The element is on the stack in place of the reference, for both categories.
  load_element-loaded :
      (a : JavaArray) (x : ℕ) (f : CallFrame)
      → object_at m.heap r ≡ ok (array a)
      → get_elem? a.elements (index % 2 ^ 32) ≡ some x
      → is_out_of_bounds (index % 2 ^ 32) a ≡ false
      → Holds m.frame (r ∷ xs) f
      → f.stack_pointer ≡ suc (length xs)
      → suc (length xs) < length m.frame.operand_stack
      → Loads rt t index r xs m
          (load_element rt t (length xs) (index % 2 ^ 32) a (record m { frame = f }))
  unfolding load_element
  load_element-loaded a x f at e inside h p room =
      let el = element-some a.elements (index % 2 ^ 32) x e in
      let h' = Holds-set_top f (length xs) r (widened t x) xs h p in
      elim (Bool-cases (category_two t)) [
        | inl two ↦
            let (f', upper, e', h'') = advance-Holds (widened t x ∷ xs) _ h' (omega arith) in
            rw (inside, el, two, e') (loaded at e (two_slots upper two) h'')
        | inr one ↦ rw (inside, el, one) (loaded at e (one_slot one) h')
      ]

  -- `array_load` of an array of fewer than 2 ^ 31 elements, or of null, ends in one of the ways of
  -- `Loads`: it leaves the element in place of the operands, or throws NullPointerException or
  -- ArrayIndexOutOfBoundsException, the latter where the index is not below the length as a word, so
  -- also where it is negative.
  pub array_load-Loads :
      Holds m.frame (index ∷ r ∷ xs) m.frame
      → (r ≡ 0)
        ⊎ ((a : JavaArray) × (r ≢ 0)
            × (object_at m.heap r ≡ ok (array a))
            × (length a.elements < 2 ^ 31))
      → Loads rt t index r xs m (array_load rt t m)
  unfolding array_load load_element top_of_stack
  array_load-Loads h object =
      let (f, e, h₁) = pop_operand-Holds_one int32 index (r ∷ xs) m.frame refl h in
      let p : f.stack_pointer ≡ suc (length xs) = omega arith in
      let room : ltb f.stack_pointer (length f.operand_stack) ≡ true = lt→ltb _ _ (omega arith) in
      let here : f.stack_pointer - 1 ≡ length xs = omega arith in
      let deep : leb 1 f.stack_pointer ≡ true = le→leb _ _ (omega arith) in
      let el = element-top f (length xs) r xs h₁ p in
      elim object [
        | inl z ↦
            let test : (r == 0) ≡ true = ground (arith, z) in
            rw (e, room, deep, here, el, test) (null z h₁)
        | inr (a, nz, at, small) ↦
            let bounds = is_out_of_bounds_iff (index % 2 ^ 32) a (omega arith) small in
            elim (Bool-cases (is_out_of_bounds (index % 2 ^ 32) a)) [
              | inl out ↦
                  rw (e, room, deep, here, el, (not_zero r).1 nz, at, out)
                    (outside at (not_below (index % 2 ^ 32) a (omega arith) small out) h₁)
              | inr inside ↦
                  let (x, ex) = get_elem?-of_lt a.elements (index % 2 ^ 32) (bounds.0 inside) in
                  rw (e, room, deep, here, el, (not_zero r).1 nz, at)
                    (load_element-loaded a x f at ex inside h₁ p (omega arith))
            ]
      ]
