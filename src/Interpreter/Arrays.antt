-- ===== src/Interpreter/Arrays.antt =====
-- The instructions of src/vm/Interpreter.cpp on arrays: `arrayLoad`, `arrayStore`, ARRAYLENGTH.
pub mod Loading
use geevm.Prelude.{ℕ, ◌+◌, ◌-◌, ◌%◌, ◌^◌, ◌≡◌, Bool, true, false, Option, none, some, ◌==◌, leb}
use geevm.Prelude.{set, not, if◌then◌else◌, length, Result, ok, fault, ◌>>=◌, ◌>>◌, guard}
use geevm.Prelude.{undefined, assertion}
use geevm.Prelude.Text.{JString, codes}
use geevm.Prelude.Words.{pattern_of}
use geevm.Instance.{JavaArray, JvmExpected, value, error, VmError, Object, array, instance_of}
use geevm.Instance.{object_at, to_array, class_of, update, is_out_of_bounds, set_array_element}
use geevm.Frame.{CallFrame, JvmType, int32, reference, width, category_two, element, pop_operand}
use geevm.Frame.{push_operand, top_of_stack, advance_stack_pointer}
use geevm.Interpreter.Machine.{Machine, Runtime, on_frame, throw_new}
use geevm.Interpreter.Arithmetic.{stored_as_int, value_of}

-- An element as it is put on the stack.
abbrev pub widened : JvmType → ℕ → ℕ
widened t x = if stored_as_int t then pattern_of 32 (value_of t x) else x

-- `static_cast<T>` of the popped `int`, for the types that are stored as one.
abbrev pub narrowed : JvmType → ℕ → ℕ
narrowed t x = if stored_as_int t then x % 2 ^ width t else x

-- The type at which `arrayStore` pops the value.
abbrev pub stack_type : JvmType → JvmType
stack_type t = if stored_as_int t then int32 else t

abbrev pub is_reference : JvmType → Bool
is_reference reference = true
is_reference _ = false

abbrev pub null_pointer : JString
null_pointer = codes "java/lang/NullPointerException"

module _ {W : Type 0} (rt : Runtime W) where
  -- `handleErrorAsException`
  unfoldable pub handle_error_as_exception : VmError → Machine W → Result (Machine W)
  handle_error_as_exception e m = throw_new rt e.exception e.message m

  -- The second half of `arrayLoad`, behind the null check: `target` is the slot of the reference.
  load_element : JvmType → ℕ → ℕ → JavaArray → Machine W → Result (Machine W)
  load_element t target index a m =
      if is_out_of_bounds index a
      then throw_new rt (codes "java/lang/ArrayIndexOutOfBoundsException") (codes "") m
      else do
        x ← element a.elements index
        let f = record m.frame { operand_stack = set m.frame.operand_stack target (widened t x) }
        f ← if category_two t then advance_stack_pointer 1 f else ok f
        ok (record m { frame = f })

  pub array_load : JvmType → Machine W → Result (Machine W)
  unfolding load_element
  array_load t m = do
    (index, f) ← pop_operand int32 m.frame
    top ← top_of_stack f
    guard (leb 1 top) undefined
    array_ref ← element f.operand_stack (top - 1)
    if array_ref == 0 then throw_new rt null_pointer (codes "") (record m { frame = f }) else do
      o ← object_at m.heap array_ref
      a ← to_array o
      load_element t (top - 1) index a (record m { frame = f })

  -- The check of the class of a reference that is stored: `none` if it passes.
  abbrev store_check : ℕ → JavaArray → Machine W → Result Bool
  store_check v a m = if v == 0 then ok true else do
    o ← object_at m.heap v
    elim (rt.element_class m.world a.klass) [
      | none ↦ fault assertion
      | some k ↦ ok (rt.is_instance_of m.world (class_of o) k)
    ]

  store_element : JvmType → ℕ → ℕ → ℕ → JavaArray → Machine W → Result (Machine W)
  store_element t v index array_ref a m = do
    passes ← if is_reference t then store_check v a m else ok true
    if not passes
        then throw_new rt (codes "java/lang/ArrayStoreException") (codes "") m
        else elim (set_array_element index v a) [
          | error e ↦ handle_error_as_exception e m
          | value b ↦ ok (record m { heap = update m.heap array_ref (array b) })
        ]

  unfoldable pub array_store : JvmType → Machine W → Result (Machine W)
  unfolding store_element
  array_store t m = do
    (v, f) ← pop_operand (stack_type t) m.frame
    (index, f) ← pop_operand int32 f
    (array_ref, f) ← pop_operand reference f
    if array_ref == 0 then throw_new rt null_pointer (codes "") (record m { frame = f }) else do
      o ← object_at m.heap array_ref
      a ← to_array o
      store_element t (narrowed t v) index array_ref a (record m { frame = f })

  -- ARRAYLENGTH: the popped reference is followed with no check.
  unfoldable pub array_length : Machine W → Result (Machine W)
  array_length m = do
    (array_ref, f) ← pop_operand reference m.frame
    o ← object_at m.heap array_ref
    a ← elim o [ array a ↦ ok a | instance_of k ↦ fault assertion ]
    on_frame (push_operand int32 (length a.elements)) (record m { frame = f })
