-- ===== src/Interpreter/Exceptions.antt =====
-- How src/vm/Interpreter.cpp dispatches exceptions: `tryHandleException`, `checkException` and the
-- macro `WITH_EXCEPTION_CHECK`; and the instructions ATHROW, CHECKCAST and INSTANCEOF.
mod Tests
mod Handlers
use geevm.Prelude.{ℕ, ◌+◌, ◌-◌, ◌≡◌, Bool, true, false, Option, none, some, List, [], ◌∷◌, ◌++◌}
use geevm.Prelude.{◌==◌, ltb, leb, not, ◌||◌, if◌then◌else◌, Result, ok, fault, ◌>>=◌, ◌>>◌, guard}
use geevm.Prelude.{assertion, ◌^◌}
use geevm.Prelude.Int.{ℤ, pos, negsuc, ◌-ℤ◌}
use geevm.Prelude.Text.{JString, codes}
use geevm.Instance.{JvmExpected, value, error, object_at, class_of}
use geevm.Frame.{CallFrame, int32, reference, set_position, pop_operand, push_operand, read_u2}
use geevm.Interpreter.Machine.{Machine, Runtime, on_frame, throw_instance, throw_new}
use geevm.Interpreter.Arrays.{handle_error_as_exception}

-- `Code::ExceptionTableEntry`
pub record ExceptionTableEntry : Type 0 where
  pub start_pc : ℕ
  pub end_pc : ℕ
  pub handler_pc : ℕ
  pub catch_type : ℕ

-- A position as `size_t`.
abbrev pub as_size : ℤ → ℕ
as_size (pos n) = n
as_size (negsuc n) = 2 ^ 64 - 1 - n

-- `pc >= entry.startPc && pc < entry.endPc`
abbrev pub is_active : ℕ → ExceptionTableEntry → Bool
is_active pc e = not (ltb pc e.start_pc || leb e.end_pc pc)

module _ {W : Type 0} (rt : Runtime W) where
  -- Whether an active entry catches an exception of class `k`.
  pub catches : W → ℕ → ExceptionTableEntry → Result Bool
  catches w k e = if e.catch_type == 0 then ok true else elim (rt.get_class w e.catch_type) [
    | error _ ↦ fault assertion
    | value c ↦ ok (rt.is_instance_of w k c)
  ]

  -- `tryHandleException`: the first active entry that catches the exception.
  pub try_handle_exception : W → ℕ → ℕ → List ExceptionTableEntry → Result (Option ℕ)
  unfolding catches
  try_handle_exception w k pc [] = ok none
  try_handle_exception w k pc (e ∷ es) =
      let rest = try_handle_exception w k pc es in
      if is_active pc e
      then catches w k e >>= (λ caught. if caught then ok (some e.handler_pc) else rest)
      else rest

  -- `checkException`: the machine at the handler and `false`, or `true` if there is none.
  pub check_exception : List ExceptionTableEntry → ℕ → Machine W → Result (Machine W × Bool)
  unfolding try_handle_exception
  check_exception table r m = do
    o ← object_at m.heap r
    handler ← try_handle_exception m.world (class_of o) (as_size (m.frame.position -ℤ pos 1)) table
    elim handler [
      | none ↦ ok (m, true)
      | some pc ↦ ok (record m { frame = set_position (pos pc) m.frame; exception = none }, false)
    ]

  -- `WITH_EXCEPTION_CHECK`: after the instruction; `true` if the method is left.
  pub with_exception_check :
      List ExceptionTableEntry → Result (Machine W) → Result (Machine W × Bool)
  unfolding check_exception
  with_exception_check table instruction = do
    m ← instruction
    elim m.exception [ none ↦ ok (m, false) | some r ↦ check_exception table r m ]

  pub athrow : Machine W → Result (Machine W)
  athrow m = do (r, f) ← pop_operand reference m.frame; throw_instance r (record m { frame = f })

  abbrev cast_message : JString → JString → JString
  cast_message from to = codes "class " ++ from ++ codes " cannot be cast to class " ++ to

  unfoldable pub checkcast : Machine W → Result (Machine W)
  checkcast m = do
    (index, f) ← read_u2 m.frame
    (r, f) ← pop_operand reference f
    let m' = record m { frame = f }
    if r == 0 then on_frame (push_operand reference r) m' else elim (rt.get_class m.world index) [
      | error e ↦ handle_error_as_exception rt e m'
      | value k ↦ do
        o ← object_at m.heap r
        if not (rt.is_instance_of m.world (class_of o) k)
            then throw_new rt (codes "java/lang/ClassCastException")
                (cast_message (rt.java_class_name m.world (class_of o))
                  (rt.java_class_name m.world k))
                m'
            else on_frame (push_operand reference r) m'
    ]

  unfoldable pub instanceof : Machine W → Result (Machine W)
  instanceof m = do
    (index, f) ← read_u2 m.frame
    (r, f) ← pop_operand reference f
    let m' = record m { frame = f }
    if r == 0 then on_frame (push_operand int32 0) m' else elim (rt.get_class m.world index) [
      | error e ↦ handle_error_as_exception rt e m'
      | value k ↦ object_at m.heap r >>= λ o.
          on_frame (push_operand int32 (if rt.is_instance_of m.world (class_of o) k then 1 else 0))
            m'
    ]
