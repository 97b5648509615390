-- ===== src/Interpreter/Machine.antt =====
-- What an instruction of src/vm/Interpreter.cpp acts on: the current frame, the exception state of
-- src/vm/Thread.h, and the rest of the virtual machine behind the operations of `Runtime`.
use geevm.Prelude.{ℕ, Bool, true, false, Option, none, some, ◌==◌, if◌then◌else◌, not, Result, ok}
use geevm.Prelude.{◌>>=◌, ◌>>◌, guard, assertion, panic}
use geevm.Prelude.Int.{ℤ}
use geevm.Prelude.Text.{JString}
use geevm.Instance.{Heap, JvmExpected}
use geevm.Opcode.{Opcode}
use geevm.Frame.{CallFrame, JvmType, reference, push_operand, clear_operand_stack}

-- Floating-point numbers by their bit patterns; the first argument of an operation is the type.
pub record Floats : Type 0 where
  pub add : JvmType → ℕ → ℕ → ℕ
  pub sub : JvmType → ℕ → ℕ → ℕ
  pub mul : JvmType → ℕ → ℕ → ℕ
  pub div : JvmType → ℕ → ℕ → ℕ
  pub fmod : JvmType → ℕ → ℕ → ℕ
  pub neg : JvmType → ℕ → ℕ
  pub floor : JvmType → ℕ → ℕ
  pub ceil : JvmType → ℕ → ℕ
  pub less : JvmType → ℕ → ℕ → Bool
  pub equal : JvmType → ℕ → ℕ → Bool
  pub is_nan : JvmType → ℕ → Bool
  -- `static_cast` from an integer, and to one.
  pub of_int : JvmType → ℤ → ℕ
  pub to_int : JvmType → ℕ → ℤ
  -- `static_cast` between the two types: the source, then the target.
  pub convert : JvmType → JvmType → ℕ → ℕ

-- The state of a thread that executes a method which is not native. References are numbers, and
-- the null reference is 0.
pub record Machine (World : Type 0) : Type 0 where
  pub frame : CallFrame
  pub exception : Option ℕ
  pub has_uncaught_exception : Bool
  pub heap : Heap
  pub world : World

-- The classes of the virtual machine, and what it does to build an exception object.
pub record Runtime (World : Type 0) : Type 0 where
  -- An instance of the class of that name with the message, as `throwException` builds it.
  pub new_throwable : JString → JString → Heap → World → Result (ℕ × Heap × World)
  -- `JClass::isInstanceOf`, and `ArrayClass::elementClass`.
  pub is_instance_of : World → ℕ → ℕ → Bool
  pub element_class : World → ℕ → Option ℕ
  -- `RuntimeConstantPool::getClass` of the class of the current method.
  pub get_class : World → ℕ → JvmExpected ℕ
  -- `JClass::javaClassName`
  pub java_class_name : World → ℕ → JString
  -- The instructions on constants, fields, methods and new objects.
  pub other_instruction : Opcode → Machine World → Result (Machine World)

abbrev pub is_none : Option ℕ → Bool
is_none none = true
is_none (some r) = false

module _ {W : Type 0} where
  -- An operation on the frame alone.
  abbrev pub on_frame : (CallFrame → Result CallFrame) → Machine W → Result (Machine W)
  on_frame op m = do f ← op m.frame; ok (record m { frame = f })

  -- `JavaThread::throwException(Instance*)`. The root of a null instance is the null root, which
  -- stands for no exception.
  unfoldable pub throw_instance : ℕ → Machine W → Result (Machine W)
  throw_instance r m = do
    guard (not m.has_uncaught_exception) panic
    guard (is_none m.exception) assertion
    f ← push_operand reference r (clear_operand_stack m.frame)
    ok (record m { frame = f; exception = if r == 0 then none else some r })

  -- `JavaThread::throwException(name, message)`
  unfoldable pub throw_new : Runtime W → JString → JString → Machine W → Result (Machine W)
  throw_new rt name message m = do
    (r, h, w) ← rt.new_throwable name message m.heap m.world
    throw_instance r (record m { heap = h; world = w })
