-- ===== src/GcRoots.antt =====
-- src/vm/GcRoots.cpp and src/vm/GcRoots.h: which local variables and which slots of the operand stack of
-- a frame hold references, by an abstract interpretation of the code from the last frame of the stack
-- map. Here are the state of `AbstractInterpreter` and its members; the vectors have `maxLocals` and
-- `maxStack` entries, and an access outside of one is undefined.
pub mod StackOps
pub mod Instructions
pub mod Execute
pub mod Width
pub mod Compute
pub mod Advancing
pub mod Walking
pub mod Rounds
pub mod Flags
pub mod Effects
pub mod Shuffles
mod Tests
use geevm.Prelude.{ℕ, suc, ◌+◌, ◌-◌, ◌*◌, ◌%◌, ◌^◌, ◌≡◌, Bool, true, false, Option, none, some}
use geevm.Prelude.{List, [], ◌∷◌, length, set, get_elem?, replicate, ltb, leb, ◌==◌, ◌&&◌, ◌||◌}
use geevm.Prelude.{if◌then◌else◌, Result, ok, fault, ◌>>=◌, ◌>>◌, guard, assertion, unreachable}
use geevm.Prelude.{undefined, not}
use geevm.ByteStream.{ByteStream, stream_of, read_u1, read_u2, skip}
use geevm.Descriptor.{FieldType, MethodDescriptor, ReturnType, void, returns}
use geevm.Descriptor.Slots.{num_parameter_slots}
use geevm.StackMap.{VerificationTypeInfo, top_type, integer_type, float_type, double_type}
use geevm.StackMap.{long_type, null_type, uninitialized_this, object_type, uninitialized_type}
use geevm.StackMap.{FrameInfo, field_type_to_verification_type_info}

-- `isReference`
unfoldable pub is_reference : VerificationTypeInfo → Result Bool
is_reference vti =
    if vti == top_type
      || vti == integer_type
      || vti == float_type
      || vti == double_type
      || vti == long_type
    then ok false
    else if vti == null_type
        || vti == uninitialized_this
        || vti == object_type
        || vti == uninitialized_type
    then ok true
    else fault unreachable

-- `isCategoryTwo`
abbrev pub is_category_two : VerificationTypeInfo → Bool
is_category_two vti = vti == long_type || vti == double_type

-- `ConstantPool::Tag`
pub data Tag : Type 0 where
  empty constant_utf8 constant_integer constant_float constant_long constant_double : Tag
  constant_class constant_string constant_fieldref constant_methodref : Tag
  constant_interface_methodref constant_name_and_type constant_method_handle : Tag
  constant_method_type constant_invoke_dynamic : Tag

-- What is asked of a resolved `JMethod`.
pub record MethodRef : Type 0 where
  pub descriptor : MethodDescriptor
  pub is_static : Bool

-- The constant pool of the method's class with what its references resolve to.
pub record Constants : Type 0 where
  pub tag_at : ℕ → Result Tag
  pub field_ref : ℕ → Result FieldType
  pub method_ref : ℕ → Result MethodRef

-- `AbstractInterpreter`
pub record AbstractInterpreter : Type 0 where
  pub code : ByteStream
  pub local_variables : List Bool
  pub operand_stack : List Bool
  pub stack_pointer : ℕ
  pub end_pos : ℕ

abbrev pub flag_at : List Bool → ℕ → Result Bool
flag_at flags i = elim (get_elem? flags i) [ none ↦ fault undefined | some b ↦ ok b ]

abbrev pub set_flag : List Bool → ℕ → Bool → Result (List Bool)
set_flag flags i b = do guard (ltb i (length flags)) undefined; ok (set flags i b)

-- The loops of the constructor: the flags and the next index.
unfoldable pub mark_types : List VerificationTypeInfo → ℕ → List Bool → Result (List Bool × ℕ)
mark_types [] current flags = ok (flags, current)
mark_types (vti ∷ vtis) current flags = do
  b ← is_reference vti
  flags ← set_flag flags current b
  let two = is_category_two vti
  flags ← if two then set_flag flags (current + 1) false else ok flags
  mark_types vtis (if two then current + 2 else current + 1) flags

-- `AbstractInterpreter::AbstractInterpreter`, at the first byte of the code.
unfoldable pub new_interpreter :
    ℕ
    → ℕ
    → List ℕ
    → ℕ
    → List VerificationTypeInfo
    → List VerificationTypeInfo
    → Result AbstractInterpreter
new_interpreter max_locals max_stack code pos locals operand_stack = do
  (local_flags, _) ← mark_types locals 0 (replicate max_locals false)
  (stack_flags, current_stack) ← mark_types operand_stack 0 (replicate max_stack false)
  ok (record {
    code = stream_of code;
    local_variables = local_flags;
    operand_stack = stack_flags;
    stack_pointer = current_stack % 2 ^ 16;
    end_pos = pos;
  })

-- `mOperandStack[mStackPointer++] = value`
unfoldable pub push_flag : Bool → AbstractInterpreter → Result AbstractInterpreter
push_flag value a = do
  flags ← set_flag a.operand_stack a.stack_pointer value
  ok (record a { operand_stack = flags; stack_pointer = (a.stack_pointer + 1) % 2 ^ 16 })

-- `value = mOperandStack[mStackPointer - 1]; mStackPointer--`; the index is an `int`.
pub take_flag : AbstractInterpreter → Result (Bool × AbstractInterpreter)
take_flag a = do
  guard (ltb 0 a.stack_pointer) undefined
  value ← flag_at a.operand_stack (a.stack_pointer - 1)
  ok (value, record a { stack_pointer = a.stack_pointer - 1 })

-- `mStackPointer -= count`
pub drop_slots : ℕ → AbstractInterpreter → AbstractInterpreter
drop_slots count a = record a {
  stack_pointer = (a.stack_pointer + 2 ^ 16 - count % 2 ^ 16) % 2 ^ 16;
}

-- `AbstractInterpreter::push`
unfoldable pub push : VerificationTypeInfo → AbstractInterpreter → Result AbstractInterpreter
push vti a = do
  value ← is_reference vti
  a ← push_flag value a
  if is_category_two vti then push_flag false a else ok a

-- One of the two halves of `pop`.
pub pop_slot : AbstractInterpreter → Result AbstractInterpreter
pop_slot a = do
  guard (ltb 0 a.stack_pointer) assertion
  flags ← set_flag a.operand_stack (a.stack_pointer - 1) false
  ok (record a { operand_stack = flags; stack_pointer = a.stack_pointer - 1 })

-- `AbstractInterpreter::pop`
pub pop : VerificationTypeInfo → AbstractInterpreter → Result AbstractInterpreter
pop vti a = do a ← if is_category_two vti then pop_slot a else ok a; pop_slot a

-- A pop and a push, as the conversions have them.
abbrev pub pop_push :
    VerificationTypeInfo → VerificationTypeInfo → AbstractInterpreter → Result AbstractInterpreter
pop_push from to a = do a ← pop from a; push to a

abbrev pub pop_pop :
    VerificationTypeInfo → VerificationTypeInfo → AbstractInterpreter → Result AbstractInterpreter
pop_pop first second a = do a ← pop first a; pop second a

-- `AbstractInterpreter::arrayLoad`
pub array_load : VerificationTypeInfo → AbstractInterpreter → Result AbstractInterpreter
array_load vti a = do a ← pop integer_type a; a ← pop object_type a; push vti a

-- `AbstractInterpreter::arrayStore`
pub array_store : VerificationTypeInfo → AbstractInterpreter → Result AbstractInterpreter
array_store vti a = do a ← pop vti a; a ← pop integer_type a; pop object_type a

-- `mLocalVariables[index] = value`
pub set_local : ℕ → Bool → AbstractInterpreter → Result AbstractInterpreter
set_local index value a = do
  flags ← set_flag a.local_variables index value
  ok (record a { local_variables = flags })

-- `AbstractInterpreter::store`
pub store : ℕ → VerificationTypeInfo → AbstractInterpreter → Result AbstractInterpreter
store index vti a = do
  a ← pop vti a
  value ← is_reference vti
  a ← set_local index value a
  if is_category_two vti then set_local (index + 1) false a else ok a

-- `AbstractInterpreter::binaryOp`
pub binary_op : VerificationTypeInfo → AbstractInterpreter → Result AbstractInterpreter
binary_op vti a = do a ← pop vti a; a ← pop vti a; push vti a

-- `AbstractInterpreter::shift`
pub shift : VerificationTypeInfo → AbstractInterpreter → Result AbstractInterpreter
shift vti a = do a ← pop integer_type a; a ← pop vti a; push vti a

-- `mCode.readU1()` and `mCode.readU2()`
unfoldable pub next_u1 : AbstractInterpreter → Result (ℕ × AbstractInterpreter)
next_u1 a = do (v, s) ← read_u1 a.code; ok (v, record a { code = s })

pub next_u2 : AbstractInterpreter → Result (ℕ × AbstractInterpreter)
next_u2 a = do (v, s) ← read_u2 a.code; ok (v, record a { code = s })

push_constant : Tag → AbstractInterpreter → Result AbstractInterpreter
push_constant Tag.constant_integer a = push integer_type a
push_constant Tag.constant_float a = push float_type a
push_constant Tag.constant_double a = push double_type a
push_constant Tag.constant_long a = push long_type a
push_constant Tag.constant_string a = push object_type a
push_constant Tag.constant_class a = push object_type a
push_constant _ a = fault unreachable

-- `AbstractInterpreter::ldc`
pub ldc : Constants → ℕ → AbstractInterpreter → Result AbstractInterpreter
ldc constants index a = do tag ← constants.tag_at index; push_constant tag a

push_result : ReturnType → AbstractInterpreter → Result AbstractInterpreter
push_result void a = ok a
push_result (returns t) a = push (field_type_to_verification_type_info t) a

-- `AbstractInterpreter::invoke`: INVOKEINTERFACE has two more bytes, 'count' and '0'.
pub invoke : Bool → Constants → AbstractInterpreter → Result AbstractInterpreter
invoke is_interface constants a = do
  (index, a) ← next_u2 a
  method ← constants.method_ref index
  let a = if is_interface then record a { code = skip 2 a.code } else a
  let slots = num_parameter_slots method.descriptor
  let num_args = if method.is_static then slots else slots + 1
  push_result method.descriptor.return_type (drop_slots num_args a)
