-- ===== src/GcRoots/Instructions.antt =====
-- The instructions of `AbstractInterpreter::execute` of src/vm/GcRoots.cpp with bytes behind the opcode,
-- and those of several steps.
use geevm.Prelude.{ℕ, ◌==◌, false, Option, some, not, if◌then◌else◌, Result, ok, fault, ◌>>=◌}
use geevm.Prelude.{unreachable}
use geevm.Opcode.{Opcode}
use geevm.Opcode.Decoding.{opcode_of}
use geevm.StackMap.{VerificationTypeInfo, integer_type, float_type, double_type, long_type}
use geevm.StackMap.{object_type, field_type_to_verification_type_info}
use geevm.GcRoots.{AbstractInterpreter, Constants, push, pop, pop_push, pop_pop, store, set_local}
use geevm.GcRoots.{next_u1, next_u2, ldc}

-- Two operands of one type make way for a result of another.
abbrev pub compare :
    VerificationTypeInfo → VerificationTypeInfo → AbstractInterpreter → Result AbstractInterpreter
compare of result a = do a ← pop of a; a ← pop of a; push result a

-- Instructions with bytes behind the opcode.
abbrev pub read_push_u1 : VerificationTypeInfo → AbstractInterpreter → Result AbstractInterpreter
read_push_u1 vti a = do (_, a) ← next_u1 a; push vti a

abbrev pub read_push_u2 : VerificationTypeInfo → AbstractInterpreter → Result AbstractInterpreter
read_push_u2 vti a = do (_, a) ← next_u2 a; push vti a

abbrev pub read_store : VerificationTypeInfo → AbstractInterpreter → Result AbstractInterpreter
read_store vti a = do (index, a) ← next_u1 a; store index vti a

abbrev pub read_pop : VerificationTypeInfo → AbstractInterpreter → Result AbstractInterpreter
read_pop vti a = do (_, a) ← next_u2 a; pop vti a

abbrev pub read_pop_pop :
    VerificationTypeInfo → VerificationTypeInfo → AbstractInterpreter → Result AbstractInterpreter
read_pop_pop first second a = do (_, a) ← next_u2 a; pop_pop first second a

abbrev pub read_pop_push :
    VerificationTypeInfo → VerificationTypeInfo → AbstractInterpreter → Result AbstractInterpreter
read_pop_push from to a = do (_, a) ← next_u2 a; pop_push from to a

abbrev pub ldc_u1 : Constants → AbstractInterpreter → Result AbstractInterpreter
ldc_u1 constants a = do (index, a) ← next_u1 a; ldc constants index a

abbrev pub ldc_u2 : Constants → AbstractInterpreter → Result AbstractInterpreter
ldc_u2 constants a = do (index, a) ← next_u2 a; ldc constants index a

unfoldable pub iinc : AbstractInterpreter → Result AbstractInterpreter
iinc a = do (index, a) ← next_u1 a; (_, a) ← next_u1 a; set_local index false a

unfoldable pub get_static : Constants → AbstractInterpreter → Result AbstractInterpreter
get_static constants a = do
  (index, a) ← next_u2 a
  field ← constants.field_ref index
  push (field_type_to_verification_type_info field) a

unfoldable pub put_static : Constants → AbstractInterpreter → Result AbstractInterpreter
put_static constants a = do
  (index, a) ← next_u2 a
  field ← constants.field_ref index
  pop (field_type_to_verification_type_info field) a

unfoldable pub get_field : Constants → AbstractInterpreter → Result AbstractInterpreter
get_field constants a = do
  (index, a) ← next_u2 a
  field ← constants.field_ref index
  pop_push object_type (field_type_to_verification_type_info field) a

unfoldable pub put_field : Constants → AbstractInterpreter → Result AbstractInterpreter
put_field constants a = do
  (index, a) ← next_u2 a
  field ← constants.field_ref index
  pop_pop (field_type_to_verification_type_info field) object_type a

-- NEWARRAY, whose position is compared with the end behind its operand.
unfoldable pub newarray : ℕ → AbstractInterpreter → Result AbstractInterpreter
newarray opcode_pos a = do
  (_, a) ← next_u1 a
  a ← pop integer_type a
  if not (opcode_pos == a.end_pos) then push object_type a else ok a

unfoldable pub anewarray : ℕ → AbstractInterpreter → Result AbstractInterpreter
anewarray opcode_pos a = do
  (_, a) ← next_u2 a
  a ← pop integer_type a
  if not (opcode_pos == a.end_pos) then push object_type a else ok a

unfoldable pub multianewarray : AbstractInterpreter → Result AbstractInterpreter
multianewarray a = do (_, a) ← next_u2 a; (_, a) ← next_u1 a; push object_type a

-- The inner switch of WIDE.
unfoldable pub wide_opcode : ℕ → Option Opcode → AbstractInterpreter → Result AbstractInterpreter
wide_opcode index (some Opcode.iinc) a = do (_, a) ← next_u2 a; push integer_type a
wide_opcode index (some Opcode.iload) a = push integer_type a
wide_opcode index (some Opcode.lload) a = push long_type a
wide_opcode index (some Opcode.fload) a = push float_type a
wide_opcode index (some Opcode.dload) a = push double_type a
wide_opcode index (some Opcode.aload) a = push object_type a
wide_opcode index (some Opcode.istore) a = store index integer_type a
wide_opcode index (some Opcode.lstore) a = store index long_type a
wide_opcode index (some Opcode.fstore) a = store index float_type a
wide_opcode index (some Opcode.dstore) a = store index double_type a
wide_opcode index (some Opcode.astore) a = store index object_type a
wide_opcode index _ a = fault unreachable

unfoldable pub wide : AbstractInterpreter → Result AbstractInterpreter
unfolding wide_opcode
wide a = do
  (modified, a) ← next_u1 a
  (index, a) ← next_u2 a
  wide_opcode index (opcode_of modified) a
