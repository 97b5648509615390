-- ===== src/Interpreter/Execute.antt =====
-- `DefaultInterpreter::execute` of src/vm/Interpreter.cpp: the loop, and what it does for each opcode.
-- The instructions on constants, fields, methods and new objects are those of the `Runtime`.
use geevm.Prelude.{ℕ, zero, suc, ◌-◌, ◌^◌, true, false, Option, none, some}
use geevm.Prelude.{List, if◌then◌else◌, Result, ok, fault, ◌>>=◌, panic, unreachable}
use geevm.Prelude.{bit_and, bit_or, bit_xor}
use geevm.Prelude.Int.{pos, negsuc}
use geevm.Opcode.{Opcode}
use geevm.Opcode.Decoding.{opcode_of}
use geevm.Frame.{CallFrame, JvmType, int8, int16, int32, int64, char16, float32, float64, reference}
use geevm.Frame.{read_u1, push_operand, pop_operand}
use geevm.Interpreter.StackOps.{pop, pop2, dup, dup_x1, dup_x2, dup2, dup2_x1, dup2_x2, swap}
use geevm.Interpreter.Integers.{wrap_add, wrap_sub, wrap_mul}
use geevm.Interpreter.Machine.{Machine, Runtime, Floats, on_frame}
use geevm.Interpreter.Arithmetic.{simple_op, div, rem, neg, shift, cast_integer, cast_float_to_int}
use geevm.Interpreter.Arithmetic.{convert_float, compare_op}
use geevm.Interpreter.Jumps.{binary_jump_if, unary_jump_if, goto, goto_w, lookup_switch}
use geevm.Interpreter.Jumps.{table_switch}
use geevm.Interpreter.Arrays.{array_load, array_store, array_length}
use geevm.Interpreter.Exceptions.{ExceptionTableEntry, with_exception_check, athrow, checkcast}
use geevm.Interpreter.Exceptions.{instanceof}
use geevm.Interpreter.Instructions.{load_and_push, pop_and_store, load_indexed, store_indexed}
use geevm.Interpreter.Instructions.{bipush, sipush, iinc, wide, monitor, equal_to}
use geevm.Interpreter.Instructions.{not_equal_to, int_less, int_greater, int_less_equal}
use geevm.Interpreter.Instructions.{int_greater_equal}

-- After an instruction: the loop goes on, or `execute` has returned.
pub data Outcome (World : Type 0) : Type 0 where
  next : Machine World → Outcome World
  returned : Option ℕ → Machine World → Outcome World

module _ {W : Type 0} where
  abbrev frame_step : (CallFrame → Result CallFrame) → Machine W → Result (Outcome W)
  frame_step op m = do f ← op m.frame; ok (next (record m { frame = f }))

  -- `return Value::from<T>(popOperand<T>())`
  return_value : JvmType → Machine W → Result (Outcome W)
  return_value t m = do
    (v, f) ← pop_operand t m.frame
    ok (returned (some v) (record m { frame = f }))

module _ {W : Type 0} (rt : Runtime W) (fl : Floats) (table : List ExceptionTableEntry) where
  -- An instruction under `WITH_EXCEPTION_CHECK`.
  checked_step : Result (Machine W) → Result (Outcome W)
  checked_step instruction = do
    (m, uncaught) ← with_exception_check rt table instruction
    ok (if uncaught then returned none m else next m)

  -- The cases of the switch.
  pub execute_opcode : Opcode → Machine W → Result (Outcome W)
  unfolding checked_step return_value load_and_push pop_and_store load_indexed store_indexed bipush
      sipush iinc wide monitor
  execute_opcode Opcode.nop m = ok (next m)
  execute_opcode Opcode.aconst_null m = frame_step (push_operand reference 0) m
  execute_opcode Opcode.iconst_m1 m = frame_step (push_operand int32 (2 ^ 32 - 1)) m
  execute_opcode Opcode.iconst_0 m = frame_step (push_operand int32 0) m
  execute_opcode Opcode.iconst_1 m = frame_step (push_operand int32 1) m
  execute_opcode Opcode.iconst_2 m = frame_step (push_operand int32 2) m
  execute_opcode Opcode.iconst_3 m = frame_step (push_operand int32 3) m
  execute_opcode Opcode.iconst_4 m = frame_step (push_operand int32 4) m
  execute_opcode Opcode.iconst_5 m = frame_step (push_operand int32 5) m
  execute_opcode Opcode.lconst_0 m = frame_step (push_operand int64 0) m
  execute_opcode Opcode.lconst_1 m = frame_step (push_operand int64 1) m
  execute_opcode Opcode.fconst_0 m = frame_step (push_operand float32 0) m
  execute_opcode Opcode.fconst_1 m = frame_step (push_operand float32 0x3f80_0000) m
  execute_opcode Opcode.fconst_2 m = frame_step (push_operand float32 0x4000_0000) m
  execute_opcode Opcode.dconst_0 m = frame_step (push_operand float64 0) m
  execute_opcode Opcode.dconst_1 m = frame_step (push_operand float64 0x3ff0_0000_0000_0000) m
  execute_opcode Opcode.bipush m = frame_step bipush m
  execute_opcode Opcode.sipush m = frame_step sipush m
  execute_opcode Opcode.ldc m = checked_step (rt.other_instruction Opcode.ldc m)
  execute_opcode Opcode.ldc_w m = checked_step (rt.other_instruction Opcode.ldc_w m)
  execute_opcode Opcode.ldc2_w m = checked_step (rt.other_instruction Opcode.ldc2_w m)
  execute_opcode Opcode.iload m = frame_step (load_indexed int32) m
  execute_opcode Opcode.lload m = frame_step (load_indexed int64) m
  execute_opcode Opcode.fload m = frame_step (load_indexed float32) m
  execute_opcode Opcode.dload m = frame_step (load_indexed float64) m
  execute_opcode Opcode.aload m = frame_step (load_indexed reference) m
  execute_opcode Opcode.iload_0 m = frame_step (load_and_push int32 0) m
  execute_opcode Opcode.iload_1 m = frame_step (load_and_push int32 1) m
  execute_opcode Opcode.iload_2 m = frame_step (load_and_push int32 2) m
  execute_opcode Opcode.iload_3 m = frame_step (load_and_push int32 3) m
  execute_opcode Opcode.lload_0 m = frame_step (load_and_push int64 0) m
  execute_opcode Opcode.lload_1 m = frame_step (load_and_push int64 1) m
  execute_opcode Opcode.lload_2 m = frame_step (load_and_push int64 2) m
  execute_opcode Opcode.lload_3 m = frame_step (load_and_push int64 3) m
  execute_opcode Opcode.fload_0 m = frame_step (load_and_push float32 0) m
  execute_opcode Opcode.fload_1 m = frame_step (load_and_push float32 1) m
  execute_opcode Opcode.fload_2 m = frame_step (load_and_push float32 2) m
  execute_opcode Opcode.fload_3 m = frame_step (load_and_push float32 3) m
  execute_opcode Opcode.dload_0 m = frame_step (load_and_push float64 0) m
  execute_opcode Opcode.dload_1 m = frame_step (load_and_push float64 1) m
  execute_opcode Opcode.dload_2 m = frame_step (load_and_push float64 2) m
  execute_opcode Opcode.dload_3 m = frame_step (load_and_push float64 3) m
  execute_opcode Opcode.aload_0 m = frame_step (load_and_push reference 0) m
  execute_opcode Opcode.aload_1 m = frame_step (load_and_push reference 1) m
  execute_opcode Opcode.aload_2 m = frame_step (load_and_push reference 2) m
  execute_opcode Opcode.aload_3 m = frame_step (load_and_push reference 3) m
  execute_opcode Opcode.iaload m = checked_step (array_load rt int32 m)
  execute_opcode Opcode.laload m = checked_step (array_load rt int64 m)
  execute_opcode Opcode.faload m = checked_step (array_load rt float32 m)
  execute_opcode Opcode.daload m = checked_step (array_load rt float64 m)
  execute_opcode Opcode.aaload m = checked_step (array_load rt reference m)
  execute_opcode Opcode.baload m = checked_step (array_load rt int8 m)
  execute_opcode Opcode.caload m = checked_step (array_load rt char16 m)
  execute_opcode Opcode.saload m = checked_step (array_load rt int16 m)
  execute_opcode Opcode.istore m = frame_step (store_indexed int32) m
  execute_opcode Opcode.lstore m = frame_step (store_indexed int64) m
  execute_opcode Opcode.fstore m = frame_step (store_indexed float32) m
  execute_opcode Opcode.dstore m = frame_step (store_indexed float64) m
  execute_opcode Opcode.astore m = frame_step (store_indexed reference) m
  execute_opcode Opcode.istore_0 m = frame_step (pop_and_store int32 0) m
  execute_opcode Opcode.istore_1 m = frame_step (pop_and_store int32 1) m
  execute_opcode Opcode.istore_2 m = frame_step (pop_and_store int32 2) m
  execute_opcode Opcode.istore_3 m = frame_step (pop_and_store int32 3) m
  execute_opcode Opcode.lstore_0 m = frame_step (pop_and_store int64 0) m
  execute_opcode Opcode.lstore_1 m = frame_step (pop_and_store int64 1) m
  execute_opcode Opcode.lstore_2 m = frame_step (pop_and_store int64 2) m
  execute_opcode Opcode.lstore_3 m = frame_step (pop_and_store int64 3) m
  execute_opcode Opcode.fstore_0 m = frame_step (pop_and_store float32 0) m
  execute_opcode Opcode.fstore_1 m = frame_step (pop_and_store float32 1) m
  execute_opcode Opcode.fstore_2 m = frame_step (pop_and_store float32 2) m
  execute_opcode Opcode.fstore_3 m = frame_step (pop_and_store float32 3) m
  execute_opcode Opcode.dstore_0 m = frame_step (pop_and_store float64 0) m
  execute_opcode Opcode.dstore_1 m = frame_step (pop_and_store float64 1) m
  execute_opcode Opcode.dstore_2 m = frame_step (pop_and_store float64 2) m
  execute_opcode Opcode.dstore_3 m = frame_step (pop_and_store float64 3) m
  execute_opcode Opcode.astore_0 m = frame_step (pop_and_store reference 0) m
  execute_opcode Opcode.astore_1 m = frame_step (pop_and_store reference 1) m
  execute_opcode Opcode.astore_2 m = frame_step (pop_and_store reference 2) m
  execute_opcode Opcode.astore_3 m = frame_step (pop_and_store reference 3) m
  execute_opcode Opcode.iastore m = checked_step (array_store rt int32 m)
  execute_opcode Opcode.lastore m = checked_step (array_store rt int64 m)
  execute_opcode Opcode.fastore m = checked_step (array_store rt float32 m)
  execute_opcode Opcode.dastore m = checked_step (array_store rt float64 m)
  execute_opcode Opcode.aastore m = checked_step (array_store rt reference m)
  execute_opcode Opcode.bastore m = checked_step (array_store rt int8 m)
  execute_opcode Opcode.castore m = checked_step (array_store rt char16 m)
  execute_opcode Opcode.sastore m = checked_step (array_store rt int16 m)
  execute_opcode Opcode.pop m = frame_step pop m
  execute_opcode Opcode.pop2 m = frame_step pop2 m
  execute_opcode Opcode.dup m = frame_step dup m
  execute_opcode Opcode.dup_x1 m = frame_step dup_x1 m
  execute_opcode Opcode.dup_x2 m = frame_step dup_x2 m
  execute_opcode Opcode.dup2 m = frame_step dup2 m
  execute_opcode Opcode.dup2_x1 m = frame_step dup2_x1 m
  execute_opcode Opcode.dup2_x2 m = frame_step dup2_x2 m
  execute_opcode Opcode.swap m = frame_step swap m
  execute_opcode Opcode.iadd m = frame_step (simple_op int32 (wrap_add 32)) m
  execute_opcode Opcode.ladd m = frame_step (simple_op int64 (wrap_add 64)) m
  execute_opcode Opcode.fadd m = frame_step (simple_op float32 (fl.add float32)) m
  execute_opcode Opcode.dadd m = frame_step (simple_op float64 (fl.add float64)) m
  execute_opcode Opcode.isub m = frame_step (simple_op int32 (wrap_sub 32)) m
  execute_opcode Opcode.lsub m = frame_step (simple_op int64 (wrap_sub 64)) m
  execute_opcode Opcode.fsub m = frame_step (simple_op float32 (fl.sub float32)) m
  execute_opcode Opcode.dsub m = frame_step (simple_op float64 (fl.sub float64)) m
  execute_opcode Opcode.imul m = frame_step (simple_op int32 (wrap_mul 32)) m
  execute_opcode Opcode.lmul m = frame_step (simple_op int64 (wrap_mul 64)) m
  execute_opcode Opcode.fmul m = frame_step (simple_op float32 (fl.mul float32)) m
  execute_opcode Opcode.dmul m = frame_step (simple_op float64 (fl.mul float64)) m
  execute_opcode Opcode.idiv m = checked_step (div rt fl int32 m)
  execute_opcode Opcode.ldiv m = checked_step (div rt fl int64 m)
  execute_opcode Opcode.fdiv m = checked_step (div rt fl float32 m)
  execute_opcode Opcode.ddiv m = checked_step (div rt fl float64 m)
  execute_opcode Opcode.irem m = checked_step (on_frame (rem fl int32) m)
  execute_opcode Opcode.lrem m = checked_step (on_frame (rem fl int64) m)
  execute_opcode Opcode.frem m = checked_step (on_frame (rem fl float32) m)
  execute_opcode Opcode.drem m = checked_step (on_frame (rem fl float64) m)
  execute_opcode Opcode.ineg m = frame_step (neg fl int32) m
  execute_opcode Opcode.lneg m = frame_step (neg fl int64) m
  execute_opcode Opcode.fneg m = frame_step (neg fl float32) m
  execute_opcode Opcode.dneg m = frame_step (neg fl float64) m
  execute_opcode Opcode.ishl m = frame_step (shift int32 true 0x1f true) m
  execute_opcode Opcode.lshl m = frame_step (shift int64 true 0x3f true) m
  execute_opcode Opcode.ishr m = frame_step (shift int32 true 0x1f false) m
  execute_opcode Opcode.lshr m = frame_step (shift int64 true 0x3f false) m
  execute_opcode Opcode.iushr m = frame_step (shift int32 false 0x1f false) m
  execute_opcode Opcode.lushr m = frame_step (shift int64 false 0x3f false) m
  execute_opcode Opcode.iand m = frame_step (simple_op int32 bit_and) m
  execute_opcode Opcode.land m = frame_step (simple_op int64 bit_and) m
  execute_opcode Opcode.ior m = frame_step (simple_op int32 bit_or) m
  execute_opcode Opcode.lor m = frame_step (simple_op int64 bit_or) m
  execute_opcode Opcode.ixor m = frame_step (simple_op int32 bit_xor) m
  execute_opcode Opcode.lxor m = frame_step (simple_op int64 bit_xor) m
  execute_opcode Opcode.iinc m = frame_step iinc m
  execute_opcode Opcode.i2l m = frame_step (cast_integer fl int32 int64) m
  execute_opcode Opcode.i2f m = frame_step (cast_integer fl int32 float32) m
  execute_opcode Opcode.i2d m = frame_step (cast_integer fl int32 float64) m
  execute_opcode Opcode.l2i m = frame_step (cast_integer fl int64 int32) m
  execute_opcode Opcode.l2f m = frame_step (cast_integer fl int64 float32) m
  execute_opcode Opcode.l2d m = frame_step (cast_integer fl int64 float64) m
  execute_opcode Opcode.f2i m = frame_step (cast_float_to_int fl float32 int32) m
  execute_opcode Opcode.f2l m = frame_step (cast_float_to_int fl float32 int64) m
  execute_opcode Opcode.f2d m = frame_step (convert_float fl float32 float64) m
  execute_opcode Opcode.d2i m = frame_step (cast_float_to_int fl float64 int32) m
  execute_opcode Opcode.d2l m = frame_step (cast_float_to_int fl float64 int64) m
  execute_opcode Opcode.d2f m = frame_step (convert_float fl float64 float32) m
  execute_opcode Opcode.i2b m = frame_step (cast_integer fl int32 int8) m
  execute_opcode Opcode.i2c m = frame_step (cast_integer fl int32 char16) m
  execute_opcode Opcode.i2s m = frame_step (cast_integer fl int32 int16) m
  execute_opcode Opcode.lcmp m = frame_step (compare_op fl int64 (pos 1)) m
  execute_opcode Opcode.fcmpl m = frame_step (compare_op fl float32 (negsuc 0)) m
  execute_opcode Opcode.fcmpg m = frame_step (compare_op fl float32 (pos 1)) m
  execute_opcode Opcode.dcmpl m = frame_step (compare_op fl float64 (negsuc 0)) m
  execute_opcode Opcode.dcmpg m = frame_step (compare_op fl float64 (pos 1)) m
  execute_opcode Opcode.ifeq m = frame_step (unary_jump_if int32 0 equal_to) m
  execute_opcode Opcode.ifne m = frame_step (unary_jump_if int32 0 not_equal_to) m
  execute_opcode Opcode.iflt m = frame_step (unary_jump_if int32 0 int_less) m
  execute_opcode Opcode.ifge m = frame_step (unary_jump_if int32 0 int_greater_equal) m
  execute_opcode Opcode.ifgt m = frame_step (unary_jump_if int32 0 int_greater) m
  execute_opcode Opcode.ifle m = frame_step (unary_jump_if int32 0 int_less_equal) m
  execute_opcode Opcode.if_icmpeq m = frame_step (binary_jump_if int32 equal_to) m
  execute_opcode Opcode.if_icmpne m = frame_step (binary_jump_if int32 not_equal_to) m
  execute_opcode Opcode.if_icmplt m = frame_step (binary_jump_if int32 int_less) m
  execute_opcode Opcode.if_icmpge m = frame_step (binary_jump_if int32 int_greater_equal) m
  execute_opcode Opcode.if_icmpgt m = frame_step (binary_jump_if int32 int_greater) m
  execute_opcode Opcode.if_icmple m = frame_step (binary_jump_if int32 int_less_equal) m
  execute_opcode Opcode.if_acmpeq m = frame_step (binary_jump_if reference equal_to) m
  execute_opcode Opcode.if_acmpne m = frame_step (binary_jump_if reference not_equal_to) m
  execute_opcode Opcode.goto m = frame_step goto m
  execute_opcode Opcode.jsr m = fault panic
  execute_opcode Opcode.ret m = fault panic
  execute_opcode Opcode.tableswitch m = frame_step table_switch m
  execute_opcode Opcode.lookupswitch m = frame_step lookup_switch m
  execute_opcode Opcode.ireturn m = return_value int32 m
  execute_opcode Opcode.lreturn m = return_value int64 m
  execute_opcode Opcode.freturn m = return_value float32 m
  execute_opcode Opcode.dreturn m = return_value float64 m
  execute_opcode Opcode.areturn m = return_value reference m
  execute_opcode Opcode.return m = ok (returned none m)
  execute_opcode Opcode.getstatic m = checked_step (rt.other_instruction Opcode.getstatic m)
  execute_opcode Opcode.putstatic m = checked_step (rt.other_instruction Opcode.putstatic m)
  execute_opcode Opcode.getfield m = checked_step (rt.other_instruction Opcode.getfield m)
  execute_opcode Opcode.putfield m = checked_step (rt.other_instruction Opcode.putfield m)
  execute_opcode Opcode.invokevirtual m = checked_step (rt.other_instruction Opcode.invokevirtual m)
  execute_opcode Opcode.invokespecial m = checked_step (rt.other_instruction Opcode.invokespecial m)
  execute_opcode Opcode.invokestatic m = checked_step (rt.other_instruction Opcode.invokestatic m)
  execute_opcode Opcode.invokeinterface m =
      checked_step (rt.other_instruction Opcode.invokeinterface m)
  execute_opcode Opcode.invokedynamic m = fault panic
  execute_opcode Opcode.new m = checked_step (rt.other_instruction Opcode.new m)
  execute_opcode Opcode.newarray m = checked_step (rt.other_instruction Opcode.newarray m)
  execute_opcode Opcode.anewarray m = checked_step (rt.other_instruction Opcode.anewarray m)
  execute_opcode Opcode.arraylength m = checked_step (array_length rt m)
  execute_opcode Opcode.athrow m = checked_step (athrow rt m)
  execute_opcode Opcode.checkcast m = checked_step (checkcast rt m)
  execute_opcode Opcode.instanceof m = checked_step (instanceof rt m)
  execute_opcode Opcode.monitorenter m = checked_step (on_frame monitor m)
  execute_opcode Opcode.monitorexit m = checked_step (on_frame monitor m)
  execute_opcode Opcode.wide m = frame_step wide m
  execute_opcode Opcode.multianewarray m =
      checked_step (rt.other_instruction Opcode.multianewarray m)
  execute_opcode Opcode.ifnull m = frame_step (unary_jump_if reference 0 equal_to) m
  execute_opcode Opcode.ifnonnull m = frame_step (unary_jump_if reference 0 not_equal_to) m
  execute_opcode Opcode.goto_w m = frame_step goto_w m
  execute_opcode Opcode.jsr_w m = fault panic
  execute_opcode Opcode.breakpoint m = ok (next m)
  execute_opcode Opcode.impdep1 m = ok (next m)
  execute_opcode Opcode.impdep2 m = ok (next m)

  -- One round of the loop.
  unfoldable pub step : Machine W → Result (Outcome W)
  unfolding execute_opcode
  step m = do
    (b, f) ← read_u1 m.frame
    elim (opcode_of b) [
      | none ↦ fault unreachable
      | some op ↦ execute_opcode op (record m { frame = f })
    ]

  -- `execute`, for as many rounds as there is fuel.
  unfoldable pub execute : ℕ → Machine W → Result (Outcome W)
  execute zero m = ok (next m)
  execute (suc fuel) m = do
    o ← step m
    elim o [ next m' ↦ execute fuel m' | returned v m' ↦ ok (returned v m') ]
