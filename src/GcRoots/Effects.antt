-- ===== src/GcRoots/Effects.antt =====
-- What `AbstractInterpreter::execute` of src/vm/GcRoots.cpp does to the operand stack for the instructions
-- of a fixed effect, against a table of the types that they take and leave.
pub mod Table
pub mod Helpers
use geevm.Prelude.{ℕ, ◌≤◌, ◌≡◌, refl, Bool, true, false, List, [], ◌∷◌, ◌++◌, length, ok, arith}
use geevm.Opcode.{Opcode}
use geevm.StackMap.{VerificationTypeInfo, integer_type, float_type, double_type, long_type}
use geevm.StackMap.{null_type, object_type}
use geevm.GcRoots.{AbstractInterpreter, Constants}
use geevm.GcRoots.Execute.{execute_opcode}
use geevm.GcRoots.Flags.{Flags, Leaves, flags_of, push-Leaves, pop-Leaves}
use geevm.GcRoots.Effects.Table.{has_effect, takes, leaves}
use geevm.GcRoots.Effects.Helpers.{pop_push-Leaves, compare-Leaves, array_load-Leaves}
use geevm.GcRoots.Effects.Helpers.{array_store-Leaves, binary_op-Leaves, shift-Leaves}

-- Where the operands of an instruction of a fixed effect lie on the stack and its results fit, its
-- interpretation returns, and leaves the flags of its results in the place of those of its operands,
-- and the flags below, the local variables and the position as they were.
pub execute_opcode-Leaves :
    (constants : Constants) (opcode : Opcode) (r : List Bool) {start : AbstractInterpreter}
    (a : AbstractInterpreter)
    → has_effect opcode ≡ true
    → Flags start (flags_of (takes opcode) ++ r) a
    → length (flags_of (leaves opcode) ++ r) ≤ length start.operand_stack
    → Leaves start (flags_of (leaves opcode) ++ r) (execute_opcode constants opcode a)
unfolding execute_opcode
execute_opcode-Leaves constants Opcode.nop r a e h room = (a, refl, h)
execute_opcode-Leaves constants Opcode.aconst_null r a e h room =
    push-Leaves r a null_type (omega arith) h room
execute_opcode-Leaves constants Opcode.iconst_m1 r a e h room =
    push-Leaves r a integer_type (omega arith) h room
execute_opcode-Leaves constants Opcode.iconst_0 r a e h room =
    push-Leaves r a integer_type (omega arith) h room
execute_opcode-Leaves constants Opcode.iconst_1 r a e h room =
    push-Leaves r a integer_type (omega arith) h room
execute_opcode-Leaves constants Opcode.iconst_2 r a e h room =
    push-Leaves r a integer_type (omega arith) h room
execute_opcode-Leaves constants Opcode.iconst_3 r a e h room =
    push-Leaves r a integer_type (omega arith) h room
execute_opcode-Leaves constants Opcode.iconst_4 r a e h room =
    push-Leaves r a integer_type (omega arith) h room
execute_opcode-Leaves constants Opcode.iconst_5 r a e h room =
    push-Leaves r a integer_type (omega arith) h room
execute_opcode-Leaves constants Opcode.lconst_0 r a e h room =
    push-Leaves r a long_type (omega arith) h room
execute_opcode-Leaves constants Opcode.lconst_1 r a e h room =
    push-Leaves r a long_type (omega arith) h room
execute_opcode-Leaves constants Opcode.fconst_0 r a e h room =
    push-Leaves r a float_type (omega arith) h room
execute_opcode-Leaves constants Opcode.fconst_1 r a e h room =
    push-Leaves r a float_type (omega arith) h room
execute_opcode-Leaves constants Opcode.fconst_2 r a e h room =
    push-Leaves r a float_type (omega arith) h room
execute_opcode-Leaves constants Opcode.dconst_0 r a e h room =
    push-Leaves r a double_type (omega arith) h room
execute_opcode-Leaves constants Opcode.dconst_1 r a e h room =
    push-Leaves r a double_type (omega arith) h room
execute_opcode-Leaves constants Opcode.bipush r a e h room = cc
execute_opcode-Leaves constants Opcode.sipush r a e h room = cc
execute_opcode-Leaves constants Opcode.ldc r a e h room = cc
execute_opcode-Leaves constants Opcode.ldc_w r a e h room = cc
execute_opcode-Leaves constants Opcode.ldc2_w r a e h room = cc
execute_opcode-Leaves constants Opcode.iload r a e h room = cc
execute_opcode-Leaves constants Opcode.lload r a e h room = cc
execute_opcode-Leaves constants Opcode.fload r a e h room = cc
execute_opcode-Leaves constants Opcode.dload r a e h room = cc
execute_opcode-Leaves constants Opcode.aload r a e h room = cc
execute_opcode-Leaves constants Opcode.iload_0 r a e h room =
    push-Leaves r a integer_type (omega arith) h room
execute_opcode-Leaves constants Opcode.iload_1 r a e h room =
    push-Leaves r a integer_type (omega arith) h room
execute_opcode-Leaves constants Opcode.iload_2 r a e h room =
    push-Leaves r a integer_type (omega arith) h room
execute_opcode-Leaves constants Opcode.iload_3 r a e h room =
    push-Leaves r a integer_type (omega arith) h room
execute_opcode-Leaves constants Opcode.lload_0 r a e h room =
    push-Leaves r a long_type (omega arith) h room
execute_opcode-Leaves constants Opcode.lload_1 r a e h room =
    push-Leaves r a long_type (omega arith) h room
execute_opcode-Leaves constants Opcode.lload_2 r a e h room =
    push-Leaves r a long_type (omega arith) h room
execute_opcode-Leaves constants Opcode.lload_3 r a e h room =
    push-Leaves r a long_type (omega arith) h room
execute_opcode-Leaves constants Opcode.fload_0 r a e h room =
    push-Leaves r a float_type (omega arith) h room
execute_opcode-Leaves constants Opcode.fload_1 r a e h room =
    push-Leaves r a float_type (omega arith) h room
execute_opcode-Leaves constants Opcode.fload_2 r a e h room =
    push-Leaves r a float_type (omega arith) h room
execute_opcode-Leaves constants Opcode.fload_3 r a e h room =
    push-Leaves r a float_type (omega arith) h room
execute_opcode-Leaves constants Opcode.dload_0 r a e h room =
    push-Leaves r a double_type (omega arith) h room
execute_opcode-Leaves constants Opcode.dload_1 r a e h room =
    push-Leaves r a double_type (omega arith) h room
execute_opcode-Leaves constants Opcode.dload_2 r a e h room =
    push-Leaves r a double_type (omega arith) h room
execute_opcode-Leaves constants Opcode.dload_3 r a e h room =
    push-Leaves r a double_type (omega arith) h room
execute_opcode-Leaves constants Opcode.aload_0 r a e h room =
    push-Leaves r a object_type (omega arith) h room
execute_opcode-Leaves constants Opcode.aload_1 r a e h room =
    push-Leaves r a object_type (omega arith) h room
execute_opcode-Leaves constants Opcode.aload_2 r a e h room =
    push-Leaves r a object_type (omega arith) h room
execute_opcode-Leaves constants Opcode.aload_3 r a e h room =
    push-Leaves r a object_type (omega arith) h room
execute_opcode-Leaves constants Opcode.iaload r a e h room =
    array_load-Leaves r a integer_type (omega arith) h room
execute_opcode-Leaves constants Opcode.laload r a e h room =
    array_load-Leaves r a long_type (omega arith) h room
execute_opcode-Leaves constants Opcode.faload r a e h room =
    array_load-Leaves r a float_type (omega arith) h room
execute_opcode-Leaves constants Opcode.daload r a e h room =
    array_load-Leaves r a double_type (omega arith) h room
execute_opcode-Leaves constants Opcode.aaload r a e h room =
    array_load-Leaves r a object_type (omega arith) h room
execute_opcode-Leaves constants Opcode.baload r a e h room =
    array_load-Leaves r a integer_type (omega arith) h room
execute_opcode-Leaves constants Opcode.caload r a e h room =
    array_load-Leaves r a integer_type (omega arith) h room
execute_opcode-Leaves constants Opcode.saload r a e h room =
    array_load-Leaves r a integer_type (omega arith) h room
execute_opcode-Leaves constants Opcode.istore r a e h room = cc
execute_opcode-Leaves constants Opcode.lstore r a e h room = cc
execute_opcode-Leaves constants Opcode.fstore r a e h room = cc
execute_opcode-Leaves constants Opcode.dstore r a e h room = cc
execute_opcode-Leaves constants Opcode.astore r a e h room = cc
execute_opcode-Leaves constants Opcode.istore_0 r a e h room = cc
execute_opcode-Leaves constants Opcode.istore_1 r a e h room = cc
execute_opcode-Leaves constants Opcode.istore_2 r a e h room = cc
execute_opcode-Leaves constants Opcode.istore_3 r a e h room = cc
execute_opcode-Leaves constants Opcode.lstore_0 r a e h room = cc
execute_opcode-Leaves constants Opcode.lstore_1 r a e h room = cc
execute_opcode-Leaves constants Opcode.lstore_2 r a e h room = cc
execute_opcode-Leaves constants Opcode.lstore_3 r a e h room = cc
execute_opcode-Leaves constants Opcode.fstore_0 r a e h room = cc
execute_opcode-Leaves constants Opcode.fstore_1 r a e h room = cc
execute_opcode-Leaves constants Opcode.fstore_2 r a e h room = cc
execute_opcode-Leaves constants Opcode.fstore_3 r a e h room = cc
execute_opcode-Leaves constants Opcode.dstore_0 r a e h room = cc
execute_opcode-Leaves constants Opcode.dstore_1 r a e h room = cc
execute_opcode-Leaves constants Opcode.dstore_2 r a e h room = cc
execute_opcode-Leaves constants Opcode.dstore_3 r a e h room = cc
execute_opcode-Leaves constants Opcode.astore_0 r a e h room = cc
execute_opcode-Leaves constants Opcode.astore_1 r a e h room = cc
execute_opcode-Leaves constants Opcode.astore_2 r a e h room = cc
execute_opcode-Leaves constants Opcode.astore_3 r a e h room = cc
execute_opcode-Leaves constants Opcode.iastore r a e h room = array_store-Leaves r a integer_type h
execute_opcode-Leaves constants Opcode.lastore r a e h room = array_store-Leaves r a long_type h
execute_opcode-Leaves constants Opcode.fastore r a e h room = array_store-Leaves r a float_type h
execute_opcode-Leaves constants Opcode.dastore r a e h room = array_store-Leaves r a double_type h
execute_opcode-Leaves constants Opcode.aastore r a e h room = array_store-Leaves r a object_type h
execute_opcode-Leaves constants Opcode.bastore r a e h room = array_store-Leaves r a integer_type h
execute_opcode-Leaves constants Opcode.castore r a e h room = array_store-Leaves r a integer_type h
execute_opcode-Leaves constants Opcode.sastore r a e h room = array_store-Leaves r a integer_type h
execute_opcode-Leaves constants Opcode.pop r a e h room = cc
execute_opcode-Leaves constants Opcode.pop2 r a e h room = cc
execute_opcode-Leaves constants Opcode.dup r a e h room = cc
execute_opcode-Leaves constants Opcode.dup_x1 r a e h room = cc
execute_opcode-Leaves constants Opcode.dup_x2 r a e h room = cc
execute_opcode-Leaves constants Opcode.dup2 r a e h room = cc
execute_opcode-Leaves constants Opcode.dup2_x1 r a e h room = cc
execute_opcode-Leaves constants Opcode.dup2_x2 r a e h room = cc
execute_opcode-Leaves constants Opcode.swap r a e h room = cc
execute_opcode-Leaves constants Opcode.iadd r a e h room =
    binary_op-Leaves r a integer_type (omega arith) h room
execute_opcode-Leaves constants Opcode.ladd r a e h room =
    binary_op-Leaves r a long_type (omega arith) h room
execute_opcode-Leaves constants Opcode.fadd r a e h room =
    binary_op-Leaves r a float_type (omega arith) h room
execute_opcode-Leaves constants Opcode.dadd r a e h room =
    binary_op-Leaves r a double_type (omega arith) h room
execute_opcode-Leaves constants Opcode.isub r a e h room =
    binary_op-Leaves r a integer_type (omega arith) h room
execute_opcode-Leaves constants Opcode.lsub r a e h room =
    binary_op-Leaves r a long_type (omega arith) h room
execute_opcode-Leaves constants Opcode.fsub r a e h room =
    binary_op-Leaves r a float_type (omega arith) h room
execute_opcode-Leaves constants Opcode.dsub r a e h room =
    binary_op-Leaves r a double_type (omega arith) h room
execute_opcode-Leaves constants Opcode.imul r a e h room =
    binary_op-Leaves r a integer_type (omega arith) h room
execute_opcode-Leaves constants Opcode.lmul r a e h room =
    binary_op-Leaves r a long_type (omega arith) h room
execute_opcode-Leaves constants Opcode.fmul r a e h room =
    binary_op-Leaves r a float_type (omega arith) h room
execute_opcode-Leaves constants Opcode.dmul r a e h room =
    binary_op-Leaves r a double_type (omega arith) h room
execute_opcode-Leaves constants Opcode.idiv r a e h room =
    binary_op-Leaves r a integer_type (omega arith) h room
execute_opcode-Leaves constants Opcode.ldiv r a e h room =
    binary_op-Leaves r a long_type (omega arith) h room
execute_opcode-Leaves constants Opcode.fdiv r a e h room =
    binary_op-Leaves r a float_type (omega arith) h room
execute_opcode-Leaves constants Opcode.ddiv r a e h room =
    binary_op-Leaves r a double_type (omega arith) h room
execute_opcode-Leaves constants Opcode.irem r a e h room =
    binary_op-Leaves r a integer_type (omega arith) h room
execute_opcode-Leaves constants Opcode.lrem r a e h room =
    binary_op-Leaves r a long_type (omega arith) h room
execute_opcode-Leaves constants Opcode.frem r a e h room =
    binary_op-Leaves r a float_type (omega arith) h room
execute_opcode-Leaves constants Opcode.drem r a e h room =
    binary_op-Leaves r a double_type (omega arith) h room
execute_opcode-Leaves constants Opcode.ineg r a e h room = (a, refl, h)
execute_opcode-Leaves constants Opcode.lneg r a e h room = (a, refl, h)
execute_opcode-Leaves constants Opcode.fneg r a e h room = (a, refl, h)
execute_opcode-Leaves constants Opcode.dneg r a e h room = (a, refl, h)
execute_opcode-Leaves constants Opcode.ishl r a e h room =
    shift-Leaves r a integer_type (omega arith) h room
execute_opcode-Leaves constants Opcode.lshl r a e h room =
    shift-Leaves r a long_type (omega arith) h room
execute_opcode-Leaves constants Opcode.ishr r a e h room =
    shift-Leaves r a integer_type (omega arith) h room
execute_opcode-Leaves constants Opcode.lshr r a e h room =
    shift-Leaves r a long_type (omega arith) h room
execute_opcode-Leaves constants Opcode.iushr r a e h room =
    shift-Leaves r a integer_type (omega arith) h room
execute_opcode-Leaves constants Opcode.lushr r a e h room =
    shift-Leaves r a long_type (omega arith) h room
execute_opcode-Leaves constants Opcode.iand r a e h room =
    binary_op-Leaves r a integer_type (omega arith) h room
execute_opcode-Leaves constants Opcode.land r a e h room =
    binary_op-Leaves r a long_type (omega arith) h room
execute_opcode-Leaves constants Opcode.ior r a e h room =
    binary_op-Leaves r a integer_type (omega arith) h room
execute_opcode-Leaves constants Opcode.lor r a e h room =
    binary_op-Leaves r a long_type (omega arith) h room
execute_opcode-Leaves constants Opcode.ixor r a e h room =
    binary_op-Leaves r a integer_type (omega arith) h room
execute_opcode-Leaves constants Opcode.lxor r a e h room =
    binary_op-Leaves r a long_type (omega arith) h room
execute_opcode-Leaves constants Opcode.iinc r a e h room = cc
execute_opcode-Leaves constants Opcode.i2l r a e h room =
    pop_push-Leaves r a integer_type long_type (omega arith) h room
execute_opcode-Leaves constants Opcode.i2f r a e h room =
    pop_push-Leaves r a integer_type float_type (omega arith) h room
execute_opcode-Leaves constants Opcode.i2d r a e h room =
    pop_push-Leaves r a integer_type double_type (omega arith) h room
execute_opcode-Leaves constants Opcode.l2i r a e h room =
    pop_push-Leaves r a long_type integer_type (omega arith) h room
execute_opcode-Leaves constants Opcode.l2f r a e h room =
    pop_push-Leaves r a long_type float_type (omega arith) h room
execute_opcode-Leaves constants Opcode.l2d r a e h room =
    pop_push-Leaves r a long_type double_type (omega arith) h room
execute_opcode-Leaves constants Opcode.f2i r a e h room =
    pop_push-Leaves r a float_type integer_type (omega arith) h room
execute_opcode-Leaves constants Opcode.f2l r a e h room =
    pop_push-Leaves r a float_type long_type (omega arith) h room
execute_opcode-Leaves constants Opcode.f2d r a e h room =
    pop_push-Leaves r a float_type double_type (omega arith) h room
execute_opcode-Leaves constants Opcode.d2i r a e h room =
    pop_push-Leaves r a double_type integer_type (omega arith) h room
execute_opcode-Leaves constants Opcode.d2l r a e h room =
    pop_push-Leaves r a double_type long_type (omega arith) h room
execute_opcode-Leaves constants Opcode.d2f r a e h room =
    pop_push-Leaves r a double_type float_type (omega arith) h room
execute_opcode-Leaves constants Opcode.i2b r a e h room =
    pop_push-Leaves r a integer_type integer_type (omega arith) h room
execute_opcode-Leaves constants Opcode.i2c r a e h room =
    pop_push-Leaves r a integer_type integer_type (omega arith) h room
execute_opcode-Leaves constants Opcode.i2s r a e h room =
    pop_push-Leaves r a integer_type integer_type (omega arith) h room
execute_opcode-Leaves constants Opcode.lcmp r a e h room =
    compare-Leaves r a long_type integer_type (omega arith) h room
execute_opcode-Leaves constants Opcode.fcmpl r a e h room =
    compare-Leaves r a float_type integer_type (omega arith) h room
execute_opcode-Leaves constants Opcode.fcmpg r a e h room =
    compare-Leaves r a float_type integer_type (omega arith) h room
execute_opcode-Leaves constants Opcode.dcmpl r a e h room =
    compare-Leaves r a double_type integer_type (omega arith) h room
execute_opcode-Leaves constants Opcode.dcmpg r a e h room =
    compare-Leaves r a double_type integer_type (omega arith) h room
execute_opcode-Leaves constants Opcode.ifeq r a e h room = cc
execute_opcode-Leaves constants Opcode.ifne r a e h room = cc
execute_opcode-Leaves constants Opcode.iflt r a e h room = cc
execute_opcode-Leaves constants Opcode.ifge r a e h room = cc
execute_opcode-Leaves constants Opcode.ifgt r a e h room = cc
execute_opcode-Leaves constants Opcode.ifle r a e h room = cc
execute_opcode-Leaves constants Opcode.if_icmpeq r a e h room = cc
execute_opcode-Leaves constants Opcode.if_icmpne r a e h room = cc
execute_opcode-Leaves constants Opcode.if_icmplt r a e h room = cc
execute_opcode-Leaves constants Opcode.if_icmpge r a e h room = cc
execute_opcode-Leaves constants Opcode.if_icmpgt r a e h room = cc
execute_opcode-Leaves constants Opcode.if_icmple r a e h room = cc
execute_opcode-Leaves constants Opcode.if_acmpeq r a e h room = cc
execute_opcode-Leaves constants Opcode.if_acmpne r a e h room = cc
execute_opcode-Leaves constants Opcode.goto r a e h room = cc
execute_opcode-Leaves constants Opcode.jsr r a e h room = cc
execute_opcode-Leaves constants Opcode.ret r a e h room = cc
execute_opcode-Leaves constants Opcode.tableswitch r a e h room = cc
execute_opcode-Leaves constants Opcode.lookupswitch r a e h room = cc
execute_opcode-Leaves constants Opcode.ireturn r a e h room = cc
execute_opcode-Leaves constants Opcode.lreturn r a e h room = cc
execute_opcode-Leaves constants Opcode.freturn r a e h room = cc
execute_opcode-Leaves constants Opcode.dreturn r a e h room = cc
execute_opcode-Leaves constants Opcode.areturn r a e h room = cc
execute_opcode-Leaves constants Opcode.return r a e h room = cc
execute_opcode-Leaves constants Opcode.getstatic r a e h room = cc
execute_opcode-Leaves constants Opcode.putstatic r a e h room = cc
execute_opcode-Leaves constants Opcode.getfield r a e h room = cc
execute_opcode-Leaves constants Opcode.putfield r a e h room = cc
execute_opcode-Leaves constants Opcode.invokevirtual r a e h room = cc
execute_opcode-Leaves constants Opcode.invokespecial r a e h room = cc
execute_opcode-Leaves constants Opcode.invokestatic r a e h room = cc
execute_opcode-Leaves constants Opcode.invokeinterface r a e h room = cc
execute_opcode-Leaves constants Opcode.invokedynamic r a e h room = cc
execute_opcode-Leaves constants Opcode.new r a e h room = cc
execute_opcode-Leaves constants Opcode.newarray r a e h room = cc
execute_opcode-Leaves constants Opcode.anewarray r a e h room = cc
execute_opcode-Leaves constants Opcode.arraylength r a e h room =
    pop_push-Leaves r a object_type integer_type (omega arith) h room
execute_opcode-Leaves constants Opcode.athrow r a e h room = cc
execute_opcode-Leaves constants Opcode.checkcast r a e h room = cc
execute_opcode-Leaves constants Opcode.instanceof r a e h room = cc
execute_opcode-Leaves constants Opcode.monitorenter r a e h room = pop-Leaves r a _ h
execute_opcode-Leaves constants Opcode.monitorexit r a e h room = pop-Leaves r a _ h
execute_opcode-Leaves constants Opcode.wide r a e h room = cc
execute_opcode-Leaves constants Opcode.multianewarray r a e h room = cc
execute_opcode-Leaves constants Opcode.ifnull r a e h room = cc
execute_opcode-Leaves constants Opcode.ifnonnull r a e h room = cc
execute_opcode-Leaves constants Opcode.goto_w r a e h room = cc
execute_opcode-Leaves constants Opcode.jsr_w r a e h room = cc
execute_opcode-Leaves constants Opcode.breakpoint r a e h room = (a, refl, h)
execute_opcode-Leaves constants Opcode.impdep1 r a e h room = (a, refl, h)
execute_opcode-Leaves constants Opcode.impdep2 r a e h room = (a, refl, h)
