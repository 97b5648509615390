-- ===== src/GcRoots/Execute.antt =====
-- `AbstractInterpreter::execute` of src/vm/GcRoots.cpp: the cases of its switch.
use geevm.Prelude.{◌-◌, true, false, Result, ok, fault, panic, unreachable}
use geevm.Opcode.{Opcode}
use geevm.StackMap.{integer_type, float_type, double_type, long_type, null_type, object_type}
use geevm.StackMap.{uninitialized_type}
use geevm.GcRoots.{AbstractInterpreter, Constants, push, pop, pop_push, array_load, array_store}
use geevm.GcRoots.{binary_op, shift, store, invoke, drop_slots}
use geevm.GcRoots.StackOps.{dup, dup_x1, dup_x2, dup2, dup2_x1, dup2_x2, swap}
use geevm.GcRoots.Instructions.{read_push_u1, read_push_u2, read_store, read_pop, read_pop_pop}
use geevm.GcRoots.Instructions.{read_pop_push, ldc_u1, ldc_u2, iinc, get_static, put_static}
use geevm.GcRoots.Instructions.{get_field, put_field, newarray, anewarray, multianewarray, wide}
use geevm.GcRoots.Instructions.{compare}

-- The switch; `a` stands behind the opcode.
unfoldable pub execute_opcode :
    Constants → Opcode → AbstractInterpreter → Result AbstractInterpreter
execute_opcode constants Opcode.nop a = ok a
execute_opcode constants Opcode.aconst_null a = push null_type a
execute_opcode constants Opcode.iconst_m1 a = push integer_type a
execute_opcode constants Opcode.iconst_0 a = push integer_type a
execute_opcode constants Opcode.iconst_1 a = push integer_type a
execute_opcode constants Opcode.iconst_2 a = push integer_type a
execute_opcode constants Opcode.iconst_3 a = push integer_type a
execute_opcode constants Opcode.iconst_4 a = push integer_type a
execute_opcode constants Opcode.iconst_5 a = push integer_type a
execute_opcode constants Opcode.lconst_0 a = push long_type a
execute_opcode constants Opcode.lconst_1 a = push long_type a
execute_opcode constants Opcode.fconst_0 a = push float_type a
execute_opcode constants Opcode.fconst_1 a = push float_type a
execute_opcode constants Opcode.fconst_2 a = push float_type a
execute_opcode constants Opcode.dconst_0 a = push double_type a
execute_opcode constants Opcode.dconst_1 a = push double_type a
execute_opcode constants Opcode.bipush a = read_push_u1 integer_type a
execute_opcode constants Opcode.sipush a = read_push_u2 integer_type a
execute_opcode constants Opcode.ldc a = ldc_u1 constants a
execute_opcode constants Opcode.ldc_w a = ldc_u2 constants a
execute_opcode constants Opcode.ldc2_w a = ldc_u2 constants a
execute_opcode constants Opcode.iload a = read_push_u1 integer_type a
execute_opcode constants Opcode.lload a = read_push_u1 long_type a
execute_opcode constants Opcode.fload a = read_push_u1 float_type a
execute_opcode constants Opcode.dload a = read_push_u1 double_type a
execute_opcode constants Opcode.aload a = read_push_u1 object_type a
execute_opcode constants Opcode.iload_0 a = push integer_type a
execute_opcode constants Opcode.iload_1 a = push integer_type a
execute_opcode constants Opcode.iload_2 a = push integer_type a
execute_opcode constants Opcode.iload_3 a = push integer_type a
execute_opcode constants Opcode.lload_0 a = push long_type a
execute_opcode constants Opcode.lload_1 a = push long_type a
execute_opcode constants Opcode.lload_2 a = push long_type a
execute_opcode constants Opcode.lload_3 a = push long_type a
execute_opcode constants Opcode.fload_0 a = push float_type a
execute_opcode constants Opcode.fload_1 a = push float_type a
execute_opcode constants Opcode.fload_2 a = push float_type a
execute_opcode constants Opcode.fload_3 a = push float_type a
execute_opcode constants Opcode.dload_0 a = push double_type a
execute_opcode constants Opcode.dload_1 a = push double_type a
execute_opcode constants Opcode.dload_2 a = push double_type a
execute_opcode constants Opcode.dload_3 a = push double_type a
execute_opcode constants Opcode.aload_0 a = push object_type a
execute_opcode constants Opcode.aload_1 a = push object_type a
execute_opcode constants Opcode.aload_2 a = push object_type a
execute_opcode constants Opcode.aload_3 a = push object_type a
execute_opcode constants Opcode.iaload a = array_load integer_type a
execute_opcode constants Opcode.laload a = array_load long_type a
execute_opcode constants Opcode.faload a = array_load float_type a
execute_opcode constants Opcode.daload a = array_load double_type a
execute_opcode constants Opcode.aaload a = array_load object_type a
execute_opcode constants Opcode.baload a = array_load integer_type a
execute_opcode constants Opcode.caload a = array_load integer_type a
execute_opcode constants Opcode.saload a = array_load integer_type a
execute_opcode constants Opcode.istore a = read_store integer_type a
execute_opcode constants Opcode.lstore a = read_store long_type a
execute_opcode constants Opcode.fstore a = read_store float_type a
execute_opcode constants Opcode.dstore a = read_store double_type a
execute_opcode constants Opcode.astore a = read_store object_type a
execute_opcode constants Opcode.istore_0 a = store 0 integer_type a
execute_opcode constants Opcode.istore_1 a = store 1 integer_type a
execute_opcode constants Opcode.istore_2 a = store 2 integer_type a
execute_opcode constants Opcode.istore_3 a = store 3 integer_type a
execute_opcode constants Opcode.lstore_0 a = store 0 long_type a
execute_opcode constants Opcode.lstore_1 a = store 1 long_type a
execute_opcode constants Opcode.lstore_2 a = store 2 long_type a
execute_opcode constants Opcode.lstore_3 a = store 3 long_type a
execute_opcode constants Opcode.fstore_0 a = store 0 float_type a
execute_opcode constants Opcode.fstore_1 a = store 1 float_type a
execute_opcode constants Opcode.fstore_2 a = store 2 float_type a
execute_opcode constants Opcode.fstore_3 a = store 3 float_type a
execute_opcode constants Opcode.dstore_0 a = store 0 double_type a
execute_opcode constants Opcode.dstore_1 a = store 1 double_type a
execute_opcode constants Opcode.dstore_2 a = store 2 double_type a
execute_opcode constants Opcode.dstore_3 a = store 3 double_type a
execute_opcode constants Opcode.astore_0 a = store 0 object_type a
execute_opcode constants Opcode.astore_1 a = store 1 object_type a
execute_opcode constants Opcode.astore_2 a = store 2 object_type a
execute_opcode constants Opcode.astore_3 a = store 3 object_type a
execute_opcode constants Opcode.iastore a = array_store integer_type a
execute_opcode constants Opcode.lastore a = array_store long_type a
execute_opcode constants Opcode.fastore a = array_store float_type a
execute_opcode constants Opcode.dastore a = array_store double_type a
execute_opcode constants Opcode.aastore a = array_store object_type a
execute_opcode constants Opcode.bastore a = array_store integer_type a
execute_opcode constants Opcode.castore a = array_store integer_type a
execute_opcode constants Opcode.sastore a = array_store integer_type a
execute_opcode constants Opcode.pop a = ok (drop_slots 1 a)
execute_opcode constants Opcode.pop2 a = ok (drop_slots 1 (drop_slots 1 a))
execute_opcode constants Opcode.dup a = dup a
execute_opcode constants Opcode.dup_x1 a = dup_x1 a
execute_opcode constants Opcode.dup_x2 a = dup_x2 a
execute_opcode constants Opcode.dup2 a = dup2 a
execute_opcode constants Opcode.dup2_x1 a = dup2_x1 a
execute_opcode constants Opcode.dup2_x2 a = dup2_x2 a
execute_opcode constants Opcode.swap a = swap a
execute_opcode constants Opcode.iadd a = binary_op integer_type a
execute_opcode constants Opcode.ladd a = binary_op long_type a
execute_opcode constants Opcode.fadd a = binary_op float_type a
execute_opcode constants Opcode.dadd a = binary_op double_type a
execute_opcode constants Opcode.isub a = binary_op integer_type a
execute_opcode constants Opcode.lsub a = binary_op long_type a
execute_opcode constants Opcode.fsub a = binary_op float_type a
execute_opcode constants Opcode.dsub a = binary_op double_type a
execute_opcode constants Opcode.imul a = binary_op integer_type a
execute_opcode constants Opcode.lmul a = binary_op long_type a
execute_opcode constants Opcode.fmul a = binary_op float_type a
execute_opcode constants Opcode.dmul a = binary_op double_type a
execute_opcode constants Opcode.idiv a = binary_op integer_type a
execute_opcode constants Opcode.ldiv a = binary_op long_type a
execute_opcode constants Opcode.fdiv a = binary_op float_type a
execute_opcode constants Opcode.ddiv a = binary_op double_type a
execute_opcode constants Opcode.irem a = binary_op integer_type a
execute_opcode constants Opcode.lrem a = binary_op long_type a
execute_opcode constants Opcode.frem a = binary_op float_type a
execute_opcode constants Opcode.drem a = binary_op double_type a
execute_opcode constants Opcode.ineg a = ok a
execute_opcode constants Opcode.lneg a = ok a
execute_opcode constants Opcode.fneg a = ok a
execute_opcode constants Opcode.dneg a = ok a
execute_opcode constants Opcode.ishl a = shift integer_type a
execute_opcode constants Opcode.lshl a = shift long_type a
execute_opcode constants Opcode.ishr a = shift integer_type a
execute_opcode constants Opcode.lshr a = shift long_type a
execute_opcode constants Opcode.iushr a = shift integer_type a
execute_opcode constants Opcode.lushr a = shift long_type a
execute_opcode constants Opcode.iand a = binary_op integer_type a
execute_opcode constants Opcode.land a = binary_op long_type a
execute_opcode constants Opcode.ior a = binary_op integer_type a
execute_opcode constants Opcode.lor a = binary_op long_type a
execute_opcode constants Opcode.ixor a = binary_op integer_type a
execute_opcode constants Opcode.lxor a = binary_op long_type a
execute_opcode constants Opcode.iinc a = iinc a
execute_opcode constants Opcode.i2l a = pop_push integer_type long_type a
execute_opcode constants Opcode.i2f a = pop_push integer_type float_type a
execute_opcode constants Opcode.i2d a = pop_push integer_type double_type a
execute_opcode constants Opcode.l2i a = pop_push long_type integer_type a
execute_opcode constants Opcode.l2f a = pop_push long_type float_type a
execute_opcode constants Opcode.l2d a = pop_push long_type double_type a
execute_opcode constants Opcode.f2i a = pop_push float_type integer_type a
execute_opcode constants Opcode.f2l a = pop_push float_type long_type a
execute_opcode constants Opcode.f2d a = pop_push float_type double_type a
execute_opcode constants Opcode.d2i a = pop_push double_type integer_type a
execute_opcode constants Opcode.d2l a = pop_push double_type long_type a
execute_opcode constants Opcode.d2f a = pop_push double_type float_type a
execute_opcode constants Opcode.i2b a = pop_push integer_type integer_type a
execute_opcode constants Opcode.i2c a = pop_push integer_type integer_type a
execute_opcode constants Opcode.i2s a = pop_push integer_type integer_type a
execute_opcode constants Opcode.lcmp a = compare long_type integer_type a
execute_opcode constants Opcode.fcmpl a = compare float_type integer_type a
execute_opcode constants Opcode.fcmpg a = compare float_type integer_type a
execute_opcode constants Opcode.dcmpl a = compare double_type integer_type a
execute_opcode constants Opcode.dcmpg a = compare double_type integer_type a
execute_opcode constants Opcode.ifeq a = read_pop integer_type a
execute_opcode constants Opcode.ifne a = read_pop integer_type a
execute_opcode constants Opcode.iflt a = read_pop integer_type a
execute_opcode constants Opcode.ifge a = read_pop integer_type a
execute_opcode constants Opcode.ifgt a = read_pop integer_type a
execute_opcode constants Opcode.ifle a = read_pop integer_type a
execute_opcode constants Opcode.if_icmpeq a = read_pop_pop integer_type integer_type a
execute_opcode constants Opcode.if_icmpne a = read_pop_pop integer_type integer_type a
execute_opcode constants Opcode.if_icmplt a = read_pop_pop integer_type integer_type a
execute_opcode constants Opcode.if_icmpge a = read_pop_pop integer_type integer_type a
execute_opcode constants Opcode.if_icmpgt a = read_pop_pop integer_type integer_type a
execute_opcode constants Opcode.if_icmple a = read_pop_pop integer_type integer_type a
execute_opcode constants Opcode.if_acmpeq a = read_pop_pop object_type object_type a
execute_opcode constants Opcode.if_acmpne a = read_pop_pop object_type object_type a
execute_opcode constants Opcode.goto a = fault unreachable
execute_opcode constants Opcode.jsr a = fault unreachable
execute_opcode constants Opcode.ret a = fault unreachable
execute_opcode constants Opcode.tableswitch a = fault unreachable
execute_opcode constants Opcode.lookupswitch a = fault unreachable
execute_opcode constants Opcode.ireturn a = fault unreachable
execute_opcode constants Opcode.lreturn a = fault unreachable
execute_opcode constants Opcode.freturn a = fault unreachable
execute_opcode constants Opcode.dreturn a = fault unreachable
execute_opcode constants Opcode.areturn a = fault unreachable
execute_opcode constants Opcode.return a = fault unreachable
execute_opcode constants Opcode.getstatic a = get_static constants a
execute_opcode constants Opcode.putstatic a = put_static constants a
execute_opcode constants Opcode.getfield a = get_field constants a
execute_opcode constants Opcode.putfield a = put_field constants a
execute_opcode constants Opcode.invokevirtual a = invoke false constants a
execute_opcode constants Opcode.invokespecial a = invoke false constants a
execute_opcode constants Opcode.invokestatic a = invoke false constants a
execute_opcode constants Opcode.invokeinterface a = invoke true constants a
execute_opcode constants Opcode.invokedynamic a = fault panic
execute_opcode constants Opcode.new a = read_push_u2 uninitialized_type a
execute_opcode constants Opcode.newarray a = newarray (a.code.pos - 1) a
execute_opcode constants Opcode.anewarray a = anewarray (a.code.pos - 1) a
execute_opcode constants Opcode.arraylength a = pop_push object_type integer_type a
execute_opcode constants Opcode.athrow a = fault panic
execute_opcode constants Opcode.checkcast a = read_pop_push object_type object_type a
execute_opcode constants Opcode.instanceof a = read_pop_push object_type integer_type a
execute_opcode constants Opcode.monitorenter a = pop object_type a
execute_opcode constants Opcode.monitorexit a = pop object_type a
execute_opcode constants Opcode.wide a = wide a
execute_opcode constants Opcode.multianewarray a = multianewarray a
execute_opcode constants Opcode.ifnull a = read_pop object_type a
execute_opcode constants Opcode.ifnonnull a = read_pop object_type a
execute_opcode constants Opcode.goto_w a = fault unreachable
execute_opcode constants Opcode.jsr_w a = fault unreachable
execute_opcode constants Opcode.breakpoint a = ok a
execute_opcode constants Opcode.impdep1 a = ok a
execute_opcode constants Opcode.impdep2 a = ok a
