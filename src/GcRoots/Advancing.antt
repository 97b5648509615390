-- ===== src/GcRoots/Advancing.antt =====
-- How far the members of `AbstractInterpreter` of src/vm/GcRoots.cpp move in the code.
pub mod Members
pub mod Helpers
use geevm.Prelude.{ℕ, ◌+◌, ◌≡◌, ◌≢◌, refl, ok, fault}
use geevm.Opcode.{Opcode}
use geevm.GcRoots.{AbstractInterpreter, Constants, drop_slots}
use geevm.GcRoots.Width.{bytes_consumed_by_opcode}
use geevm.GcRoots.Execute.{execute_opcode}
use geevm.GcRoots.Advancing.Members.{Advances, Advances_trans, Keeps-refl, stopped, read_u1-then}
use geevm.GcRoots.Advancing.Members.{read_u2-then, push-Keeps, pop-Keeps, drop_slots-Keeps}
use geevm.GcRoots.Advancing.Members.{then_Keeps}
use geevm.GcRoots.Advancing.Helpers.{store-Keeps, pop_pop-Keeps, pop_push-Keeps, compare-Keeps}
use geevm.GcRoots.Advancing.Helpers.{array_load-Keeps, array_store-Keeps, binary_op-Keeps}
use geevm.GcRoots.Advancing.Helpers.{shift-Keeps, ldc-Keeps, dup-Keeps, dup_x1-Keeps, dup_x2-Keeps}
use geevm.GcRoots.Advancing.Helpers.{dup2-Keeps, dup2_x1-Keeps, dup2_x2-Keeps, swap-Keeps}
use geevm.GcRoots.Advancing.Helpers.{iinc-Advances, get_static-Advances, put_static-Advances}
use geevm.GcRoots.Advancing.Helpers.{get_field-Advances, put_field-Advances, newarray-Advances}
use geevm.GcRoots.Advancing.Helpers.{anewarray-Advances, multianewarray-Advances, invoke-Advances}
use geevm.GcRoots.Advancing.Helpers.{invoke_interface-Advances}

-- The interpretation of an instruction other than WIDE that returns stands behind the bytes of that
-- instruction, as many as `bytes_consumed_by_opcode` says, and has not moved the end.
pub execute_opcode-Advances :
    (constants : Constants) (opcode : Opcode) (a : AbstractInterpreter)
    → opcode ≢ Opcode.wide
    → Advances (bytes_consumed_by_opcode opcode) a (execute_opcode constants opcode a)
unfolding execute_opcode bytes_consumed_by_opcode
execute_opcode-Advances constants Opcode.nop a ne = Keeps-refl a
execute_opcode-Advances constants Opcode.aconst_null a ne = push-Keeps _ a
execute_opcode-Advances constants Opcode.iconst_m1 a ne = push-Keeps _ a
execute_opcode-Advances constants Opcode.iconst_0 a ne = push-Keeps _ a
execute_opcode-Advances constants Opcode.iconst_1 a ne = push-Keeps _ a
execute_opcode-Advances constants Opcode.iconst_2 a ne = push-Keeps _ a
execute_opcode-Advances constants Opcode.iconst_3 a ne = push-Keeps _ a
execute_opcode-Advances constants Opcode.iconst_4 a ne = push-Keeps _ a
execute_opcode-Advances constants Opcode.iconst_5 a ne = push-Keeps _ a
execute_opcode-Advances constants Opcode.lconst_0 a ne = push-Keeps _ a
execute_opcode-Advances constants Opcode.lconst_1 a ne = push-Keeps _ a
execute_opcode-Advances constants Opcode.fconst_0 a ne = push-Keeps _ a
execute_opcode-Advances constants Opcode.fconst_1 a ne = push-Keeps _ a
execute_opcode-Advances constants Opcode.fconst_2 a ne = push-Keeps _ a
execute_opcode-Advances constants Opcode.dconst_0 a ne = push-Keeps _ a
execute_opcode-Advances constants Opcode.dconst_1 a ne = push-Keeps _ a
execute_opcode-Advances constants Opcode.bipush a ne = read_u1-then a _ λ v b. push-Keeps _ b
execute_opcode-Advances constants Opcode.sipush a ne = read_u2-then a _ λ v b. push-Keeps _ b
execute_opcode-Advances constants Opcode.ldc a ne = read_u1-then a _ λ v b. ldc-Keeps constants v b
execute_opcode-Advances constants Opcode.ldc_w a ne =
    read_u2-then a _ λ v b. ldc-Keeps constants v b
execute_opcode-Advances constants Opcode.ldc2_w a ne =
    read_u2-then a _ λ v b. ldc-Keeps constants v b
execute_opcode-Advances constants Opcode.iload a ne = read_u1-then a _ λ v b. push-Keeps _ b
execute_opcode-Advances constants Opcode.lload a ne = read_u1-then a _ λ v b. push-Keeps _ b
execute_opcode-Advances constants Opcode.fload a ne = read_u1-then a _ λ v b. push-Keeps _ b
execute_opcode-Advances constants Opcode.dload a ne = read_u1-then a _ λ v b. push-Keeps _ b
execute_opcode-Advances constants Opcode.aload a ne = read_u1-then a _ λ v b. push-Keeps _ b
execute_opcode-Advances constants Opcode.iload_0 a ne = push-Keeps _ a
execute_opcode-Advances constants Opcode.iload_1 a ne = push-Keeps _ a
execute_opcode-Advances constants Opcode.iload_2 a ne = push-Keeps _ a
execute_opcode-Advances constants Opcode.iload_3 a ne = push-Keeps _ a
execute_opcode-Advances constants Opcode.lload_0 a ne = push-Keeps _ a
execute_opcode-Advances constants Opcode.lload_1 a ne = push-Keeps _ a
execute_opcode-Advances constants Opcode.lload_2 a ne = push-Keeps _ a
execute_opcode-Advances constants Opcode.lload_3 a ne = push-Keeps _ a
execute_opcode-Advances constants Opcode.fload_0 a ne = push-Keeps _ a
execute_opcode-Advances constants Opcode.fload_1 a ne = push-Keeps _ a
execute_opcode-Advances constants Opcode.fload_2 a ne = push-Keeps _ a
execute_opcode-Advances constants Opcode.fload_3 a ne = push-Keeps _ a
execute_opcode-Advances constants Opcode.dload_0 a ne = push-Keeps _ a
execute_opcode-Advances constants Opcode.dload_1 a ne = push-Keeps _ a
execute_opcode-Advances constants Opcode.dload_2 a ne = push-Keeps _ a
execute_opcode-Advances constants Opcode.dload_3 a ne = push-Keeps _ a
execute_opcode-Advances constants Opcode.aload_0 a ne = push-Keeps _ a
execute_opcode-Advances constants Opcode.aload_1 a ne = push-Keeps _ a
execute_opcode-Advances constants Opcode.aload_2 a ne = push-Keeps _ a
execute_opcode-Advances constants Opcode.aload_3 a ne = push-Keeps _ a
execute_opcode-Advances constants Opcode.iaload a ne = array_load-Keeps _ a
execute_opcode-Advances constants Opcode.laload a ne = array_load-Keeps _ a
execute_opcode-Advances constants Opcode.faload a ne = array_load-Keeps _ a
execute_opcode-Advances constants Opcode.daload a ne = array_load-Keeps _ a
execute_opcode-Advances constants Opcode.aaload a ne = array_load-Keeps _ a
execute_opcode-Advances constants Opcode.baload a ne = array_load-Keeps _ a
execute_opcode-Advances constants Opcode.caload a ne = array_load-Keeps _ a
execute_opcode-Advances constants Opcode.saload a ne = array_load-Keeps _ a
execute_opcode-Advances constants Opcode.istore a ne = read_u1-then a _ λ v b. store-Keeps v _ b
execute_opcode-Advances constants Opcode.lstore a ne = read_u1-then a _ λ v b. store-Keeps v _ b
execute_opcode-Advances constants Opcode.fstore a ne = read_u1-then a _ λ v b. store-Keeps v _ b
execute_opcode-Advances constants Opcode.dstore a ne = read_u1-then a _ λ v b. store-Keeps v _ b
execute_opcode-Advances constants Opcode.astore a ne = read_u1-then a _ λ v b. store-Keeps v _ b
execute_opcode-Advances constants Opcode.istore_0 a ne = store-Keeps _ _ a
execute_opcode-Advances constants Opcode.istore_1 a ne = store-Keeps _ _ a
execute_opcode-Advances constants Opcode.istore_2 a ne = store-Keeps _ _ a
execute_opcode-Advances constants Opcode.istore_3 a ne = store-Keeps _ _ a
execute_opcode-Advances constants Opcode.lstore_0 a ne = store-Keeps _ _ a
execute_opcode-Advances constants Opcode.lstore_1 a ne = store-Keeps _ _ a
execute_opcode-Advances constants Opcode.lstore_2 a ne = store-Keeps _ _ a
execute_opcode-Advances constants Opcode.lstore_3 a ne = store-Keeps _ _ a
execute_opcode-Advances constants Opcode.fstore_0 a ne = store-Keeps _ _ a
execute_opcode-Advances constants Opcode.fstore_1 a ne = store-Keeps _ _ a
execute_opcode-Advances constants Opcode.fstore_2 a ne = store-Keeps _ _ a
execute_opcode-Advances constants Opcode.fstore_3 a ne = store-Keeps _ _ a
execute_opcode-Advances constants Opcode.dstore_0 a ne = store-Keeps _ _ a
execute_opcode-Advances constants Opcode.dstore_1 a ne = store-Keeps _ _ a
execute_opcode-Advances constants Opcode.dstore_2 a ne = store-Keeps _ _ a
execute_opcode-Advances constants Opcode.dstore_3 a ne = store-Keeps _ _ a
execute_opcode-Advances constants Opcode.astore_0 a ne = store-Keeps _ _ a
execute_opcode-Advances constants Opcode.astore_1 a ne = store-Keeps _ _ a
execute_opcode-Advances constants Opcode.astore_2 a ne = store-Keeps _ _ a
execute_opcode-Advances constants Opcode.astore_3 a ne = store-Keeps _ _ a
execute_opcode-Advances constants Opcode.iastore a ne = array_store-Keeps _ a
execute_opcode-Advances constants Opcode.lastore a ne = array_store-Keeps _ a
execute_opcode-Advances constants Opcode.fastore a ne = array_store-Keeps _ a
execute_opcode-Advances constants Opcode.dastore a ne = array_store-Keeps _ a
execute_opcode-Advances constants Opcode.aastore a ne = array_store-Keeps _ a
execute_opcode-Advances constants Opcode.bastore a ne = array_store-Keeps _ a
execute_opcode-Advances constants Opcode.castore a ne = array_store-Keeps _ a
execute_opcode-Advances constants Opcode.sastore a ne = array_store-Keeps _ a
execute_opcode-Advances constants Opcode.pop a ne = drop_slots-Keeps _ a
execute_opcode-Advances constants Opcode.pop2 a ne =
    Advances_trans {m = 0} {n = 0} (drop_slots-Keeps 1 a) (drop_slots-Keeps 1 _)
execute_opcode-Advances constants Opcode.dup a ne = dup-Keeps a
execute_opcode-Advances constants Opcode.dup_x1 a ne = dup_x1-Keeps a
execute_opcode-Advances constants Opcode.dup_x2 a ne = dup_x2-Keeps a
execute_opcode-Advances constants Opcode.dup2 a ne = dup2-Keeps a
execute_opcode-Advances constants Opcode.dup2_x1 a ne = dup2_x1-Keeps a
execute_opcode-Advances constants Opcode.dup2_x2 a ne = dup2_x2-Keeps a
execute_opcode-Advances constants Opcode.swap a ne = swap-Keeps a
execute_opcode-Advances constants Opcode.iadd a ne = binary_op-Keeps _ a
execute_opcode-Advances constants Opcode.ladd a ne = binary_op-Keeps _ a
execute_opcode-Advances constants Opcode.fadd a ne = binary_op-Keeps _ a
execute_opcode-Advances constants Opcode.dadd a ne = binary_op-Keeps _ a
execute_opcode-Advances constants Opcode.isub a ne = binary_op-Keeps _ a
execute_opcode-Advances constants Opcode.lsub a ne = binary_op-Keeps _ a
execute_opcode-Advances constants Opcode.fsub a ne = binary_op-Keeps _ a
execute_opcode-Advances constants Opcode.dsub a ne = binary_op-Keeps _ a
execute_opcode-Advances constants Opcode.imul a ne = binary_op-Keeps _ a
execute_opcode-Advances constants Opcode.lmul a ne = binary_op-Keeps _ a
execute_opcode-Advances constants Opcode.fmul a ne = binary_op-Keeps _ a
execute_opcode-Advances constants Opcode.dmul a ne = binary_op-Keeps _ a
execute_opcode-Advances constants Opcode.idiv a ne = binary_op-Keeps _ a
execute_opcode-Advances constants Opcode.ldiv a ne = binary_op-Keeps _ a
execute_opcode-Advances constants Opcode.fdiv a ne = binary_op-Keeps _ a
execute_opcode-Advances constants Opcode.ddiv a ne = binary_op-Keeps _ a
execute_opcode-Advances constants Opcode.irem a ne = binary_op-Keeps _ a
execute_opcode-Advances constants Opcode.lrem a ne = binary_op-Keeps _ a
execute_opcode-Advances constants Opcode.frem a ne = binary_op-Keeps _ a
execute_opcode-Advances constants Opcode.drem a ne = binary_op-Keeps _ a
execute_opcode-Advances constants Opcode.ineg a ne = Keeps-refl a
execute_opcode-Advances constants Opcode.lneg a ne = Keeps-refl a
execute_opcode-Advances constants Opcode.fneg a ne = Keeps-refl a
execute_opcode-Advances constants Opcode.dneg a ne = Keeps-refl a
execute_opcode-Advances constants Opcode.ishl a ne = shift-Keeps _ a
execute_opcode-Advances constants Opcode.lshl a ne = shift-Keeps _ a
execute_opcode-Advances constants Opcode.ishr a ne = shift-Keeps _ a
execute_opcode-Advances constants Opcode.lshr a ne = shift-Keeps _ a
execute_opcode-Advances constants Opcode.iushr a ne = shift-Keeps _ a
execute_opcode-Advances constants Opcode.lushr a ne = shift-Keeps _ a
execute_opcode-Advances constants Opcode.iand a ne = binary_op-Keeps _ a
execute_opcode-Advances constants Opcode.land a ne = binary_op-Keeps _ a
execute_opcode-Advances constants Opcode.ior a ne = binary_op-Keeps _ a
execute_opcode-Advances constants Opcode.lor a ne = binary_op-Keeps _ a
execute_opcode-Advances constants Opcode.ixor a ne = binary_op-Keeps _ a
execute_opcode-Advances constants Opcode.lxor a ne = binary_op-Keeps _ a
execute_opcode-Advances constants Opcode.iinc a ne = iinc-Advances a
execute_opcode-Advances constants Opcode.i2l a ne = pop_push-Keeps _ _ a
execute_opcode-Advances constants Opcode.i2f a ne = pop_push-Keeps _ _ a
execute_opcode-Advances constants Opcode.i2d a ne = pop_push-Keeps _ _ a
execute_opcode-Advances constants Opcode.l2i a ne = pop_push-Keeps _ _ a
execute_opcode-Advances constants Opcode.l2f a ne = pop_push-Keeps _ _ a
execute_opcode-Advances constants Opcode.l2d a ne = pop_push-Keeps _ _ a
execute_opcode-Advances constants Opcode.f2i a ne = pop_push-Keeps _ _ a
execute_opcode-Advances constants Opcode.f2l a ne = pop_push-Keeps _ _ a
execute_opcode-Advances constants Opcode.f2d a ne = pop_push-Keeps _ _ a
execute_opcode-Advances constants Opcode.d2i a ne = pop_push-Keeps _ _ a
execute_opcode-Advances constants Opcode.d2l a ne = pop_push-Keeps _ _ a
execute_opcode-Advances constants Opcode.d2f a ne = pop_push-Keeps _ _ a
execute_opcode-Advances constants Opcode.i2b a ne = pop_push-Keeps _ _ a
execute_opcode-Advances constants Opcode.i2c a ne = pop_push-Keeps _ _ a
execute_opcode-Advances constants Opcode.i2s a ne = pop_push-Keeps _ _ a
execute_opcode-Advances constants Opcode.lcmp a ne = compare-Keeps _ _ a
execute_opcode-Advances constants Opcode.fcmpl a ne = compare-Keeps _ _ a
execute_opcode-Advances constants Opcode.fcmpg a ne = compare-Keeps _ _ a
execute_opcode-Advances constants Opcode.dcmpl a ne = compare-Keeps _ _ a
execute_opcode-Advances constants Opcode.dcmpg a ne = compare-Keeps _ _ a
execute_opcode-Advances constants Opcode.ifeq a ne = read_u2-then a _ λ v b. pop-Keeps _ b
execute_opcode-Advances constants Opcode.ifne a ne = read_u2-then a _ λ v b. pop-Keeps _ b
execute_opcode-Advances constants Opcode.iflt a ne = read_u2-then a _ λ v b. pop-Keeps _ b
execute_opcode-Advances constants Opcode.ifge a ne = read_u2-then a _ λ v b. pop-Keeps _ b
execute_opcode-Advances constants Opcode.ifgt a ne = read_u2-then a _ λ v b. pop-Keeps _ b
execute_opcode-Advances constants Opcode.ifle a ne = read_u2-then a _ λ v b. pop-Keeps _ b
execute_opcode-Advances constants Opcode.if_icmpeq a ne =
    read_u2-then a _ λ v b. pop_pop-Keeps _ _ b
execute_opcode-Advances constants Opcode.if_icmpne a ne =
    read_u2-then a _ λ v b. pop_pop-Keeps _ _ b
execute_opcode-Advances constants Opcode.if_icmplt a ne =
    read_u2-then a _ λ v b. pop_pop-Keeps _ _ b
execute_opcode-Advances constants Opcode.if_icmpge a ne =
    read_u2-then a _ λ v b. pop_pop-Keeps _ _ b
execute_opcode-Advances constants Opcode.if_icmpgt a ne =
    read_u2-then a _ λ v b. pop_pop-Keeps _ _ b
execute_opcode-Advances constants Opcode.if_icmple a ne =
    read_u2-then a _ λ v b. pop_pop-Keeps _ _ b
execute_opcode-Advances constants Opcode.if_acmpeq a ne =
    read_u2-then a _ λ v b. pop_pop-Keeps _ _ b
execute_opcode-Advances constants Opcode.if_acmpne a ne =
    read_u2-then a _ λ v b. pop_pop-Keeps _ _ b
execute_opcode-Advances constants Opcode.goto a ne = stopped
execute_opcode-Advances constants Opcode.jsr a ne = stopped
execute_opcode-Advances constants Opcode.ret a ne = stopped
execute_opcode-Advances constants Opcode.tableswitch a ne = stopped
execute_opcode-Advances constants Opcode.lookupswitch a ne = stopped
execute_opcode-Advances constants Opcode.ireturn a ne = stopped
execute_opcode-Advances constants Opcode.lreturn a ne = stopped
execute_opcode-Advances constants Opcode.freturn a ne = stopped
execute_opcode-Advances constants Opcode.dreturn a ne = stopped
execute_opcode-Advances constants Opcode.areturn a ne = stopped
execute_opcode-Advances constants Opcode.return a ne = stopped
execute_opcode-Advances constants Opcode.getstatic a ne = get_static-Advances constants a
execute_opcode-Advances constants Opcode.putstatic a ne = put_static-Advances constants a
execute_opcode-Advances constants Opcode.getfield a ne = get_field-Advances constants a
execute_opcode-Advances constants Opcode.putfield a ne = put_field-Advances constants a
execute_opcode-Advances constants Opcode.invokevirtual a ne = invoke-Advances constants a
execute_opcode-Advances constants Opcode.invokespecial a ne = invoke-Advances constants a
execute_opcode-Advances constants Opcode.invokestatic a ne = invoke-Advances constants a
execute_opcode-Advances constants Opcode.invokeinterface a ne =
    invoke_interface-Advances constants a
execute_opcode-Advances constants Opcode.invokedynamic a ne = stopped
execute_opcode-Advances constants Opcode.new a ne = read_u2-then a _ λ v b. push-Keeps _ b
execute_opcode-Advances constants Opcode.newarray a ne = newarray-Advances a _
execute_opcode-Advances constants Opcode.anewarray a ne = anewarray-Advances a _
execute_opcode-Advances constants Opcode.arraylength a ne = pop_push-Keeps _ _ a
execute_opcode-Advances constants Opcode.athrow a ne = stopped
execute_opcode-Advances constants Opcode.checkcast a ne =
    read_u2-then a _ λ v b. pop_push-Keeps _ _ b
execute_opcode-Advances constants Opcode.instanceof a ne =
    read_u2-then a _ λ v b. pop_push-Keeps _ _ b
execute_opcode-Advances constants Opcode.monitorenter a ne = pop-Keeps _ a
execute_opcode-Advances constants Opcode.monitorexit a ne = pop-Keeps _ a
execute_opcode-Advances constants Opcode.wide a ne = absurd (ne refl)
execute_opcode-Advances constants Opcode.multianewarray a ne = multianewarray-Advances a
execute_opcode-Advances constants Opcode.ifnull a ne = read_u2-then a _ λ v b. pop-Keeps _ b
execute_opcode-Advances constants Opcode.ifnonnull a ne = read_u2-then a _ λ v b. pop-Keeps _ b
execute_opcode-Advances constants Opcode.goto_w a ne = stopped
execute_opcode-Advances constants Opcode.jsr_w a ne = stopped
execute_opcode-Advances constants Opcode.breakpoint a ne = Keeps-refl a
execute_opcode-Advances constants Opcode.impdep1 a ne = Keeps-refl a
execute_opcode-Advances constants Opcode.impdep2 a ne = Keeps-refl a
