-- ===== src/GcRoots/Effects/Table.antt =====
-- The instructions whose effect on the operand stack is fixed and that have no bytes behind the opcode:
-- the types that they take, the top first, and those that they leave, as the specification of the Java
-- virtual machine lists them. An instruction that only moves values around has no types of its own.
use geevm.Prelude.{Bool, true, false, List, [], ◌∷◌}
use geevm.Opcode.{Opcode}
use geevm.StackMap.{VerificationTypeInfo, integer_type, float_type, double_type, long_type}
use geevm.StackMap.{null_type, object_type}

abbrev pub has_effect : Opcode → Bool
has_effect Opcode.nop = true
has_effect Opcode.aconst_null = true
has_effect Opcode.iconst_m1 = true
has_effect Opcode.iconst_0 = true
has_effect Opcode.iconst_1 = true
has_effect Opcode.iconst_2 = true
has_effect Opcode.iconst_3 = true
has_effect Opcode.iconst_4 = true
has_effect Opcode.iconst_5 = true
has_effect Opcode.lconst_0 = true
has_effect Opcode.lconst_1 = true
has_effect Opcode.fconst_0 = true
has_effect Opcode.fconst_1 = true
has_effect Opcode.fconst_2 = true
has_effect Opcode.dconst_0 = true
has_effect Opcode.dconst_1 = true
has_effect Opcode.iload_0 = true
has_effect Opcode.iload_1 = true
has_effect Opcode.iload_2 = true
has_effect Opcode.iload_3 = true
has_effect Opcode.lload_0 = true
has_effect Opcode.lload_1 = true
has_effect Opcode.lload_2 = true
has_effect Opcode.lload_3 = true
has_effect Opcode.fload_0 = true
has_effect Opcode.fload_1 = true
has_effect Opcode.fload_2 = true
has_effect Opcode.fload_3 = true
has_effect Opcode.dload_0 = true
has_effect Opcode.dload_1 = true
has_effect Opcode.dload_2 = true
has_effect Opcode.dload_3 = true
has_effect Opcode.aload_0 = true
has_effect Opcode.aload_1 = true
has_effect Opcode.aload_2 = true
has_effect Opcode.aload_3 = true
has_effect Opcode.iaload = true
has_effect Opcode.laload = true
has_effect Opcode.faload = true
has_effect Opcode.daload = true
has_effect Opcode.aaload = true
has_effect Opcode.baload = true
has_effect Opcode.caload = true
has_effect Opcode.saload = true
has_effect Opcode.iastore = true
has_effect Opcode.lastore = true
has_effect Opcode.fastore = true
has_effect Opcode.dastore = true
has_effect Opcode.aastore = true
has_effect Opcode.bastore = true
has_effect Opcode.castore = true
has_effect Opcode.sastore = true
has_effect Opcode.iadd = true
has_effect Opcode.ladd = true
has_effect Opcode.fadd = true
has_effect Opcode.dadd = true
has_effect Opcode.isub = true
has_effect Opcode.lsub = true
has_effect Opcode.fsub = true
has_effect Opcode.dsub = true
has_effect Opcode.imul = true
has_effect Opcode.lmul = true
has_effect Opcode.fmul = true
has_effect Opcode.dmul = true
has_effect Opcode.idiv = true
has_effect Opcode.ldiv = true
has_effect Opcode.fdiv = true
has_effect Opcode.ddiv = true
has_effect Opcode.irem = true
has_effect Opcode.lrem = true
has_effect Opcode.frem = true
has_effect Opcode.drem = true
has_effect Opcode.ineg = true
has_effect Opcode.lneg = true
has_effect Opcode.fneg = true
has_effect Opcode.dneg = true
has_effect Opcode.ishl = true
has_effect Opcode.lshl = true
has_effect Opcode.ishr = true
has_effect Opcode.lshr = true
has_effect Opcode.iushr = true
has_effect Opcode.lushr = true
has_effect Opcode.iand = true
has_effect Opcode.land = true
has_effect Opcode.ior = true
has_effect Opcode.lor = true
has_effect Opcode.ixor = true
has_effect Opcode.lxor = true
has_effect Opcode.i2l = true
has_effect Opcode.i2f = true
has_effect Opcode.i2d = true
has_effect Opcode.l2i = true
has_effect Opcode.l2f = true
has_effect Opcode.l2d = true
has_effect Opcode.f2i = true
has_effect Opcode.f2l = true
has_effect Opcode.f2d = true
has_effect Opcode.d2i = true
has_effect Opcode.d2l = true
has_effect Opcode.d2f = true
has_effect Opcode.i2b = true
has_effect Opcode.i2c = true
has_effect Opcode.i2s = true
has_effect Opcode.lcmp = true
has_effect Opcode.fcmpl = true
has_effect Opcode.fcmpg = true
has_effect Opcode.dcmpl = true
has_effect Opcode.dcmpg = true
has_effect Opcode.arraylength = true
has_effect Opcode.monitorenter = true
has_effect Opcode.monitorexit = true
has_effect Opcode.breakpoint = true
has_effect Opcode.impdep1 = true
has_effect Opcode.impdep2 = true
has_effect _ = false

abbrev pub takes : Opcode → List VerificationTypeInfo
takes Opcode.iaload = integer_type ∷ object_type ∷ []
takes Opcode.laload = integer_type ∷ object_type ∷ []
takes Opcode.faload = integer_type ∷ object_type ∷ []
takes Opcode.daload = integer_type ∷ object_type ∷ []
takes Opcode.aaload = integer_type ∷ object_type ∷ []
takes Opcode.baload = integer_type ∷ object_type ∷ []
takes Opcode.caload = integer_type ∷ object_type ∷ []
takes Opcode.saload = integer_type ∷ object_type ∷ []
takes Opcode.iastore = integer_type ∷ integer_type ∷ object_type ∷ []
takes Opcode.lastore = long_type ∷ integer_type ∷ object_type ∷ []
takes Opcode.fastore = float_type ∷ integer_type ∷ object_type ∷ []
takes Opcode.dastore = double_type ∷ integer_type ∷ object_type ∷ []
takes Opcode.aastore = object_type ∷ integer_type ∷ object_type ∷ []
takes Opcode.bastore = integer_type ∷ integer_type ∷ object_type ∷ []
takes Opcode.castore = integer_type ∷ integer_type ∷ object_type ∷ []
takes Opcode.sastore = integer_type ∷ integer_type ∷ object_type ∷ []
takes Opcode.iadd = integer_type ∷ integer_type ∷ []
takes Opcode.ladd = long_type ∷ long_type ∷ []
takes Opcode.fadd = float_type ∷ float_type ∷ []
takes Opcode.dadd = double_type ∷ double_type ∷ []
takes Opcode.isub = integer_type ∷ integer_type ∷ []
takes Opcode.lsub = long_type ∷ long_type ∷ []
takes Opcode.fsub = float_type ∷ float_type ∷ []
takes Opcode.dsub = double_type ∷ double_type ∷ []
takes Opcode.imul = integer_type ∷ integer_type ∷ []
takes Opcode.lmul = long_type ∷ long_type ∷ []
takes Opcode.fmul = float_type ∷ float_type ∷ []
takes Opcode.dmul = double_type ∷ double_type ∷ []
takes Opcode.idiv = integer_type ∷ integer_type ∷ []
takes Opcode.ldiv = long_type ∷ long_type ∷ []
takes Opcode.fdiv = float_type ∷ float_type ∷ []
takes Opcode.ddiv = double_type ∷ double_type ∷ []
takes Opcode.irem = integer_type ∷ integer_type ∷ []
takes Opcode.lrem = long_type ∷ long_type ∷ []
takes Opcode.frem = float_type ∷ float_type ∷ []
takes Opcode.drem = double_type ∷ double_type ∷ []
takes Opcode.ineg = integer_type ∷ []
takes Opcode.lneg = long_type ∷ []
takes Opcode.fneg = float_type ∷ []
takes Opcode.dneg = double_type ∷ []
takes Opcode.ishl = integer_type ∷ integer_type ∷ []
takes Opcode.lshl = integer_type ∷ long_type ∷ []
takes Opcode.ishr = integer_type ∷ integer_type ∷ []
takes Opcode.lshr = integer_type ∷ long_type ∷ []
takes Opcode.iushr = integer_type ∷ integer_type ∷ []
takes Opcode.lushr = integer_type ∷ long_type ∷ []
takes Opcode.iand = integer_type ∷ integer_type ∷ []
takes Opcode.land = long_type ∷ long_type ∷ []
takes Opcode.ior = integer_type ∷ integer_type ∷ []
takes Opcode.lor = long_type ∷ long_type ∷ []
takes Opcode.ixor = integer_type ∷ integer_type ∷ []
takes Opcode.lxor = long_type ∷ long_type ∷ []
takes Opcode.i2l = integer_type ∷ []
takes Opcode.i2f = integer_type ∷ []
takes Opcode.i2d = integer_type ∷ []
takes Opcode.l2i = long_type ∷ []
takes Opcode.l2f = long_type ∷ []
takes Opcode.l2d = long_type ∷ []
takes Opcode.f2i = float_type ∷ []
takes Opcode.f2l = float_type ∷ []
takes Opcode.f2d = float_type ∷ []
takes Opcode.d2i = double_type ∷ []
takes Opcode.d2l = double_type ∷ []
takes Opcode.d2f = double_type ∷ []
takes Opcode.i2b = integer_type ∷ []
takes Opcode.i2c = integer_type ∷ []
takes Opcode.i2s = integer_type ∷ []
takes Opcode.lcmp = long_type ∷ long_type ∷ []
takes Opcode.fcmpl = float_type ∷ float_type ∷ []
takes Opcode.fcmpg = float_type ∷ float_type ∷ []
takes Opcode.dcmpl = double_type ∷ double_type ∷ []
takes Opcode.dcmpg = double_type ∷ double_type ∷ []
takes Opcode.arraylength = object_type ∷ []
takes Opcode.monitorenter = object_type ∷ []
takes Opcode.monitorexit = object_type ∷ []
takes _ = []

abbrev pub leaves : Opcode → List VerificationTypeInfo
leaves Opcode.aconst_null = null_type ∷ []
leaves Opcode.iconst_m1 = integer_type ∷ []
leaves Opcode.iconst_0 = integer_type ∷ []
leaves Opcode.iconst_1 = integer_type ∷ []
leaves Opcode.iconst_2 = integer_type ∷ []
leaves Opcode.iconst_3 = integer_type ∷ []
leaves Opcode.iconst_4 = integer_type ∷ []
leaves Opcode.iconst_5 = integer_type ∷ []
leaves Opcode.lconst_0 = long_type ∷ []
leaves Opcode.lconst_1 = long_type ∷ []
leaves Opcode.fconst_0 = float_type ∷ []
leaves Opcode.fconst_1 = float_type ∷ []
leaves Opcode.fconst_2 = float_type ∷ []
leaves Opcode.dconst_0 = double_type ∷ []
leaves Opcode.dconst_1 = double_type ∷ []
leaves Opcode.iload_0 = integer_type ∷ []
leaves Opcode.iload_1 = integer_type ∷ []
leaves Opcode.iload_2 = integer_type ∷ []
leaves Opcode.iload_3 = integer_type ∷ []
leaves Opcode.lload_0 = long_type ∷ []
leaves Opcode.lload_1 = long_type ∷ []
leaves Opcode.lload_2 = long_type ∷ []
leaves Opcode.lload_3 = long_type ∷ []
leaves Opcode.fload_0 = float_type ∷ []
leaves Opcode.fload_1 = float_type ∷ []
leaves Opcode.fload_2 = float_type ∷ []
leaves Opcode.fload_3 = float_type ∷ []
leaves Opcode.dload_0 = double_type ∷ []
leaves Opcode.dload_1 = double_type ∷ []
leaves Opcode.dload_2 = double_type ∷ []
leaves Opcode.dload_3 = double_type ∷ []
leaves Opcode.aload_0 = object_type ∷ []
leaves Opcode.aload_1 = object_type ∷ []
leaves Opcode.aload_2 = object_type ∷ []
leaves Opcode.aload_3 = object_type ∷ []
leaves Opcode.iaload = integer_type ∷ []
leaves Opcode.laload = long_type ∷ []
leaves Opcode.faload = float_type ∷ []
leaves Opcode.daload = double_type ∷ []
leaves Opcode.aaload = object_type ∷ []
leaves Opcode.baload = integer_type ∷ []
leaves Opcode.caload = integer_type ∷ []
leaves Opcode.saload = integer_type ∷ []
leaves Opcode.iadd = integer_type ∷ []
leaves Opcode.ladd = long_type ∷ []
leaves Opcode.fadd = float_type ∷ []
leaves Opcode.dadd = double_type ∷ []
leaves Opcode.isub = integer_type ∷ []
leaves Opcode.lsub = long_type ∷ []
leaves Opcode.fsub = float_type ∷ []
leaves Opcode.dsub = double_type ∷ []
leaves Opcode.imul = integer_type ∷ []
leaves Opcode.lmul = long_type ∷ []
leaves Opcode.fmul = float_type ∷ []
leaves Opcode.dmul = double_type ∷ []
leaves Opcode.idiv = integer_type ∷ []
leaves Opcode.ldiv = long_type ∷ []
leaves Opcode.fdiv = float_type ∷ []
leaves Opcode.ddiv = double_type ∷ []
leaves Opcode.irem = integer_type ∷ []
leaves Opcode.lrem = long_type ∷ []
leaves Opcode.frem = float_type ∷ []
leaves Opcode.drem = double_type ∷ []
leaves Opcode.ineg = integer_type ∷ []
leaves Opcode.lneg = long_type ∷ []
leaves Opcode.fneg = float_type ∷ []
leaves Opcode.dneg = double_type ∷ []
leaves Opcode.ishl = integer_type ∷ []
leaves Opcode.lshl = long_type ∷ []
leaves Opcode.ishr = integer_type ∷ []
leaves Opcode.lshr = long_type ∷ []
leaves Opcode.iushr = integer_type ∷ []
leaves Opcode.lushr = long_type ∷ []
leaves Opcode.iand = integer_type ∷ []
leaves Opcode.land = long_type ∷ []
leaves Opcode.ior = integer_type ∷ []
leaves Opcode.lor = long_type ∷ []
leaves Opcode.ixor = integer_type ∷ []
leaves Opcode.lxor = long_type ∷ []
leaves Opcode.i2l = long_type ∷ []
leaves Opcode.i2f = float_type ∷ []
leaves Opcode.i2d = double_type ∷ []
leaves Opcode.l2i = integer_type ∷ []
leaves Opcode.l2f = float_type ∷ []
leaves Opcode.l2d = double_type ∷ []
leaves Opcode.f2i = integer_type ∷ []
leaves Opcode.f2l = long_type ∷ []
leaves Opcode.f2d = double_type ∷ []
leaves Opcode.d2i = integer_type ∷ []
leaves Opcode.d2l = long_type ∷ []
leaves Opcode.d2f = float_type ∷ []
leaves Opcode.i2b = integer_type ∷ []
leaves Opcode.i2c = integer_type ∷ []
leaves Opcode.i2s = integer_type ∷ []
leaves Opcode.lcmp = integer_type ∷ []
leaves Opcode.fcmpl = integer_type ∷ []
leaves Opcode.fcmpg = integer_type ∷ []
leaves Opcode.dcmpl = integer_type ∷ []
leaves Opcode.dcmpg = integer_type ∷ []
leaves Opcode.arraylength = integer_type ∷ []
leaves _ = []
