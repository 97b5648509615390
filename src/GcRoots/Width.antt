-- ===== src/GcRoots/Width.antt =====
-- `bytesConsumedByOpcode` of src/vm/GcRoots.cpp.
use geevm.Prelude.{ℕ}
use geevm.Opcode.{Opcode}

-- The number of bytes behind an opcode; the default is none.
unfoldable pub bytes_consumed_by_opcode : Opcode → ℕ
bytes_consumed_by_opcode Opcode.bipush = 1
bytes_consumed_by_opcode Opcode.sipush = 2
bytes_consumed_by_opcode Opcode.ldc = 1
bytes_consumed_by_opcode Opcode.ldc_w = 2
bytes_consumed_by_opcode Opcode.ldc2_w = 2
bytes_consumed_by_opcode Opcode.iload = 1
bytes_consumed_by_opcode Opcode.lload = 1
bytes_consumed_by_opcode Opcode.fload = 1
bytes_consumed_by_opcode Opcode.dload = 1
bytes_consumed_by_opcode Opcode.aload = 1
bytes_consumed_by_opcode Opcode.istore = 1
bytes_consumed_by_opcode Opcode.lstore = 1
bytes_consumed_by_opcode Opcode.fstore = 1
bytes_consumed_by_opcode Opcode.dstore = 1
bytes_consumed_by_opcode Opcode.astore = 1
bytes_consumed_by_opcode Opcode.iinc = 2
bytes_consumed_by_opcode Opcode.ifeq = 2
bytes_consumed_by_opcode Opcode.ifne = 2
bytes_consumed_by_opcode Opcode.iflt = 2
bytes_consumed_by_opcode Opcode.ifge = 2
bytes_consumed_by_opcode Opcode.ifgt = 2
bytes_consumed_by_opcode Opcode.ifle = 2
bytes_consumed_by_opcode Opcode.if_icmpeq = 2
bytes_consumed_by_opcode Opcode.if_icmpne = 2
bytes_consumed_by_opcode Opcode.if_icmplt = 2
bytes_consumed_by_opcode Opcode.if_icmpge = 2
bytes_consumed_by_opcode Opcode.if_icmpgt = 2
bytes_consumed_by_opcode Opcode.if_icmple = 2
bytes_consumed_by_opcode Opcode.if_acmpeq = 2
bytes_consumed_by_opcode Opcode.if_acmpne = 2
bytes_consumed_by_opcode Opcode.goto = 2
bytes_consumed_by_opcode Opcode.getstatic = 2
bytes_consumed_by_opcode Opcode.putstatic = 2
bytes_consumed_by_opcode Opcode.getfield = 2
bytes_consumed_by_opcode Opcode.putfield = 2
bytes_consumed_by_opcode Opcode.invokevirtual = 2
bytes_consumed_by_opcode Opcode.invokespecial = 2
bytes_consumed_by_opcode Opcode.invokestatic = 2
bytes_consumed_by_opcode Opcode.invokeinterface = 4
bytes_consumed_by_opcode Opcode.new = 2
bytes_consumed_by_opcode Opcode.newarray = 1
bytes_consumed_by_opcode Opcode.anewarray = 2
bytes_consumed_by_opcode Opcode.checkcast = 2
bytes_consumed_by_opcode Opcode.instanceof = 2
bytes_consumed_by_opcode Opcode.wide = 3
bytes_consumed_by_opcode Opcode.multianewarray = 3
bytes_consumed_by_opcode Opcode.ifnull = 2
bytes_consumed_by_opcode Opcode.ifnonnull = 2
bytes_consumed_by_opcode _ = 0
