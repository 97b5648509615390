-- ===== src/Opcode.antt =====
-- src/class_file/Opcode.def and src/class_file/Opcode.h: the opcodes and their bytes.
mod Tests
pub mod Decoding
use geevm.Prelude.{ℕ, ◌≡◌, refl, Option, none, some, List, [], ◌∷◌, get_elem?, ◌==◌, ◌<◌, arith}
use geevm.Prelude.{if◌then◌else◌, Bool, true, false, ◌&&◌, zero, suc, ◌↔◌, ap}

pub data Opcode : Type 0 where
  nop aconst_null iconst_m1 iconst_0 iconst_1 iconst_2 iconst_3 iconst_4 iconst_5 : Opcode
  lconst_0 lconst_1 fconst_0 fconst_1 fconst_2 dconst_0 dconst_1 bipush sipush ldc ldc_w : Opcode
  ldc2_w iload lload fload dload aload iload_0 iload_1 iload_2 iload_3 lload_0 lload_1 : Opcode
  lload_2 lload_3 fload_0 fload_1 fload_2 fload_3 dload_0 dload_1 dload_2 dload_3 : Opcode
  aload_0 aload_1 aload_2 aload_3 iaload laload faload daload aaload baload caload : Opcode
  saload istore lstore fstore dstore astore istore_0 istore_1 istore_2 istore_3 lstore_0 : Opcode
  lstore_1 lstore_2 lstore_3 fstore_0 fstore_1 fstore_2 fstore_3 dstore_0 dstore_1 : Opcode
  dstore_2 dstore_3 astore_0 astore_1 astore_2 astore_3 iastore lastore fastore dastore : Opcode
  aastore bastore castore sastore pop pop2 dup dup_x1 dup_x2 dup2 dup2_x1 dup2_x2 swap : Opcode
  iadd ladd fadd dadd isub lsub fsub dsub imul lmul fmul dmul idiv ldiv fdiv ddiv irem : Opcode
  lrem frem drem ineg lneg fneg dneg ishl lshl ishr lshr iushr lushr iand land ior lor : Opcode
  ixor lxor iinc i2l i2f i2d l2i l2f l2d f2i f2l f2d d2i d2l d2f i2b i2c i2s lcmp fcmpl : Opcode
  fcmpg dcmpl dcmpg ifeq ifne iflt ifge ifgt ifle if_icmpeq if_icmpne if_icmplt : Opcode
  if_icmpge if_icmpgt if_icmple if_acmpeq if_acmpne goto jsr ret tableswitch : Opcode
  lookupswitch ireturn lreturn freturn dreturn areturn return getstatic putstatic : Opcode
  getfield putfield invokevirtual invokespecial invokestatic invokeinterface : Opcode
  invokedynamic new newarray anewarray arraylength athrow checkcast instanceof : Opcode
  monitorenter monitorexit wide multianewarray ifnull ifnonnull goto_w jsr_w breakpoint : Opcode
  impdep1 impdep2 : Opcode

-- The value of the enumeration.
pub code_of : Opcode → ℕ
code_of Opcode.nop = 0x00
code_of Opcode.aconst_null = 0x01
code_of Opcode.iconst_m1 = 0x02
code_of Opcode.iconst_0 = 0x03
code_of Opcode.iconst_1 = 0x04
code_of Opcode.iconst_2 = 0x05
code_of Opcode.iconst_3 = 0x06
code_of Opcode.iconst_4 = 0x07
code_of Opcode.iconst_5 = 0x08
code_of Opcode.lconst_0 = 0x09
code_of Opcode.lconst_1 = 0x0a
code_of Opcode.fconst_0 = 0x0b
code_of Opcode.fconst_1 = 0x0c
code_of Opcode.fconst_2 = 0x0d
code_of Opcode.dconst_0 = 0x0e
code_of Opcode.dconst_1 = 0x0f
code_of Opcode.bipush = 0x10
code_of Opcode.sipush = 0x11
code_of Opcode.ldc = 0x12
code_of Opcode.ldc_w = 0x13
code_of Opcode.ldc2_w = 0x14
code_of Opcode.iload = 0x15
code_of Opcode.lload = 0x16
code_of Opcode.fload = 0x17
code_of Opcode.dload = 0x18
code_of Opcode.aload = 0x19
code_of Opcode.iload_0 = 0x1a
code_of Opcode.iload_1 = 0x1b
code_of Opcode.iload_2 = 0x1c
code_of Opcode.iload_3 = 0x1d
code_of Opcode.lload_0 = 0x1e
code_of Opcode.lload_1 = 0x1f
code_of Opcode.lload_2 = 0x20
code_of Opcode.lload_3 = 0x21
code_of Opcode.fload_0 = 0x22
code_of Opcode.fload_1 = 0x23
code_of Opcode.fload_2 = 0x24
code_of Opcode.fload_3 = 0x25
code_of Opcode.dload_0 = 0x26
code_of Opcode.dload_1 = 0x27
code_of Opcode.dload_2 = 0x28
code_of Opcode.dload_3 = 0x29
code_of Opcode.aload_0 = 0x2a
code_of Opcode.aload_1 = 0x2b
code_of Opcode.aload_2 = 0x2c
code_of Opcode.aload_3 = 0x2d
code_of Opcode.iaload = 0x2e
code_of Opcode.laload = 0x2f
code_of Opcode.faload = 0x30
code_of Opcode.daload = 0x31
code_of Opcode.aaload = 0x32
code_of Opcode.baload = 0x33
code_of Opcode.caload = 0x34
code_of Opcode.saload = 0x35
code_of Opcode.istore = 0x36
code_of Opcode.lstore = 0x37
code_of Opcode.fstore = 0x38
code_of Opcode.dstore = 0x39
code_of Opcode.astore = 0x3a
code_of Opcode.istore_0 = 0x3b
code_of Opcode.istore_1 = 0x3c
code_of Opcode.istore_2 = 0x3d
code_of Opcode.istore_3 = 0x3e
code_of Opcode.lstore_0 = 0x3f
code_of Opcode.lstore_1 = 0x40
code_of Opcode.lstore_2 = 0x41
code_of Opcode.lstore_3 = 0x42
code_of Opcode.fstore_0 = 0x43
code_of Opcode.fstore_1 = 0x44
code_of Opcode.fstore_2 = 0x45
code_of Opcode.fstore_3 = 0x46
code_of Opcode.dstore_0 = 0x47
code_of Opcode.dstore_1 = 0x48
code_of Opcode.dstore_2 = 0x49
code_of Opcode.dstore_3 = 0x4a
code_of Opcode.astore_0 = 0x4b
code_of Opcode.astore_1 = 0x4c
code_of Opcode.astore_2 = 0x4d
code_of Opcode.astore_3 = 0x4e
code_of Opcode.iastore = 0x4f
code_of Opcode.lastore = 0x50
code_of Opcode.fastore = 0x51
code_of Opcode.dastore = 0x52
code_of Opcode.aastore = 0x53
code_of Opcode.bastore = 0x54
code_of Opcode.castore = 0x55
code_of Opcode.sastore = 0x56
code_of Opcode.pop = 0x57
code_of Opcode.pop2 = 0x58
code_of Opcode.dup = 0x59
code_of Opcode.dup_x1 = 0x5a
code_of Opcode.dup_x2 = 0x5b
code_of Opcode.dup2 = 0x5c
code_of Opcode.dup2_x1 = 0x5d
code_of Opcode.dup2_x2 = 0x5e
code_of Opcode.swap = 0x5f
code_of Opcode.iadd = 0x60
code_of Opcode.ladd = 0x61
code_of Opcode.fadd = 0x62
code_of Opcode.dadd = 0x63
code_of Opcode.isub = 0x64
code_of Opcode.lsub = 0x65
code_of Opcode.fsub = 0x66
code_of Opcode.dsub = 0x67
code_of Opcode.imul = 0x68
code_of Opcode.lmul = 0x69
code_of Opcode.fmul = 0x6a
code_of Opcode.dmul = 0x6b
code_of Opcode.idiv = 0x6c
code_of Opcode.ldiv = 0x6d
code_of Opcode.fdiv = 0x6e
code_of Opcode.ddiv = 0x6f
code_of Opcode.irem = 0x70
code_of Opcode.lrem = 0x71
code_of Opcode.frem = 0x72
code_of Opcode.drem = 0x73
code_of Opcode.ineg = 0x74
code_of Opcode.lneg = 0x75
code_of Opcode.fneg = 0x76
code_of Opcode.dneg = 0x77
code_of Opcode.ishl = 0x78
code_of Opcode.lshl = 0x79
code_of Opcode.ishr = 0x7a
code_of Opcode.lshr = 0x7b
code_of Opcode.iushr = 0x7c
code_of Opcode.lushr = 0x7d
code_of Opcode.iand = 0x7e
code_of Opcode.land = 0x7f
code_of Opcode.ior = 0x80
code_of Opcode.lor = 0x81
code_of Opcode.ixor = 0x82
code_of Opcode.lxor = 0x83
code_of Opcode.iinc = 0x84
code_of Opcode.i2l = 0x85
code_of Opcode.i2f = 0x86
code_of Opcode.i2d = 0x87
code_of Opcode.l2i = 0x88
code_of Opcode.l2f = 0x89
code_of Opcode.l2d = 0x8a
code_of Opcode.f2i = 0x8b
code_of Opcode.f2l = 0x8c
code_of Opcode.f2d = 0x8d
code_of Opcode.d2i = 0x8e
code_of Opcode.d2l = 0x8f
code_of Opcode.d2f = 0x90
code_of Opcode.i2b = 0x91
code_of Opcode.i2c = 0x92
code_of Opcode.i2s = 0x93
code_of Opcode.lcmp = 0x94
code_of Opcode.fcmpl = 0x95
code_of Opcode.fcmpg = 0x96
code_of Opcode.dcmpl = 0x97
code_of Opcode.dcmpg = 0x98
code_of Opcode.ifeq = 0x99
code_of Opcode.ifne = 0x9a
code_of Opcode.iflt = 0x9b
code_of Opcode.ifge = 0x9c
code_of Opcode.ifgt = 0x9d
code_of Opcode.ifle = 0x9e
code_of Opcode.if_icmpeq = 0x9f
code_of Opcode.if_icmpne = 0xa0
code_of Opcode.if_icmplt = 0xa1
code_of Opcode.if_icmpge = 0xa2
code_of Opcode.if_icmpgt = 0xa3
code_of Opcode.if_icmple = 0xa4
code_of Opcode.if_acmpeq = 0xa5
code_of Opcode.if_acmpne = 0xa6
code_of Opcode.goto = 0xa7
code_of Opcode.jsr = 0xa8
code_of Opcode.ret = 0xa9
code_of Opcode.tableswitch = 0xaa
code_of Opcode.lookupswitch = 0xab
code_of Opcode.ireturn = 0xac
code_of Opcode.lreturn = 0xad
code_of Opcode.freturn = 0xae
code_of Opcode.dreturn = 0xaf
code_of Opcode.areturn = 0xb0
code_of Opcode.return = 0xb1
code_of Opcode.getstatic = 0xb2
code_of Opcode.putstatic = 0xb3
code_of Opcode.getfield = 0xb4
code_of Opcode.putfield = 0xb5
code_of Opcode.invokevirtual = 0xb6
code_of Opcode.invokespecial = 0xb7
code_of Opcode.invokestatic = 0xb8
code_of Opcode.invokeinterface = 0xb9
code_of Opcode.invokedynamic = 0xba
code_of Opcode.new = 0xbb
code_of Opcode.newarray = 0xbc
code_of Opcode.anewarray = 0xbd
code_of Opcode.arraylength = 0xbe
code_of Opcode.athrow = 0xbf
code_of Opcode.checkcast = 0xc0
code_of Opcode.instanceof = 0xc1
code_of Opcode.monitorenter = 0xc2
code_of Opcode.monitorexit = 0xc3
code_of Opcode.wide = 0xc4
code_of Opcode.multianewarray = 0xc5
code_of Opcode.ifnull = 0xc6
code_of Opcode.ifnonnull = 0xc7
code_of Opcode.goto_w = 0xc8
code_of Opcode.jsr_w = 0xc9
code_of Opcode.breakpoint = 0xca
code_of Opcode.impdep1 = 0xfe
code_of Opcode.impdep2 = 0xff
