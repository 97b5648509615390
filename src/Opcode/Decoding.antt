-- ===== src/Opcode/Decoding.antt =====
-- Reading an opcode from a byte, as `CallFrame::next` of src/vm/Frame.h does with the enumeration of
-- src/class_file/Opcode.def.
use geevm.Prelude.{ℕ, ◌≡◌, refl, Option, none, some, List, [], ◌∷◌, get_elem?, ◌==◌, ◌<◌, arith}
use geevm.Prelude.{if◌then◌else◌, Bool, true, ◌&&◌, zero, suc, ◌↔◌, ==_iff}
use geevm.Opcode.{Opcode, code_of}

-- The opcodes from 0x00 on, in the order of their values.
contiguous : List Opcode
contiguous =
    Opcode.nop ∷ Opcode.aconst_null ∷ Opcode.iconst_m1 ∷ Opcode.iconst_0 ∷ Opcode.iconst_1
    ∷ Opcode.iconst_2 ∷ Opcode.iconst_3 ∷ Opcode.iconst_4 ∷ Opcode.iconst_5 ∷ Opcode.lconst_0
    ∷ Opcode.lconst_1 ∷ Opcode.fconst_0 ∷ Opcode.fconst_1 ∷ Opcode.fconst_2 ∷ Opcode.dconst_0
    ∷ Opcode.dconst_1 ∷ Opcode.bipush ∷ Opcode.sipush ∷ Opcode.ldc ∷ Opcode.ldc_w ∷ Opcode.ldc2_w
    ∷ Opcode.iload ∷ Opcode.lload ∷ Opcode.fload ∷ Opcode.dload ∷ Opcode.aload ∷ Opcode.iload_0
    ∷ Opcode.iload_1 ∷ Opcode.iload_2 ∷ Opcode.iload_3 ∷ Opcode.lload_0 ∷ Opcode.lload_1
    ∷ Opcode.lload_2 ∷ Opcode.lload_3 ∷ Opcode.fload_0 ∷ Opcode.fload_1 ∷ Opcode.fload_2
    ∷ Opcode.fload_3 ∷ Opcode.dload_0 ∷ Opcode.dload_1 ∷ Opcode.dload_2 ∷ Opcode.dload_3
    ∷ Opcode.aload_0 ∷ Opcode.aload_1 ∷ Opcode.aload_2 ∷ Opcode.aload_3 ∷ Opcode.iaload
    ∷ Opcode.laload ∷ Opcode.faload ∷ Opcode.daload ∷ Opcode.aaload ∷ Opcode.baload ∷ Opcode.caload
    ∷ Opcode.saload ∷ Opcode.istore ∷ Opcode.lstore ∷ Opcode.fstore ∷ Opcode.dstore ∷ Opcode.astore
    ∷ Opcode.istore_0 ∷ Opcode.istore_1 ∷ Opcode.istore_2 ∷ Opcode.istore_3 ∷ Opcode.lstore_0
    ∷ Opcode.lstore_1 ∷ Opcode.lstore_2 ∷ Opcode.lstore_3 ∷ Opcode.fstore_0 ∷ Opcode.fstore_1
    ∷ Opcode.fstore_2 ∷ Opcode.fstore_3 ∷ Opcode.dstore_0 ∷ Opcode.dstore_1 ∷ Opcode.dstore_2
    ∷ Opcode.dstore_3 ∷ Opcode.astore_0 ∷ Opcode.astore_1 ∷ Opcode.astore_2 ∷ Opcode.astore_3
    ∷ Opcode.iastore ∷ Opcode.lastore ∷ Opcode.fastore ∷ Opcode.dastore ∷ Opcode.aastore
    ∷ Opcode.bastore ∷ Opcode.castore ∷ Opcode.sastore ∷ Opcode.pop ∷ Opcode.pop2 ∷ Opcode.dup
    ∷ Opcode.dup_x1 ∷ Opcode.dup_x2 ∷ Opcode.dup2 ∷ Opcode.dup2_x1 ∷ Opcode.dup2_x2 ∷ Opcode.swap
    ∷ Opcode.iadd ∷ Opcode.ladd ∷ Opcode.fadd ∷ Opcode.dadd ∷ Opcode.isub ∷ Opcode.lsub
    ∷ Opcode.fsub ∷ Opcode.dsub ∷ Opcode.imul ∷ Opcode.lmul ∷ Opcode.fmul ∷ Opcode.dmul
    ∷ Opcode.idiv ∷ Opcode.ldiv ∷ Opcode.fdiv ∷ Opcode.ddiv ∷ Opcode.irem ∷ Opcode.lrem
    ∷ Opcode.frem ∷ Opcode.drem ∷ Opcode.ineg ∷ Opcode.lneg ∷ Opcode.fneg ∷ Opcode.dneg
    ∷ Opcode.ishl ∷ Opcode.lshl ∷ Opcode.ishr ∷ Opcode.lshr ∷ Opcode.iushr ∷ Opcode.lushr
    ∷ Opcode.iand ∷ Opcode.land ∷ Opcode.ior ∷ Opcode.lor ∷ Opcode.ixor ∷ Opcode.lxor ∷ Opcode.iinc
    ∷ Opcode.i2l ∷ Opcode.i2f ∷ Opcode.i2d ∷ Opcode.l2i ∷ Opcode.l2f ∷ Opcode.l2d ∷ Opcode.f2i
    ∷ Opcode.f2l ∷ Opcode.f2d ∷ Opcode.d2i ∷ Opcode.d2l ∷ Opcode.d2f ∷ Opcode.i2b ∷ Opcode.i2c
    ∷ Opcode.i2s ∷ Opcode.lcmp ∷ Opcode.fcmpl ∷ Opcode.fcmpg ∷ Opcode.dcmpl ∷ Opcode.dcmpg
    ∷ Opcode.ifeq ∷ Opcode.ifne ∷ Opcode.iflt ∷ Opcode.ifge ∷ Opcode.ifgt ∷ Opcode.ifle
    ∷ Opcode.if_icmpeq ∷ Opcode.if_icmpne ∷ Opcode.if_icmplt ∷ Opcode.if_icmpge ∷ Opcode.if_icmpgt
    ∷ Opcode.if_icmple ∷ Opcode.if_acmpeq ∷ Opcode.if_acmpne ∷ Opcode.goto ∷ Opcode.jsr ∷ Opcode.ret
    ∷ Opcode.tableswitch ∷ Opcode.lookupswitch ∷ Opcode.ireturn ∷ Opcode.lreturn ∷ Opcode.freturn
    ∷ Opcode.dreturn ∷ Opcode.areturn ∷ Opcode.return ∷ Opcode.getstatic ∷ Opcode.putstatic
    ∷ Opcode.getfield ∷ Opcode.putfield ∷ Opcode.invokevirtual ∷ Opcode.invokespecial
    ∷ Opcode.invokestatic ∷ Opcode.invokeinterface ∷ Opcode.invokedynamic ∷ Opcode.new
    ∷ Opcode.newarray ∷ Opcode.anewarray ∷ Opcode.arraylength ∷ Opcode.athrow ∷ Opcode.checkcast
    ∷ Opcode.instanceof ∷ Opcode.monitorenter ∷ Opcode.monitorexit ∷ Opcode.wide
    ∷ Opcode.multianewarray ∷ Opcode.ifnull ∷ Opcode.ifnonnull ∷ Opcode.goto_w ∷ Opcode.jsr_w
    ∷ Opcode.breakpoint ∷ []

-- `static_cast<Opcode>` of a byte; a byte that is no opcode ends in the `default` of the interpreter.
unfoldable pub opcode_of : ℕ → Option Opcode
unfolding contiguous
opcode_of b =
    if b == 0xfe
    then some Opcode.impdep1
    else if b == 0xff
    then some Opcode.impdep2
    else get_elem? contiguous b

passes_below : (ℕ → Bool) → ℕ → Bool
passes_below test zero = true
passes_below test (suc bound) = test bound && passes_below test bound

passes_below_lem :
    (test : ℕ → Bool) (bound b : ℕ) → b < bound → passes_below test bound ≡ true → test b ≡ true
unfolding passes_below
passes_below_lem test zero b below passed = absurd (omega arith)
passes_below_lem test (suc bound) b below passed = ground (arith, passes_below_lem test bound b)

-- Every opcode is read back from its byte.
pub opcode_of-code_of : (op : Opcode) → opcode_of (code_of op) ≡ some op
unfolding opcode_of code_of
opcode_of-code_of Opcode.nop = refl
opcode_of-code_of _ = refl

-- A byte that is read as an opcode is the value of that opcode.
same_byte : ℕ → Option Opcode → Bool
same_byte b none = true
same_byte b (some op) = code_of op == b

same_byte_table : passes_below (λ b. same_byte b (opcode_of b)) 256 ≡ true
unfolding passes_below same_byte opcode_of code_of
same_byte_table = refl

code_of-opcode_of : (b : ℕ) (op : Opcode) → b < 256 → opcode_of b ≡ some op → code_of op ≡ b
unfolding same_byte
code_of-opcode_of b op h e =
    let t = passes_below_lem (λ b. same_byte b (opcode_of b)) 256 b h same_byte_table in
    (==_iff (code_of op) b).0 (rw e at t)

-- Bytes and opcodes: every opcode is read back from its value, and a byte is read as an opcode only
-- if it is the value of that opcode. So no two opcodes share a value.
pub opcode_of_iff : (b : ℕ) (op : Opcode) → b < 256 → (opcode_of b ≡ some op) ↔ (code_of op ≡ b)
opcode_of_iff b op h = (code_of-opcode_of b op h, λ e. rw (← e) (opcode_of-code_of op))
