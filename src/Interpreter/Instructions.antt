-- ===== src/Interpreter/Instructions.antt =====
-- Instructions of `DefaultInterpreter::execute` and `wide` in src/vm/Interpreter.cpp that touch only
-- the frame, where the source writes them in the switch, and the predicates of the jumps on `int`.
pub mod Locals
use geevm.Prelude.{ℕ, Bool, none, some, ◌==◌, not, Result, ok, fault, ◌>>=◌, unreachable}
use geevm.Prelude.Int.{ltb_ℤ}
use geevm.Prelude.Words.{signed, sign_extend}
use geevm.Opcode.{Opcode}
use geevm.Opcode.Decoding.{opcode_of}
use geevm.Frame.{CallFrame, JvmType, int32, int64, float32, float64, reference, read_u1, read_u2}
use geevm.Frame.{push_operand, pop_operand, load_value, store_value}
use geevm.Interpreter.Arithmetic.{increment}

-- `loadAndPush<T>` and `popAndStore<T>`
unfoldable pub load_and_push : JvmType → ℕ → CallFrame → Result CallFrame
load_and_push t index f = do v ← load_value t index f; push_operand t v f

unfoldable pub pop_and_store : JvmType → ℕ → CallFrame → Result CallFrame
pop_and_store t index f = do (v, f) ← pop_operand t f; store_value t index v f

-- The forms with the index in the code.
unfoldable pub load_indexed : JvmType → CallFrame → Result CallFrame
unfolding load_and_push
load_indexed t f = do (index, f) ← read_u1 f; load_and_push t index f

unfoldable pub store_indexed : JvmType → CallFrame → Result CallFrame
unfolding pop_and_store
store_indexed t f = do (index, f) ← read_u1 f; pop_and_store t index f

unfoldable pub bipush : CallFrame → Result CallFrame
bipush f = do (b, f) ← read_u1 f; push_operand int32 (sign_extend 8 32 b) f

unfoldable pub sipush : CallFrame → Result CallFrame
sipush f = do (s, f) ← read_u2 f; push_operand int32 (sign_extend 16 32 s) f

unfoldable pub iinc : CallFrame → Result CallFrame
iinc f = do
  (index, f) ← read_u1 f
  (constant, f) ← read_u1 f
  increment index (sign_extend 8 32 constant) f

-- `wide`, behind the modified opcode and the index
pub wide_instruction : Opcode → ℕ → CallFrame → Result CallFrame
unfolding load_and_push pop_and_store
wide_instruction Opcode.iinc index f = do
  (constant, f) ← read_u2 f
  increment index (sign_extend 16 32 constant) f
wide_instruction Opcode.iload index f = load_and_push int32 index f
wide_instruction Opcode.lload index f = load_and_push int64 index f
wide_instruction Opcode.fload index f = load_and_push float32 index f
wide_instruction Opcode.dload index f = load_and_push float64 index f
wide_instruction Opcode.aload index f = load_and_push reference index f
wide_instruction Opcode.istore index f = pop_and_store int32 index f
wide_instruction Opcode.lstore index f = pop_and_store int64 index f
wide_instruction Opcode.fstore index f = pop_and_store float32 index f
wide_instruction Opcode.dstore index f = pop_and_store float64 index f
wide_instruction Opcode.astore index f = pop_and_store reference index f
wide_instruction _ index f = fault unreachable

unfoldable pub wide : CallFrame → Result CallFrame
unfolding wide_instruction
wide f = do
  (b, f) ← read_u1 f
  (index, f) ← read_u2 f
  elim (opcode_of b) [ none ↦ fault unreachable | some op ↦ wide_instruction op index f ]

-- MONITORENTER and MONITOREXIT
unfoldable pub monitor : CallFrame → Result CallFrame
monitor f = do (_, f) ← pop_operand reference f; ok f

-- The predicates of the jumps on `int`.
abbrev pub equal_to : ℕ → ℕ → Bool
equal_to a b = a == b

abbrev pub not_equal_to : ℕ → ℕ → Bool
not_equal_to a b = not (a == b)

abbrev pub int_less : ℕ → ℕ → Bool
int_less a b = ltb_ℤ (signed 32 a) (signed 32 b)

abbrev pub int_greater : ℕ → ℕ → Bool
int_greater a b = int_less b a

abbrev pub int_less_equal : ℕ → ℕ → Bool
int_less_equal a b = not (int_less b a)

abbrev pub int_greater_equal : ℕ → ℕ → Bool
int_greater_equal a b = not (int_less a b)
