-- ===== src/Frame.antt =====
-- src/vm/Frame.h and src/vm/Frame.cpp: a call frame with its local variables, its operand stack and
-- its position in the byte code. Slots are 64-bit words. The arrays have `maxLocals` and `maxStack`
-- entries, so a failed bound of an `assert` and an access outside of an array are faults.
pub mod Slots
pub mod Stack
pub mod Reading
pub mod Replace
pub mod Operands
use geevm.Prelude.{ℕ, zero, suc, ◌+◌, ◌-◌, ◌*◌, ◌%◌, ◌^◌, ◌≤◌, ◌<◌, ◌≡◌, Bool, true, false, Option}
use geevm.Prelude.{none, some, List, [], ◌∷◌, ◌++◌, length, get_elem?, set, take, drop, replicate}
use geevm.Prelude.{ltb, leb, ◌==◌, if◌then◌else◌, Result, ok, fault, ◌>>=◌, ◌>>◌, guard, Fault}
use geevm.Prelude.{assertion, undefined}
use geevm.Prelude.Int.{ℤ, pos, negsuc, ◌+ℤ◌}
use geevm.Prelude.Words.{signed}

-- The C++ types of `JvmType`.
pub data JvmType : Type 0 where
  int8 int16 int32 int64 char16 float32 float64 uint32 reference : JvmType

-- `sizeof(T) * CHAR_BIT`
abbrev pub width : JvmType → ℕ
width int8 = 8
width int16 = 16
width int32 = 32
width int64 = 64
width char16 = 16
width float32 = 32
width float64 = 64
width uint32 = 32
width reference = 64

-- `CategoryTwoJvmType`
abbrev pub category_two : JvmType → Bool
category_two int64 = true
category_two float64 = true
category_two _ = false

pub record CallFrame : Type 0 where
  pub local_variables : List ℕ
  pub operand_stack : List ℕ
  pub stack_pointer : ℕ
  pub position : ℤ
  pub code : List ℕ

-- `CallFrame::CallFrame` for a method that is not native: zeroed arrays, at the first byte.
unfoldable pub new_frame : ℕ → ℕ → List ℕ → CallFrame
new_frame max_locals max_stack code = record {
  local_variables = replicate max_locals 0;
  operand_stack = replicate max_stack 0;
  stack_pointer = 0;
  position = pos 0;
  code = code;
}

-- An element of an array that the caller knows to be there.
abbrev pub element : List ℕ → ℕ → Result ℕ
element xs i = elim (get_elem? xs i) [ none ↦ fault undefined | some x ↦ ok x ]

-- Local variables

-- `storeValue`, of either category.
unfoldable pub store_value : JvmType → ℕ → ℕ → CallFrame → Result CallFrame
store_value t i v f = do
  guard (ltb i (length f.local_variables)) assertion
  guard (if category_two t then ltb (i + 1) (length f.local_variables) else true) assertion
  ok (record f { local_variables = set f.local_variables i v })

unfoldable pub store_generic_value : ℕ → ℕ → CallFrame → Result CallFrame
store_generic_value i v f = do
  guard (ltb i (length f.local_variables)) assertion
  ok (record f { local_variables = set f.local_variables i v })

unfoldable pub load_generic_value : ℕ → CallFrame → Result ℕ
load_generic_value i f = do
  guard (ltb i (length f.local_variables)) assertion
  element f.local_variables i

-- `loadValue` has no `assert`.
unfoldable pub load_value : JvmType → ℕ → CallFrame → Result ℕ
load_value t i f = do v ← element f.local_variables i; ok (v % 2 ^ width t)

-- The operand stack

pub push_generic_operand : ℕ → CallFrame → Result CallFrame
push_generic_operand v f = do
  guard (ltb f.stack_pointer (length f.operand_stack)) assertion
  ok (record f {
    operand_stack = set f.operand_stack f.stack_pointer v;
    stack_pointer = f.stack_pointer + 1;
  })

pub pop_generic_operand : CallFrame → Result (ℕ × CallFrame)
pop_generic_operand f = do
  guard (ltb 0 f.stack_pointer) assertion
  v ← element f.operand_stack (f.stack_pointer - 1)
  ok (v, record f { stack_pointer = f.stack_pointer - 1 })

-- The second half of `pushOperand`: the empty slot above a value of category two.
push_upper_slot : Bool → CallFrame → Result CallFrame
push_upper_slot false f = ok f
push_upper_slot true f = do
  guard (ltb f.stack_pointer (length f.operand_stack)) assertion
  ok (record f { stack_pointer = f.stack_pointer + 1 })

unfoldable pub push_operand : JvmType → ℕ → CallFrame → Result CallFrame
unfolding push_generic_operand push_upper_slot
push_operand t v f = push_generic_operand v f >>= push_upper_slot (category_two t)

pop_upper_slot : Bool → CallFrame → Result CallFrame
pop_upper_slot false f = ok f
pop_upper_slot true f = do
  guard (ltb 0 f.stack_pointer) assertion
  ok (record f { stack_pointer = f.stack_pointer - 1 })

unfoldable pub pop_operand : JvmType → CallFrame → Result (ℕ × CallFrame)
unfolding pop_generic_operand pop_upper_slot
pop_operand t f = do
  f' ← pop_upper_slot (category_two t) f
  (v, f'') ← pop_generic_operand f'
  ok (v % 2 ^ width t, f'')

-- `popMultiple` has no check: `mOperandStackPointer - count` on `size_t`.
unfoldable pub pop_multiple : ℕ → CallFrame → CallFrame
pop_multiple count f = record f { stack_pointer = (f.stack_pointer + 2 ^ 64 - count) % 2 ^ 64 }

unfoldable pub stack_element_at : ℕ → CallFrame → Result ℕ
stack_element_at i f = do guard (ltb i f.stack_pointer) assertion; element f.operand_stack i

-- The index of the slot that `topOfStack` points at.
unfoldable pub top_of_stack : CallFrame → Result ℕ
top_of_stack f = do
  guard (ltb f.stack_pointer (length f.operand_stack)) assertion
  ok f.stack_pointer

unfoldable pub advance_stack_pointer : ℕ → CallFrame → Result CallFrame
advance_stack_pointer count f = do
  guard (leb (f.stack_pointer + count) (length f.operand_stack)) assertion
  ok (record f { stack_pointer = f.stack_pointer + count })

-- `peek`, of a type of 64 bits.
unfoldable pub peek : ℕ → CallFrame → Result ℕ
peek entry f = do
  guard (leb (entry + 1) f.stack_pointer) assertion
  element f.operand_stack (f.stack_pointer - 1 - entry)

unfoldable pub replace_stack_value : ℕ → ℕ → CallFrame → Result CallFrame
replace_stack_value i v f = do
  guard (ltb i f.stack_pointer) assertion
  ok (record f { operand_stack = set f.operand_stack i v })

-- Copying a block of words over the start of an array, as `memcpy` does.
abbrev overwrite : List ℕ → List ℕ → List ℕ
overwrite src dst = src ++ drop (length src) dst

-- `prepareCall`: the frame of the callee with its arguments.
unfoldable pub prepare_call : ℕ → CallFrame → CallFrame → Result CallFrame
prepare_call num_args f other = do
  guard (leb num_args f.stack_pointer) assertion
  guard (leb f.stack_pointer (length f.operand_stack)) undefined
  guard (leb num_args (length other.local_variables)) undefined
  ok (record other {
    local_variables =
        overwrite (take num_args (drop (f.stack_pointer - num_args) f.operand_stack))
          other.local_variables;
  })

unfoldable pub clear_operand_stack : CallFrame → CallFrame
clear_operand_stack f = record f { stack_pointer = 0 }

-- The byte code

unfoldable pub set_position : ℤ → CallFrame → CallFrame
set_position target f = record f { position = target }

abbrev pub code_at : List ℕ → ℤ → Result ℕ
code_at code (pos n) = element code n
code_at code (negsuc n) = fault undefined

-- `next` and `readU1`
unfoldable pub read_u1 : CallFrame → Result (ℕ × CallFrame)
read_u1 f = do b ← code_at f.code f.position; ok (b, record f { position = f.position +ℤ pos 1 })

-- The bytes of a number stand in disjoint bits, so that `|` adds them.
unfoldable pub read_u2 : CallFrame → Result (ℕ × CallFrame)
read_u2 f = do
  b₀ ← code_at f.code f.position
  b₁ ← code_at f.code (f.position +ℤ pos 1)
  ok (b₀ * 2 ^ 8 + b₁, record f { position = f.position +ℤ pos 2 })

pub read_u4 : CallFrame → Result (ℕ × CallFrame)
read_u4 f = do
  b₀ ← code_at f.code f.position
  b₁ ← code_at f.code (f.position +ℤ pos 1)
  b₂ ← code_at f.code (f.position +ℤ pos 2)
  b₃ ← code_at f.code (f.position +ℤ pos 3)
  ok (b₀ * 2 ^ 24 + b₁ * 2 ^ 16 + b₂ * 2 ^ 8 + b₃, record f { position = f.position +ℤ pos 4 })
