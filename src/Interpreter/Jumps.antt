-- ===== src/Interpreter/Jumps.antt =====
-- The branches of src/vm/Interpreter.cpp: conditional jumps, `goto`, and the two switches.
mod Tests
mod Targets
mod Switches
use geevm.Prelude.{ℕ, zero, suc, ◌+◌, ◌-◌, ◌%◌, ◌^◌, ◌≡◌, Bool, true, false, ◌==◌, ltb, leb, ◌&&◌}
use geevm.Prelude.{◌||◌, if◌then◌else◌, Option, none, some, List, [], ◌∷◌, Result, ok, fault, ◌>>=◌}
use geevm.Prelude.{◌>>◌, guard, assertion, undefined, get_elem?, not, panic}
use geevm.Prelude.Int.{ℤ, pos, negsuc, ◌+ℤ◌, ◌-ℤ◌, ltb_ℤ}
use geevm.Prelude.Words.{signed}
use geevm.Frame.{CallFrame, JvmType, int32, pop_operand, read_u1, read_u2, read_u4, set_position}
use geevm.Frame.{element}
use geevm.Interpreter.Integers.{checked}

-- `programCounter() - 1`, read behind the opcode
abbrev pub opcode_position : CallFrame → ℤ
opcode_position f = f.position -ℤ pos 1

-- A test on the popped values decides whether to go to the offset from the opcode.
abbrev pub jump_if : Bool → ℤ → CallFrame → CallFrame
jump_if taken target f = if taken then set_position target f else f

-- `binaryJumpIf<T, Func>`
pub binary_jump_if : JvmType → (ℕ → ℕ → Bool) → CallFrame → Result CallFrame
binary_jump_if t test f = do
  let opcode_pos = opcode_position f
  (val2, f) ← pop_operand t f
  (val1, f) ← pop_operand t f
  (offset, f) ← read_u2 f
  ok (jump_if (test val1 val2) (opcode_pos +ℤ signed 16 offset) f)

-- `unaryJumpIf<T, CheckedValue, Func>`
pub unary_jump_if : JvmType → ℕ → (ℕ → ℕ → Bool) → CallFrame → Result CallFrame
unary_jump_if t checked_value test f = do
  let opcode_pos = opcode_position f
  (value, f) ← pop_operand t f
  (offset, f) ← read_u2 f
  ok (jump_if (test value checked_value) (opcode_pos +ℤ signed 16 offset) f)

-- GOTO and GOTO_W
pub goto : CallFrame → Result CallFrame
goto f = do
  let opcode_pos = opcode_position f
  (offset, f) ← read_u2 f
  ok (set_position (opcode_pos +ℤ signed 16 offset) f)

pub goto_w : CallFrame → Result CallFrame
goto_w f = do
  let opcode_pos = opcode_position f
  (offset, f) ← read_u4 f
  ok (set_position (opcode_pos +ℤ signed 32 offset) f)

-- `mCurrentFrame->programCounter() % 4 == 0`
abbrev pub is_aligned : ℤ → Bool
is_aligned (pos n) = n % 4 == 0
is_aligned (negsuc n) = suc n % 4 == 0

-- The loop that skips padding. At most three bytes are skipped, so fuel 4 is enough.
skip_padding : ℕ → CallFrame → Result CallFrame
skip_padding zero f = fault undefined
skip_padding (suc fuel) f = elim (is_aligned f.position) [
  | true ↦ ok f
  | false ↦ read_u1 f >>= λ r. skip_padding fuel r.1
]

-- `numPairs` pairs of a value and an offset
read_pairs : ℕ → CallFrame → Result (List (ℕ × ℕ) × CallFrame)
read_pairs zero f = ok ([], f)
read_pairs (suc n) f = do
  (match_value, f) ← read_u4 f
  (offset, f) ← read_u4 f
  (pairs, f) ← read_pairs n f
  ok ((match_value, offset) ∷ pairs, f)

-- The loop over the pairs: the offset of the first one with the key.
find_pair : ℕ → List (ℕ × ℕ) → Option ℕ
find_pair key [] = none
find_pair key ((value, offset) ∷ pairs) = if value == key then some offset else find_pair key pairs

abbrev pub offset_or : Option ℕ → ℕ → ℕ
offset_or none default_offset = default_offset
offset_or (some offset) default_offset = offset

-- How often a loop `for (int32_t i = 0; i < count; i++)` runs.
abbrev pub rounds : ℤ → ℕ
rounds (pos n) = n
rounds (negsuc n) = 0

pub lookup_switch : CallFrame → Result CallFrame
unfolding skip_padding read_pairs find_pair
lookup_switch f = do
  let opcode_pos = opcode_position f
  f ← skip_padding 4 f
  (default_offset, f) ← read_u4 f
  (num_pairs, f) ← read_u4 f
  (pairs, f) ← read_pairs (rounds (signed 32 num_pairs)) f
  (key, f) ← pop_operand int32 f
  ok (set_position (opcode_pos +ℤ signed 32 (offset_or (find_pair key pairs) default_offset)) f)

-- `count` offsets
read_table : ℕ → CallFrame → Result (List ℕ × CallFrame)
read_table zero f = ok ([], f)
read_table (suc n) f = do
  (offset, f) ← read_u4 f
  (table, f) ← read_table n f
  ok (offset ∷ table, f)

-- `table.at(index - low)`; an index that is out of range throws, and nothing catches it.
abbrev table_at : List ℕ → ℤ → Result ℕ
table_at table (pos i) = elim (get_elem? table i) [ none ↦ fault panic | some x ↦ ok x ]
table_at table (negsuc i) = fault panic

pub table_switch : CallFrame → Result CallFrame
unfolding skip_padding read_table
table_switch f = do
  let opcode_pos = opcode_position f
  f ← skip_padding 4 f
  (default_offset, f) ← read_u4 f
  (low, f) ← read_u4 f
  (high, f) ← read_u4 f
  guard (not (ltb_ℤ (signed 32 high) (signed 32 low))) assertion
  difference ← checked 32 (signed 32 high -ℤ signed 32 low)
  count ← checked 32 (signed 32 difference +ℤ pos 1)
  (table, f) ← read_table (rounds (signed 32 count)) f
  (index, f) ← pop_operand int32 f
  if ltb_ℤ (signed 32 index) (signed 32 low) || ltb_ℤ (signed 32 high) (signed 32 index)
      then ok (set_position (opcode_pos +ℤ signed 32 default_offset) f)
      else do
        target ← table_at table (signed 32 index -ℤ signed 32 low)
        ok (set_position (opcode_pos +ℤ signed 32 target) f)
