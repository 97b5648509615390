-- ===== src/GcRoots/Compute.antt =====
-- `FrameRoots` of src/vm/GcRoots.cpp: the loops that find the instruction at a position and interpret
-- the code up to it, and the references of a frame.
use geevm.Prelude.{ℕ, zero, suc, ◌+◌, Bool, true, false, Option, none, some, List, [], ◌∷◌, length}
use geevm.Prelude.{ltb, Result, ok, fault, ◌>>=◌, if◌then◌else◌, undefined}
use geevm.Opcode.Decoding.{opcode_of}
use geevm.ByteStream.{ByteStream, stream_of, read_u1, skip}
use geevm.StackMap.{FrameInfo, parse_stack_map, frame_at}
use geevm.Frame.{CallFrame, load_generic_value, stack_element_at}
use geevm.GcRoots.{AbstractInterpreter, Constants, new_interpreter, flag_at, next_u1}
use geevm.GcRoots.Execute.{execute_opcode}
use geevm.GcRoots.Width.{bytes_consumed_by_opcode}

-- A byte that is no opcode has no case in either switch.
abbrev pub bytes_consumed : ℕ → ℕ
bytes_consumed byte = elim (opcode_of byte) [
  | none ↦ 0
  | some opcode ↦ bytes_consumed_by_opcode opcode
]

abbrev pub execute_byte : Constants → ℕ → AbstractInterpreter → Result AbstractInterpreter
execute_byte constants byte a = elim (opcode_of byte) [
  | none ↦ ok a
  | some opcode ↦ execute_opcode constants opcode a
]

-- The loop of `FrameRoots::compute`: the position of the last opcode in front of `pos`. On fuel.
unfoldable pub find_opcode : ℕ → ℕ → ℕ → ByteStream → Result ℕ
find_opcode zero pos opcode_pos code = if ltb code.pos pos then fault undefined else ok opcode_pos
find_opcode (suc fuel) pos opcode_pos code = elim (ltb code.pos pos) [
  | false ↦ ok opcode_pos
  | true ↦ do
    (byte, rest) ← read_u1 code
    find_opcode fuel pos code.pos (skip (bytes_consumed byte) rest)
]

-- The loop of `AbstractInterpreter::execute`. On fuel.
unfoldable pub execute_from : ℕ → Constants → AbstractInterpreter → Result AbstractInterpreter
execute_from zero constants a = if ltb a.code.pos a.end_pos then fault undefined else ok a
execute_from (suc fuel) constants a = elim (ltb a.code.pos a.end_pos) [
  | false ↦ ok a
  | true ↦ do
    (byte, a) ← next_u1 a
    a ← execute_byte constants byte a
    execute_from fuel constants a
]

-- `AbstractInterpreter::execute`: each round reads a byte, so the end is reached in `end_pos` rounds.
unfoldable pub execute : Constants → ℕ → AbstractInterpreter → Result AbstractInterpreter
execute constants start_pos a =
    execute_from a.end_pos constants (record a { code = skip start_pos a.code })

-- What `FrameRoots::compute` reads of a `JMethod` that is neither native nor abstract.
pub record Method : Type 0 where
  pub max_locals : ℕ
  pub max_stack : ℕ
  pub code : List ℕ
  pub first_frame : FrameInfo
  pub stack_map_table : Option (List ℕ)
  pub constants : Constants

-- `FrameRoots`
pub record FrameRoots : Type 0 where
  pub local_variable_references : List Bool
  pub operand_stack_references : List Bool

-- `FrameRoots::compute`
unfoldable pub compute : Method → ℕ → Result FrameRoots
compute method pos = do
  opcode_pos ← find_opcode pos pos 0 (stream_of method.code)
  frames ← parse_stack_map method.first_frame method.stack_map_table
  frame_info ← frame_at frames opcode_pos
  interp ←
      new_interpreter method.max_locals method.max_stack method.code opcode_pos
        frame_info.local_variables frame_info.operand_stack
  interp ← execute method.constants frame_info.start_pos interp
  ok (record {
    local_variable_references = interp.local_variables;
    operand_stack_references = interp.operand_stack;
  })

-- The loops of `referencesInLocals` and `referencesInOperandStack`: an index and a value for each slot
-- that is flagged, from the index `i` on, `n` slots in all.
unfoldable pub references_from : (ℕ → Result ℕ) → List Bool → ℕ → ℕ → Result (List (ℕ × ℕ))
references_from value_at flags zero i = ok []
references_from value_at flags (suc n) i = do
  is_reference ← flag_at flags i
  let rest = references_from value_at flags n (i + 1)
  if is_reference then (do value ← value_at i; values ← rest; ok ((i, value) ∷ values)) else rest

-- A frame has the local variables that `maxLocals` counts.
unfoldable pub references_in_locals : FrameRoots → CallFrame → Result (List (ℕ × ℕ))
references_in_locals roots f =
    references_from (λ i. load_generic_value i f) roots.local_variable_references
      (length f.local_variables) 0

unfoldable pub references_in_operand_stack : FrameRoots → CallFrame → Result (List (ℕ × ℕ))
references_in_operand_stack roots f =
    references_from (λ i. stack_element_at i f) roots.operand_stack_references f.stack_pointer 0
