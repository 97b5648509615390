-- ===== src/GcRoots/Tests.antt =====
-- Instructions that src/vm/GcRoots.cpp interprets, and a run over a short method.
use geevm.Prelude.{ℕ, ◌≡◌, refl, true, false, List, Bool, [], ◌∷◌, ◌++◌, replicate, ok, arith}
use geevm.Prelude.{fault, undefined}
use geevm.Opcode.{Opcode}
use geevm.ByteStream.{stream_of}
use geevm.GcRoots.{AbstractInterpreter, Constants}
use geevm.GcRoots.Execute.{execute_opcode}
use geevm.GcRoots.Compute.{find_opcode, execute_from}
use geevm.GcRoots.Width.{bytes_consumed_by_opcode}
use geevm.GcRoots.Flags.{Flags, Leaves}
use geevm.GcRoots.Effects.{execute_opcode-Leaves}
use geevm.GcRoots.Shuffles.{Shuffles-Leaves, dups2_x1}
use geevm.GcRoots.Advancing.{execute_opcode-Advances}
use geevm.GcRoots.Advancing.Members.{Advances}
use geevm.GcRoots.Walking.{Instruction, find_opcode-bytes_of, bytes_of}
use geevm.GcRoots.Rounds.{Runs, execute_from-Runs}

abbrev constants : Constants
constants = record {
  tag_at = λ i. fault undefined;
  field_ref = λ i. fault undefined;
  method_ref = λ i. fault undefined;
}

-- In front of the `aload_0; bipush 7; laload; lstore_1` of a method, with the given stack.
abbrev with_stack : List Bool → ℕ → AbstractInterpreter
with_stack operand_stack stack_pointer = record {
  code = stream_of (42 ∷ 16 ∷ 7 ∷ 47 ∷ 64 ∷ []);
  local_variables = true ∷ false ∷ false ∷ [];
  operand_stack = operand_stack;
  stack_pointer = stack_pointer;
  end_pos = 4;
}

abbrev before_load : AbstractInterpreter
before_load = with_stack (true ∷ true ∷ false ∷ false ∷ []) 3

before_load-Flags : Flags before_load (false ∷ true ∷ true ∷ []) before_load
before_load-Flags = record {
  flags_are = refl;
  depth = refl;
  bounded = omega arith;
  capacity = refl;
  small = omega arith;
  locals_kept = refl;
  code_kept = refl;
  end_kept = refl;
}

-- An index over an array, and a reference below: `laload` leaves the two slots of a long.
execute_opcode-Leaves_example :
    Leaves before_load
      (false ∷ false ∷ true ∷ [])
      (execute_opcode constants Opcode.laload before_load)
execute_opcode-Leaves_example =
    execute_opcode-Leaves constants Opcode.laload (true ∷ []) before_load refl before_load-Flags
      (omega arith)

abbrev before_dup : AbstractInterpreter
before_dup = with_stack (true ∷ true ∷ false ∷ false ∷ false ∷ []) 3

before_dup-Flags : Flags before_dup (false ∷ true ∷ true ∷ []) before_dup
before_dup-Flags = record {
  flags_are = refl;
  depth = refl;
  bounded = omega arith;
  capacity = refl;
  small = omega arith;
  locals_kept = refl;
  code_kept = refl;
  end_kept = refl;
}

Shuffles-Leaves_example :
    Leaves before_dup
      (false ∷ true ∷ true ∷ false ∷ true ∷ [])
      (execute_opcode constants Opcode.dup2_x1 before_dup)
Shuffles-Leaves_example =
    Shuffles-Leaves constants before_dup dups2_x1 before_dup-Flags (omega arith)

execute_opcode-Advances_example :
    Advances
      (bytes_consumed_by_opcode Opcode.bipush)
      before_load
      (execute_opcode constants Opcode.bipush before_load)
execute_opcode-Advances_example =
    execute_opcode-Advances constants Opcode.bipush before_load (λ e. cc)

execute_from-Runs_example :
    Runs constants
      (with_stack (replicate 4 false) 0)
      (execute_from 4 constants (with_stack (replicate 4 false) 0))
execute_from-Runs_example =
    execute_from-Runs 4 constants (with_stack (replicate 4 false) 0) (omega arith)

abbrev aload_0 : Instruction
unfolding bytes_consumed_by_opcode
aload_0 = record { opcode = Opcode.aload_0; operands = []; width = refl }

abbrev bipush_7 : Instruction
unfolding bytes_consumed_by_opcode
bipush_7 = record { opcode = Opcode.bipush; operands = 7 ∷ []; width = refl }

-- The frame stands behind `bipush 7`, whose opcode is the second byte.
find_opcode-bytes_of_example :
    find_opcode 3 3 0 (stream_of (bytes_of ((aload_0 ∷ []) ++ bipush_7 ∷ aload_0 ∷ []))) ≡ ok 1
unfolding aload_0
find_opcode-bytes_of_example =
    find_opcode-bytes_of (aload_0 ∷ []) bipush_7 (aload_0 ∷ []) 3 (omega arith) (omega arith)
