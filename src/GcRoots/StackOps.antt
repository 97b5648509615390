-- ===== src/GcRoots/StackOps.antt =====
-- DUP to SWAP of src/vm/GcRoots.cpp, on the flags of the operand stack.
use geevm.Prelude.{Result, ◌>>=◌}
use geevm.GcRoots.{AbstractInterpreter, push_flag, take_flag}

-- The instructions that rearrange the stack, on the flags.
unfoldable pub dup : AbstractInterpreter → Result AbstractInterpreter
dup a = do (value, a) ← take_flag a; a ← push_flag value a; push_flag value a

unfoldable pub dup_x1 : AbstractInterpreter → Result AbstractInterpreter
dup_x1 a = do
  (value1, a) ← take_flag a
  (value2, a) ← take_flag a
  a ← push_flag value1 a
  a ← push_flag value2 a
  push_flag value1 a

unfoldable pub dup_x2 : AbstractInterpreter → Result AbstractInterpreter
dup_x2 a = do
  (value1, a) ← take_flag a
  (value2, a) ← take_flag a
  (value3, a) ← take_flag a
  a ← push_flag value1 a
  a ← push_flag value3 a
  a ← push_flag value2 a
  push_flag value1 a

unfoldable pub dup2 : AbstractInterpreter → Result AbstractInterpreter
dup2 a = do
  (value1, a) ← take_flag a
  (value2, a) ← take_flag a
  a ← push_flag value2 a
  a ← push_flag value1 a
  a ← push_flag value2 a
  push_flag value1 a

unfoldable pub dup2_x1 : AbstractInterpreter → Result AbstractInterpreter
dup2_x1 a = do
  (value1, a) ← take_flag a
  (value2, a) ← take_flag a
  (value3, a) ← take_flag a
  a ← push_flag value2 a
  a ← push_flag value1 a
  a ← push_flag value3 a
  a ← push_flag value2 a
  push_flag value1 a

unfoldable pub dup2_x2 : AbstractInterpreter → Result AbstractInterpreter
dup2_x2 a = do
  (value1, a) ← take_flag a
  (value2, a) ← take_flag a
  (value3, a) ← take_flag a
  (value4, a) ← take_flag a
  a ← push_flag value2 a
  a ← push_flag value1 a
  a ← push_flag value4 a
  a ← push_flag value3 a
  a ← push_flag value2 a
  push_flag value1 a

unfoldable pub swap : AbstractInterpreter → Result AbstractInterpreter
swap a = do
  (value1, a) ← take_flag a
  (value2, a) ← take_flag a
  a ← push_flag value1 a
  push_flag value2 a
