-- ===== src/Opcode/Tests.antt =====
-- Decoding of src/vm/Opcode.def at one byte.
use geevm.Prelude.{◌≡◌, ◌↔◌, some, arith}
use geevm.Opcode.{Opcode, code_of}
use geevm.Opcode.Decoding.{opcode_of, opcode_of_iff}

opcode_of_iff_example : (opcode_of 96 ≡ some Opcode.iadd) ↔ (code_of Opcode.iadd ≡ 96)
opcode_of_iff_example = opcode_of_iff 96 Opcode.iadd (omega arith)
