-- ===== src/Interpreter.antt =====
-- src/vm/Interpreter.cpp: the instructions by what they touch, then the loop that executes them.
mod Tests
pub mod Samples
pub mod StackOps
pub mod Integers
pub mod Machine
pub mod Arithmetic
pub mod Jumps
pub mod Arrays
pub mod Exceptions
pub mod Instructions
pub mod Execute
