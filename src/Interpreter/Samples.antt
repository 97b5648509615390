-- ===== src/Interpreter/Samples.antt =====
-- Small frames and machines for the tests of src/vm/Interpreter.cpp.
use geevm.Prelude.{◌==◌, if◌then◌else◌, ℕ, true, false, List, [], ◌∷◌, none, some, ok}
use geevm.Prelude.Int.{pos}
use geevm.Instance.{Heap, JavaArray, array, instance_of, value}
use geevm.Frame.{CallFrame}
use geevm.Interpreter.Machine.{Machine, Runtime, Floats}

-- A frame with some slots in use, and a little code.
abbrev pub frame_with : List ℕ → ℕ → List ℕ → CallFrame
frame_with stack depth code = record {
  local_variables = 11 ∷ 12 ∷ 13 ∷ [];
  operand_stack = stack;
  stack_pointer = depth;
  position = pos 1;
  code = code;
}

-- A runtime with no classes, whose exception objects are the object 5, and floating-point numbers
-- that are all zero.
abbrev pub no_classes : Runtime (Unit {0})
no_classes = record {
  new_throwable = λ name message h w. ok (5, h, w);
  is_instance_of = λ w k c. k == c;
  element_class = λ w k. none;
  get_class = λ w k. value k;
  java_class_name = λ w k. [];
  other_instruction = λ op m. ok m;
}

abbrev pub zeros : Floats
zeros = record {
  add = λ t a b. 0;
  sub = λ t a b. 0;
  mul = λ t a b. 0;
  div = λ t a b. 0;
  fmod = λ t a b. 0;
  neg = λ t a. 0;
  floor = λ t a. 0;
  ceil = λ t a. 0;
  less = λ t a b. false;
  equal = λ t a b. true;
  is_nan = λ t a. false;
  of_int = λ t z. 0;
  to_int = λ t a. pos 0;
  convert = λ s t a. 0;
}

-- The heap has an exception object 5 of class 9, and the array 6.
abbrev pub three_elements : JavaArray
three_elements = record { klass = 4; elements = 40 ∷ 41 ∷ 42 ∷ [] }

abbrev pub small_heap : Heap
small_heap r =
    if r == 5 then some (instance_of 9) else if r == 6 then some (array three_elements) else none

abbrev pub machine_with : CallFrame → Machine (Unit {0})
machine_with f = record {
  frame = f;
  exception = none;
  has_uncaught_exception = false;
  heap = small_heap;
  world = tt;
}
