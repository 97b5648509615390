-- ===== src/Interpreter/Exceptions/Tests.antt =====
-- Exceptions of src/vm/Interpreter.cpp on a table of three entries.
use geevm.Prelude.{◌≡◌, ◌↔◌, refl, inl, Bool, List, [], ◌∷◌, some, ok, arith}
use geevm.Prelude.Int.{◌-ℤ◌}
use geevm.Instance.{instance_of}
use geevm.Frame.{CallFrame}
use geevm.Frame.Stack.{Holds-self}
use geevm.Interpreter.Samples.{frame_with, no_classes, machine_with}
use geevm.Interpreter.Machine.{Machine}
use geevm.Interpreter.Exceptions.{ExceptionTableEntry, try_handle_exception, with_exception_check}
use geevm.Interpreter.Exceptions.{athrow}
use geevm.Interpreter.Exceptions.Handlers.{catch_class, out_of_range, other_class, Handles, found}
use geevm.Interpreter.Exceptions.Handlers.{skipped, try_handle_exception-Handles_iff, Thrown}
use geevm.Interpreter.Exceptions.Handlers.{athrow-Thrown}

-- The first entry is for later positions, the second for another class, the third for class 9.
abbrev table : List ExceptionTableEntry
table =
    record { start_pc = 4; end_pc = 8; handler_pc = 50; catch_type = 0 }
    ∷ record { start_pc = 0; end_pc = 4; handler_pc = 60; catch_type = 7 }
    ∷ record { start_pc = 0; end_pc = 4; handler_pc = 70; catch_type = 9 }
    ∷ []

table-Handles : Handles no_classes tt 9 0 table (some 70)
table-Handles = skipped (out_of_range (inl (omega arith))) (
    skipped (other_class 7 (λ e. omega arith) refl refl)
      (found (catch_class 9 (omega arith) (omega arith) (λ e. omega arith) refl refl)))

try_handle_exception-Handles_iff_example :
    (try_handle_exception no_classes tt 9 0 table ≡ ok (some 70))
    ↔ Handles no_classes tt 9 0 table (some 70)
try_handle_exception-Handles_iff_example =
    try_handle_exception-Handles_iff no_classes tt 9 0 table (some 70)

abbrev thrower : CallFrame
thrower = frame_with (20 ∷ 7 ∷ 5 ∷ 0 ∷ []) 3 []

athrow-Thrown_example :
    (m : Machine (Unit {0})) × (leaves : Bool) × (with_exception_check no_classes table
        (athrow no_classes (machine_with thrower))
      ≡ ok (m, leaves))
    × Thrown no_classes (machine_with thrower) 5 (some 70) m leaves
unfolding ◌-ℤ◌
athrow-Thrown_example =
    athrow-Thrown no_classes (machine_with thrower) 5 (7 ∷ 20 ∷ []) (instance_of 9) table (some 70)
      refl refl (λ e. omega arith) (omega arith) (Holds-self thrower (omega arith)) refl
      table-Handles
