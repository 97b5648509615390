-- ===== src/Interpreter/Tests.antt =====
-- Runs of the interpreter of src/vm/Interpreter.cpp on small frames.
use geevm.Prelude.{◌>>=◌, fault, undefined}
use geevm.Prelude.Text.{codes}
use geevm.Interpreter.Machine.{throw_new}
use geevm.Prelude.{◌^◌, ◌≡◌, ◌≢◌, inl, refl, [], ◌∷◌, ok, arith, ◌-◌, inr, some, ℕ}
use geevm.Prelude.Int.{pos, negsuc, ◌+ℤ◌, ◌-ℤ◌, ◌*ℤ◌}
use geevm.Prelude.Words.{signed, pattern_of}
use geevm.Interpreter.Arithmetic.{compare_op, simple_op, div, rem}
use geevm.Interpreter.Arithmetic.Comparisons.{Compares, compare_op-Compares}
use geevm.Interpreter.Machine.{Machine}
use geevm.Interpreter.Instructions.{load_and_push, pop_and_store}
use geevm.Interpreter.Instructions.Locals.{RoundTrip, load_and_push-pop_and_store}
use geevm.Interpreter.Arrays.{array_load}
use geevm.Interpreter.Arrays.Loading.{Loads, array_load-Loads}
use geevm.Interpreter.Execute.{execute, returned}
use geevm.Interpreter.Samples.{frame_with, no_classes, zeros, machine_with, three_elements}
use geevm.Frame.{CallFrame, int32, int64, new_frame}
use geevm.Frame.Stack.{Holds, Holds-self}
use geevm.Frame.Operands.{one_slot, two_slots}
use geevm.Interpreter.StackOps.{swap, by_swap, LeadsTo, Rearranges-LeadsTo}
use geevm.Interpreter.Arithmetic.InPlace.{Operands, simple_op-LeadsTo}
use geevm.Interpreter.Arithmetic.Quotients.{Divided, div-Divided, rem-Divided, div-throw_new}
use geevm.Interpreter.Integers.{wrap_add, wrap_sub, wrap_mul}
use geevm.Interpreter.Integers.Wrapping.{wrap_arithmetic}
use geevm.Interpreter.Machine.{throw_new}

abbrev two_ints : CallFrame
two_ints = frame_with (20 ∷ 7 ∷ 3 ∷ 0 ∷ 0 ∷ []) 3 []

abbrev two_longs : CallFrame
two_longs = frame_with (20 ∷ 0 ∷ 3 ∷ 0 ∷ 0 ∷ []) 4 []

two_ints-Holds : Holds two_ints (3 ∷ 7 ∷ 20 ∷ []) two_ints
two_ints-Holds = Holds-self two_ints (omega arith)

two_longs-Holds : Holds two_longs (0 ∷ 3 ∷ 0 ∷ 20 ∷ []) two_longs
two_longs-Holds = Holds-self two_longs (omega arith)

Rearranges-LeadsTo_example : LeadsTo two_ints (7 ∷ 3 ∷ 20 ∷ []) (swap two_ints)
Rearranges-LeadsTo_example = Rearranges-LeadsTo two_ints by_swap two_ints-Holds (omega arith)

simple_op-LeadsTo_example : LeadsTo two_ints (10 ∷ 20 ∷ []) (simple_op int32 (wrap_add 32) two_ints)
unfolding wrap_add
simple_op-LeadsTo_example =
    simple_op-LeadsTo int32 (wrap_add 32) 7 3 _ _ two_ints (Operands.one_slot refl) two_ints-Holds

wrap_arithmetic_example :
    (wrap_add 32 5 (2 ^ 32 - 7) ≡ pattern_of 32 (signed 32 5 +ℤ signed 32 (2 ^ 32 - 7)))
    × (wrap_sub 32 5 (2 ^ 32 - 7) ≡ pattern_of 32 (signed 32 5 -ℤ signed 32 (2 ^ 32 - 7)))
    × (wrap_mul 32 5 (2 ^ 32 - 7) ≡ pattern_of 32 (signed 32 5 *ℤ signed 32 (2 ^ 32 - 7)))
wrap_arithmetic_example = wrap_arithmetic 32 5 (2 ^ 32 - 7) (inl refl) (omega arith) (omega arith)

div-Divided_example :
    (f : CallFrame) × (div no_classes zeros int64 (machine_with two_longs)
      ≡ ok (record (machine_with two_longs) { frame = f }))
    × Divided int64 two_longs [] (pos 6) f
div-Divided_example =
    div-Divided no_classes zeros int64 refl 20 3 [] (0 ∷ 20 ∷ []) (0 ∷ 3 ∷ 0 ∷ 20 ∷ [])
      (two_slots 0 refl) (two_slots 0 refl) (λ e. omega arith) (λ e. cc) (machine_with two_longs)
      two_longs-Holds

rem-Divided_example :
    (f : CallFrame) × (rem zeros int64 two_longs ≡ ok f) × Divided int64 two_longs [] (pos 2) f
rem-Divided_example =
    rem-Divided no_classes zeros int64 refl 20 3 [] (0 ∷ 20 ∷ []) (0 ∷ 3 ∷ 0 ∷ 20 ∷ [])
      (two_slots 0 refl) (two_slots 0 refl) (λ e. omega arith) (λ e. cc) two_longs two_longs
      two_longs-Holds

abbrev zero_divisor : CallFrame
zero_divisor = frame_with (20 ∷ 7 ∷ 0 ∷ 0 ∷ []) 3 []

zero_divisor-Holds : Holds zero_divisor (0 ∷ 7 ∷ 20 ∷ []) zero_divisor
zero_divisor-Holds = Holds-self zero_divisor (omega arith)

div-throw_new_example :
    (f : CallFrame) × Holds zero_divisor (20 ∷ []) f
    × (div no_classes zeros int32 (machine_with zero_divisor)
        ≡ throw_new no_classes
            (codes "java/lang/ArithmeticException")
            (codes "Divison by zero")
            (record (machine_with zero_divisor) { frame = f })
          >>= λ thrown. fault undefined)
    × ((m' : Machine (Unit {0})) → div no_classes zeros int32 (machine_with zero_divisor) ≢ ok m')
div-throw_new_example =
    div-throw_new no_classes zeros int32 refl 7 0 (20 ∷ []) (7 ∷ 20 ∷ []) (0 ∷ 7 ∷ 20 ∷ [])
      (one_slot refl) (one_slot refl) refl (machine_with zero_divisor) zero_divisor-Holds

load_and_push-pop_and_store_example :
    (stored : CallFrame) × (loaded : CallFrame) × (pop_and_store int64 1 two_longs ≡ ok stored)
    × (load_and_push int64 1 stored ≡ ok loaded)
    × RoundTrip int64 1 3 (0 ∷ 20 ∷ []) two_longs stored loaded
load_and_push-pop_and_store_example =
    load_and_push-pop_and_store int64 1 3 (0 ∷ 20 ∷ []) (0 ∷ 3 ∷ 0 ∷ 20 ∷ []) two_longs
      (omega arith) (two_slots 0 refl) two_longs-Holds

abbrev array_operands : CallFrame
array_operands = frame_with (20 ∷ 6 ∷ 2 ∷ 0 ∷ []) 3 []

array_load-Loads_example :
    Loads no_classes int32 2 6
      (20 ∷ [])
      (machine_with array_operands)
      (array_load no_classes int32 (machine_with array_operands))
array_load-Loads_example =
    array_load-Loads no_classes int32 2 6 (20 ∷ []) (machine_with array_operands)
      (Holds-self array_operands (omega arith))
      (inr (three_elements, λ e. omega arith, refl, omega arith))

-- iconst_3, iconst_4, imul, ireturn
abbrev program : Machine (Unit {0})
program = machine_with (new_frame 0 2 (6 ∷ 7 ∷ 104 ∷ 172 ∷ []))

program-returned :
    (m : Machine (Unit {0})) × (execute no_classes zeros [] 4 program ≡ ok (returned (some 12) m))
unfolding execute wrap_mul geevm.Interpreter.Execute.step geevm.Frame.read_u1 new_frame
    geevm.Opcode.Decoding.opcode_of geevm.Frame.push_operand ◌+ℤ◌ simple_op geevm.Frame.pop_operand
    geevm.Frame.top_of_stack
program-returned = (_, refl)

compare_op-Compares_example :
    (f : CallFrame) × (r : ℕ) × (compare_op zeros int64 (negsuc 0) two_longs ≡ ok f)
    × Holds two_longs (r ∷ []) f
    × Compares (pos 20) (pos 3) (signed 32 r)
compare_op-Compares_example =
    compare_op-Compares zeros (negsuc 0) 20 3 [] (0 ∷ 20 ∷ []) (0 ∷ 3 ∷ 0 ∷ 20 ∷ []) two_longs
      two_longs (two_slots 0 refl) (two_slots 0 refl) two_longs-Holds
