-- ===== src/Interpreter/Jumps/Tests.antt =====
-- Jumps of src/vm/Interpreter.cpp on small pieces of code, with the opcode at the index 0.
use geevm.Prelude.{ℕ, ◌≡◌, refl, ltb, List, [], ◌∷◌, ◌++◌, ok, arith}
use geevm.Prelude.Int.{pos, ◌+ℤ◌}
use geevm.Frame.{CallFrame, int32}
use geevm.Frame.Stack.{Holds, Holds-self}
use geevm.Frame.Reading.{IsAt, bytes4}
use geevm.Interpreter.Samples.{frame_with}
use geevm.Interpreter.Jumps.{binary_jump_if, lookup_switch, table_switch}
use geevm.Interpreter.Jumps.Targets.{Arrives, binary_jump_if-Arrives}
use geevm.Interpreter.Jumps.Switches.{Padding, first_match, later_match, lookup_switch-Arrives}
use geevm.Interpreter.Jumps.Switches.{inside, table_switch-Arrives, pair_bytes, table_bytes}

-- An opcode, and what follows it.
abbrev jumper : List ℕ → CallFrame
jumper bytes = frame_with (20 ∷ 7 ∷ 3 ∷ 0 ∷ []) 3 (0 ∷ bytes)

jumper-Holds : (bytes : List ℕ) → Holds (jumper bytes) (3 ∷ 7 ∷ 20 ∷ []) (jumper bytes)
jumper-Holds bytes = Holds-self (jumper bytes) (omega arith)

jumper-IsAt : (bytes : List ℕ) → IsAt 1 bytes (jumper bytes)
jumper-IsAt bytes = record { position_is = refl; rest_is = refl }

binary_jump_if-Arrives_example :
    (f : CallFrame) × (binary_jump_if int32 ltb (jumper (0 ∷ 9 ∷ [])) ≡ ok f)
    × Arrives (jumper (0 ∷ 9 ∷ [])) (20 ∷ []) (pos 3) f
binary_jump_if-Arrives_example =
    binary_jump_if-Arrives int32 0 9 [] (20 ∷ []) (jumper (0 ∷ 9 ∷ [])) 7 3 ltb refl (omega arith)
      (jumper-IsAt _) (jumper-Holds _)

padding : Padding 1 (0 ∷ 0 ∷ 0 ∷ [])
padding = record { is_short = omega arith; reaches = refl }

abbrev pairs : List (ℕ × ℕ)
pairs = (1, 30) ∷ (3, 40) ∷ []

abbrev lookup_bytes : List ℕ
lookup_bytes = (0 ∷ 0 ∷ 0 ∷ []) ++ (bytes4 20 ++ (bytes4 2 ++ (pair_bytes pairs ++ [])))

lookup_switch-Arrives_example :
    (f : CallFrame) × (lookup_switch (jumper lookup_bytes) ≡ ok f)
    × Arrives (jumper lookup_bytes) (7 ∷ 20 ∷ []) (pos 40) f
unfolding ◌+ℤ◌
lookup_switch-Arrives_example =
    lookup_switch-Arrives 0 (0 ∷ 0 ∷ 0 ∷ []) (7 ∷ 20 ∷ []) [] 20 3 (jumper lookup_bytes) pairs 40
      padding (omega arith) (omega arith) (omega arith, omega arith, (omega arith, omega arith, tt))
      (jumper-IsAt _) (jumper-Holds _) (later_match (λ e. omega arith) first_match)

abbrev table_code : List ℕ
table_code =
    (0 ∷ 0 ∷ 0 ∷ [])
    ++ (bytes4 20 ++ (bytes4 2 ++ (bytes4 4 ++ (table_bytes (30 ∷ 40 ∷ 50 ∷ []) ++ []))))

table_switch-Arrives_example :
    (f : CallFrame) × (table_switch (jumper table_code) ≡ ok f)
    × Arrives (jumper table_code) (7 ∷ 20 ∷ []) (pos 40) f
unfolding ◌+ℤ◌
table_switch-Arrives_example =
    table_switch-Arrives 0 (0 ∷ 0 ∷ 0 ∷ []) (7 ∷ 20 ∷ []) [] 20 2 4 3 40 30 (40 ∷ 50 ∷ [])
      (jumper table_code) padding (omega arith, omega arith, omega arith) refl (omega arith)
      (omega arith, (omega arith, (omega arith, tt))) (jumper-IsAt _) (jumper-Holds _)
      (inside 1 refl refl)
