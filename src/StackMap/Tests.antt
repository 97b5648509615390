-- ===== src/StackMap/Tests.antt =====
-- A stack map of src/vm/StackMap.cpp with three entries.
use geevm.Prelude.{ℕ, ◌≡◌, refl, List, [], ◌∷◌, ◌++◌, some, ok, arith}
use geevm.Frame.Reading.{bytes2}
use geevm.StackMap.{FrameInfo, parse_stack_map, frame_at}
use geevm.StackMap.Frames.{Entry, same, appended, chopped, plain, object}
use geevm.StackMap.Lookup.{IsActive}
use geevm.StackMap.Parsing.{table_bytes, AreEntries, parse_stack_map-frames_from}
use geevm.StackMap.Parsing.{frame_at-parse_stack_map}

abbrev first : FrameInfo
first = record { start_pos = 0; local_variables = 7 ∷ []; operand_stack = [] }

abbrev at : ℕ → List ℕ → FrameInfo
at start locals = record { start_pos = start; local_variables = locals; operand_stack = [] }

abbrev entries : List Entry
entries = same 3 ∷ appended (plain 1 ∷ object 5 ∷ []) 10 ∷ chopped 1 2 ∷ []

entries-AreEntries : AreEntries 0 (7 ∷ []) entries
entries-AreEntries = (
  omega arith,
  omega arith,
  (
    (omega arith, omega arith, omega arith, ((λ e. omega arith, λ e. omega arith), (tt, tt))),
    omega arith,
    ((omega arith, omega arith, omega arith, omega arith), omega arith, tt),
  ),
)

abbrev frames : List FrameInfo
frames = first ∷ at 3 (7 ∷ []) ∷ at 14 (7 ∷ 1 ∷ 7 ∷ []) ∷ at 17 (7 ∷ 1 ∷ []) ∷ []

parse_stack_map-frames_from_example :
    parse_stack_map first (some (bytes2 3 ++ (table_bytes entries ++ []))) ≡ ok frames
parse_stack_map-frames_from_example =
    parse_stack_map-frames_from entries first (omega arith) entries-AreEntries

frame_at-parse_stack_map_example :
    (parsed : List FrameInfo) × (found : FrameInfo) × (parse_stack_map first
        (some (bytes2 3 ++ (table_bytes entries ++ [])))
      ≡ ok parsed)
    × (frame_at parsed 15 ≡ ok found)
    × IsActive parsed 15 found
frame_at-parse_stack_map_example =
    frame_at-parse_stack_map entries first 15 (omega arith) entries-AreEntries refl
