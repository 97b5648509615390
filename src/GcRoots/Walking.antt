-- ===== src/GcRoots/Walking.antt =====
-- That the loop of `FrameRoots::compute` in src/vm/GcRoots.cpp finds the instruction that the position of
-- a frame is in or right behind.
use geevm.Prelude.{ℕ, zero, suc, ◌+◌, ◌≤◌, ◌<◌, ◌≡◌, refl, List, [], ◌∷◌, ◌++◌, length}
use geevm.Prelude.{length-append, ok, arith, lt→ltb, le→ltb, ◌∙◌, ap, sym}
use geevm.Opcode.{Opcode, code_of}
use geevm.Opcode.Decoding.{opcode_of-code_of}
use geevm.ByteStream.{ByteStream, stream_of, skip}
use geevm.ByteStream.Reading.{Left, advanced, read_u1-Left, skip-Left}
use geevm.GcRoots.Width.{bytes_consumed_by_opcode}
use geevm.GcRoots.Compute.{find_opcode, bytes_consumed}

-- An opcode and the bytes behind it.
pub record Instruction : Type 0 where
  pub opcode : Opcode
  pub operands : List ℕ
  pub width : length operands ≡ bytes_consumed_by_opcode opcode

abbrev pub bytes_of : List Instruction → List ℕ
bytes_of [] = []
bytes_of (i ∷ is) = code_of i.opcode ∷ i.operands ++ bytes_of is

find_opcode-done :
    (fuel pos opcode_pos : ℕ) (s : ByteStream)
    → pos ≤ s.pos
    → find_opcode fuel pos opcode_pos s ≡ ok opcode_pos
unfolding find_opcode
find_opcode-done zero pos opcode_pos s h = rw (find_opcode, le→ltb s.pos pos h) refl
find_opcode-done (suc fuel) pos opcode_pos s h = rw (find_opcode, le→ltb s.pos pos h) refl

bytes_consumed-code_of :
    (opcode : Opcode) → bytes_consumed (code_of opcode) ≡ bytes_consumed_by_opcode opcode
bytes_consumed-code_of opcode = rw (bytes_consumed, opcode_of-code_of opcode) refl

-- One round in front of the position.
find_opcode-round :
    (fuel pos opcode_pos : ℕ) (i : Instruction) (rest : List ℕ) (s : ByteStream)
    → s.pos < pos
    → Left (code_of i.opcode ∷ i.operands ++ rest) s
    → (s' : ByteStream) × (find_opcode (suc fuel) pos opcode_pos s ≡ find_opcode fuel pos s.pos s')
      × (s'.pos ≡ s.pos + 1 + length i.operands)
      × Left rest s'
unfolding find_opcode skip
find_opcode-round fuel pos opcode_pos i rest s h left =
    let (e, left') = read_u1-Left (i.operands ++ rest) s (code_of i.opcode) left in
    (
      skip (length i.operands) (advanced s 1),
      rw (find_opcode, lt→ltb s.pos pos h, e)
          (ap (λ n. find_opcode fuel pos s.pos (skip n (advanced s 1)))
            (bytes_consumed-code_of i.opcode ∙ sym i.width)),
      refl,
      skip-Left rest (advanced s 1) i.operands left',
    )

find_opcode-from :
    (before : List Instruction) (i : Instruction) (after : List Instruction) (s : ByteStream)
    (fuel pos opcode_pos : ℕ)
    → Left (bytes_of (before ++ i ∷ after)) s
    → s.pos + length (bytes_of before) < pos
    → pos ≤ s.pos + length (bytes_of before) + 1 + length i.operands
    → pos ≤ s.pos + fuel
    → find_opcode fuel pos opcode_pos s ≡ ok (s.pos + length (bytes_of before))
find_opcode-from before i after s zero pos opcode_pos left above below enough = absurd (omega arith)
find_opcode-from [] i after s (suc fuel) pos opcode_pos left above below enough =
    let (s', e, p, left') =
      find_opcode-round fuel pos opcode_pos i (bytes_of after) s (omega arith) left in
    let same : s.pos ≡ s.pos + 0 = omega arith in
    e ∙ find_opcode-done fuel pos s.pos s' (omega arith) ∙ ap ok same
find_opcode-from (j ∷ js) i after s (suc fuel) pos opcode_pos left above below enough =
    let n = length-append j.operands (bytes_of js) in
    let (s', e, p, left') =
      find_opcode-round fuel pos opcode_pos j (bytes_of (js ++ i ∷ after)) s (omega arith) left in
    let there =
      find_opcode-from js i after s' fuel pos s.pos left' (omega arith) (omega arith)
        (omega arith) in
    let same : s'.pos + length (bytes_of js) ≡ s.pos + length (bytes_of (j ∷ js)) = omega arith in
    e ∙ there ∙ ap ok same

-- In code that is laid out from instructions whose widths are those of `bytes_consumed_by_opcode`, for
-- each position behind the opcode of an instruction and not behind its last byte, `pos` rounds are
-- enough, and the position that is found is that of the opcode of this instruction.
pub find_opcode-bytes_of :
    (before : List Instruction) (i : Instruction) (after : List Instruction) (pos : ℕ)
    → length (bytes_of before) < pos
    → pos ≤ length (bytes_of before) + 1 + length i.operands
    → find_opcode pos pos 0 (stream_of (bytes_of (before ++ i ∷ after)))
      ≡ ok (length (bytes_of before))
find_opcode-bytes_of before i after pos above below =
    let code = stream_of (bytes_of (before ++ i ∷ after)) in
    let same : 0 + length (bytes_of before) ≡ length (bytes_of before) = omega arith in
    find_opcode-from before i after code pos pos 0 refl (omega arith) (omega arith) (omega arith)
    ∙ ap ok same
