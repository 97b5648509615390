-- ===== src/StackMap/Parsing.antt =====
-- `parseFrame` of src/vm/StackMap.cpp on each kind of entry.
use geevm.Prelude.{ℕ, ◌+◌, ◌-◌, ◌^◌, ◌≤◌, ◌<◌, ◌≡◌, refl, ap, true, false, List, [], ◌∷◌, ◌++◌}
use geevm.Prelude.{length, some, ok, arith, leb, ◌==◌, append_assoc}
use geevm.Prelude.Int.{pos-add, ℤ, pos, negsuc, ◌+ℤ◌, int_laws, pos_part, neg_part, eq_of_parts}
use geevm.Frame.Reading.{bytes2}
use geevm.ByteStream.{ByteStream, stream_of}
use geevm.ByteStream.Reading.{Left, advanced, read_u1-Left, read_u2-Left}
use geevm.StackMap.{FrameInfo, VerificationTypeInfo, next_offset, start_of, parse_kind, parse_frame}
use geevm.StackMap.{parse_frames, parse_stack_map, parse_same_locals_one_stack}
use geevm.StackMap.{parse_same_locals_one_stack_extended, parse_chop, parse_same_extended}
use geevm.StackMap.{parse_append, parse_full, frame_at}
use geevm.StackMap.Lookup.{IsSorted, IsActive, frame_at-IsActive}
use geevm.StackMap.Frames.{TypeInfo, type_bytes, IsTypeInfo, all_bytes, AreTypeInfos}
use geevm.StackMap.Frames.{read_type_info-Left, read_type_infos-Left, Entry, same}
use geevm.StackMap.Frames.{same_locals_one_stack, same_locals_one_stack_extended, chopped}
use geevm.StackMap.Frames.{same_extended, appended, full, delta_of, entry_bytes, IsEntry}
use geevm.StackMap.Frames.{locals_after, stack_after}

-- The frame of an entry that starts at `start`.
abbrev pub frame_after : Entry → List VerificationTypeInfo → ℕ → FrameInfo
frame_after e previous start = record {
  start_pos = start;
  local_variables = locals_after e previous;
  operand_stack = stack_after e;
}

module _ (previous : FrameInfo) (offset : ℤ) (rest : List ℕ) (s : ByteStream) where
  -- The parser reads the entry and stops behind it.
  abbrev Reads : Entry → Type 0
  Reads e =
      (s' : ByteStream) × (parse_frame s previous offset
        ≡ ok (
          frame_after e previous.local_variables (start_of (next_offset offset (delta_of e))),
          s',
          next_offset offset (delta_of e),
        ))
      × Left rest s'

  parse_frame-same : (delta : ℕ) → delta ≤ 63 → Left (delta ∷ rest) s → Reads (same delta)
  unfolding parse_frame parse_kind
  parse_frame-same delta le h =
      let (e, h') = read_u1-Left rest s delta h in
      let k : leb delta 63 ≡ true = ground arith in (advanced s 1, rw (e, k) refl, h')

  parse_frame-same_locals_one_stack :
      (delta : ℕ) (t : TypeInfo)
      → delta ≤ 63
      → IsTypeInfo t
      → Left ((delta + 64) ∷ (type_bytes t ++ rest)) s
      → Reads (same_locals_one_stack delta t)
  unfolding parse_frame parse_kind parse_same_locals_one_stack
  parse_frame-same_locals_one_stack delta t le valid h =
      let (e, h') = read_u1-Left _ s (delta + 64) h in
      let (s', e', h'') = read_type_info-Left t rest (advanced s 1) valid h' in
      let k₁ : leb (delta + 64) 63 ≡ false = ground arith in
      let k₂ : leb 64 (delta + 64) ≡ true = ground arith in
      let k₃ : leb (delta + 64) 127 ≡ true = ground arith in
      let back : delta + 64 - 64 ≡ delta = omega arith in
      (s', rw (e, k₁, k₂, k₃, e', back) refl, h'')

  parse_frame-same_locals_one_stack_extended :
      (delta : ℕ) (t : TypeInfo)
      → delta < 2 ^ 16
      → IsTypeInfo t
      → Left (247 ∷ (bytes2 delta ++ (type_bytes t ++ rest))) s
      → Reads (same_locals_one_stack_extended delta t)
  unfolding parse_frame parse_kind parse_same_locals_one_stack_extended
  parse_frame-same_locals_one_stack_extended delta t lt valid h =
      let (e, h₁) = read_u1-Left _ s 247 h in
      let (e', h₂) = read_u2-Left _ (advanced s 1) delta lt h₁ in
      let (s', e'', h₃) = read_type_info-Left t rest (advanced (advanced s 1) 2) valid h₂ in
      (s', rw (e, e', e'') refl, h₃)

  parse_frame-chopped :
      (count delta : ℕ)
      → (1 ≤ count) × (count ≤ 3)
      → count ≤ length previous.local_variables
      → delta < 2 ^ 16
      → Left ((251 - count) ∷ (bytes2 delta ++ rest)) s
      → Reads (chopped count delta)
  unfolding parse_frame parse_kind parse_chop
  parse_frame-chopped count delta (some_count, few) enough lt h =
      let (e, h₁) = read_u1-Left _ s (251 - count) h in
      let (e', h₂) = read_u2-Left _ (advanced s 1) delta lt h₁ in
      let k₁ : leb (251 - count) 63 ≡ false = ground arith in
      let k₀ : leb 64 (251 - count) ≡ true = ground arith in
      let k₂ : leb (251 - count) 127 ≡ false = ground arith in
      let k₃ : ((251 - count) == 247) ≡ false = ground arith in
      let k₄ : leb 248 (251 - count) ≡ true = ground arith in
      let k₅ : leb (251 - count) 250 ≡ true = ground arith in
      let back : 251 - (251 - count) ≡ count = omega arith in
      let fits : leb count (length previous.local_variables) ≡ true = ground arith in
      (advanced (advanced s 1) 2, rw (e, k₁, k₀, k₂, k₃, k₄, k₅, e', back, fits) refl, h₂)

  parse_frame-same_extended :
      (delta : ℕ)
      → delta < 2 ^ 16
      → Left (251 ∷ (bytes2 delta ++ rest)) s
      → Reads (same_extended delta)
  unfolding parse_frame parse_kind parse_same_extended
  parse_frame-same_extended delta lt h =
      let (e, h₁) = read_u1-Left _ s 251 h in
      let (e', h₂) = read_u2-Left _ (advanced s 1) delta lt h₁ in
      (advanced (advanced s 1) 2, rw (e, e') refl, h₂)

  parse_frame-appended :
      (ts : List TypeInfo) (delta : ℕ)
      → (1 ≤ length ts) × (length ts ≤ 3)
      → delta < 2 ^ 16
      → AreTypeInfos ts
      → Left ((251 + length ts) ∷ (bytes2 delta ++ (all_bytes ts ++ rest))) s
      → Reads (appended ts delta)
  unfolding parse_frame parse_kind parse_append
  parse_frame-appended ts delta (some_type, few) lt valid h =
      let n = length ts in
      let (e, h₁) = read_u1-Left _ s (251 + n) h in
      let (e', h₂) = read_u2-Left _ (advanced s 1) delta lt h₁ in
      let (s', e'', h₃) = read_type_infos-Left ts rest (advanced (advanced s 1) 2) valid h₂ in
      let k₁ : leb (251 + n) 63 ≡ false = ground arith in
      let k₂ : leb (251 + n) 127 ≡ false = ground arith in
      let k₃ : ((251 + n) == 247) ≡ false = ground arith in
      let k₄ : leb (251 + n) 250 ≡ false = ground arith in
      let k₅ : ((251 + n) == 251) ≡ false = ground arith in
      let k₆ : leb 252 (251 + n) ≡ true = ground arith in
      let k₇ : leb (251 + n) 254 ≡ true = ground arith in
      let k₈ : leb 64 (251 + n) ≡ true = ground arith in
      let k₉ : leb 248 (251 + n) ≡ true = ground arith in
      let back : 251 + n - 251 ≡ n = omega arith in
      (s', rw (e, k₁, k₈, k₂, k₃, k₉, k₄, k₅, k₆, k₇, e', back, e'') refl, h₃)

  parse_frame-full :
      (delta : ℕ) (locals stack : List TypeInfo)
      → (delta < 2 ^ 16) × (length locals < 2 ^ 16) × (length stack < 2 ^ 16)
      → AreTypeInfos locals
      → AreTypeInfos stack
      → Left
          (255
            ∷ (bytes2 delta
                ++ (bytes2 (length locals)
                    ++ (all_bytes locals ++ (bytes2 (length stack) ++ (all_bytes stack ++ rest))))))
          s
      → Reads (full delta locals stack)
  unfolding parse_frame parse_kind parse_full
  parse_frame-full delta locals stack (lt, few, few') valid valid' h =
      let (e, h₁) = read_u1-Left _ s 255 h in
      let (e₂, h₂) = read_u2-Left _ (advanced s 1) delta lt h₁ in
      let (e₃, h₃) = read_u2-Left _ (advanced (advanced s 1) 2) (length locals) few h₂ in
      let (s₄, e₄, h₄) =
        read_type_infos-Left locals _ (advanced (advanced (advanced s 1) 2) 2) valid h₃ in
      let (e₅, h₅) = read_u2-Left _ s₄ (length stack) few' h₄ in
      let (s₆, e₆, h₆) = read_type_infos-Left stack rest (advanced s₄ 2) valid' h₅ in
      (s₆, rw (e, e₂, e₃, e₄, e₅, e₆) refl, h₆)

  -- Whatever the entry.
  parse_frame-Reads :
      (e : Entry) → IsEntry e previous.local_variables → Left (entry_bytes e ++ rest) s → Reads e
  parse_frame-Reads (same delta) le h = parse_frame-same delta le h
  parse_frame-Reads (same_locals_one_stack delta t) (le, valid) h =
      parse_frame-same_locals_one_stack delta t le valid h
  parse_frame-Reads (same_locals_one_stack_extended delta t) (lt, valid) h =
      parse_frame-same_locals_one_stack_extended delta t lt valid h
  parse_frame-Reads (chopped count delta) (l, f, enough, lt) h =
      parse_frame-chopped count delta (l, f) enough lt h
  parse_frame-Reads (same_extended delta) lt h = parse_frame-same_extended delta lt h
  parse_frame-Reads (appended ts delta) (l, f, lt, valid) h =
      parse_frame-appended ts delta (l, f) lt valid h
  parse_frame-Reads (full delta locals stack) (lt, few, few', valid, valid') h =
      parse_frame-full delta locals stack (lt, few, few') valid valid'
        (rw (append_assoc (all_bytes locals)) at h)

-- The frames that a table describes, from the first position that the next entry can have.
abbrev pub frames_from : ℕ → List VerificationTypeInfo → List Entry → List FrameInfo
frames_from next previous [] = []
frames_from next previous (e ∷ es) =
    frame_after e previous (next + delta_of e)
    ∷ frames_from (next + delta_of e + 1) (locals_after e previous) es

-- Entries that can be written one after the other, at positions below 2 ^ 32.
abbrev pub AreEntries : ℕ → List VerificationTypeInfo → List Entry → Type 0
AreEntries next previous [] = Unit
AreEntries next previous (e ∷ es) =
    IsEntry e previous
    × (next + delta_of e < 2 ^ 32)
    × AreEntries (next + delta_of e + 1) (locals_after e previous) es

abbrev pub table_bytes : List Entry → List ℕ
table_bytes [] = []
table_bytes (e ∷ es) = entry_bytes e ++ table_bytes es

-- The running offset of the parser is one before the next position.
next_offset-pos :
    (offset : ℤ) (next delta : ℕ)
    → offset +ℤ pos 1 ≡ pos next
    → next_offset offset delta ≡ pos (next + delta)
next_offset-pos offset next delta e =
    eq_of_parts _ _ (omega (int_laws, ap pos_part e, ap neg_part e))

parse_frames-frames_from :
    (es : List Entry) (next : ℕ) (previous : FrameInfo) (offset : ℤ) (s : ByteStream)
    → AreEntries next previous.local_variables es
    → offset +ℤ pos 1 ≡ pos next
    → Left (table_bytes es ++ []) s
    → parse_frames (length es) s previous offset ≡ ok (frames_from next previous.local_variables es)
unfolding parse_frames
parse_frames-frames_from [] next previous offset s valid follows h = refl
parse_frames-frames_from (e ∷ es) next previous offset s (valid, small, valids) follows h =
    let (s', read, h') =
      parse_frame-Reads previous offset (table_bytes es ++ []) s e valid
        (rw (append_assoc (entry_bytes e)) at h) in
    let position = next_offset-pos offset next (delta_of e) follows in
    let start : start_of (pos (next + delta_of e)) ≡ next + delta_of e = ground arith in
    let follows' : pos (next + delta_of e) +ℤ pos 1 ≡ pos (next + delta_of e + 1) = pos-add _ _ in
    let rest =
      parse_frames-frames_from es (next + delta_of e + 1)
        (frame_after e previous.local_variables (next + delta_of e)) (pos (next + delta_of e)) s'
        valids follows' h' in
    rw (read, position, start, rest) refl

-- `parse_stack_map` of a table of fewer than 2 ^ 16 entries that can be written one after the other
-- returns the first frame and the frames that the entries describe: each starts `offset_delta`
-- behind the first position that the frame before leaves, and has the local variables and the stack
-- that its entry says.
pub parse_stack_map-frames_from :
    (es : List Entry) (first : FrameInfo)
    → length es < 2 ^ 16
    → AreEntries 0 first.local_variables es
    → parse_stack_map first (some (bytes2 (length es) ++ (table_bytes es ++ [])))
      ≡ ok (first ∷ frames_from 0 first.local_variables es)
unfolding parse_stack_map
parse_stack_map-frames_from es first few valid =
    let s = stream_of (bytes2 (length es) ++ (table_bytes es ++ [])) in
    let (e, h) = read_u2-Left (table_bytes es ++ []) s (length es) few refl in
    let rest =
      parse_frames-frames_from es 0 first (negsuc 0) (advanced s 2) valid
        (eq_of_parts _ _ (omega int_laws)) h in
    rw (e, rest) refl

frames_from-IsSorted :
    (es : List Entry) (next : ℕ) (locals : List VerificationTypeInfo) (f : FrameInfo)
    → f.start_pos ≤ next
    → IsSorted (f ∷ frames_from next locals es)
frames_from-IsSorted [] next locals f le = tt
frames_from-IsSorted (e ∷ es) next locals f le = (
  omega arith,
  frames_from-IsSorted es (next + delta_of e + 1) (locals_after e locals)
      (frame_after e locals (next + delta_of e)) (omega arith),
)

-- In the stack map that is parsed from fewer than 2 ^ 16 entries that can be written one after the
-- other, with a first frame at 0, `frame_at` returns for every position the last frame that starts
-- there or before.
pub frame_at-parse_stack_map :
    (es : List Entry) (first : FrameInfo) (position : ℕ)
    → length es < 2 ^ 16
    → AreEntries 0 first.local_variables es
    → first.start_pos ≡ 0
    → (frames : List FrameInfo) × (found : FrameInfo) × (parse_stack_map first
          (some (bytes2 (length es) ++ (table_bytes es ++ [])))
        ≡ ok frames)
      × (frame_at frames position ≡ ok found)
      × IsActive frames position found
frame_at-parse_stack_map es first position few valid starts =
    let frames = frames_from 0 first.local_variables es in
    let sorted = frames_from-IsSorted es 0 first.local_variables first (omega arith) in
    let (found, e, active) = frame_at-IsActive first frames position sorted (omega arith) in
    (first ∷ frames, found, parse_stack_map-frames_from es first few valid, e, active)
