-- ===== src/StackMap.antt =====
-- src/vm/StackMap.cpp: the types of local variables and of the operand stack at the positions of a
-- method's code, from its descriptor and its `StackMapTable`. A `VerificationTypeInfo` is a cast of any
-- byte, so it is a number; its names are the constants below.
pub mod Frames
pub mod Lookup
pub mod Parsing
mod Tests
use geevm.Prelude.{ℕ, zero, suc, ◌+◌, ◌-◌, ◌≡◌, Bool, true, false, ◌==◌, ltb, leb, ◌&&◌, ◌||◌}
use geevm.Prelude.{if◌then◌else◌, Option, none, some, List, [], ◌∷◌, ◌++◌, map, length, take}
use geevm.Prelude.{Result, ok, fault, ◌>>=◌, ◌>>◌, guard, assertion, panic, unreachable}
use geevm.Prelude.Int.{ℤ, pos, negsuc, ◌+ℤ◌}
use geevm.Prelude.Words.{pattern_of}
use geevm.Descriptor.{PrimitiveType, FieldType, Shape, of_primitive, of_array, of_class, shape}
use geevm.ByteStream.{ByteStream, stream_of, read_u1, read_u2, skip}

abbrev pub VerificationTypeInfo : Type 0
VerificationTypeInfo = ℕ

abbrev pub top_type : VerificationTypeInfo
top_type = 0

abbrev pub integer_type : VerificationTypeInfo
integer_type = 1

abbrev pub float_type : VerificationTypeInfo
float_type = 2

abbrev pub double_type : VerificationTypeInfo
double_type = 3

abbrev pub long_type : VerificationTypeInfo
long_type = 4

abbrev pub null_type : VerificationTypeInfo
null_type = 5

abbrev pub uninitialized_this : VerificationTypeInfo
uninitialized_this = 6

abbrev pub object_type : VerificationTypeInfo
object_type = 7

abbrev pub uninitialized_type : VerificationTypeInfo
uninitialized_type = 8

-- `StackMap::FrameInfo`
pub record FrameInfo : Type 0 where
  pub start_pos : ℕ
  pub local_variables : List VerificationTypeInfo
  pub operand_stack : List VerificationTypeInfo

-- `readTypeInfo`
pub read_type_info : ByteStream → Result (VerificationTypeInfo × ByteStream)
read_type_info s = do
  (kind, s) ← read_u1 s
  ok (kind, if kind == object_type || kind == uninitialized_type then skip 2 s else s)

-- The loops that read one type after another.
pub read_type_infos : ℕ → ByteStream → Result (List VerificationTypeInfo × ByteStream)
unfolding read_type_info
read_type_infos zero s = ok ([], s)
read_type_infos (suc n) s = do
  (kind, s) ← read_type_info s
  (kinds, s) ← read_type_infos n s
  ok (kind ∷ kinds, s)

-- `*currentOffset + offsetDelta + 1`, and its cast to `u4`
abbrev pub next_offset : ℤ → ℕ → ℤ
next_offset offset delta = offset +ℤ pos delta +ℤ pos 1

abbrev pub start_of : ℤ → ℕ
start_of offset = pattern_of 32 offset

-- `localVariables.resize(localVariables.size() - count)`: a size below zero wraps around, and
-- `resize` throws.
abbrev pub chop : ℕ → List VerificationTypeInfo → Result (List VerificationTypeInfo)
chop count xs = do guard (leb count (length xs)) panic; ok (take (length xs - count) xs)

-- What `parseFrame` returns: the frame, the bytes that are left and the new offset.
abbrev pub Parsed : Type 0
Parsed = Result (FrameInfo × ByteStream × ℤ)

abbrev frame_of : ℤ → List VerificationTypeInfo → List VerificationTypeInfo → ByteStream → Parsed
frame_of offset locals stack s = ok (
  record { start_pos = start_of offset; local_variables = locals; operand_stack = stack },
  s,
  offset,
)

-- The branches of `parseFrame`.
parse_same_locals_one_stack : ℕ → ByteStream → FrameInfo → ℤ → Parsed
parse_same_locals_one_stack kind s previous offset = do
  (stack_type, s) ← read_type_info s
  frame_of (next_offset offset (kind - 64)) previous.local_variables (stack_type ∷ []) s

parse_same_locals_one_stack_extended : ByteStream → FrameInfo → ℤ → Parsed
parse_same_locals_one_stack_extended s previous offset = do
  (offset_delta, s) ← read_u2 s
  (stack_type, s) ← read_type_info s
  frame_of (next_offset offset offset_delta) previous.local_variables (stack_type ∷ []) s

parse_chop : ℕ → ByteStream → FrameInfo → ℤ → Parsed
parse_chop kind s previous offset = do
  (offset_delta, s) ← read_u2 s
  locals ← chop (251 - kind) previous.local_variables
  frame_of (next_offset offset offset_delta) locals [] s

parse_same_extended : ByteStream → FrameInfo → ℤ → Parsed
parse_same_extended s previous offset = do
  (offset_delta, s) ← read_u2 s
  frame_of (next_offset offset offset_delta) previous.local_variables [] s

parse_append : ℕ → ByteStream → FrameInfo → ℤ → Parsed
parse_append kind s previous offset = do
  (offset_delta, s) ← read_u2 s
  (kinds, s) ← read_type_infos (kind - 251) s
  frame_of (next_offset offset offset_delta) (previous.local_variables ++ kinds) [] s

parse_full : ByteStream → ℤ → Parsed
parse_full s offset = do
  (offset_delta, s) ← read_u2 s
  (num_locals, s) ← read_u2 s
  (locals, s) ← read_type_infos num_locals s
  (num_stack, s) ← read_u2 s
  (stack, s) ← read_type_infos num_stack s
  frame_of (next_offset offset offset_delta) locals stack s

-- `parseFrame`, behind the byte of the kind.
pub parse_kind : ℕ → ByteStream → FrameInfo → ℤ → Parsed
unfolding read_type_infos parse_same_locals_one_stack parse_same_locals_one_stack_extended
    parse_chop parse_same_extended parse_append parse_full
parse_kind kind s previous offset =
    if leb kind 63
    then frame_of (next_offset offset kind) previous.local_variables [] s
    else if leb 64 kind && leb kind 127
    then parse_same_locals_one_stack kind s previous offset
    else if kind == 247
    then parse_same_locals_one_stack_extended s previous offset
    else if leb 248 kind && leb kind 250
    then parse_chop kind s previous offset
    else if kind == 251
    then parse_same_extended s previous offset
    else if leb 252 kind && leb kind 254
    then parse_append kind s previous offset
    else if kind == 255
    then parse_full s offset
    else fault unreachable

pub parse_frame : ByteStream → FrameInfo → ℤ → Parsed
unfolding parse_kind
parse_frame s previous offset = do (kind, s) ← read_u1 s; parse_kind kind s previous offset

-- The loop of `parseStackMap`.
pub parse_frames : ℕ → ByteStream → FrameInfo → ℤ → Result (List FrameInfo)
unfolding parse_frame
parse_frames zero s previous offset = ok []
parse_frames (suc n) s previous offset = do
  (frame, s, offset) ← parse_frame s previous offset
  frames ← parse_frames n s frame offset
  ok (frame ∷ frames)

type_info_of_shape : Shape → VerificationTypeInfo
type_info_of_shape (of_primitive PrimitiveType.double) = double_type
type_info_of_shape (of_primitive PrimitiveType.float) = float_type
type_info_of_shape (of_primitive PrimitiveType.long) = long_type
type_info_of_shape (of_primitive _) = integer_type
type_info_of_shape (of_array a) = object_type
type_info_of_shape (of_class name) = object_type

-- `fieldTypeToVerificationTypeInfo`
pub field_type_to_verification_type_info : FieldType → VerificationTypeInfo
unfolding shape type_info_of_shape
field_type_to_verification_type_info t = type_info_of_shape (shape t)

-- `parseMethodDescriptor`, of a method with these properties.
unfoldable pub parse_method_descriptor : Bool → Bool → List FieldType → FrameInfo
unfolding field_type_to_verification_type_info
parse_method_descriptor is_static is_init parameters = record {
  start_pos = 0;
  local_variables =
      (if is_static then [] else (if is_init then uninitialized_this else object_type) ∷ [])
      ++ map field_type_to_verification_type_info parameters;
  operand_stack = [];
}

-- `StackMap::parseStackMap`, from the first frame and the attribute, if there is one.
unfoldable pub parse_stack_map : FrameInfo → Option (List ℕ) → Result (List FrameInfo)
unfolding parse_frames
parse_stack_map first none = ok (first ∷ [])
parse_stack_map first (some bytes) = do
  (num_entries, s) ← read_u2 (stream_of bytes)
  frames ← parse_frames num_entries s first (negsuc 0)
  ok (first ∷ frames)

-- `StackMap::frameAt`
unfoldable pub frame_at : List FrameInfo → ℕ → Result FrameInfo
frame_at [] position = fault unreachable
frame_at (f ∷ []) position = do guard (leb f.start_pos position) assertion; ok f
frame_at (f ∷ g ∷ fs) position =
    if leb f.start_pos position && ltb position g.start_pos
    then ok f
    else frame_at (g ∷ fs) position
