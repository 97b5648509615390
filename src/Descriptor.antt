-- ===== src/Descriptor.antt =====
-- src/class_file/Descriptor.h, src/class_file/Descriptor.cpp and the traits of the primitive types
-- in src/common/JvmTypes.h: field types, method descriptors, and how they are printed.
pub mod Grammar
pub mod Soundness
pub mod Completeness
pub mod Slots
pub mod JavaNames
mod Tests
use mathlib.Core.Option
use geevm.Prelude.{ℕ, zero, suc, ◌+◌, Bool, true, false, ◌≡◌, ◌&&◌, Option, none, some, List, []}
use geevm.Prelude.{◌∷◌, ◌++◌, map, ◌==◌, ltb, if◌then◌else◌, length, take, drop, replicate}
use geevm.Prelude.Text.{JString, codes}

pub data PrimitiveType : Type 0 where
  byte char double float int long short boolean : PrimitiveType

-- `StorageTy`, the variant of a primitive type and a class name.
pub data Storage : Type 0 where
  primitive : PrimitiveType → Storage
  class_name : JString → Storage

pub record FieldType : Type 0 where
  pub storage : Storage
  pub dimensions : ℕ

-- A field type with at least one dimension; `inner` is `mDimensions - 1`.
pub record ArrayType : Type 0 where
  pub storage : Storage
  pub inner : ℕ

abbrev pub get_element_type : ArrayType → FieldType
get_element_type a = record { storage = a.storage; dimensions = a.inner }

abbrev pub get_dimensions : ArrayType → ℕ
get_dimensions a = suc a.inner

-- What `FieldType::map` distinguishes, in the order of its tests.
pub data Shape : Type 0 where
  of_primitive : PrimitiveType → Shape
  of_array : ArrayType → Shape
  of_class : JString → Shape

shape_of : Storage → ℕ → Shape
shape_of (primitive p) zero = of_primitive p
shape_of (class_name name) zero = of_class name
shape_of s (suc n) = of_array (record { storage = s; inner = n })

unfoldable pub shape : FieldType → Shape
unfolding shape_of
shape t = shape_of t.storage t.dimensions

-- `parseField`: the length of the leading run of `[`.
skip_dimensions : JString → ℕ
skip_dimensions [] = 0
skip_dimensions (c ∷ cs) = if c == b'[' then suc (skip_dimensions cs) else 0

-- `input.find(u';', pos)`, counted from `pos`.
find_semicolon : JString → Option ℕ
find_semicolon [] = none
find_semicolon (c ∷ cs) = if c == b';' then some 0 else Option.map suc (find_semicolon cs)

primitive_of_char : ℕ → Option PrimitiveType
primitive_of_char c =
    if c == b'B'
    then some byte
    else if c == b'C'
    then some char
    else if c == b'D'
    then some double
    else if c == b'F'
    then some float
    else if c == b'I'
    then some int
    else if c == b'J'
    then some long
    else if c == b'S'
    then some short
    else if c == b'Z'
    then some boolean
    else none

-- The part of `parseField` after its loop, at position `pos`, with the input from there on: the
-- position behind the type, and the type.
parse_base : ℕ → JString → Option (ℕ × FieldType)
unfolding find_semicolon primitive_of_char
parse_base pos [] = none
parse_base pos (c ∷ rest) =
    if c == b'L'
    then Option.map
        (λ k. (pos + k + 2, record { storage = class_name (take k rest); dimensions = pos }))
        (find_semicolon rest)
    else Option.map (λ p. (pos + 1, record { storage = primitive p; dimensions = pos }))
        (primitive_of_char c)

pub parse_field : JString → Option (ℕ × FieldType)
unfolding parse_base skip_dimensions
parse_field input = parse_base (skip_dimensions input) (drop (skip_dimensions input) input)

whole : JString → Option (ℕ × FieldType) → Option FieldType
whole input none = none
whole input (some (n, t)) = if n == length input then some t else none

-- `FieldType::parse`
pub parse : JString → Option FieldType
unfolding parse_field whole
parse input = whole input (parse_field input)

-- `ReturnType`
pub data ReturnType : Type 0 where
  void : ReturnType
  returns : FieldType → ReturnType

pub record MethodDescriptor : Type 0 where
  pub return_type : ReturnType
  pub parameters : List FieldType

-- What the loop over the parameters leaves: the parameters, and the input behind `)`. It fails on
-- a malformed parameter and where the input ends before `)`. Each round takes at least one
-- character, so fuel above the length of the input is enough.
parse_parameters : ℕ → JString → Option (List FieldType × JString)
parse_parameters zero input = none
parse_parameters (suc f) [] = none
parse_parameters (suc f) (c ∷ rest) =
    if c == b')' then some ([], rest) else elim (parse_field (c ∷ rest)) [
      | none ↦ none
      | some (n, t) ↦ Option.map (λ (ps, r). (t ∷ ps, r)) (parse_parameters f (drop n (c ∷ rest)))
    ]

parse_return : List FieldType → JString → Option MethodDescriptor
parse_return ps [] = none
parse_return ps (c ∷ rest) =
    if c == b'V'
    then some (record { return_type = void; parameters = ps })
    else Option.map (λ r. record { return_type = returns r.1; parameters = ps })
        (parse_field (c ∷ rest))

-- `MethodDescriptor::parse`
pub parse_method : JString → Option MethodDescriptor
unfolding parse_field parse_parameters parse_return
parse_method [] = none
parse_method (c ∷ rest) =
    if c == b'('
    then elim (parse_parameters (suc (length rest)) rest) [
      | none ↦ none
      | some (ps, r) ↦ parse_return ps r
    ]
    else none
