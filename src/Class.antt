-- ===== src/Class.antt =====
-- src/vm/Class.cpp: the fields of a class with their places in its objects, and the search for fields and
-- methods in a class and what it extends. A field or method is found by its name and descriptor.
pub mod Layout
pub mod Inherited
pub mod Hierarchy
mod Tests
use geevm.Prelude.{ℕ, zero, suc, ◌+◌, Bool, true, false, Option, none, some, List, [], ◌∷◌, ◌++◌}
use geevm.Prelude.{length, ◌==◌, ◌&&◌, Result, ok, fault, ◌>>=◌, ◌>>◌, guard, assertion, undefined}
use geevm.Prelude.Text.{JString}
use geevm.Descriptor.{FieldType, parse}
use geevm.Descriptor.Slots.{size_of}
use geevm.GarbageCollector.{align_to}

-- What is read of a `FieldInfo` of the class file.
pub record FieldInfo : Type 0 where
  pub name : JString
  pub descriptor : JString
  pub is_static : Bool

-- `JField`
pub record JField : Type 0 where
  pub name : JString
  pub descriptor : JString
  pub field_type : FieldType
  pub is_static : Bool
  pub offset : ℕ

-- The equality of names.
abbrev pub same_text : JString → JString → Bool
same_text [] [] = true
same_text [] (d ∷ ds) = false
same_text (c ∷ cs) [] = false
same_text (c ∷ cs) (d ∷ ds) = (c == d) && same_text cs ds

-- `mFields.find`, on the fields in the order of their iteration.
abbrev pub find_field : JString → JString → List JField → Option JField
find_field name descriptor [] = none
find_field name descriptor (f ∷ fs) =
    elim (same_text name f.name && same_text descriptor f.descriptor) [
      | true ↦ some f
      | false ↦ find_field name descriptor fs
    ]

-- `mFields.try_emplace`: a field with the same key stays.
unfoldable pub try_emplace : JField → List JField → List JField
try_emplace f fields = elim (find_field f.name f.descriptor fields) [
  | none ↦ fields ++ f ∷ []
  | some g ↦ fields
]

-- The fields so far, and the offset behind them.
abbrev pub Linked : Type 0
Linked = List JField × ℕ

-- A field at the next place that is aligned to its size.
unfoldable pub place : JField → Linked → Linked
place f (fields, current_offset) =
    let size = size_of f.field_type in
    let offset = align_to current_offset size in
    (try_emplace (record f { offset = offset }) fields, offset + size)

-- The loop of `linkFields` over the fields of the superclass.
unfoldable pub link_inherited : List JField → Linked → Linked
link_inherited [] linked = linked
link_inherited (f ∷ fs) linked = elim f.is_static [
  | true ↦ link_inherited fs linked
  | false ↦ link_inherited fs (place f linked)
]

-- The loop over the fields that the class declares.
unfoldable pub link_declared : List FieldInfo → Linked → Result Linked
link_declared [] linked = ok linked
link_declared (info ∷ infos) linked = elim info.is_static [
  | true ↦ link_declared infos linked
  | false ↦ elim (parse info.descriptor) [
    | none ↦ fault assertion
    | some field_type ↦ link_declared infos (
        place
          (record {
            name = info.name;
            descriptor = info.descriptor;
            field_type = field_type;
            is_static = false;
            offset = 0;
          })
          linked)
  ]
]

-- `InstanceClass::linkFields`: the fields, and the allocation size.
unfoldable pub link_fields : ℕ → Option (List JField) → List FieldInfo → List JField → Result Linked
link_fields header_size super_fields infos fields = link_declared infos (elim super_fields [
  | none ↦ (fields, header_size)
  | some inherited ↦ link_inherited inherited (fields, header_size)
])

-- `InstanceClass::prepareStaticFields`: the static values start as the default values, all of them zero.
unfoldable pub prepare_static_fields :
    List FieldInfo → ℕ → List ℕ → List JField → Result (List ℕ × List JField)
prepare_static_fields [] static_offset values fields = ok (values, fields)
prepare_static_fields (info ∷ infos) static_offset values fields = elim info.is_static [
  | false ↦ prepare_static_fields infos static_offset values fields
  | true ↦ do
    guard (length values == static_offset) assertion
    elim (parse info.descriptor) [
      | none ↦ fault undefined
      | some field_type ↦ prepare_static_fields infos (static_offset + 1) (values ++ 0 ∷ []) (
          try_emplace
            (record {
              name = info.name;
              descriptor = info.descriptor;
              field_type = field_type;
              is_static = true;
              offset = static_offset;
            })
            fields)
    ]
]
