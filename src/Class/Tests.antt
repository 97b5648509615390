-- ===== src/Class/Tests.antt =====
-- A class of src/vm/Class.cpp with a static field, an int and a long, and what a subclass inherits.
use geevm.Prelude.{ℕ, ◌≡◌, refl, true, false, some, [], ◌∷◌, ok}
use geevm.Prelude.Text.{codes}
use geevm.Descriptor.Completeness.{parse-type_text}
use geevm.Descriptor.{FieldType, primitive, PrimitiveType}
use geevm.Descriptor.Slots.{size_of}
use geevm.Class.{FieldInfo, JField, Linked, link_fields, link_inherited, place, try_emplace}
use geevm.Class.Layout.{Placed, link_fields-Placed}
use geevm.Class.Inherited.{link_inherited-InOrder, no_more, static_field, instance_field}

abbrev int_type : FieldType
int_type = record { storage = primitive PrimitiveType.int; dimensions = 0 }

abbrev long_type : FieldType
long_type = record { storage = primitive PrimitiveType.long; dimensions = 0 }

abbrev count : ℕ → JField
count offset = record {
  name = codes "count";
  descriptor = codes "I";
  field_type = int_type;
  is_static = false;
  offset = offset;
}

abbrev total : ℕ → JField
total offset = record {
  name = codes "total";
  descriptor = codes "J";
  field_type = long_type;
  is_static = false;
  offset = offset;
}

abbrev shared : JField
shared = record {
  name = codes "shared";
  descriptor = codes "I";
  field_type = int_type;
  is_static = true;
  offset = 0;
}

abbrev info : FieldInfo
info = record { name = codes "own"; descriptor = codes "I"; is_static = false }

link_fields-Placed_example :
    (linked : Linked) × (link_fields 16 (some (count 16 ∷ total 24 ∷ [])) (info ∷ []) (shared ∷ [])
      ≡ ok linked)
    × Placed 16 linked.0 linked.1
link_fields-Placed_example =
    link_fields-Placed 16 (some (count 16 ∷ total 24 ∷ [])) (info ∷ []) (shared ∷ [])
      ((λ s. (int_type, parse-type_text int_type tt)), tt) (refl, tt)

link_inherited-InOrder_example :
    link_inherited (count 16 ∷ shared ∷ total 24 ∷ []) ([], 16) ≡ (count 16 ∷ total 24 ∷ [], 32)
unfolding size_of
link_inherited-InOrder_example =
    link_inherited-InOrder (count 16 ∷ shared ∷ total 24 ∷ []) [] 16 32
      (instance_field refl refl (static_field refl (instance_field refl refl no_more)))
      (refl, (refl, tt))

-- In another order of iteration the two fields change places.
link_inherited-swapped :
    link_inherited (total 24 ∷ count 16 ∷ []) ([], 16) ≡ (total 16 ∷ count 24 ∷ [], 28)
unfolding link_inherited place try_emplace size_of
link_inherited-swapped = refl
