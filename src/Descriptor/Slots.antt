-- ===== src/Descriptor/Slots.antt =====
-- Sizes and stack slots of src/class_file/Descriptor.cpp: `isReferenceOrArray`, `isCategoryTwo`,
-- `sizeOf` and `numParameterSlots`.
use geevm.Prelude.{ℕ, zero, suc, ◌+◌, ◌≤◌, ◌≡◌, Bool, true, false, List, [], ◌∷◌, arith}
use geevm.Prelude.{if◌then◌else◌, length, ◌⊎◌, inl, inr, refl}
use geevm.Descriptor.{PrimitiveType, byte, char, double, float, int, long, short, boolean, Shape}
use geevm.Descriptor.{of_primitive, of_array, of_class, shape, shape_of, FieldType, Storage}
use geevm.Descriptor.{primitive, class_name, MethodDescriptor}

-- `CategoryTwoJvmType` of the representation of a primitive type.
abbrev pub primitive_is_category_two : PrimitiveType → Bool
primitive_is_category_two double = true
primitive_is_category_two long = true
primitive_is_category_two _ = false

-- `sizeof(PrimitiveTypeTraits<Type>::Representation)`
abbrev pub primitive_size : PrimitiveType → ℕ
primitive_size byte = 1
primitive_size char = 2
primitive_size double = 8
primitive_size float = 4
primitive_size int = 4
primitive_size long = 8
primitive_size short = 2
primitive_size boolean = 1

category_two_shape : Shape → Bool
category_two_shape (of_primitive p) = primitive_is_category_two p
category_two_shape (of_array a) = false
category_two_shape (of_class name) = false

-- `FieldType::isCategoryTwo`
pub is_category_two : FieldType → Bool
unfolding shape category_two_shape
is_category_two t = category_two_shape (shape t)

size_of_shape : Shape → ℕ
size_of_shape (of_primitive p) = primitive_size p
size_of_shape (of_array a) = 8
size_of_shape (of_class name) = 8

-- `FieldType::sizeOf`, with eight bytes for a pointer.
unfoldable pub size_of : FieldType → ℕ
unfolding shape size_of_shape
size_of t = size_of_shape (shape t)

reference_storage : Storage → ℕ → Bool
reference_storage (class_name name) n = true
reference_storage (primitive p) zero = false
reference_storage (primitive p) (suc n) = true

-- `FieldType::isReferenceOrArray`
pub is_reference_or_array : FieldType → Bool
unfolding reference_storage
is_reference_or_array t = reference_storage t.storage t.dimensions

-- The loop of `MethodDescriptor::numParameterSlots`.
pub parameter_slots : ℕ → List FieldType → ℕ
parameter_slots count [] = count
parameter_slots count (p ∷ ps) =
    parameter_slots (if is_category_two p then count + 2 else count + 1) ps

pub num_parameter_slots : MethodDescriptor → ℕ
unfolding parameter_slots
num_parameter_slots d = parameter_slots 0 d.parameters

-- The parameters of two slots.
pub wide_parameters : List FieldType → ℕ
wide_parameters [] = 0
wide_parameters (p ∷ ps) = (if is_category_two p then 1 else 0) + wide_parameters ps

parameter_slots-eq :
    (count : ℕ) (ps : List FieldType)
    → parameter_slots count ps ≡ count + length ps + wide_parameters ps
unfolding parameter_slots wide_parameters
parameter_slots-eq count [] = omega arith
parameter_slots-eq count (p ∷ ps) =
    ground (arith, parameter_slots-eq (count + 2) ps, parameter_slots-eq (count + 1) ps)

wide_parameters-le : (ps : List FieldType) → wide_parameters ps ≤ length ps
unfolding wide_parameters
wide_parameters-le [] = omega arith
wide_parameters-le (p ∷ ps) = ground (arith, wide_parameters-le ps)

-- The slots of a descriptor are its parameters and, once more, those of category two: at least as
-- many slots as parameters, and at most twice as many.
pub num_parameter_slots_bounds :
    (d : MethodDescriptor)
    → (num_parameter_slots d ≡ length d.parameters + wide_parameters d.parameters)
      × (length d.parameters ≤ num_parameter_slots d)
      × (num_parameter_slots d ≤ length d.parameters + length d.parameters)
unfolding num_parameter_slots
num_parameter_slots_bounds d =
    omega (arith, parameter_slots-eq 0 d.parameters, wide_parameters-le d.parameters)

size_of_storage :
    (s : Storage) (n : ℕ)
    → (1 ≤ size_of_shape (shape_of s n))
      × (size_of_shape (shape_of s n) ≤ 8)
      × (category_two_shape (shape_of s n) ≡ true → size_of_shape (shape_of s n) ≡ 8)
      × (reference_storage s n ≡ true
          → (size_of_shape (shape_of s n) ≡ 8) × (category_two_shape (shape_of s n) ≡ false))
unfolding size_of_shape shape_of category_two_shape reference_storage
size_of_storage (primitive p) zero = ground arith
size_of_storage (primitive p) (suc n) = ground arith
size_of_storage (class_name name) zero = ground arith
size_of_storage (class_name name) (suc n) = ground arith

-- The sizes are powers of two.
abbrev pub IsSize : ℕ → Type 0
IsSize n = (n ≡ 1) ⊎ (n ≡ 2) ⊎ (n ≡ 4) ⊎ (n ≡ 8)

primitive_size-IsSize : (p : PrimitiveType) → IsSize (primitive_size p)
primitive_size-IsSize byte = inl refl
primitive_size-IsSize char = inr (inl refl)
primitive_size-IsSize double = inr (inr (inr refl))
primitive_size-IsSize float = inr (inr (inl refl))
primitive_size-IsSize int = inr (inr (inl refl))
primitive_size-IsSize long = inr (inr (inr refl))
primitive_size-IsSize short = inr (inl refl)
primitive_size-IsSize boolean = inl refl

size_of_shape-IsSize : (s : Storage) (n : ℕ) → IsSize (size_of_shape (shape_of s n))
unfolding size_of_shape shape_of
size_of_shape-IsSize (primitive p) zero = primitive_size-IsSize p
size_of_shape-IsSize (primitive p) (suc n) = inr (inr (inr refl))
size_of_shape-IsSize (class_name name) zero = inr (inr (inr refl))
size_of_shape-IsSize (class_name name) (suc n) = inr (inr (inr refl))

pub size_of-IsSize : (t : FieldType) → IsSize (size_of t)
unfolding size_of
size_of-IsSize t = size_of_shape-IsSize t.storage t.dimensions

-- A value takes one to eight bytes; one of category two takes eight, and so does a reference, which
-- is never of category two.
pub size_of_bounds :
    (t : FieldType)
    → (1 ≤ size_of t)
      × (size_of t ≤ 8)
      × (is_category_two t ≡ true → size_of t ≡ 8)
      × (is_reference_or_array t ≡ true → (size_of t ≡ 8) × (is_category_two t ≡ false))
unfolding size_of is_category_two is_reference_or_array
size_of_bounds t = size_of_storage t.storage t.dimensions
