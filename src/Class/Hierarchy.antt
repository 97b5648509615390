-- ===== src/Class/Hierarchy.antt =====
-- src/vm/Class.cpp: what classes extend, and the searches along it. A class is known by a number, as it is
-- by its address in the program.
pub mod Supertypes
pub mod Subtyping
pub mod Lookup
mod Tests
use geevm.Prelude.{ℕ, zero, suc, Bool, true, false, Option, none, some, List, [], ◌∷◌, ◌++◌, ◌==◌}
use geevm.Prelude.{◌&&◌, ◌||◌, Result, ok, fault, ◌>>=◌, undefined, if◌then◌else◌}
use geevm.Prelude.Text.{JString, codes}
use geevm.Descriptor.{PrimitiveType, FieldType}
use geevm.Class.{JField, same_text, find_field}

-- `JClass::Kind` with what distinguishes the kinds: the flag ACC_INTERFACE, or the element type with the
-- primitive type that it is, if it is one, and the class of the elements otherwise.
pub data ClassKind : Type 0 where
  class_type interface_type : ClassKind
  array_type : Option PrimitiveType → Option ℕ → ClassKind

pub record JMethod : Type 0 where
  pub name : JString
  pub descriptor : JString

-- `JClass`
pub record JClass : Type 0 where
  pub class_name : JString
  pub kind : ClassKind
  pub super_class : Option ℕ
  pub super_interfaces : List ℕ
  pub methods : List JMethod
  pub fields : List JField

abbrev pub is_class_type : ClassKind → Bool
is_class_type class_type = true
is_class_type interface_type = false
is_class_type (array_type p e) = false

abbrev pub is_interface : ClassKind → Bool
is_interface class_type = false
is_interface interface_type = true
is_interface (array_type p e) = false

-- The values of the enumeration.
abbrev pub primitive_index : PrimitiveType → ℕ
primitive_index PrimitiveType.byte = 0
primitive_index PrimitiveType.char = 1
primitive_index PrimitiveType.double = 2
primitive_index PrimitiveType.float = 3
primitive_index PrimitiveType.int = 4
primitive_index PrimitiveType.long = 5
primitive_index PrimitiveType.short = 6
primitive_index PrimitiveType.boolean = 7

abbrev pub same_primitive : PrimitiveType → PrimitiveType → Bool
same_primitive p q = primitive_index p == primitive_index q

-- `mMethods.find`
abbrev pub find_method : JString → JString → List JMethod → Option JMethod
find_method name descriptor [] = none
find_method name descriptor (m ∷ ms) =
    elim (same_text name m.name && same_text descriptor m.descriptor) [
      | true ↦ some m
      | false ↦ find_method name descriptor ms
    ]

-- `insert` at the end of a work list whose back is in front.
abbrev pub push_all : List ℕ → List ℕ → List ℕ
push_all [] work_list = work_list
push_all (i ∷ is) work_list = push_all is (i ∷ work_list)

-- A loop that returns the first result.
unfoldable pub first_found {ℓ} : {A : Type ℓ} → (ℕ → Result (Option A)) → List ℕ → Result (Option A)
first_found f [] = ok none
first_found f (i ∷ is) = do
  found ← f i
  elim found [ some x ↦ ok (some x) | none ↦ first_found f is ]

abbrev pub optional {ℓ} : {A : Type ℓ} → (ℕ → Result (Option A)) → Option ℕ → Result (Option A)
optional f none = ok none
optional f (some i) = f i

module _ (classes : ℕ → JClass) where
  -- `JClass::getVirtualMethod`: the class, its superclass, its interfaces. On fuel.
  unfoldable pub get_virtual_method : ℕ → JString → JString → ℕ → Result (Option JMethod)
  get_virtual_method zero name descriptor c = fault undefined
  get_virtual_method (suc fuel) name descriptor c =
      elim (find_method name descriptor (classes c).methods) [
        | some m ↦ ok (some m)
        | none ↦ do
          found ← optional (get_virtual_method fuel name descriptor) (classes c).super_class
          elim found [
            | some m ↦ ok (some m)
            | none ↦
                first_found (get_virtual_method fuel name descriptor) (classes c).super_interfaces
          ]
      ]

  -- `JClass::lookupField`: the class, its interfaces, its superclass. On fuel.
  unfoldable pub lookup_field : ℕ → JString → JString → ℕ → Result (Option JField)
  lookup_field zero name descriptor c = fault undefined
  lookup_field (suc fuel) name descriptor c = elim (find_field name descriptor (classes c).fields) [
    | some f ↦ ok (some f)
    | none ↦ do
      found ← first_found (lookup_field fuel name descriptor) (classes c).super_interfaces
      elim found [
        | some f ↦ ok (some f)
        | none ↦ optional (lookup_field fuel name descriptor) (classes c).super_class
      ]
  ]

  -- The work list of `hasSuperInterface`, its back first. On fuel.
  unfoldable pub search : ℕ → ℕ → List ℕ → Result Bool
  search fuel other [] = ok false
  search zero other (interface ∷ work_list) = fault undefined
  search (suc fuel) other (interface ∷ work_list) = elim (interface == other) [
    | true ↦ ok true
    | false ↦ search fuel other (push_all (classes interface).super_interfaces work_list)
  ]

  -- `JClass::hasSuperInterface`. On fuel.
  unfoldable pub has_super_interface : ℕ → ℕ → ℕ → Result Bool
  has_super_interface zero other c = fault undefined
  has_super_interface (suc fuel) other c = do
    found ← search fuel other (push_all (classes c).super_interfaces [])
    elim found [
      | true ↦ ok true
      | false ↦ elim (classes c).super_class [
        | none ↦ ok false
        | some s ↦ has_super_interface fuel other s
      ]
    ]

  -- The loop of `isInstanceOf` along the superclasses. On fuel.
  unfoldable pub is_subclass : ℕ → ℕ → ℕ → Result Bool
  is_subclass zero other c = fault undefined
  is_subclass (suc fuel) other c = elim (c == other) [
    | true ↦ ok true
    | false ↦ elim (classes c).super_class [ none ↦ ok false | some s ↦ is_subclass fuel other s ]
  ]

  abbrev pub is_object : ℕ → Bool
  is_object c = same_text (classes c).class_name (codes "java/lang/Object")

  abbrev pub is_array_interface : ℕ → Bool
  is_array_interface c =
      same_text (classes c).class_name (codes "java/lang/Cloneable")
      || same_text (classes c).class_name (codes "java/io/Serializable")

  -- The last case of `isInstanceOf`: arrays of elements, which are compared by `instance_of`.
  abbrev pub compare_elements :
      (ℕ → ℕ → Result Bool)
      → Option PrimitiveType
      → Option ℕ
      → Option PrimitiveType
      → Option ℕ
      → Result Bool
  compare_elements instance_of (some p) e (some q) e' = ok (same_primitive p q)
  compare_elements instance_of (some p) (some c) none (some d) = instance_of c d
  compare_elements instance_of none (some c) q (some d) = instance_of c d
  compare_elements instance_of p e q e' = ok false

  abbrev pub instance_by_kind :
      (ℕ → ℕ → Result Bool) → ℕ → ℕ → ℕ → ClassKind → ClassKind → Result Bool
  instance_by_kind instance_of fuel c other class_type class_type = is_subclass fuel other c
  instance_by_kind instance_of fuel c other class_type interface_type =
      has_super_interface fuel other c
  instance_by_kind instance_of fuel c other class_type (array_type q e') = ok false
  instance_by_kind instance_of fuel c other interface_type class_type = ok (is_object other)
  instance_by_kind instance_of fuel c other interface_type interface_type = elim (c == other) [
    | true ↦ ok true
    | false ↦ has_super_interface fuel other c
  ]
  instance_by_kind instance_of fuel c other interface_type (array_type q e') = ok false
  instance_by_kind instance_of fuel c other (array_type p e) class_type = ok (is_object other)
  instance_by_kind instance_of fuel c other (array_type p e) interface_type =
      ok (is_array_interface other)
  instance_by_kind instance_of fuel c other (array_type p e) (array_type q e') =
      compare_elements instance_of p e q e'

  -- `JClass::isInstanceOf`. On fuel.
  unfoldable pub is_instance_of : ℕ → ℕ → ℕ → Result Bool
  is_instance_of zero c other = fault undefined
  is_instance_of (suc fuel) c other =
      instance_by_kind (is_instance_of fuel) (suc fuel) c other (classes c).kind
        (classes other).kind
