-- ===== src/Class/Hierarchy/Tests.antt =====
-- Five classes of src/vm/Class.cpp besides Object: an interface, one that extends it, a class that
-- implements the second, and arrays of the class and of the first interface.
use geevm.Prelude.{ℕ, zero, suc, ◌≡◌, none, some, Option, [], ◌∷◌, arith, ◌+◌, ◌≤◌, sym, ap}
use geevm.Prelude.{some_eq, true}
use geevm.Prelude.Text.{codes}
use geevm.GarbageCollector.Weights.{total}
use geevm.Class.{JField, find_field}
use geevm.Descriptor.{primitive, PrimitiveType}
use geevm.Class.Hierarchy.{JClass, JMethod, ClassKind, class_type, interface_type, array_type}
use geevm.Class.Hierarchy.{is_instance_of, get_virtual_method, lookup_field, find_method}
use geevm.Class.Hierarchy.Supertypes.{Weighted, weight_of, Decides}
use geevm.Class.Hierarchy.Subtyping.{CanCast, is_instance_of-Decides}
use geevm.Class.Hierarchy.Lookup.{Looks, Above, get_virtual_method-Looks, lookup_field-Looks}

abbrev area : JMethod
area = record { name = codes "area"; descriptor = codes "()I" }

abbrev sides : JField
sides = record {
  name = codes "sides";
  descriptor = codes "I";
  field_type = record { storage = primitive PrimitiveType.int; dimensions = 0 };
  is_static = true;
  offset = 0;
}

abbrev classes : ℕ → JClass
classes zero = record {
  class_name = codes "java/lang/Object";
  kind = class_type;
  super_class = none;
  super_interfaces = [];
  methods = [];
  fields = [];
}
classes (suc zero) = record {
  class_name = codes "Shape";
  kind = interface_type;
  super_class = some 0;
  super_interfaces = [];
  methods = area ∷ [];
  fields = sides ∷ [];
}
classes (suc (suc zero)) = record {
  class_name = codes "Round";
  kind = interface_type;
  super_class = some 0;
  super_interfaces = 1 ∷ [];
  methods = [];
  fields = [];
}
classes (suc (suc (suc zero))) = record {
  class_name = codes "Disc";
  kind = class_type;
  super_class = some 0;
  super_interfaces = 2 ∷ [];
  methods = [];
  fields = [];
}
classes (suc (suc (suc (suc zero)))) = record {
  class_name = codes "[LDisc;";
  kind = array_type none (some 3);
  super_class = some 0;
  super_interfaces = [];
  methods = [];
  fields = [];
}
classes (suc (suc (suc (suc (suc c))))) = record {
  class_name = codes "[LShape;";
  kind = array_type none (some 1);
  super_class = some 0;
  super_interfaces = [];
  methods = [];
  fields = [];
}

abbrev weight : ℕ → ℕ
weight zero = 1
weight (suc zero) = 2
weight (suc (suc zero)) = 4
weight (suc (suc (suc zero))) = 6
weight (suc (suc (suc (suc c)))) = 7

classes-Weighted : Weighted classes weight
classes-Weighted = record { above = above; of_element = of_element }
  where
    above :
        (c : ℕ)
        → 1 + total weight (classes c).super_interfaces + weight_of weight (classes c).super_class
          ≤ weight c
    above zero = omega arith
    above (suc zero) = omega arith
    above (suc (suc zero)) = omega arith
    above (suc (suc (suc zero))) = omega arith
    above (suc (suc (suc (suc zero)))) = omega arith
    above (suc (suc (suc (suc (suc c))))) = omega arith

    element : ClassKind → Option ℕ
    element (array_type p e) = e
    element _ = none

    of_element :
        (c : ℕ) (p : Option PrimitiveType) (e : ℕ)
        → (classes c).kind ≡ array_type p (some e)
        → 1 + weight e ≤ weight c
    of_element zero p e is = absurd (cc)
    of_element (suc zero) p e is = absurd (cc)
    of_element (suc (suc zero)) p e is = absurd (cc)
    of_element (suc (suc (suc zero))) p e is = absurd (cc)
    of_element (suc (suc (suc (suc zero)))) p e is =
        let same : 3 ≡ e = some_eq (ap element is) in rw (sym same) (omega arith)
    of_element (suc (suc (suc (suc (suc c))))) p e is =
        let same : 1 ≡ e = some_eq (ap element is) in rw (sym same) (omega arith)

is_instance_of-Decides_example : Decides (CanCast classes 4 5) (is_instance_of classes 7 4 5)
is_instance_of-Decides_example =
    is_instance_of-Decides classes weight classes-Weighted 7 4 5 (omega arith)

get_virtual_method-Looks_example :
    Looks
      (Above classes)
      (λ d. find_method (codes "area") (codes "()I") (classes d).methods)
      3
      (get_virtual_method classes 6 (codes "area") (codes "()I") 3)
get_virtual_method-Looks_example =
    get_virtual_method-Looks classes weight classes-Weighted 6 (codes "area") (codes "()I") 3
      (omega arith)

lookup_field-Looks_example :
    Looks
      (Above classes)
      (λ d. find_field (codes "sides") (codes "I") (classes d).fields)
      3
      (lookup_field classes 6 (codes "sides") (codes "I") 3)
lookup_field-Looks_example =
    lookup_field-Looks classes weight classes-Weighted 6 (codes "sides") (codes "I") 3 (omega arith)
