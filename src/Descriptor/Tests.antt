-- ===== src/Descriptor/Tests.antt =====
-- Runs of the descriptor code, after src/unit_tests/DescriptorTest.cpp.
use geevm.Prelude.{◌≡◌, ◌≢◌, refl, ◌↔◌, ℕ, List, none, some, [], ◌∷◌, ◌++◌, arith}
use geevm.Prelude.Text.{codes}
use geevm.Descriptor.{PrimitiveType, FieldType, primitive, class_name, MethodDescriptor, parse}
use geevm.Descriptor.{parse_method, void, returns}
use geevm.Descriptor.JavaNames.{to_java_string, array_type_name, format_as_java_signature}
use geevm.Descriptor.JavaNames.{parse-array_type_name, to_java_string-ne_spelling}
use geevm.Descriptor.Soundness.{parse_iff, parse_method_iff}

abbrev object_cube : FieldType
object_cube = record { storage = class_name (codes "java/lang/Object"); dimensions = 3 }

abbrev long_type : FieldType
long_type = record { storage = primitive PrimitiveType.long; dimensions = 0 }

abbrev sample : MethodDescriptor
sample = record { return_type = returns object_cube; parameters = object_cube ∷ long_type ∷ [] }

array_is_parsed : parse (codes "[[[Ljava/lang/Object;") ≡ some object_cube
unfolding parse
array_is_parsed = refl

no_semicolon : parse (codes "Ljava/lang/String") ≡ none
unfolding parse
no_semicolon = refl

trailing_text : parse (codes "Bjava/lang/String;") ≡ none
unfolding parse
trailing_text = refl

method_is_parsed :
    parse_method (codes "([[[Ljava/lang/Object;J)[[[Ljava/lang/Object;") ≡ some sample
unfolding parse_method
method_is_parsed = refl

void_is_no_parameter : parse_method (codes "(V)") ≡ none
unfolding parse_method
void_is_no_parameter = refl

-- Text behind the return type is not noticed.
junk_is_accepted :
    parse_method (codes "()V and more") ≡ some (record { return_type = void; parameters = [] })
unfolding parse_method
junk_is_accepted = refl

cube_has_six_brackets : to_java_string object_cube ≡ codes "java.lang.Object[][][][][][]"
unfolding to_java_string
cube_has_six_brackets = refl

signature_is_formatted :
    format_as_java_signature
      (record { return_type = void; parameters = long_type ∷ long_type ∷ [] })
      (codes "A.f")
    ≡ codes "void A.f(long, long)"
unfolding format_as_java_signature to_java_string
signature_is_formatted = refl

parse_iff_example :
    (parse (codes "[J") ≡ some (record { storage = primitive PrimitiveType.long; dimensions = 1 }))
    ↔ (Unit {0} × (codes "[J" ≡ codes "[J"))
parse_iff_example =
    parse_iff (codes "[J") (record { storage = primitive PrimitiveType.long; dimensions = 1 })

parse-array_type_name_example :
    parse (array_type_name (record { storage = primitive PrimitiveType.long; inner = 2 }))
    ≡ some (record { storage = primitive PrimitiveType.long; dimensions = 3 })
parse-array_type_name_example =
    parse-array_type_name (record { storage = primitive PrimitiveType.long; inner = 2 }) tt

to_java_string-ne_spelling_example : to_java_string object_cube ≢ codes "java.lang.Object[][][]"
to_java_string-ne_spelling_example = to_java_string-ne_spelling object_cube (omega arith)

parse_method_iff_example :
    (parse_method (codes "()Vxyz") ≡ some (record { return_type = void; parameters = [] }))
    ↔ ((junk : List ℕ) × (Unit {0} × Unit {0}) × (codes "()Vxyz" ≡ codes "()V" ++ junk))
parse_method_iff_example =
    parse_method_iff (codes "()Vxyz") (record { return_type = void; parameters = [] })
