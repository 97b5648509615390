-- ===== src/Descriptor/JavaNames.antt =====
-- The printers of src/class_file/Descriptor.cpp: `ArrayType::className`, `toJavaString` of field and
-- return types, and `formatAsJavaSignature`.
use Prim.Native.Nat.add
use geevm.Prelude.{ℕ, zero, suc, ◌+◌, ◌≤◌, ◌<◌, ◌≡◌, ◌≢◌, refl, ap, ◌∙◌, List, [], ◌∷◌, ◌++◌}
use geevm.Prelude.{append_assoc, map, arith, ◌==◌, if◌then◌else◌, length, append-nil, sym}
use geevm.Prelude.{length-append, some}
use geevm.Prelude.Text.{JString, codes}
use geevm.Descriptor.{PrimitiveType, byte, char, double, float, int, long, short, boolean, Storage}
use geevm.Descriptor.{primitive, class_name, FieldType, ArrayType, ReturnType, void, returns}
use geevm.Descriptor.{MethodDescriptor, parse, get_dimensions}
use geevm.Descriptor.Grammar.{type_text, IsWellFormed}
use geevm.Descriptor.Completeness.{parse-type_text}

-- `PrimitiveTypeTraits<Type>::Descriptor`
abbrev primitive_descriptor : PrimitiveType → JString
primitive_descriptor byte = codes "B"
primitive_descriptor char = codes "C"
primitive_descriptor double = codes "D"
primitive_descriptor float = codes "F"
primitive_descriptor int = codes "I"
primitive_descriptor long = codes "J"
primitive_descriptor short = codes "S"
primitive_descriptor boolean = codes "Z"

-- `PrimitiveTypeTraits<Type>::Name`
abbrev primitive_name : PrimitiveType → JString
primitive_name byte = codes "byte"
primitive_name char = codes "char"
primitive_name double = codes "double"
primitive_name float = codes "float"
primitive_name int = codes "int"
primitive_name long = codes "long"
primitive_name short = codes "short"
primitive_name boolean = codes "boolean"

-- `ArrayType::className`, by recursion on the dimensions of the element type.
array_class_name : Storage → ℕ → JString
array_class_name (primitive p) zero = codes "[" ++ primitive_descriptor p
array_class_name (class_name name) zero = codes "[" ++ (codes "L" ++ name ++ codes ";")
array_class_name s (suc n) = codes "[" ++ array_class_name s n

pub array_type_name : ArrayType → JString
unfolding array_class_name
array_type_name a = array_class_name a.storage a.inner

-- `std::ranges::replace(buff, u'/', u'.')`
abbrev pub dotted : JString → JString
dotted name = map (λ c. if c == b'/' then b'.' else c) name

-- The loop that appends `[]` for each of the dimensions.
append_brackets : ℕ → JString → JString
append_brackets zero s = s
append_brackets (suc n) s = append_brackets n (s ++ codes "[]")

-- `FieldType::toJavaString`: of an array, the name of the element type and the loop.
java_string : Storage → ℕ → JString
unfolding append_brackets
java_string (primitive p) zero = primitive_name p
java_string (class_name name) zero = dotted name
java_string s (suc n) = append_brackets (suc n) (java_string s n)

unfoldable pub to_java_string : FieldType → JString
unfolding java_string
to_java_string t = java_string t.storage t.dimensions

-- `ReturnType::toJavaString`
pub return_to_java_string : ReturnType → JString
unfolding to_java_string
return_to_java_string void = codes "void"
return_to_java_string (returns t) = to_java_string t

-- The parameters with `, ` between them.
parameter_list : List FieldType → JString
parameter_list [] = []
parameter_list (p ∷ []) = to_java_string p
parameter_list (p ∷ (q ∷ ps)) = to_java_string p ++ codes ", " ++ parameter_list (q ∷ ps)

-- `MethodDescriptor::formatAsJavaSignature`
unfoldable pub format_as_java_signature : MethodDescriptor → JString → JString
unfolding parameter_list return_to_java_string
format_as_java_signature d name =
    return_to_java_string d.return_type
    ++ (codes " " ++ name)
    ++ codes "("
    ++ parameter_list d.parameters
    ++ codes ")"

array_class_name-type_text :
    (s : Storage) (n : ℕ)
    → array_class_name s n ≡ type_text (record { storage = s; dimensions = suc n })
unfolding array_class_name
array_class_name-type_text (primitive byte) zero = refl
array_class_name-type_text (primitive char) zero = refl
array_class_name-type_text (primitive double) zero = refl
array_class_name-type_text (primitive float) zero = refl
array_class_name-type_text (primitive int) zero = refl
array_class_name-type_text (primitive long) zero = refl
array_class_name-type_text (primitive short) zero = refl
array_class_name-type_text (primitive boolean) zero = refl
array_class_name-type_text (class_name name) zero = refl
array_class_name-type_text (primitive p) (suc n) =
    ap (◌∷◌ b'[') (array_class_name-type_text (primitive p) n)
array_class_name-type_text (class_name name) (suc n) =
    ap (◌∷◌ b'[') (array_class_name-type_text (class_name name) n)

-- The class name of an array type is parsed back to that type: an array class can be resolved from
-- the name that its element classes give it.
pub parse-array_type_name :
    (a : ArrayType)
    → IsWellFormed a.storage
    → parse (array_type_name a)
      ≡ some (record { storage = a.storage; dimensions = get_dimensions a })
unfolding array_type_name
parse-array_type_name a w =
    ap parse (array_class_name-type_text a.storage a.inner) ∙ parse-type_text _ w

-- The name of the element type of all dimensions.
abbrev pub base_name : Storage → JString
base_name (primitive p) = primitive_name p
base_name (class_name name) = dotted name

abbrev pub brackets : ℕ → JString
brackets zero = []
brackets (suc n) = codes "[]" ++ brackets n

-- 1 + 2 + ... + n
abbrev pub triangle : ℕ → ℕ
triangle zero = zero
triangle (suc n) = triangle n + suc n

append_brackets-brackets : (n : ℕ) (s : JString) → append_brackets n s ≡ s ++ brackets n
unfolding append_brackets
append_brackets-brackets zero s = sym (append-nil s)
append_brackets-brackets (suc n) s =
    append_brackets-brackets n (s ++ codes "[]") ∙ append_assoc s (codes "[]") (brackets n)

brackets-add : (m n : ℕ) → brackets (m + n) ≡ brackets m ++ brackets n
brackets-add zero n = rw add.zero
brackets-add (suc m) n = rw add.suc (ap (λ x. b'[' ∷ b']' ∷ x) (brackets-add m n))

length-brackets : (n : ℕ) → length (brackets n) ≡ n + n
length-brackets zero = refl
length-brackets (suc n) = omega (arith, length-brackets n)

java_string-step :
    (s : Storage) (n : ℕ)
    → java_string s n ≡ base_name s ++ brackets (triangle n)
    → append_brackets (suc n) (java_string s n) ≡ base_name s ++ brackets (triangle (suc n))
java_string-step s n h =
    append_brackets-brackets (suc n) (java_string s n)
    ∙ ap (λ x. x ++ brackets (suc n)) h
    ∙ append_assoc (base_name s) (brackets (triangle n)) (brackets (suc n))
    ∙ ap (◌++◌ (base_name s)) (sym (brackets-add (triangle n) (suc n)))

java_string-triangle :
    (s : Storage) (n : ℕ) → java_string s n ≡ base_name s ++ brackets (triangle n)
unfolding java_string
java_string-triangle (primitive p) zero = sym (append-nil (primitive_name p))
java_string-triangle (class_name name) zero = sym (append-nil (dotted name))
java_string-triangle (primitive p) (suc n) =
    java_string-step (primitive p) n (java_string-triangle (primitive p) n)
java_string-triangle (class_name name) (suc n) =
    java_string-step (class_name name) n (java_string-triangle (class_name name) n)

-- The Java name of a type of `n` dimensions is the name of its base type, with dots for slashes,
-- followed by `1 + 2 + ... + n` pairs of brackets.
pub to_java_string-triangle :
    (t : FieldType) → to_java_string t ≡ base_name t.storage ++ brackets (triangle t.dimensions)
unfolding to_java_string
to_java_string-triangle t = java_string-triangle t.storage t.dimensions

triangle-lt : (n : ℕ) → 2 ≤ n → n < triangle n
triangle-lt zero h = absurd (omega arith)
triangle-lt (suc zero) h = absurd (omega arith)
triangle-lt (suc (suc zero)) h = omega arith
triangle-lt (suc (suc (suc n))) h = omega (arith, triangle-lt (suc (suc n)) (omega arith))

-- From two dimensions on, the Java name is not the Java spelling of the type, which has one pair of
-- brackets for each dimension.
pub to_java_string-ne_spelling :
    (t : FieldType)
    → 2 ≤ t.dimensions
    → to_java_string t ≢ base_name t.storage ++ brackets t.dimensions
to_java_string-ne_spelling t h e =
    let p : length (base_name t.storage ++ brackets (triangle t.dimensions))
        ≡ length (base_name t.storage ++ brackets t.dimensions) =
      ap length (sym (to_java_string-triangle t) ∙ e) in
    absurd (
      omega (
        arith,
        p,
        length-append (base_name t.storage) (brackets (triangle t.dimensions)),
        length-append (base_name t.storage) (brackets t.dimensions),
        length-brackets (triangle t.dimensions),
        length-brackets t.dimensions,
        triangle-lt t.dimensions h,
      ))
