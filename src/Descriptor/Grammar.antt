-- ===== src/Descriptor/Grammar.antt =====
-- The grammar of descriptors, independently of the parser in src/class_file/Descriptor.cpp: the
-- text of a type, and the class names that a text can carry.
use geevm.Prelude.{ℕ, ◌≢◌, List, [], ◌∷◌, ◌++◌, replicate, length, length-append, length-replicate}
use geevm.Prelude.{◌+◌, arith, ◌≡◌}
use geevm.Prelude.Text.{JString}
use geevm.Descriptor.{PrimitiveType, byte, char, double, float, int, long, short, boolean, Storage}
use geevm.Descriptor.{primitive, class_name, FieldType, ReturnType, void, returns, MethodDescriptor}

abbrev pub primitive_char : PrimitiveType → ℕ
primitive_char byte = b'B'
primitive_char char = b'C'
primitive_char double = b'D'
primitive_char float = b'F'
primitive_char int = b'I'
primitive_char long = b'J'
primitive_char short = b'S'
primitive_char boolean = b'Z'

abbrev pub storage_text : Storage → JString
storage_text (primitive p) = primitive_char p ∷ []
storage_text (class_name name) = b'L' ∷ (name ++ b';' ∷ [])

abbrev pub type_text : FieldType → JString
type_text t = replicate t.dimensions b'[' ++ storage_text t.storage

abbrev pub types_text : List FieldType → JString
types_text [] = []
types_text (t ∷ ts) = type_text t ++ types_text ts

abbrev pub return_text : ReturnType → JString
return_text void = b'V' ∷ []
return_text (returns t) = type_text t

abbrev pub method_text : MethodDescriptor → JString
method_text d = b'(' ∷ (types_text d.parameters ++ b')' ∷ return_text d.return_type)

-- No `;` in a class name.
abbrev pub NoSemicolon : JString → Type 0
NoSemicolon [] = Unit
NoSemicolon (c ∷ cs) = (c ≢ b';') × NoSemicolon cs

abbrev pub IsWellFormed : Storage → Type 0
IsWellFormed (primitive p) = Unit
IsWellFormed (class_name name) = NoSemicolon name

abbrev pub AllWellFormed : List FieldType → Type 0
AllWellFormed [] = Unit
AllWellFormed (t ∷ ts) = IsWellFormed t.storage × AllWellFormed ts

abbrev pub ReturnIsWellFormed : ReturnType → Type 0
ReturnIsWellFormed void = Unit
ReturnIsWellFormed (returns t) = IsWellFormed t.storage

abbrev pub MethodIsWellFormed : MethodDescriptor → Type 0
MethodIsWellFormed d = AllWellFormed d.parameters × ReturnIsWellFormed d.return_type

pub length-type_text :
    (n : ℕ) (s : Storage)
    → length (replicate n b'[' ++ storage_text s) ≡ n + length (storage_text s)
length-type_text n s =
    omega
      (arith, length-append (replicate n b'[') (storage_text s), length-replicate {A = ℕ} n b'[')
