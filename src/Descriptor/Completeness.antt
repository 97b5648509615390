-- ===== src/Descriptor/Completeness.antt =====
-- The parser of src/class_file/Descriptor.cpp accepts every text of the grammar, with whatever
-- text follows a type, and gives back the type that was written.
use mathlib.Core.Option
use geevm.Prelude.{ℕ, zero, suc, ◌+◌, ◌<◌, ◌≡◌, refl, ap, ◌∙◌, some, arith, List, [], ◌∷◌, ◌++◌}
use geevm.Prelude.{append_assoc, append-nil, length, drop, replicate, Bool-cases, inl, inr, ==_iff}
use geevm.Prelude.{length-append, length-replicate, ◌==◌, ◌≢◌, drop-length, take-length}
use geevm.Prelude.Text.{JString}
use geevm.Descriptor.{PrimitiveType, byte, char, double, float, int, long, short, boolean, Storage}
use geevm.Descriptor.{primitive, class_name, FieldType, ReturnType, void, returns, MethodDescriptor}
use geevm.Descriptor.{skip_dimensions, find_semicolon, primitive_of_char, parse_base, parse_field}
use geevm.Descriptor.{parse, parse_parameters, parse_return, parse_method}
use geevm.Descriptor.Grammar.{primitive_char, storage_text, type_text, types_text, method_text}
use geevm.Descriptor.Grammar.{NoSemicolon, IsWellFormed, AllWellFormed, return_text}
use geevm.Descriptor.Grammar.{ReturnIsWellFormed, MethodIsWellFormed}

find_semicolon-append :
    (name rest : JString)
    → NoSemicolon name
    → find_semicolon (name ++ b';' ∷ rest) ≡ some (length name)
unfolding find_semicolon
find_semicolon-append [] rest h = refl
find_semicolon-append (c ∷ cs) rest h = ground (arith, find_semicolon-append cs rest h.1)

skip_dimensions-storage :
    (s : Storage) (rest : JString) → skip_dimensions (storage_text s ++ rest) ≡ 0
unfolding skip_dimensions
skip_dimensions-storage (primitive p) rest = ground arith
skip_dimensions-storage (class_name name) rest = refl

skip_dimensions-replicate :
    (n : ℕ) (s : Storage) (rest : JString)
    → skip_dimensions (replicate n b'[' ++ (storage_text s ++ rest)) ≡ n
unfolding skip_dimensions
skip_dimensions-replicate zero s rest = skip_dimensions-storage s rest
skip_dimensions-replicate (suc n) s rest = ap suc (skip_dimensions-replicate n s rest)

drop-replicate {ℓ} : {A : Type ℓ} (n : ℕ) (a : A) (xs : List A) → drop n (replicate n a ++ xs) ≡ xs
drop-replicate zero a xs = refl
drop-replicate (suc n) a xs = drop-replicate n a xs

primitive_of_char-primitive_char :
    (p : PrimitiveType) → primitive_of_char (primitive_char p) ≡ some p
unfolding primitive_of_char
primitive_of_char-primitive_char byte = refl
primitive_of_char-primitive_char char = refl
primitive_of_char-primitive_char double = refl
primitive_of_char-primitive_char float = refl
primitive_of_char-primitive_char int = refl
primitive_of_char-primitive_char long = refl
primitive_of_char-primitive_char short = refl
primitive_of_char-primitive_char boolean = refl

parse_base-storage :
    (pos : ℕ) (s : Storage) (rest : JString)
    → IsWellFormed s
    → parse_base pos (storage_text s ++ rest)
      ≡ some (pos + length (storage_text s), record { storage = s; dimensions = pos })
unfolding parse_base
parse_base-storage pos (primitive byte) rest h = refl
parse_base-storage pos (primitive char) rest h = refl
parse_base-storage pos (primitive double) rest h = refl
parse_base-storage pos (primitive float) rest h = refl
parse_base-storage pos (primitive int) rest h = refl
parse_base-storage pos (primitive long) rest h = refl
parse_base-storage pos (primitive short) rest h = refl
parse_base-storage pos (primitive boolean) rest h = refl
parse_base-storage pos (class_name name) rest h =
    rw (append_assoc, find_semicolon-append name rest h, take-length name (b';' ∷ rest))
      (ground (arith, length-append name (b';' ∷ [])))

parse_field-append :
    (n : ℕ) (s : Storage) (rest : JString)
    → IsWellFormed s
    → parse_field (replicate n b'[' ++ (storage_text s ++ rest))
      ≡ some (n + length (storage_text s), record { storage = s; dimensions = n })
unfolding parse_field
parse_field-append n s rest h =
    rw (skip_dimensions-replicate n s rest, drop-replicate n b'[' (storage_text s ++ rest))
      (parse_base-storage n s rest h)

-- A type that stands in front of any text is read back, with the length of its text.
pub parse_field-type_text :
    (t : FieldType) (rest : JString)
    → IsWellFormed t.storage
    → parse_field (type_text t ++ rest) ≡ some (length (type_text t), t)
parse_field-type_text t rest h =
    rw (append_assoc, parse_field-append t.dimensions t.storage rest h)
      (ground (
        arith,
        length-append (replicate t.dimensions b'[') (storage_text t.storage),
        length-replicate {A = ℕ} t.dimensions b'[',
      ))

pub parse-type_text : (t : FieldType) → IsWellFormed t.storage → parse (type_text t) ≡ some t
unfolding parse
parse-type_text t h =
    let e : parse_field (type_text t) ≡ some (length (type_text t), t) =
      rw append-nil at (parse_field-type_text t [] h) in
    rw e (ground arith)

-- The text of a type is not empty and does not begin with `)` or `V`.
type_text_head :
    (n : ℕ) (s : Storage) (rest : JString)
    → (c : ℕ) × (r : JString) × (replicate n b'[' ++ (storage_text s ++ rest) ≡ c ∷ r)
      × (c ≢ b')')
      × (c ≢ b'V')
type_text_head zero (primitive byte) rest = (b'B', rest, refl, omega arith, omega arith)
type_text_head zero (primitive char) rest = (b'C', rest, refl, omega arith, omega arith)
type_text_head zero (primitive double) rest = (b'D', rest, refl, omega arith, omega arith)
type_text_head zero (primitive float) rest = (b'F', rest, refl, omega arith, omega arith)
type_text_head zero (primitive int) rest = (b'I', rest, refl, omega arith, omega arith)
type_text_head zero (primitive long) rest = (b'J', rest, refl, omega arith, omega arith)
type_text_head zero (primitive short) rest = (b'S', rest, refl, omega arith, omega arith)
type_text_head zero (primitive boolean) rest = (b'Z', rest, refl, omega arith, omega arith)
type_text_head zero (class_name name) rest =
    (b'L', (name ++ b';' ∷ []) ++ rest, refl, omega arith, omega arith)
type_text_head (suc n) s rest =
    (b'[', replicate n b'[' ++ (storage_text s ++ rest), refl, omega arith, omega arith)

-- One round of the loop over the parameters.
parse_parameters-cons :
    (f c : ℕ) (r : JString) (n : ℕ) (t : FieldType)
    → c ≢ b')'
    → parse_field (c ∷ r) ≡ some (n, t)
    → parse_parameters (suc f) (c ∷ r)
      ≡ Option.map (λ q. (t ∷ q.0, q.1)) (parse_parameters f (drop n (c ∷ r)))
unfolding parse_parameters
parse_parameters-cons f c r n t ne e = elim (Bool-cases (c == b')')) [
  | inl p ↦ absurd (ne ((==_iff c b')').0 p))
  | inr p ↦ rw (p, e)
]

parse_parameters-step :
    (f : ℕ) (t : FieldType) (rest : JString)
    → IsWellFormed t.storage
    → parse_parameters (suc f) (type_text t ++ rest)
      ≡ Option.map (λ q. (t ∷ q.0, q.1)) (parse_parameters f rest)
parse_parameters-step f t rest h =
    let (c, r, e, ne, _) = type_text_head t.dimensions t.storage rest in
    let e' : type_text t ++ rest ≡ c ∷ r =
      append_assoc (replicate t.dimensions b'[') (storage_text t.storage) rest ∙ e in
    let p : parse_field (c ∷ r) ≡ some (length (type_text t), t) =
      rw e' at (parse_field-type_text t rest h) in
    let d : drop (length (type_text t)) (c ∷ r) ≡ rest =
      rw e' at (drop-length (type_text t) rest) in
    rw e' (parse_parameters-cons f c r _ t ne p ∙ rw d)

type_text_pos : (n : ℕ) (s : Storage) → 0 < length (replicate n b'[' ++ storage_text s)
type_text_pos zero (primitive p) = omega arith
type_text_pos zero (class_name name) = omega arith
type_text_pos (suc n) s = omega arith

parse_parameters-types_text :
    (f : ℕ) (ts : List FieldType) (rest : JString)
    → AllWellFormed ts
    → length (types_text ts) < f
    → parse_parameters f (types_text ts ++ b')' ∷ rest) ≡ some (ts, rest)
parse_parameters-types_text zero ts rest w h = elim h [ ]
parse_parameters-types_text (suc f) [] rest w h = unfold parse_parameters in refl
parse_parameters-types_text (suc f) (t ∷ ts) rest w h =
    let l : length (type_text t ++ types_text ts) ≡ length (type_text t) + length (types_text ts) =
      length-append (type_text t) (types_text ts) in
    let g : length (types_text ts) < f = omega (arith, type_text_pos t.dimensions t.storage) in
    rw (append_assoc, parse_parameters-step f t (types_text ts ++ b')' ∷ rest) w.0)
      (rw (parse_parameters-types_text f ts rest w.1 g))

parse_return-return_text :
    (ps : List FieldType) (r : ReturnType) (junk : JString)
    → ReturnIsWellFormed r
    → parse_return ps (return_text r ++ junk) ≡ some (record { return_type = r; parameters = ps })
unfolding parse_return
parse_return-return_text ps void junk w = refl
parse_return-return_text ps (returns t) junk w =
    let (c, r, e, _, ne) = type_text_head t.dimensions t.storage junk in
    let e' : type_text t ++ junk ≡ c ∷ r =
      append_assoc (replicate t.dimensions b'[') (storage_text t.storage) junk ∙ e in
    let p : parse_field (c ∷ r) ≡ some (length (type_text t), t) =
      rw e' at (parse_field-type_text t junk w) in
    rw e' (elim (Bool-cases (c == b'V')) [
      | inl q ↦ absurd (ne ((==_iff c b'V').0 q))
      | inr q ↦ rw (q, p)
    ])

parse_method-open :
    (rest : JString) (ps : List FieldType) (r : JString)
    → parse_parameters (suc (length rest)) rest ≡ some (ps, r)
    → parse_method (b'(' ∷ rest) ≡ parse_return ps r
unfolding parse_method
parse_method-open rest ps r e = rw e

-- The text of a method descriptor is read back, whatever text follows it.
pub parse_method-method_text :
    (d : MethodDescriptor) (junk : JString)
    → MethodIsWellFormed d
    → parse_method (method_text d ++ junk) ≡ some d
parse_method-method_text d junk w =
    let rest : JString = types_text d.parameters ++ ((b')' ∷ return_text d.return_type) ++ junk) in
    let room : length (types_text d.parameters) < suc (length rest) = omega (
      arith,
      length-append (types_text d.parameters) ((b')' ∷ return_text d.return_type) ++ junk),
    ) in
    let e : parse_parameters (suc (length rest)) rest
        ≡ some (d.parameters, return_text d.return_type ++ junk) =
      parse_parameters-types_text _ d.parameters (return_text d.return_type ++ junk) w.0 room in
    let a : (types_text d.parameters ++ b')' ∷ return_text d.return_type) ++ junk ≡ rest =
      append_assoc (types_text d.parameters) (b')' ∷ return_text d.return_type) junk in
    rw a
      (parse_method-open rest _ _ e ∙ parse_return-return_text d.parameters d.return_type junk w.1)
