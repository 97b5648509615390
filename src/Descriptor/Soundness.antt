-- ===== src/Descriptor/Soundness.antt =====
-- What the parser of src/class_file/Descriptor.cpp accepts is a text of the grammar.
use mathlib.Core.Option.{some-injective}
use mathlib.Core.Path.{subst}
use geevm.Prelude.{ℕ, zero, suc, ◌+◌, ◌≡◌, refl, sym, ap, ap₂, ◌∙◌, inl, inr, [], ◌∷◌, ◌++◌}
use geevm.Prelude.{append_assoc, length, take, drop, replicate, length-append, ◌==◌, Bool-cases}
use geevm.Prelude.{==_iff, Option-cases, some, arith, List, Option, append-nil, drop-length, ◌↔◌}
use geevm.Prelude.Text.{JString}
use geevm.Descriptor.{PrimitiveType, primitive, class_name, FieldType, skip_dimensions}
use geevm.Descriptor.{find_semicolon, primitive_of_char, parse_base, parse, parse_field}
use geevm.Descriptor.{parse_parameters, whole, parse_return, MethodDescriptor, parse_method}
use geevm.Descriptor.Grammar.{primitive_char, type_text, NoSemicolon, IsWellFormed}
use geevm.Descriptor.Grammar.{length-type_text, AllWellFormed, types_text, return_text}
use geevm.Descriptor.Grammar.{ReturnIsWellFormed, MethodIsWellFormed, method_text}
use geevm.Descriptor.Completeness.{parse-type_text, parse_method-method_text}

skip_dimensions-replicate :
    (input : JString)
    → input ≡ replicate (skip_dimensions input) b'[' ++ drop (skip_dimensions input) input
unfolding skip_dimensions
skip_dimensions-replicate [] = refl
skip_dimensions-replicate (c ∷ cs) = elim (Bool-cases (c == b'[')) [
  | inl p ↦ rw p (ap₂ ◌∷◌ ((==_iff c b'[').0 p) (skip_dimensions-replicate cs))
  | inr p ↦ rw p
]

-- The name in front of the first semicolon, and what follows it.
find_semicolon-split :
    (cs : JString) (k : ℕ)
    → find_semicolon cs ≡ some k
    → NoSemicolon (take k cs)
      × (cs ≡ take k cs ++ b';' ∷ drop (suc k) cs)
      × (length (take k cs) ≡ k)
unfolding find_semicolon
find_semicolon-split [] k e = cc
find_semicolon-split (c ∷ cs) zero e = ground arith
find_semicolon-split (c ∷ cs) (suc k) e = ground (arith, find_semicolon-split cs k)

-- A parsed type with the rest of its input: the type is well formed, and its text was read.
abbrev pub Reads : JString → ℕ → FieldType → Type 0
Reads input n t =
    (rest : JString) × IsWellFormed t.storage
    × (n ≡ length (type_text t))
    × (input ≡ type_text t ++ rest)

primitive_of_char-eq :
    (c : ℕ) (p : PrimitiveType) → primitive_of_char c ≡ some p → c ≡ primitive_char p
unfolding primitive_of_char
primitive_of_char-eq c p e = ground arith

Reads-class_name :
    (d : ℕ) (cs : JString) (k : ℕ)
    → find_semicolon cs ≡ some k
    → Reads
        (replicate d b'[' ++ b'L' ∷ cs)
        (d + k + 2)
        (record { storage = class_name (take k cs); dimensions = d })
Reads-class_name d cs k e =
    let s = find_semicolon-split cs k e in
    let c : b'L' ∷ cs ≡ b'L' ∷ (take k cs ++ b';' ∷ []) ++ drop (suc k) cs =
      ap (◌∷◌ b'L') (s.1 ∙ sym (append_assoc (take k cs) (b';' ∷ []) (drop (suc k) cs))) in
    (
      drop (suc k) cs,
      s.0,
      omega (
        arith,
        s.2,
        length-type_text d (class_name (take k cs)),
        length-append (take k cs) (b';' ∷ []),
      ),
      rw append_assoc (ap (◌++◌ (replicate d b'[')) c),
    )

Reads-primitive :
    (d c : ℕ) (cs : JString) (p : PrimitiveType)
    → primitive_of_char c ≡ some p
    → Reads (replicate d b'[' ++ c ∷ cs) (d + 1) (record { storage = primitive p; dimensions = d })
Reads-primitive d c cs p e = (
  cs,
  tt,
  omega (arith, length-type_text d (primitive p)),
  rw append_assoc (ap (λ x. replicate d b'[' ++ x ∷ cs) (primitive_of_char-eq c p e)),
)

Reads-some :
    (input : JString) (n m : ℕ) (t u : FieldType)
    → ◌≡◌ {A = Option (ℕ × FieldType)} (some (n, t)) (some (m, u))
    → Reads input n t
    → Reads input m u
Reads-some input n m t u e h =
    subst (λ (q : ℕ × FieldType). Reads input q.0 q.1) (some-injective _ _ e) h

parse_base-Reads :
    (d : ℕ) (rest : JString) (n : ℕ) (t : FieldType)
    → parse_base d rest ≡ some (n, t)
    → Reads (replicate d b'[' ++ rest) n t
unfolding parse_base
parse_base-Reads d [] n t e = cc
parse_base-Reads d (c ∷ cs) n t e = elim (Bool-cases (c == b'L')) [
  | inl p ↦
      let e' = rw p at e in
      elim (Option-cases (find_semicolon cs)) [
        | inl q ↦ let e'' = rw q at e' in cc
        | inr (k, q) ↦
            rw ((==_iff c b'L').0 p) (Reads-some _ _ n _ t (rw q at e') (Reads-class_name d cs k q))
      ]
  | inr p ↦
      let e' = rw p at e in
      elim (Option-cases (primitive_of_char c)) [
        | inl q ↦ let e'' = rw q at e' in cc
        | inr (k, q) ↦ Reads-some _ _ n _ t (rw q at e') (Reads-primitive d c cs k q)
      ]
]

-- A parsed type was read off the front of the input, and the position is behind its text.
pub parse_field-Reads :
    (input : JString) (n : ℕ) (t : FieldType) → parse_field input ≡ some (n, t) → Reads input n t
unfolding parse_field
parse_field-Reads input n t e =
    rw (skip_dimensions-replicate input)
      (parse_base-Reads (skip_dimensions input) (drop (skip_dimensions input) input) n t e)

no_rest {ℓ} : {A : Type ℓ} (xs ys : List A) → length (xs ++ ys) ≡ length xs → xs ++ ys ≡ xs
no_rest xs [] h = append-nil xs
no_rest xs (y ∷ ys) h = absurd (omega (arith, length-append xs (y ∷ ys)))

whole-eq-some :
    (input : JString) (n : ℕ) (u t : FieldType)
    → whole input (some (n, u)) ≡ some t
    → (n ≡ length input) × (u ≡ t)
unfolding whole
whole-eq-some input n u t e = elim (Bool-cases (n == length input)) [
  | inl p ↦ ((==_iff n (length input)).0 p, some-injective u t (rw p at e))
  | inr p ↦ let e' = rw p at e in cc
]

-- A whole input that is accepted is the text of the type.
pub parse-eq-some :
    (input : JString) (t : FieldType)
    → parse input ≡ some t
    → IsWellFormed t.storage × (input ≡ type_text t)
unfolding parse
parse-eq-some input t e = elim (Option-cases (parse_field input)) [
  | inl q ↦ let e' = rw (q, whole) at e in cc
  | inr ((n, u), q) ↦
      let w = whole-eq-some input n u t (rw q at e) in
      let (rest, wf, l, i) = parse_field-Reads input n u q in
      let k : length (type_text u ++ rest) ≡ length (type_text u) =
        sym (ap length i) ∙ sym w.0 ∙ l in
      subst (λ (x : FieldType). IsWellFormed x.storage × (input ≡ type_text x)) w.1
        (wf, i ∙ no_rest (type_text u) rest k)
]

-- The parameters of a text, and what follows `)`.
abbrev ReadsAll : JString → List FieldType → JString → Type 0
ReadsAll input ts r = AllWellFormed ts × (input ≡ types_text ts ++ b')' ∷ r)

ReadsAll-cons :
    (input : JString) (n : ℕ) (t : FieldType) (us : List FieldType) (r : JString)
    → Reads input n t
    → ReadsAll (drop n input) us r
    → ReadsAll input (t ∷ us) r
ReadsAll-cons input n t us r (rest, wf, l, i) (all, e) =
    let d : drop n input ≡ rest = rw (l, i) (drop-length (type_text t) rest) in
    (
      (wf, all),
      i
          ∙ ap (◌++◌ (type_text t)) (sym d ∙ e)
          ∙ sym (append_assoc (type_text t) (types_text us) (b')' ∷ r)),
    )

-- The parameters that the loop collects, and the input that it leaves behind `)`.
parse_parameters-ReadsAll :
    (f : ℕ) (input : JString) (ts : List FieldType) (r : JString)
    → parse_parameters f input ≡ some (ts, r)
    → ReadsAll input ts r
unfolding parse_parameters
parse_parameters-ReadsAll zero input ts r e = cc
parse_parameters-ReadsAll (suc f) [] ts r e = cc
parse_parameters-ReadsAll (suc f) (c ∷ cs) ts r e = elim (Bool-cases (c == b')')) [
  | inl p ↦
      subst (λ (q : List FieldType × JString). ReadsAll (c ∷ cs) q.0 q.1)
        (some-injective ([], cs) (ts, r) (rw p at e)) (tt, ap (λ x. x ∷ cs) ((==_iff c b')').0 p))
  | inr p ↦ elim (Option-cases (parse_field (c ∷ cs))) [
    | inl q ↦ let e' = rw (p, q) at e in cc
    | inr ((n, t), q) ↦ elim (Option-cases (parse_parameters f (drop n (c ∷ cs)))) [
      | inl q' ↦ let e' = rw (p, q, q') at e in cc
      | inr ((us, s), q') ↦
          subst (λ (x : List FieldType × JString). ReadsAll (c ∷ cs) x.0 x.1)
            (some-injective (t ∷ us, s) (ts, r) (rw (p, q, q') at e))
            (ReadsAll-cons (c ∷ cs) n t us s (parse_field-Reads (c ∷ cs) n t q)
              (parse_parameters-ReadsAll f (drop n (c ∷ cs)) us s q'))
    ]
  ]
]

abbrev IsReturn : List FieldType → JString → MethodDescriptor → Type 0
IsReturn ps input d =
    (junk : JString) × (input ≡ return_text d.return_type ++ junk)
    × (d.parameters ≡ ps)
    × ReturnIsWellFormed d.return_type

parse_return-eq-some :
    (ps : List FieldType) (input : JString) (d : MethodDescriptor)
    → parse_return ps input ≡ some d
    → IsReturn ps input d
unfolding parse_return
parse_return-eq-some ps [] d e = cc
parse_return-eq-some ps (c ∷ cs) d e = elim (Bool-cases (c == b'V')) [
  | inl p ↦
      subst (IsReturn ps (c ∷ cs)) (some-injective _ d (rw p at e))
        (cs, ap (λ x. x ∷ cs) ((==_iff c b'V').0 p), refl, tt)
  | inr p ↦ elim (Option-cases (parse_field (c ∷ cs))) [
    | inl q ↦ let e' = rw (p, q) at e in cc
    | inr ((n, t), q) ↦
        let (rest, wf, l, i) = parse_field-Reads (c ∷ cs) n t q in
        subst (IsReturn ps (c ∷ cs)) (some-injective _ d (rw (p, q) at e)) (rest, i, refl, wf)
  ]
]

parse_method-eq-some :
    (input : JString) (d : MethodDescriptor)
    → parse_method input ≡ some d
    → (junk : JString) × MethodIsWellFormed d × (input ≡ method_text d ++ junk)
unfolding parse_method
parse_method-eq-some [] d e = cc
parse_method-eq-some (c ∷ cs) d e = elim (Bool-cases (c == b'(')) [
  | inl p ↦ elim (Option-cases (parse_parameters (suc (length cs)) cs)) [
    | inl q ↦ let e' = rw (p, q) at e in cc
    | inr ((ps, r), q) ↦
        let (all, i) = parse_parameters-ReadsAll (suc (length cs)) cs ps r q in
        let (junk, j, same, wf) = parse_return-eq-some ps r d (rw (p, q) at e) in
        (
          junk,
          (rw (← same) at all, wf),
          ap₂ ◌∷◌ ((==_iff c b'(').0 p) (
              i
              ∙ ap₂ (λ xs ys. types_text xs ++ b')' ∷ ys) (sym same) j
              ∙ sym
                  (append_assoc (types_text d.parameters) (b')' ∷ return_text d.return_type) junk)),
        )
  ]
  | inr p ↦ let e' = rw p at e in cc
]

-- The parser of field types accepts exactly the texts of the types whose class names hold no `;`,
-- and gives back the type that was written.
pub parse_iff :
    (input : JString) (t : FieldType)
    → (parse input ≡ some t) ↔ (IsWellFormed t.storage × (input ≡ type_text t))
parse_iff input t = (parse-eq-some input t, λ (wf, e). rw e (parse-type_text t wf))

-- The parser of method descriptors returns a descriptor exactly where the input is the text of that
-- descriptor, followed by any text whatever.
pub parse_method_iff :
    (input : JString) (d : MethodDescriptor)
    → (parse_method input ≡ some d)
      ↔ ((junk : JString) × MethodIsWellFormed d × (input ≡ method_text d ++ junk))
parse_method_iff input d =
    (parse_method-eq-some input d, λ (junk, wf, e). rw e (parse_method-method_text d junk wf))
