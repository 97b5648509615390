-- ===== src/Class/Layout.antt =====
-- Where `linkFields` of src/vm/Class.cpp puts the fields of an object.
use geevm.Prelude.{ℕ, ◌+◌, ◌*◌, ◌≤◌, ◌≡◌, refl, Bool, true, false, Option, none, some, List, []}
use geevm.Prelude.{◌∷◌, ◌++◌, ok, arith, inl, inr, Result, Bool-cases}
use geevm.Descriptor.{FieldType, parse}
use geevm.Descriptor.Slots.{size_of, size_of-IsSize, IsSize}
use geevm.GarbageCollector.{align_to}
use geevm.Class.{FieldInfo, JField, Linked, find_field, try_emplace, place, link_inherited}
use geevm.Class.{link_declared, link_fields}

-- The fields of an object lie one behind another between `low` and `high`, each within one place that is
-- aligned to its size; static fields have no place.
pub data Placed : ℕ → List JField → ℕ → Type 0 where
  no_more : {low high : ℕ} → low ≤ high → Placed low [] high
  static_field :
      {low high : ℕ} {f : JField} {fs : List JField}
      → f.is_static ≡ true
      → Placed low fs high
      → Placed low (f ∷ fs) high
  instance_field :
      {low high : ℕ} {f : JField} {fs : List JField}
      → low ≤ f.offset
      → (k : ℕ) × (f.offset ≡ k * size_of f.field_type)
      → Placed (f.offset + size_of f.field_type) fs high
      → Placed low (f ∷ fs) high

-- The aligned offset is not in front of the offset: the sizes are those of the primitive types.
align_to-low : (t : FieldType) (x : ℕ) → x ≤ align_to x (size_of t)
align_to-low t x = low (size_of t) (size_of-IsSize t)
  where
    low : (s : ℕ) → IsSize s → x ≤ align_to x s
    low s (inl e) = rw e (omega arith)
    low s (inr (inl e)) = rw e (omega arith)
    low s (inr (inr (inl e))) = rw e (omega arith)
    low s (inr (inr (inr e))) = rw e (omega arith)

Placed-higher :
    {low high high' : ℕ} {fs : List JField}
    → Placed low fs high
    → high ≤ high'
    → Placed low fs high'
Placed-higher (no_more h) le = no_more (omega arith)
Placed-higher (static_field s h) le = static_field s (Placed-higher h le)
Placed-higher (instance_field l a h) le = instance_field l a (Placed-higher h le)

Placed-append :
    {low high high' : ℕ} {fs : List JField} (f : JField)
    → Placed low fs high
    → high ≤ f.offset
    → (k : ℕ) × (f.offset ≡ k * size_of f.field_type)
    → f.offset + size_of f.field_type ≤ high'
    → Placed low (fs ++ f ∷ []) high'
Placed-append f (no_more h) at aligned end = instance_field (omega arith) aligned (no_more end)
Placed-append f (static_field s h) at aligned end =
    static_field s (Placed-append f h at aligned end)
Placed-append f (instance_field l a h) at aligned end =
    instance_field l a (Placed-append f h at aligned end)

place-Placed :
    (low : ℕ) (f : JField) (linked : Linked)
    → Placed low linked.0 linked.1
    → Placed low (place f linked).0 (place f linked).1
unfolding place try_emplace
place-Placed low f (fields, current) h = emplaced (find_field f.name f.descriptor fields)
  where
    emplaced :
        (found : Option JField)
        → Placed low
            (elim found [
              | none ↦ fields ++ record f { offset = align_to current (size_of f.field_type) } ∷ []
              | some g ↦ fields
            ])
            (align_to current (size_of f.field_type) + size_of f.field_type)
    emplaced none =
        let le = align_to-low f.field_type current in
        Placed-append (record f { offset = align_to current (size_of f.field_type) }) h le (_, refl)
          (omega arith)
    emplaced (some g) = let le = align_to-low f.field_type current in Placed-higher h (omega arith)

link_inherited-Placed :
    (low : ℕ) (fs : List JField) (linked : Linked)
    → Placed low linked.0 linked.1
    → Placed low (link_inherited fs linked).0 (link_inherited fs linked).1
unfolding link_inherited
link_inherited-Placed low [] linked h = h
link_inherited-Placed low (f ∷ fs) linked h =
    elim f.is_static as (λ b. Placed low (branch b).0 (branch b).1) [
      | true ↦ link_inherited-Placed low fs linked h
      | false ↦ link_inherited-Placed low fs (place f linked) (place-Placed low f linked h)
    ]
  where
    branch : Bool → Linked
    branch b = elim b [
      | true ↦ link_inherited fs linked
      | false ↦ link_inherited fs (place f linked)
    ]

-- The descriptors of the declared instance fields are those of types.
abbrev pub AllParse : List FieldInfo → Type 0
AllParse [] = Unit
AllParse (info ∷ infos) =
    (info.is_static ≡ false → (t : FieldType) × (parse info.descriptor ≡ some t)) × AllParse infos

abbrev IsPlaced : ℕ → Result Linked → Type 0
IsPlaced low r = (linked : Linked) × (r ≡ ok linked) × Placed low linked.0 linked.1

link_declared-Placed :
    (low : ℕ) (infos : List FieldInfo) (linked : Linked)
    → AllParse infos
    → Placed low linked.0 linked.1
    → IsPlaced low (link_declared infos linked)
unfolding link_declared
link_declared-Placed low [] linked all h = (linked, refl, h)
link_declared-Placed low (info ∷ infos) linked (here, all) h = elim (Bool-cases info.is_static) [
  | inl s ↦ rw (link_declared, s) (link_declared-Placed low infos linked all h)
  | inr s ↦
      let (t, parsed) = here s in
      rw (link_declared, s, parsed)
        (link_declared-Placed low infos (place _ linked) all (place-Placed low _ linked h))
]

-- The fields before linking: those of `prepareStaticFields`.
abbrev pub AllStatic : List JField → Type 0
AllStatic [] = Unit
AllStatic (f ∷ fs) = (f.is_static ≡ true) × AllStatic fs

AllStatic-Placed : (low : ℕ) (fs : List JField) → AllStatic fs → Placed low fs low
AllStatic-Placed low [] all = no_more (omega arith)
AllStatic-Placed low (f ∷ fs) (s, all) = static_field s (AllStatic-Placed low fs all)

-- Where the descriptors of the declared instance fields can be parsed and only static fields are there
-- before, `link_fields` returns, and the instance fields lie behind the header and within the allocation
-- size, none over another, each aligned to its size.
pub link_fields-Placed :
    (header_size : ℕ) (super_fields : Option (List JField)) (infos : List FieldInfo)
    (fields : List JField)
    → AllParse infos
    → AllStatic fields
    → (linked : Linked) × (link_fields header_size super_fields infos fields ≡ ok linked)
      × Placed header_size linked.0 linked.1
unfolding link_fields
link_fields-Placed header_size none infos fields all statics =
    link_declared-Placed header_size infos (fields, header_size) all
      (AllStatic-Placed header_size fields statics)
link_fields-Placed header_size (some inherited) infos fields all statics =
    link_declared-Placed header_size infos (link_inherited inherited (fields, header_size)) all (
      link_inherited-Placed header_size inherited (fields, header_size)
        (AllStatic-Placed header_size fields statics))
