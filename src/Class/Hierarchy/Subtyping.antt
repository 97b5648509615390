-- ===== src/Class/Hierarchy/Subtyping.antt =====
-- That `isInstanceOf` of src/vm/Class.cpp decides the subtyping of Java's run-time types.
use geevm.Prelude.{ℕ, zero, suc, ◌≤◌, ◌≡◌, refl, sym, ◌∙◌, ◌⊎◌, inl, inr, Bool, true, false, ap}
use geevm.Prelude.{Option, none, some, Result, ok, arith, ◌==◌, ==_iff, Bool-cases, if◌then◌else◌}
use geevm.Descriptor.{PrimitiveType}
use geevm.Class.Hierarchy.{JClass, ClassKind, class_type, interface_type, array_type}
use geevm.Class.Hierarchy.{same_primitive, primitive_index, is_object, is_array_interface}
use geevm.Class.Hierarchy.{is_instance_of, instance_by_kind, compare_elements}
use geevm.Class.Hierarchy.Supertypes.{Weighted, Decides, holds, fails, Decides-map, Subclass}
use geevm.Class.Hierarchy.Supertypes.{Implements, has_super_interface-Decides, is_subclass-Decides}

-- The primitive type with a number.
of_index : ℕ → PrimitiveType
of_index n =
    if n == 0
    then PrimitiveType.byte
    else if n == 1
    then PrimitiveType.char
    else if n == 2
    then PrimitiveType.double
    else if n == 3
    then PrimitiveType.float
    else if n == 4
    then PrimitiveType.int
    else if n == 5
    then PrimitiveType.long
    else if n == 6
    then PrimitiveType.short
    else PrimitiveType.boolean

of_index-primitive_index : (p : PrimitiveType) → of_index (primitive_index p) ≡ p
unfolding of_index
of_index-primitive_index PrimitiveType.byte = refl
of_index-primitive_index PrimitiveType.char = refl
of_index-primitive_index PrimitiveType.double = refl
of_index-primitive_index PrimitiveType.float = refl
of_index-primitive_index PrimitiveType.int = refl
of_index-primitive_index PrimitiveType.long = refl
of_index-primitive_index PrimitiveType.short = refl
of_index-primitive_index PrimitiveType.boolean = refl

primitive_index-injective : (p q : PrimitiveType) → primitive_index p ≡ primitive_index q → p ≡ q
primitive_index-injective p q e =
    sym (of_index-primitive_index p) ∙ ap of_index e ∙ of_index-primitive_index q

none_or_some {ℓ} : {A : Type ℓ} {x : A} → ¬ (some x ≡ none)
none_or_some e = cc

true-Decides : (b : Bool) → Decides (b ≡ true) (ok b)
true-Decides true = holds refl
true-Decides false = fails (λ e. cc)

module _ (classes : ℕ → JClass) where
  -- When an object of the one class can be cast to the other, by their kinds: the rules of the JVM
  -- specification for `checkcast`.
  pub data Castable : ℕ → ℕ → ClassKind → ClassKind → Type 0 where
    class_to_class : {c d : ℕ} → Subclass classes c d → Castable c d class_type class_type
    class_to_interface : {c d : ℕ} → Implements classes c d → Castable c d class_type interface_type
    interface_to_object :
        {c d : ℕ} → is_object classes d ≡ true → Castable c d interface_type class_type
    interface_to_interface :
        {c d : ℕ} → (c ≡ d) ⊎ Implements classes c d → Castable c d interface_type interface_type
    array_to_object :
        {c d : ℕ} {p : Option PrimitiveType} {e : Option ℕ}
        → is_object classes d ≡ true
        → Castable c d (array_type p e) class_type
    array_to_interface :
        {c d : ℕ} {p : Option PrimitiveType} {e : Option ℕ}
        → is_array_interface classes d ≡ true
        → Castable c d (array_type p e) interface_type
    of_same_primitive :
        {c d : ℕ} {p q : PrimitiveType} {e e' : Option ℕ}
        → p ≡ q
        → Castable c d (array_type (some p) e) (array_type (some q) e')
    of_castable :
        {c d : ℕ} {p q : Option PrimitiveType} {x y : ℕ}
        → (p ≡ none) ⊎ (q ≡ none)
        → Castable x y (classes x).kind (classes y).kind
        → Castable c d (array_type p (some x)) (array_type q (some y))

  -- The class can be cast to the other.
  abbrev pub CanCast : ℕ → ℕ → Type 0
  CanCast c d = Castable c d (classes c).kind (classes d).kind

  elements-cases :
      {c d : ℕ} {p q : Option PrimitiveType} {x y : ℕ}
      → (p ≡ none) ⊎ (q ≡ none)
      → Castable c d (array_type p (some x)) (array_type q (some y))
      → CanCast x y
  elements-cases (inl e) (of_same_primitive same) = absurd (none_or_some e)
  elements-cases (inr e) (of_same_primitive same) = absurd (none_or_some e)
  elements-cases side (of_castable side' h) = h

  array_to_object-cases :
      {c d : ℕ} {p : Option PrimitiveType} {e : Option ℕ}
      → Castable c d (array_type p e) class_type
      → is_object classes d ≡ true
  array_to_object-cases (array_to_object h) = h

  array_to_interface-cases :
      {c d : ℕ} {p : Option PrimitiveType} {e : Option ℕ}
      → Castable c d (array_type p e) interface_type
      → is_array_interface classes d ≡ true
  array_to_interface-cases (array_to_interface h) = h

  of_same_primitive-cases :
      {c d : ℕ} {p q : PrimitiveType} {e e' : Option ℕ}
      → Castable c d (array_type (some p) e) (array_type (some q) e')
      → p ≡ q
  of_same_primitive-cases (of_same_primitive same) = same
  of_same_primitive-cases (of_castable (inl e) h) = absurd (none_or_some e)
  of_same_primitive-cases (of_castable (inr e) h) = absurd (none_or_some e)

  compare_elements-Decides :
      (instance_of : ℕ → ℕ → Result Bool) (c d : ℕ) (p : Option PrimitiveType) (e : Option ℕ)
      (q : Option PrimitiveType) (e' : Option ℕ)
      → ((x y : ℕ) → e ≡ some x → Decides (CanCast x y) (instance_of x y))
      → Decides
          (Castable c d (array_type p e) (array_type q e'))
          (compare_elements classes instance_of p e q e')
  compare_elements-Decides instance_of c d (some p) e (some q) e' again =
      Decides-map (λ same. of_same_primitive (primitive_index-injective p q ((==_iff _ _).0 same)))
        (λ h. (==_iff _ _).1 (ap primitive_index (of_same_primitive-cases h)))
        (true-Decides (same_primitive p q))
  compare_elements-Decides instance_of c d none none q e' again = fails (λ h. elim h [ ])
  compare_elements-Decides instance_of c d none (some x) q none again = fails (λ h. elim h [ ])
  compare_elements-Decides instance_of c d none (some x) q (some y) again =
      Decides-map (of_castable (inl refl)) (elements-cases (inl refl)) (again x y refl)
  compare_elements-Decides instance_of c d (some p) none none e' again = fails (λ h. elim h [ ])
  compare_elements-Decides instance_of c d (some p) (some x) none none again =
      fails (λ h. elim h [ ])
  compare_elements-Decides instance_of c d (some p) (some x) none (some y) again =
      Decides-map (of_castable (inr refl)) (elements-cases (inr refl)) (again x y refl)

  module _ (weight : ℕ → ℕ) (weighted : Weighted classes weight) where
    instance_by_kind-Decides :
        (instance_of : ℕ → ℕ → Result Bool) (fuel c d : ℕ) (k k' : ClassKind)
        → weight c ≤ fuel
        → ((p : Option PrimitiveType) (x y : ℕ)
            → k ≡ array_type p (some x)
            → Decides (CanCast x y) (instance_of x y))
        → Decides (Castable c d k k') (instance_by_kind classes instance_of fuel c d k k')
    instance_by_kind-Decides instance_of fuel c d class_type class_type enough again =
        Decides-map class_to_class (λ h. elim h [ class_to_class x ↦ x ])
          (is_subclass-Decides classes weight weighted fuel d c enough)
    instance_by_kind-Decides instance_of fuel c d class_type interface_type enough again =
        Decides-map class_to_interface (λ h. elim h [ class_to_interface x ↦ x ])
          (has_super_interface-Decides classes weight weighted fuel d c enough)
    instance_by_kind-Decides instance_of fuel c d class_type (array_type q e') enough again =
        fails (λ h. elim h [ ])
    instance_by_kind-Decides instance_of fuel c d interface_type class_type enough again =
        Decides-map interface_to_object (λ h. elim h [ interface_to_object x ↦ x ])
          (true-Decides (is_object classes d))
    instance_by_kind-Decides instance_of fuel c d interface_type interface_type enough again =
        elim (Bool-cases (c == d)) [
          | inl e ↦
              rw (instance_by_kind, e) (holds (interface_to_interface (inl ((==_iff c d).0 e))))
          | inr differs ↦
              rw (instance_by_kind, differs)
                (Decides-map (λ h. interface_to_interface (inr h)) (implements differs)
                  (has_super_interface-Decides classes weight weighted fuel d c enough))
        ]
      where
        implements :
            (c == d) ≡ false → Castable c d interface_type interface_type → Implements classes c d
        implements differs (interface_to_interface (inl e)) =
            let t = (==_iff c d).1 e in absurd (cc)
        implements differs (interface_to_interface (inr h)) = h
    instance_by_kind-Decides instance_of fuel c d interface_type (array_type q e') enough again =
        fails (λ h. elim h [ ])
    instance_by_kind-Decides instance_of fuel c d (array_type p e) class_type enough again =
        Decides-map array_to_object array_to_object-cases (true-Decides (is_object classes d))
    instance_by_kind-Decides instance_of fuel c d (array_type p e) interface_type enough again =
        Decides-map array_to_interface array_to_interface-cases
          (true-Decides (is_array_interface classes d))
    instance_by_kind-Decides instance_of fuel c d (array_type p e) (array_type q e') enough again =
        compare_elements-Decides instance_of c d p e q e'
          (λ x y is. again p x y (ap (array_type p) is))

    -- With as much fuel as the class weighs, `is_instance_of` returns, and tells whether the class can be
    -- cast to the other by the rules for the run-time types of Java.
    pub is_instance_of-Decides :
        (fuel c d : ℕ) → weight c ≤ fuel → Decides (CanCast c d) (is_instance_of classes fuel c d)
    unfolding is_instance_of
    is_instance_of-Decides zero c d enough = absurd (let a = weighted.above c in omega arith)
    is_instance_of-Decides (suc fuel) c d enough =
        instance_by_kind-Decides (is_instance_of classes fuel) (suc fuel) c d (classes c).kind
          (classes d).kind enough
          (λ p x y is.
            let lighter = weighted.of_element c p x is in
            is_instance_of-Decides fuel x y (omega arith))
