-- ===== src/Class/Hierarchy/Supertypes.antt =====
-- That the searches of src/vm/Class.cpp along superclasses and interfaces end, and what they decide.
use geevm.Prelude.{ℕ, zero, suc, ◌+◌, ◌≤◌, ◌≡◌, refl, sym, ◌∙◌, ◌⊎◌, inl, inr, Bool, true, false}
use geevm.Prelude.{ap, Option, none, some, List, [], ◌∷◌, Result, ok, arith, ◌==◌, ==_iff}
use geevm.Prelude.{Bool-cases, fault, ◌>>=◌, some_eq}
use geevm.GarbageCollector.Weights.{In, total}
use geevm.Class.Hierarchy.{JClass, array_type, push_all, search, has_super_interface, is_subclass}

-- The operation returns, and tells whether `P` holds.
pub data Decides (P : Type 0) : Result Bool → Type 0 where
  holds : P → Decides P (ok true)
  fails : ¬ P → Decides P (ok false)

pub Decides-map : {P Q : Type 0} {r : Result Bool} → (P → Q) → (Q → P) → Decides P r → Decides Q r
Decides-map f g (holds p) = holds (f p)
Decides-map f g (fails no_p) = fails (λ q. no_p (g q))

abbrev pub weight_of : (ℕ → ℕ) → Option ℕ → ℕ
weight_of w none = 0
weight_of w (some s) = w s

total-push_all : (w : ℕ → ℕ) (xs ys : List ℕ) → total w (push_all xs ys) ≡ total w xs + total w ys
total-push_all w [] ys = omega arith
total-push_all w (x ∷ xs) ys = omega (arith, total-push_all w xs (x ∷ ys))

In-push_all : (a : ℕ) (xs ys : List ℕ) → In a (push_all xs ys) → In a xs ⊎ In a ys
In-push_all a [] ys h = inr h
In-push_all a (x ∷ xs) ys h = elim (In-push_all a xs (x ∷ ys) h) [
  | inl there ↦ inl (inr there)
  | inr (inl e) ↦ inl (inl e)
  | inr (inr there) ↦ inr there
]

push_all-right : (a : ℕ) (xs ys : List ℕ) → In a ys → In a (push_all xs ys)
push_all-right a [] ys h = h
push_all-right a (x ∷ xs) ys h = push_all-right a xs (x ∷ ys) (inr h)

push_all-left : (a : ℕ) (xs ys : List ℕ) → In a xs → In a (push_all xs ys)
push_all-left a [] ys h = absurd h
push_all-left a (x ∷ xs) ys (inl e) = push_all-right a xs (x ∷ ys) (inl e)
push_all-left a (x ∷ xs) ys (inr h) = push_all-left a xs (x ∷ ys) h

module _ (classes : ℕ → JClass) where
  -- A weight that counts at least the paths to what a class extends: there is one where no class extends
  -- itself, since a class is loaded after what it extends.
  pub record Weighted (weight : ℕ → ℕ) : Type 0 where
    pub above :
        (c : ℕ)
        → 1 + total weight (classes c).super_interfaces + weight_of weight (classes c).super_class
          ≤ weight c
    pub of_element :
        (c : ℕ) (p : _) (e : ℕ) → (classes c).kind ≡ array_type p (some e) → 1 + weight e ≤ weight c

  -- An interface and what it extends.
  pub data Extends : ℕ → ℕ → Type 0 where
    itself : {i : ℕ} → Extends i i
    through : {i j d : ℕ} → In j (classes i).super_interfaces → Extends j d → Extends i d

  pub data Implements : ℕ → ℕ → Type 0 where
    directly : {c i d : ℕ} → In i (classes c).super_interfaces → Extends i d → Implements c d
    inherits : {c s d : ℕ} → (classes c).super_class ≡ some s → Implements s d → Implements c d

  pub data Subclass : ℕ → ℕ → Type 0 where
    same : {c : ℕ} → Subclass c c
    up : {c s d : ℕ} → (classes c).super_class ≡ some s → Subclass s d → Subclass c d

  Extends-cases :
      {i d : ℕ}
      → Extends i d
      → (i ≡ d) ⊎ ((j : ℕ) × In j (classes i).super_interfaces × Extends j d)
  Extends-cases itself = inl refl
  Extends-cases (through here h) = inr (_, here, h)

  Implements-cases :
      {c d : ℕ}
      → Implements c d
      → ((i : ℕ) × In i (classes c).super_interfaces × Extends i d)
        ⊎ ((s : ℕ) × ((classes c).super_class ≡ some s) × Implements s d)
  Implements-cases (directly here h) = inl (_, here, h)
  Implements-cases (inherits e h) = inr (_, e, h)

  Subclass-cases :
      {c d : ℕ}
      → Subclass c d
      → (c ≡ d) ⊎ ((s : ℕ) × ((classes c).super_class ≡ some s) × Subclass s d)
  Subclass-cases same = inl refl
  Subclass-cases (up e h) = inr (_, e, h)

  abbrev Reaches : List ℕ → ℕ → Type 0
  Reaches work_list other = (i : ℕ) × In i work_list × Extends i other

  equal-Extends : {i d : ℕ} → i ≡ d → Extends i d
  equal-Extends e = rw e itself

  module _ (weight : ℕ → ℕ) (weighted : Weighted weight) where
    search-Decides :
        (fuel other : ℕ) (work_list : List ℕ)
        → total weight work_list ≤ fuel
        → Decides (Reaches work_list other) (search classes fuel other work_list)
    unfolding search
    search-Decides fuel other [] enough = fails (λ (i, here, h). absurd here)
    search-Decides zero other (i ∷ rest) enough = absurd (let a = weighted.above i in omega arith)
    search-Decides (suc fuel) other (i ∷ rest) enough = elim (Bool-cases (i == other)) [
      | inl e ↦ rw (search, e) (holds (i, inl refl, equal-Extends ((==_iff i other).0 e)))
      | inr differs ↦
          let above = weighted.above i in
          let sum = total-push_all weight (classes i).super_interfaces rest in
          rw (search, differs)
            (Decides-map
              (λ (j, here, h). elim (In-push_all j (classes i).super_interfaces rest here) [
                | inl there ↦ (i, inl refl, through there h)
                | inr there ↦ (j, inr there, h)
              ])
              (backwards differs)
              (search-Decides fuel other (push_all (classes i).super_interfaces rest)
                (omega arith)))
    ]
      where
        backwards :
            (i == other) ≡ false
            → Reaches (i ∷ rest) other
            → Reaches (push_all (classes i).super_interfaces rest) other
        backwards differs (j, inr there, h) =
            (j, push_all-right j (classes i).super_interfaces rest there, h)
        backwards differs (j, inl e, h) = elim (Extends-cases h) [
          | inl e' ↦ let t = (==_iff i other).1 (sym e ∙ e') in absurd (cc)
          | inr (k, here, h') ↦
              (k, push_all-left k (classes i).super_interfaces rest (rw e at here), h')
        ]

    -- The step to the superclass, when the class's own interfaces have been searched.
    inherited-Decides :
        (fuel other c : ℕ)
        → weight c ≤ suc fuel
        → ((s : ℕ)
            → weight s ≤ fuel
            → Decides (Implements s other) (has_super_interface classes fuel other s))
        → ¬ (Reaches (classes c).super_interfaces other)
        → (s : Option ℕ) → (classes c).super_class ≡ s
        → Decides
            (Implements c other)
            (elim s [ none ↦ ok false | some s ↦ has_super_interface classes fuel other s ])
    inherited-Decides fuel other c enough again no_own none e = fails (λ h.
        elim (Implements-cases h) [
          | inl own ↦ no_own own
          | inr (s, e', h') ↦ absurd (let f : none ≡ some s = sym e ∙ e' in cc)
        ])
    inherited-Decides fuel other c enough again no_own (some s) e =
        let above = weighted.above c in
        let w : weight_of weight (classes c).super_class ≡ weight s = ap (weight_of weight) e in
        Decides-map (λ h. inherits e h)
          (λ h. elim (Implements-cases h) [
            | inl own ↦ absurd (no_own own)
            | inr (t, e', h') ↦ let f : some s ≡ some t = sym e ∙ e' in rw (some_eq f) h'
          ])
          (again s (omega arith))

    above-Decides :
        (fuel other c : ℕ)
        → weight c ≤ suc fuel
        → ((s : ℕ)
            → weight s ≤ fuel
            → Decides (Subclass s other) (is_subclass classes fuel other s))
        → (c == other) ≡ false
        → (s : Option ℕ) → (classes c).super_class ≡ s
        → Decides
            (Subclass c other)
            (elim s [ none ↦ ok false | some s ↦ is_subclass classes fuel other s ])
    above-Decides fuel other c enough again differs none e = fails (λ h. elim (Subclass-cases h) [
      | inl e' ↦ let t = (==_iff c other).1 e' in cc
      | inr (s, e', h') ↦ let f : none ≡ some s = sym e ∙ e' in cc
    ])
    above-Decides fuel other c enough again differs (some s) e =
        let above = weighted.above c in
        let w : weight_of weight (classes c).super_class ≡ weight s = ap (weight_of weight) e in
        Decides-map (λ h. up e h)
          (λ h. elim (Subclass-cases h) [
            | inl e' ↦ let t = (==_iff c other).1 e' in absurd (cc)
            | inr (t, e', h') ↦ let f : some s ≡ some t = sym e ∙ e' in rw (some_eq f) h'
          ])
          (again s (omega arith))

    -- With as much fuel as the class weighs, `has_super_interface` returns, and tells whether the class or
    -- one above it has an interface among its own that is, or extends, the other.
    pub has_super_interface-Decides :
        (fuel other c : ℕ)
        → weight c ≤ fuel
        → Decides (Implements c other) (has_super_interface classes fuel other c)
    unfolding has_super_interface
    has_super_interface-Decides zero other c enough =
        absurd (let a = weighted.above c in omega arith)
    has_super_interface-Decides (suc fuel) other c enough =
        let above = weighted.above c in
        let sum = total-push_all weight (classes c).super_interfaces [] in
        found (search classes fuel other (push_all (classes c).super_interfaces []))
          (search-Decides fuel other (push_all (classes c).super_interfaces []) (omega arith))
          (inherited-Decides fuel other c enough (has_super_interface-Decides fuel other))
      where
        found :
            (r : Result Bool)
            → Decides (Reaches (push_all (classes c).super_interfaces []) other) r
            → (¬ (Reaches (classes c).super_interfaces other)
                → (s : Option ℕ) → (classes c).super_class ≡ s
                → Decides (Implements c other) (elim s [
                  | none ↦ ok false
                  | some s ↦ has_super_interface classes fuel other s
                ]))
            → Decides (Implements c other) (
                r >>= λ b. elim b [
                  | true ↦ ok true
                  | false ↦ elim (classes c).super_class [
                    | none ↦ ok false
                    | some s ↦ has_super_interface classes fuel other s
                  ]
                ])
        found (fault why) h over = elim h [ ]
        found (ok true) (holds (i, here, h)) over =
            holds (elim (In-push_all i (classes c).super_interfaces [] here) [
              | inl there ↦ directly there h
              | inr none_there ↦ absurd none_there
            ])
        found (ok false) (fails no_own) over =
            over
              (λ (i, here, h). no_own (i, push_all-left i (classes c).super_interfaces [] here, h))
              (classes c).super_class refl

    pub is_subclass-Decides :
        (fuel other c : ℕ)
        → weight c ≤ fuel
        → Decides (Subclass c other) (is_subclass classes fuel other c)
    unfolding is_subclass
    is_subclass-Decides zero other c enough = absurd (let a = weighted.above c in omega arith)
    is_subclass-Decides (suc fuel) other c enough = elim (Bool-cases (c == other)) [
      | inl e ↦ rw (is_subclass, e) (holds (rw ((==_iff c other).0 e) same))
      | inr differs ↦
          rw (is_subclass, differs)
            (above-Decides fuel other c enough (is_subclass-Decides fuel other) differs
              (classes c).super_class refl)
    ]
