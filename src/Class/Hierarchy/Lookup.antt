-- ===== src/Class/Hierarchy/Lookup.antt =====
-- What `getVirtualMethod` and `lookupField` of src/vm/Class.cpp find.
use geevm.Prelude.{ℕ, zero, suc, ◌+◌, ◌≤◌, ◌≡◌, refl, sym, ◌∙◌, ◌⊎◌, inl, inr, ap, Option, none}
use geevm.Prelude.{some, List, [], ◌∷◌, Result, ok, arith, fault, ◌>>=◌}
use geevm.Prelude.Text.{JString}
use geevm.GarbageCollector.Weights.{In, total}
use geevm.Class.{JField, find_field}
use geevm.Class.Hierarchy.{JClass, JMethod, find_method, first_found, optional, get_virtual_method}
use geevm.Class.Hierarchy.{lookup_field}
use geevm.Class.Hierarchy.Supertypes.{Weighted, weight_of}

In-total : (w : ℕ → ℕ) (a : ℕ) (xs : List ℕ) → In a xs → w a ≤ total w xs
In-total w a [] h = absurd h
In-total w a (x ∷ xs) (inl e) = let f = ap w e in omega arith
In-total w a (x ∷ xs) (inr h) = omega (arith, In-total w a xs h)

module _ {ℓ} {A : Type ℓ} (P : ℕ → ℕ → Type 0) (declared : ℕ → Option A) where
  -- The search returns: what it finds is declared in one of the classes that `P` names, and nothing only
  -- if none of these declares anything.
  pub data Looks (c : ℕ) : Result (Option A) → Type ℓ where
    found : {d : ℕ} {x : A} → P c d → declared d ≡ some x → Looks c (ok (some x))
    missing : ((d : ℕ) → P c d → declared d ≡ none) → Looks c (ok none)

  -- The same for a list of classes.
  pub data AllLook (cs : List ℕ) : Result (Option A) → Type ℓ where
    found_in : {c d : ℕ} {x : A} → In c cs → P c d → declared d ≡ some x → AllLook cs (ok (some x))
    missing_in : ((c d : ℕ) → In c cs → P c d → declared d ≡ none) → AllLook cs (ok none)

  pub first_found-AllLook :
      (f : ℕ → Result (Option A)) (cs : List ℕ)
      → ((c : ℕ) → In c cs → Looks c (f c))
      → AllLook cs (first_found f cs)
  unfolding first_found
  first_found-AllLook f [] all = missing_in (λ c d here. absurd here)
  first_found-AllLook f (c ∷ cs) all =
      both (f c) (all c (inl refl)) (first_found-AllLook f cs (λ c h. all c (inr h)))
    where
      later :
          (r : Result (Option A))
          → ((d : ℕ) → P c d → declared d ≡ none)
          → AllLook cs r
          → AllLook (c ∷ cs) r
      later (ok (some x)) none_here (found_in here p is) = found_in (inr here) p is
      later (ok none) none_here (missing_in none_there) = missing_in (λ b d here p. elim here [
        | inl e ↦ none_here d (rw e at p)
        | inr there ↦ none_there b d there p
      ])
      later (fault why) none_here h = elim h [ ]

      both :
          (r : Result (Option A))
          → Looks c r
          → AllLook cs (first_found f cs)
          → AllLook (c ∷ cs) (r >>= λ o. elim o [ some x ↦ ok (some x) | none ↦ first_found f cs ])
      both (ok (some x)) (found p is) rest = found_in (inl refl) p is
      both (ok none) (missing none_here) rest = later (first_found f cs) none_here rest
      both (fault why) h rest = elim h [ ]

  optional-AllLook :
      (f : ℕ → Result (Option A)) (c : Option ℕ)
      → ((s : ℕ) → c ≡ some s → Looks s (f s))
      → AllLook (elim c [ none ↦ [] | some s ↦ s ∷ [] ]) (optional f c)
  optional-AllLook f none all = missing_in (λ c d here. absurd here)
  optional-AllLook f (some s) all = one (f s) (all s refl)
    where
      one : (r : Result (Option A)) → Looks s r → AllLook (s ∷ []) r
      one (ok (some x)) (found p is) = found_in (inl refl) p is
      one (ok none) (missing no_one) =
          missing_in
            (λ c d here p. elim here [ inl e ↦ no_one d (rw e at p) | inr there ↦ absurd there ])
      one (fault why) h = elim h [ ]

abbrev parents : JClass → List ℕ
parents k = elim k.super_class [ none ↦ [] | some s ↦ s ∷ [] ]

module _ (classes : ℕ → JClass) where
  -- A class, and everything that it extends or implements.
  pub data Above : ℕ → ℕ → Type 0 where
    itself : {c : ℕ} → Above c c
    by_class : {c s d : ℕ} → (classes c).super_class ≡ some s → Above s d → Above c d
    by_interface : {c i d : ℕ} → In i (classes c).super_interfaces → Above i d → Above c d

  Above-cases :
      {c d : ℕ}
      → Above c d
      → (c ≡ d)
        ⊎ ((s : ℕ) × In s (parents (classes c)) × Above s d)
        ⊎ ((i : ℕ) × In i (classes c).super_interfaces × Above i d)
  Above-cases itself = inl refl
  Above-cases (by_class e h) = inr (inl (_, (rw (parents, e) (inl refl)), h))
  Above-cases (by_interface here h) = inr (inr (_, here, h))

  parent-Above : {c s d : ℕ} → In s (parents (classes c)) → Above s d → Above c d
  parent-Above {c = c} {s = s} {d = d} here h = go (classes c).super_class refl here
    where
      go :
          (o : Option ℕ)
          → (classes c).super_class ≡ o
          → In s (elim o [ none ↦ [] | some s ↦ s ∷ [] ])
          → Above c d
      go none e here = absurd here
      go (some t) e (inl same) = by_class (e ∙ ap some (sym same)) h
      go (some t) e (inr none_there) = absurd none_there

  module _ (weight : ℕ → ℕ) (weighted : Weighted classes weight) where
    parent-lighter : (c s : ℕ) → (classes c).super_class ≡ some s → 1 + weight s ≤ weight c
    parent-lighter c s e =
        let above = weighted.above c in
        let w : weight_of weight (classes c).super_class ≡ weight s = ap (weight_of weight) e in
        omega arith

    interface-lighter : (c i : ℕ) → In i (classes c).super_interfaces → 1 + weight i ≤ weight c
    interface-lighter c i here =
        let above = weighted.above c in
        omega (arith, In-total weight i (classes c).super_interfaces here)

    module _ {ℓ} {A : Type ℓ} (declared : ℕ → Option A) where
      -- The class itself, then two groups of classes that together are its parents and interfaces.
      three-Look :
          (c : ℕ) (first second : Result (Option A)) (xs ys : List ℕ)
          → ((d : ℕ)
              → Above c d
              → (c ≡ d) ⊎ ((b : ℕ) × In b xs × Above b d) ⊎ ((b : ℕ) × In b ys × Above b d))
          → ((b d : ℕ) → In b xs ⊎ In b ys → Above b d → Above c d)
          → AllLook Above declared xs first
          → AllLook Above declared ys second
          → Looks Above declared c (elim (declared c) [
            | some x ↦ ok (some x)
            | none ↦ first >>= λ o. elim o [ some x ↦ ok (some x) | none ↦ second ]
          ])
      three-Look c first second xs ys split join l l' = go (declared c) refl first l second l'
        where
          go :
              (o : Option A)
              → declared c ≡ o
              → (r : Result (Option A)) → AllLook Above declared xs r
              → (r' : Result (Option A)) → AllLook Above declared ys r'
              → Looks Above declared c (elim o [
                | some x ↦ ok (some x)
                | none ↦ r >>= λ o. elim o [ some x ↦ ok (some x) | none ↦ r' ]
              ])
          go (some x) e r l r' l' = found itself e
          go none e (ok (some x)) (found_in here p is) r' l' = found (join _ _ (inl here) p) is
          go none e (ok none) (missing_in no_one) (ok (some x)) (found_in here p is) =
              found (join _ _ (inr here) p) is
          go none e (ok none) (missing_in no_one) (ok none) (missing_in no_one') = missing (λ d p.
              elim (split d p) [
                | inl same ↦ rw same at e
                | inr (inl (b, here, q)) ↦ no_one b d here q
                | inr (inr (b, here, q)) ↦ no_one' b d here q
              ])
          go none e (ok none) (missing_in no_one) (fault why) l' = elim l' [ ]
          go none e (fault why) l r' l' = elim l [ ]

    -- With as much fuel as the class weighs, `get_virtual_method` returns: a method that it finds is
    -- declared with the name and descriptor in the class or in what it extends or implements, and it finds
    -- none only if none of these declares one.
    pub get_virtual_method-Looks :
        (fuel : ℕ) (name descriptor : JString) (c : ℕ)
        → weight c ≤ fuel
        → Looks Above
            (λ d. find_method name descriptor (classes d).methods)
            c
            (get_virtual_method classes fuel name descriptor c)
    unfolding get_virtual_method
    get_virtual_method-Looks zero name descriptor c enough =
        absurd (let a = weighted.above c in omega arith)
    get_virtual_method-Looks (suc fuel) name descriptor c enough =
        let declared : ℕ → Option JMethod = λ d. find_method name descriptor (classes d).methods in
        let f = get_virtual_method classes fuel name descriptor in
        three-Look declared c (optional f (classes c).super_class)
          (first_found f (classes c).super_interfaces) (parents (classes c))
          (classes c).super_interfaces (λ d p. Above-cases p)
          (λ b d here p. elim here [
            | inl there ↦ parent-Above there p
            | inr there ↦ by_interface there p
          ])
          (optional-AllLook Above declared f (classes c).super_class (λ s e.
            let lighter = parent-lighter c s e in
            get_virtual_method-Looks fuel name descriptor s (omega arith)))
          (first_found-AllLook Above declared f (classes c).super_interfaces (λ i here.
            let lighter = interface-lighter c i here in
            get_virtual_method-Looks fuel name descriptor i (omega arith)))

    -- With as much fuel as the class weighs, `lookup_field` returns: a field that it finds is a field with
    -- the name and descriptor of the class or of what it extends or implements, and it finds none only if
    -- none of these has one.
    pub lookup_field-Looks :
        (fuel : ℕ) (name descriptor : JString) (c : ℕ)
        → weight c ≤ fuel
        → Looks Above
            (λ d. find_field name descriptor (classes d).fields)
            c
            (lookup_field classes fuel name descriptor c)
    unfolding lookup_field
    lookup_field-Looks zero name descriptor c enough =
        absurd (let a = weighted.above c in omega arith)
    lookup_field-Looks (suc fuel) name descriptor c enough =
        let declared : ℕ → Option JField = λ d. find_field name descriptor (classes d).fields in
        let f = lookup_field classes fuel name descriptor in
        three-Look declared c (first_found f (classes c).super_interfaces)
          (optional f (classes c).super_class) (classes c).super_interfaces (parents (classes c))
          (λ d p. elim (Above-cases p) [
            | inl same ↦ inl same
            | inr (inl there) ↦ inr (inr there)
            | inr (inr there) ↦ inr (inl there)
          ])
          (λ b d here p. elim here [
            | inl there ↦ by_interface there p
            | inr there ↦ parent-Above there p
          ])
          (first_found-AllLook Above declared f (classes c).super_interfaces (λ i here.
            let lighter = interface-lighter c i here in
            lookup_field-Looks fuel name descriptor i (omega arith)))
          (optional-AllLook Above declared f (classes c).super_class (λ s e.
            let lighter = parent-lighter c s e in
            lookup_field-Looks fuel name descriptor s (omega arith)))
