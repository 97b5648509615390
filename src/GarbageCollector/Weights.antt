-- ===== src/GarbageCollector/Weights.antt =====
-- Lists of addresses, and what they weigh: that a list without repetitions weighs no more than a list that
-- has all of its members. src/vm/GarbageCollector.cpp copies every object once, so the copies fit.
use geevm.Prelude.{ℕ, ◌+◌, ◌≤◌, ◌≡◌, ◌≢◌, refl, sym, ◌⊎◌, inl, inr, List, [], ◌∷◌, ◌++◌, ◌==◌}
use geevm.Prelude.{arith, if◌then◌else◌, Bool-cases, ==_iff, ◌∙◌}

abbrev pub In : ℕ → List ℕ → Type 0
In a [] = ⊥
In a (b ∷ bs) = (a ≡ b) ⊎ In a bs

abbrev pub NotIn : ℕ → List ℕ → Type 0
NotIn a [] = Unit
NotIn a (b ∷ bs) = (a ≢ b) × NotIn a bs

abbrev pub Distinct : List ℕ → Type 0
Distinct [] = Unit
Distinct (a ∷ bs) = NotIn a bs × Distinct bs

pub In-ne : {a b : ℕ} (xs : List ℕ) → In a xs → NotIn b xs → a ≢ b
In-ne [] h out e = absurd h
In-ne (x ∷ xs) (inl same) (ne, out) e = ne (sym e ∙ same)
In-ne (x ∷ xs) (inr h) (ne, out) e = In-ne xs h out e

pub Distinct-snoc : (a : ℕ) (xs : List ℕ) → Distinct xs → NotIn a xs → Distinct (xs ++ a ∷ [])
Distinct-snoc a [] d out = (tt, tt)
Distinct-snoc a (x ∷ xs) (here, d) (ne, out) =
    (NotIn-snoc xs here (λ e. ne (sym e)), Distinct-snoc a xs d out)
  where
    NotIn-snoc : (ys : List ℕ) → NotIn x ys → x ≢ a → NotIn x (ys ++ a ∷ [])
    NotIn-snoc [] h ne = (ne, tt)
    NotIn-snoc (y ∷ ys) (n, h) ne = (n, NotIn-snoc ys h ne)

module _ (w : ℕ → ℕ) where
  abbrev pub total : List ℕ → ℕ
  total [] = 0
  total (a ∷ bs) = w a + total bs

  pub total_snoc : (xs : List ℕ) (a : ℕ) → total (xs ++ a ∷ []) ≡ total xs + w a
  total_snoc [] a = omega arith
  total_snoc (x ∷ xs) a = omega (arith, total_snoc xs a)

-- The list without the first occurrence of `a`.
remove : ℕ → List ℕ → List ℕ
remove a [] = []
remove a (b ∷ bs) = let rest = remove a bs in if b == a then bs else b ∷ rest

total-remove :
    (w : ℕ → ℕ) (a : ℕ) (ys : List ℕ) → In a ys → total w ys ≡ w a + total w (remove a ys)
unfolding remove
total-remove w a [] h = absurd h
total-remove w a (b ∷ bs) h = elim (Bool-cases (b == a)) [
  | inl same ↦ let e : b ≡ a = (==_iff _ _).0 same in rw (remove, same, e) refl
  | inr differs ↦ elim h [
    | inl e ↦ let t = (==_iff b a).1 (sym e) in cc
    | inr there ↦ rw (remove, differs) (omega (arith, total-remove w a bs there))
  ]
]

In-remove : (a b : ℕ) (ys : List ℕ) → In b ys → b ≢ a → In b (remove a ys)
unfolding remove
In-remove a b [] h ne = h
In-remove a b (c ∷ cs) h ne = elim (Bool-cases (c == a)) [
  | inl same ↦ elim h [
    | inl e ↦ absurd (ne (e ∙ (==_iff _ _).0 same))
    | inr there ↦ rw (remove, same) there
  ]
  | inr differs ↦ elim h [
    | inl e ↦ rw (remove, differs) (inl e)
    | inr there ↦ rw (remove, differs) (inr (In-remove a b cs there ne))
  ]
]

pub total_le :
    (w : ℕ → ℕ) (xs ys : List ℕ)
    → Distinct xs
    → ((a : ℕ) → In a xs → In a ys)
    → total w xs ≤ total w ys
total_le w [] ys d sub = omega arith
total_le w (x ∷ xs) ys (out, d) sub =
    let rest =
      total_le w xs (remove x ys) d (λ a h. In-remove x a ys (sub a (inr h)) (In-ne xs h out)) in
    omega (arith, rest, total-remove w x ys (sub x (inl refl)))
