-- ===== src/Frame/Slots.antt =====
-- The slots of an operand stack of src/vm/Frame.h as a list, the top first, and what a write to the
-- array does to it.
use native.Mathlib.Nat.{le_refl}
use geevm.Prelude.{ℕ, zero, suc, ◌-◌, ◌≤◌, ◌<◌, ◌≡◌, refl, ap, ap₂, ◌∙◌, List, [], ◌∷◌, length, set}
use geevm.Prelude.{get_or, get_elem?, some, arith, ok, ◌≢◌}
use geevm.Frame.{element}

-- The first `n` slots of an array, the last one first.
abbrev pub slots {ℓ} : {A : Type ℓ} → A → List A → ℕ → List A
slots d xs zero = []
slots d xs (suc n) = get_or xs n d ∷ slots d xs n

pub element-some : (xs : List ℕ) (i x : ℕ) → get_elem? xs i ≡ some x → element xs i ≡ ok x
element-some xs i x e = rw (e, element)

pub element-get_or : (xs : List ℕ) (i : ℕ) → i < length xs → element xs i ≡ ok (get_or xs i 0)
element-get_or [] i h = elim h [ ]
element-get_or (x ∷ xs) zero h = refl
element-get_or (x ∷ xs) (suc i) h = element-get_or xs i (omega arith)

module _ {ℓ} {A : Type ℓ} where
  tail-eq : {x y : A} {xs ys : List A} → x ∷ xs ≡ y ∷ ys → xs ≡ ys
  tail-eq e = cc

  head-eq : {x y : A} {xs ys : List A} → x ∷ xs ≡ y ∷ ys → x ≡ y
  head-eq e = cc

module _ {ℓ} {A : Type ℓ} (d : A) where
  pub length-slots : (xs : List A) (n : ℕ) → length (slots d xs n) ≡ n
  length-slots xs zero = refl
  length-slots xs (suc n) = ap suc (length-slots xs n)

  pub get_or-set_self : (xs : List A) (i : ℕ) (v : A) → i < length xs → get_or (set xs i v) i d ≡ v
  get_or-set_self [] i v h = elim h [ ]
  get_or-set_self (x ∷ xs) zero v h = refl
  get_or-set_self (x ∷ xs) (suc i) v h = get_or-set_self xs i v (omega arith)

  get_or-set_ne : (xs : List A) (i j : ℕ) (v : A) → i ≢ j → get_or (set xs i v) j d ≡ get_or xs j d
  get_or-set_ne [] i j v h = refl
  get_or-set_ne (x ∷ xs) zero zero v h = absurd (h refl)
  get_or-set_ne (x ∷ xs) zero (suc j) v h = refl
  get_or-set_ne (x ∷ xs) (suc i) zero v h = refl
  get_or-set_ne (x ∷ xs) (suc i) (suc j) v h = get_or-set_ne xs i j v (omega arith)

  pub slots-set :
      (xs : List A) (i : ℕ) (v : A) (n : ℕ) → n ≤ i → slots d (set xs i v) n ≡ slots d xs n
  slots-set xs i v zero h = refl
  slots-set xs i v (suc n) h =
      ap₂ ◌∷◌ (get_or-set_ne xs i n v (omega arith)) (slots-set xs i v n (omega arith))

  pub slots-cons :
      (arr : List A) (n : ℕ) (x : A) (xs : List A)
      → slots d arr n ≡ x ∷ xs
      → (get_or arr (n - 1) d ≡ x) × (slots d arr (n - 1) ≡ xs)
  slots-cons arr zero x xs e = cc
  slots-cons arr (suc n) x xs e = let p : suc n - 1 ≡ n = omega arith in rw p (cc, cc)

  -- A write to the top slot, at `i`.
  pub slots-set_top :
      (arr : List A) (n i : ℕ) (x v : A) (xs : List A)
      → n ≡ suc i
      → i < length arr
      → slots d arr n ≡ x ∷ xs
      → slots d (set arr i v) n ≡ v ∷ xs
  slots-set_top arr n i x v xs p h e =
      let e' : get_or arr i d ∷ slots d arr i ≡ x ∷ xs = rw p at e in
      rw p (ap₂ ◌∷◌ (get_or-set_self arr i v h) (slots-set arr i v i (le_refl i) ∙ tail-eq e'))

  -- A write to the slot below the top, at `i`.
  pub slots-set_second :
      (arr : List A) (n i : ℕ) (u x v : A) (xs : List A)
      → n ≡ suc (suc i)
      → i < length arr
      → slots d arr n ≡ u ∷ x ∷ xs
      → slots d (set arr i v) n ≡ u ∷ v ∷ xs
  slots-set_second arr n i u x v xs p h e =
      let e' : get_or arr (suc i) d ∷ slots d arr (suc i) ≡ u ∷ x ∷ xs = rw p at e in
      rw p (
        ap₂ ◌∷◌ (get_or-set_ne arr i (suc i) v (omega arith) ∙ head-eq e')
          (slots-set_top arr (suc i) i x v xs refl h (tail-eq e')))
