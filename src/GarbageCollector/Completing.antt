-- ===== src/GarbageCollector/Completing.antt =====
-- Lemmas on the forwarded places, the map and the cleared region for `performGarbageCollection` of
-- src/vm/GarbageCollector.cpp.
use mathlib.Core.Path.{subst}
use geevm.Prelude.{ℕ, ◌+◌, ◌≤◌, ◌<◌, ◌≡◌, refl, sym, ◌∙◌, ◌⊎◌, inl, inr, none, List, [], ◌∷◌, ◌++◌}
use geevm.Prelude.{length, arith}
use geevm.GarbageCollector.{LoadedClass, Memory, Forwarding}
use geevm.GarbageCollector.Weights.{In, NotIn, total, In-ne}
use geevm.GarbageCollector.Invariant.{Slots, Has, size_at, Laid, Laid-bounds}
use geevm.GarbageCollector.Collecting.{clear_region}
use geevm.Prelude.{◌≢◌}

NotIn-In : (p : ℕ) (xs ys : List ℕ) → ((q : ℕ) → In q ys → In q xs) → NotIn p xs → NotIn p ys
NotIn-In p xs [] sub out = tt
NotIn-In p xs (y ∷ ys) sub out =
    (λ e. In-ne xs (sub y (inl refl)) out (sym e), NotIn-In p xs ys (λ q h. sub q (inr h)) out)

-- Places that are forwarded, by another list of the same ones.
pub Slots-places :
    (m : Forwarding) (done places xs ys : List ℕ)
    → ((p : ℕ) → In p places → In p done)
    → ((p : ℕ) → In p done → In p places)
    → Slots m done xs ys
    → Slots m places xs ys
Slots-places m done places xs ys sub sup h = record {
  same_length = h.same_length;
  updated = λ p v here is. h.updated p v (sub p here) is;
  kept = λ p out. h.kept p (NotIn-In p places done sup out);
}

pub length-total :
    (w : ℕ → ℕ) (xs : List ℕ) → ((a : ℕ) → In a xs → 1 ≤ w a) → length xs ≤ total w xs
length-total w [] big = omega arith
length-total w (x ∷ xs) big =
    omega (arith, big x (inl refl), length-total w xs (λ a h. big a (inr h)))

pub clear_region-out :
    (start size : ℕ) (m : Memory) (a : ℕ)
    → (a < start) ⊎ (start + size ≤ a)
    → clear_region start size m a ≡ m a
clear_region-out start size m a out = ground arith

pub clear_region-in :
    (start size : ℕ) (m : Memory) (a : ℕ)
    → start ≤ a
    → a < start + size
    → clear_region start size m a ≡ none
clear_region-in start size m a low high = ground arith

-- What is forwarded stays so when entries are added.
pub later :
    (P : Forwarding → Type 0)
    → ((m rest : Forwarding) → P m → P (m ++ rest))
    → {a b : Forwarding} (extra : Forwarding) → b ≡ a ++ extra
    → P a
    → P b
later P grows {a = a} extra e h = subst P (sym e) (grows a extra h)

pub Laid-injective :
    (classes : List LoadedClass) (memory₀ : Memory) (objects : List ℕ) (base half p e : ℕ)
    (m : Forwarding)
    → ((o n : ℕ) → Has m o n → 1 ≤ size_at classes memory₀ o)
    → Laid classes memory₀ p m e
    → (o o' n : ℕ) → Has m o n
    → Has m o' n
    → o ≡ o'
Laid-injective classes memory₀ objects base half p e [] big l o o' n a b = elim a [ ]
Laid-injective classes memory₀ objects base half p e ((q, x) ∷ m) big (at, l) o o' n a b =
    let rest =
      Laid-bounds classes memory₀ objects base half (p + size_at classes memory₀ q) e m
        (λ o n has. big o n (inr has)) l in
    let s = big q x (inl (refl, refl)) in
    elim a [
      | inl (eo, en) ↦ elim b [
        | inl (eo', en') ↦ eo ∙ sym eo'
        | inr there ↦ let (low, high) = rest o' n there in absurd (omega arith)
      ]
      | inr here ↦ elim b [
        | inl (eo', en') ↦ let (low, high) = rest o n here in absurd (omega arith)
        | inr there ↦
            Laid-injective classes memory₀ objects base half (p + size_at classes memory₀ q) e m
              (λ o n has. big o n (inr has)) l o o' n here there
      ]
    ]

Laid-reaches :
    (classes : List LoadedClass) (memory₀ : Memory) (p e : ℕ) (m : Forwarding)
    → Laid classes memory₀ p m e
    → p ≤ e
Laid-reaches classes memory₀ p e [] l = omega arith
Laid-reaches classes memory₀ p e ((q, x) ∷ m) (at, l) =
    omega (arith, Laid-reaches classes memory₀ (p + size_at classes memory₀ q) e m l)

-- A copy ends in front of the end of the entries.
pub Laid-ends :
    (classes : List LoadedClass) (memory₀ : Memory) (p e : ℕ) (m : Forwarding)
    → Laid classes memory₀ p m e
    → (o n : ℕ) → Has m o n
    → n + size_at classes memory₀ o ≤ e
Laid-ends classes memory₀ p e [] l o n has = elim has [ ]
Laid-ends classes memory₀ p e ((q, x) ∷ m) (at, l) o n (inl (eo, en)) =
    let behind = Laid-reaches classes memory₀ (p + size_at classes memory₀ q) e m l in
    rw eo (omega arith)
Laid-ends classes memory₀ p e ((q, x) ∷ m) (at, l) o n (inr has) =
    Laid-ends classes memory₀ (p + size_at classes memory₀ q) e m l o n has

-- Two copies have no byte in common.
pub Laid-apart :
    (classes : List LoadedClass) (memory₀ : Memory) (objects : List ℕ) (base half p e : ℕ)
    (m : Forwarding)
    → ((o n : ℕ) → Has m o n → 1 ≤ size_at classes memory₀ o)
    → Laid classes memory₀ p m e
    → (o o' n n' : ℕ) → Has m o n
    → Has m o' n'
    → o ≢ o'
    → (n + size_at classes memory₀ o ≤ n') ⊎ (n' + size_at classes memory₀ o' ≤ n)
Laid-apart classes memory₀ objects base half p e [] big l o o' n n' a b ne = elim a [ ]
Laid-apart classes memory₀ objects base half p e ((q, x) ∷ m) big (at, l) o o' n n' a b ne =
    let rest =
      Laid-bounds classes memory₀ objects base half (p + size_at classes memory₀ q) e m
        (λ o n has. big o n (inr has)) l in
    elim a [
      | inl (eo, en) ↦ elim b [
        | inl (eo', en') ↦ absurd (ne (eo ∙ sym eo'))
        | inr there ↦ let (low, high) = rest o' n' there in inl (rw eo (omega arith))
      ]
      | inr here ↦ elim b [
        | inl (eo', en') ↦ let (low, high) = rest o n here in inr (rw eo' (omega arith))
        | inr there ↦
            Laid-apart classes memory₀ objects base half (p + size_at classes memory₀ q) e m
              (λ o n has. big o n (inr has)) l o o' n n' here there ne
      ]
    ]
