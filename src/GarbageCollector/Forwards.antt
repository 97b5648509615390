-- ===== src/GarbageCollector/Forwards.antt =====
-- The forwarding of src/vm/GarbageCollector.cpp: what `map` says of a reference, and that an entry behind
-- the others changes nothing of it.
use geevm.Prelude.{ℕ, ◌≡◌, refl, sym, inl, inr, Option, none, some, List, [], ◌∷◌, ◌++◌, ◌==◌}
use geevm.Prelude.{if◌then◌else◌, Bool-cases, ==_iff}
use geevm.GarbageCollector.{Forwarding, find}
use geevm.GarbageCollector.Weights.{NotIn}

-- Where a reference is forwarded to: the null reference stays.
abbrev pub forward : Forwarding → ℕ → Option ℕ
forward m v = if v == 0 then some 0 else find v m

abbrev pub originals : Forwarding → List ℕ
originals [] = []
originals ((o, n) ∷ m) = o ∷ originals m

pub originals_snoc :
    (m : Forwarding) (o n : ℕ) → originals (m ++ (o, n) ∷ []) ≡ originals m ++ o ∷ []
originals_snoc [] o n = refl
originals_snoc ((p, q) ∷ m) o n = rw (originals_snoc m o n)

pub find-some : (r n : ℕ) (m rest : Forwarding) → find r m ≡ some n → find r (m ++ rest) ≡ some n
find-some r n [] rest e = cc
find-some r n ((p, q) ∷ m) rest e = elim (Bool-cases (p == r)) [
  | inl same ↦ rw same (rw same at e)
  | inr differs ↦ rw differs (find-some r n m rest (rw differs at e))
]

pub forward-some :
    (m rest : Forwarding) (v n : ℕ) → forward m v ≡ some n → forward (m ++ rest) v ≡ some n
forward-some m rest v n e = elim (Bool-cases (v == 0)) [
  | inl null ↦ rw null (rw null at e)
  | inr there ↦ rw there (find-some v n m rest (rw there at e))
]

pub find-last : (r n : ℕ) (m : Forwarding) → find r m ≡ none → find r (m ++ (r, n) ∷ []) ≡ some n
find-last r n [] e = let same = (==_iff r r).1 refl in rw same refl
find-last r n ((p, q) ∷ m) e = elim (Bool-cases (p == r)) [
  | inl same ↦ let f : some q ≡ none = rw same at e in cc
  | inr differs ↦ rw differs (find-last r n m (rw differs at e))
]

pub find-none : (r : ℕ) (m : Forwarding) → find r m ≡ none → NotIn r (originals m)
find-none r [] e = tt
find-none r ((p, q) ∷ m) e = elim (Bool-cases (p == r)) [
  | inl same ↦ let f : some q ≡ none = rw same at e in cc
  | inr differs ↦
      ((λ same. let t = (==_iff p r).1 (sym same) in cc), find-none r m (rw differs at e))
]
