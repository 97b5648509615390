-- ===== src/ByteStream/Reading.antt =====
-- Reading from src/common/ByteStream.h where the bytes that are left are known.
use native.Mathlib.Nat.{add-zero}
use geevm.Prelude.{ℕ, ◌+◌, ◌*◌, ◌/◌, ◌%◌, ◌^◌, ◌<◌, ◌≡◌, refl, sym, ap, ◌∙◌, List, ◌∷◌, ◌++◌, some}
use geevm.Prelude.{get_elem?, drop, ok, arith, length, drop-length, get_elem?-drop, drop-add}
use geevm.Prelude.{>>=-eq-ok}
use geevm.Frame.{element}
use geevm.Frame.Slots.{element-some}
use geevm.Frame.Reading.{bytes2}
use geevm.ByteStream.{ByteStream, read_u1, read_u2, skip}

-- The bytes that are left.
abbrev pub Left : List ℕ → ByteStream → Type 0
Left rest s = drop s.pos s.bytes ≡ rest

abbrev pub advanced : ByteStream → ℕ → ByteStream
advanced s n = record s { pos = s.pos + n }

element-Left :
    (k b : ℕ) (rest : List ℕ) (s : ByteStream)
    → Left rest s
    → get_elem? rest k ≡ some b
    → element s.bytes (s.pos + k) ≡ ok b
element-Left k b rest s h e =
    element-some s.bytes (s.pos + k) b
      (sym (get_elem?-drop s.bytes s.pos k) ∙ (ap (λ r. get_elem? r k) h ∙ e))

Left-advanced :
    (k : ℕ) (rest rest' : List ℕ) (s : ByteStream)
    → Left rest s
    → drop k rest ≡ rest'
    → Left rest' (advanced s k)
Left-advanced k rest rest' s h e = sym (drop-add s.bytes s.pos k) ∙ (ap (drop k) h ∙ e)

module _ (rest : List ℕ) (s : ByteStream) where
  pub read_u1-Left :
      (b : ℕ) → Left (b ∷ rest) s → (read_u1 s ≡ ok (b, advanced s 1)) × Left rest (advanced s 1)
  unfolding read_u1
  read_u1-Left b h =
      let e : element s.bytes s.pos ≡ ok b =
        rw add-zero at (element-Left 0 b (b ∷ rest) s h refl) in
      (rw e refl, Left-advanced 1 (b ∷ rest) rest s h refl)

  pub read_u2-Left :
      (v : ℕ)
      → v < 2 ^ 16
      → Left (bytes2 v ++ rest) s
      → (read_u2 s ≡ ok (v, advanced s 2)) × Left rest (advanced s 2)
  unfolding read_u2
  read_u2-Left v hv h =
      let e₀ : element s.bytes s.pos ≡ ok (v / 2 ^ 8 % 2 ^ 8) =
        rw add-zero at (element-Left 0 _ (bytes2 v ++ rest) s h refl) in
      let e₁ = element-Left 1 _ (bytes2 v ++ rest) s h refl in
      let sum : v / 2 ^ 8 % 2 ^ 8 * 2 ^ 8 + v % 2 ^ 8 ≡ v = omega arith in
      (rw (e₀, e₁, sum) refl, Left-advanced 2 (bytes2 v ++ rest) rest s h refl)

  pub skip-Left : (xs : List ℕ) → Left (xs ++ rest) s → Left rest (skip (length xs) s)
  unfolding skip
  skip-Left xs h = Left-advanced (length xs) (xs ++ rest) rest s h (drop-length xs rest)

-- A read that returns has moved by the bytes it read.
pub read_u1-pos :
    (s : ByteStream) (v : ℕ) (s' : ByteStream) → read_u1 s ≡ ok (v, s') → s'.pos ≡ s.pos + 1
unfolding read_u1
read_u1-pos s v s' e =
    let (b, e₀, e₁) = >>=-eq-ok (element s.bytes s.pos) _ e in
    let q : record s { pos = s.pos + 1 } ≡ s' = cc in sym (ap (λ t. t.pos) q)

pub read_u2-pos :
    (s : ByteStream) (v : ℕ) (s' : ByteStream) → read_u2 s ≡ ok (v, s') → s'.pos ≡ s.pos + 2
unfolding read_u2
read_u2-pos s v s' e =
    let (b₀, e₀, e₁) = >>=-eq-ok (element s.bytes s.pos) _ e in
    let (b₁, e₂, e₃) = >>=-eq-ok (element s.bytes (s.pos + 1)) _ e₁ in
    let q : record s { pos = s.pos + 2 } ≡ s' = cc in sym (ap (λ t. t.pos) q)
