-- ===== src/Frame/Reading.antt =====
-- Reading the byte code of src/vm/Frame.h: numbers are big-endian, and the position moves behind
-- them.
use native.Mathlib.Nat.{add-zero}
use geevm.Prelude.{ℕ, ◌+◌, ◌*◌, ◌/◌, ◌%◌, ◌^◌, ◌<◌, ◌≡◌, refl, sym, ap, ◌∙◌, List, [], ◌∷◌, ◌++◌}
use geevm.Prelude.{some, get_elem?, drop, ok, arith, drop-add, get_elem?-drop}
use geevm.Prelude.Int.{pos, pos-add}
use geevm.Frame.{CallFrame, read_u1, read_u2, read_u4, code_at}
use geevm.Frame.Slots.{element-some}

-- The bytes of a number.
abbrev pub bytes2 : ℕ → List ℕ
bytes2 v = v / 2 ^ 8 % 2 ^ 8 ∷ v % 2 ^ 8 ∷ []

abbrev pub bytes4 : ℕ → List ℕ
bytes4 v = v / 2 ^ 24 % 2 ^ 8 ∷ v / 2 ^ 16 % 2 ^ 8 ∷ v / 2 ^ 8 % 2 ^ 8 ∷ v % 2 ^ 8 ∷ []

-- The frame stands at the index `n` of its code, and `rest` is the code from there on.
pub record IsAt (n : ℕ) (rest : List ℕ) (f : CallFrame) : Type 0 where
  pub position_is : f.position ≡ pos n
  pub rest_is : drop n f.code ≡ rest

abbrev pub moved : CallFrame → ℕ → CallFrame
moved f n = record f { position = pos n }

code_at-IsAt :
    (n k b : ℕ) (rest : List ℕ) (f : CallFrame)
    → IsAt n rest f
    → get_elem? rest k ≡ some b
    → code_at f.code (pos (n + k)) ≡ ok b
code_at-IsAt n k b rest f h e =
    element-some f.code (n + k) b
      (sym (get_elem?-drop f.code n k) ∙ (ap (λ r. get_elem? r k) h.rest_is ∙ e))

IsAt-moved :
    (n k : ℕ) (rest rest' : List ℕ) (f : CallFrame)
    → IsAt n rest f
    → drop k rest ≡ rest'
    → IsAt (n + k) rest' (moved f (n + k))
IsAt-moved n k rest rest' f h e = record {
  position_is = refl;
  rest_is = sym (drop-add f.code n k) ∙ (ap (drop k) h.rest_is ∙ e);
}

module _ (n : ℕ) (rest : List ℕ) (f : CallFrame) where
  pub read_u1-IsAt :
      (b : ℕ)
      → IsAt n (b ∷ rest) f
      → (read_u1 f ≡ ok (b, moved f (n + 1))) × IsAt (n + 1) rest (moved f (n + 1))
  unfolding read_u1
  read_u1-IsAt b h =
      let e : code_at f.code (pos n) ≡ ok b =
        rw add-zero at (code_at-IsAt n 0 b (b ∷ rest) f h refl) in
      (rw (h.position_is, e, pos-add), IsAt-moved n 1 (b ∷ rest) rest f h refl)

  pub read_u2-IsAt :
      (v : ℕ)
      → v < 2 ^ 16
      → IsAt n (bytes2 v ++ rest) f
      → (read_u2 f ≡ ok (v, moved f (n + 2))) × IsAt (n + 2) rest (moved f (n + 2))
  unfolding read_u2
  read_u2-IsAt v hv h =
      let at = λ (k b : ℕ) (e : get_elem? (bytes2 v ++ rest) k ≡ some b).
        code_at-IsAt n k b (bytes2 v ++ rest) f h e in
      let e₀ : code_at f.code (pos n) ≡ ok (v / 2 ^ 8 % 2 ^ 8) = rw add-zero at (at 0 _ refl) in
      let sum : v / 2 ^ 8 % 2 ^ 8 * 2 ^ 8 + v % 2 ^ 8 ≡ v = omega arith in
      (rw (h.position_is, e₀, pos-add, at 1 _ refl, pos-add, sum), IsAt-moved n 2 _ rest f h refl)

  pub read_u4-IsAt :
      (v : ℕ)
      → v < 2 ^ 32
      → IsAt n (bytes4 v ++ rest) f
      → (read_u4 f ≡ ok (v, moved f (n + 4))) × IsAt (n + 4) rest (moved f (n + 4))
  unfolding read_u4
  read_u4-IsAt v hv h =
      let at = λ (k b : ℕ) (e : get_elem? (bytes4 v ++ rest) k ≡ some b).
        code_at-IsAt n k b (bytes4 v ++ rest) f h e in
      let e₀ : code_at f.code (pos n) ≡ ok (v / 2 ^ 24 % 2 ^ 8) = rw add-zero at (at 0 _ refl) in
      let sum : v / 2 ^ 24 % 2 ^ 8 * 2 ^ 24
            + v / 2 ^ 16 % 2 ^ 8 * 2 ^ 16
            + v / 2 ^ 8 % 2 ^ 8 * 2 ^ 8
            + v % 2 ^ 8
          ≡ v =
        omega arith in
      (
        rw (
          h.position_is,
          e₀,
          pos-add,
          at 1 _ refl,
          pos-add,
          at 2 _ refl,
          pos-add,
          at 3 _ refl,
          pos-add,
          sum,
        ),
        IsAt-moved n 4 _ rest f h refl,
      )

-- A frame with the same code at the same position.
pub IsAt-kept :
    (n : ℕ) (rest : List ℕ) (f f' : CallFrame)
    → f'.position ≡ f.position
    → f'.code ≡ f.code
    → IsAt n rest f
    → IsAt n rest f'
IsAt-kept n rest f f' p c h = record {
  position_is = p ∙ h.position_is;
  rest_is = ap (drop n) c ∙ h.rest_is;
}
