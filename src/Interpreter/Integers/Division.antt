-- ===== src/Interpreter/Integers/Division.antt =====
-- Division and remainder at the widths of `int` and `long`.
use native.Mathlib.Nat.{mod-eq_of_lt, div-le_self, div-lt_self, div-add-mod'}
use geevm.Prelude.{ℕ, zero, suc, ◌-◌, ◌*◌, ◌/◌, ◌%◌, ◌^◌, ◌≤◌, ◌<◌, ◌≡◌, ◌≢◌, refl, true, ok, arith}
use geevm.Prelude.{ltb→lt, lt→ltb, ap}
use geevm.Prelude.Int.{ℤ, pos, negsuc, sub_ℕ, ◌-ℤ◌, ◌*ℤ◌}
use geevm.Prelude.Words.{signed, fits}
use geevm.Interpreter.Integers.{checked, truncated_div, truncated_rem, signed_div, signed_rem}

pos-mul-pos : (q b : ℕ) → pos q *ℤ pos b ≡ pos (q * b)
unfolding ◌*ℤ◌
pos-mul-pos q b = ground arith

pos-mul-negsuc : (q b : ℕ) → pos q *ℤ negsuc b ≡ sub_ℕ 0 (q * suc b)
unfolding ◌*ℤ◌
pos-mul-negsuc q b = ground arith

neg-mul-pos : (q b : ℕ) → sub_ℕ 0 q *ℤ pos b ≡ sub_ℕ 0 (q * b)
unfolding ◌*ℤ◌
neg-mul-pos zero b = ground arith
neg-mul-pos (suc q) b = ground arith

neg-mul-negsuc : (q b : ℕ) → sub_ℕ 0 q *ℤ negsuc b ≡ pos (q * suc b)
unfolding ◌*ℤ◌
neg-mul-negsuc zero b = ground arith
neg-mul-negsuc (suc q) b = ground arith

-- What the product leaves of the dividend.
rest-truncated_rem : (x y : ℤ) → x -ℤ truncated_div x y *ℤ y ≡ truncated_rem x y
unfolding ◌-ℤ◌
rest-truncated_rem (pos a) (pos b) = rw pos-mul-pos (ground (arith, div-add-mod' a b))
rest-truncated_rem (pos a) (negsuc b) =
    rw (neg-mul-negsuc (a / suc b) b) (ground (arith, div-add-mod' a (suc b)))
rest-truncated_rem (negsuc a) (pos b) =
    rw (neg-mul-pos (suc a / b) b) (ground (arith, div-add-mod' (suc a) b))
rest-truncated_rem (negsuc a) (negsuc b) =
    rw (pos-mul-negsuc (suc a / suc b) b) (ground (arith, div-add-mod' (suc a) (suc b)))

-- A width of a signed type: `half` is the number of its non-negative values.
module _ (w : ℕ) (half : 2 ^ w ≡ 2 * 2 ^ (w - 1)) (positive : 0 < 2 ^ (w - 1)) where
  pub checked-fits :
      (z : ℤ) → fits w z ≡ true → (x : ℕ) × (checked w z ≡ ok x) × (x < 2 ^ w) × (signed w x ≡ z)
  unfolding checked
  checked-fits (pos n) h =
      let lt : n < 2 ^ (w - 1) = ltb→lt _ _ h in
      let e : n % 2 ^ w ≡ n = mod-eq_of_lt (omega arith) in (n, rw (h, e), omega arith, rw h)
  checked-fits (negsuc n) h =
      let lt : n < 2 ^ (w - 1) = ltb→lt _ _ h in
      let e : n % 2 ^ w ≡ n = mod-eq_of_lt (omega arith) in
      (2 ^ w - 1 - n, rw (h, e), omega arith, ground arith)

  pub signed-fits : (a : ℕ) → a < 2 ^ w → fits w (signed w a) ≡ true
  signed-fits a ha = ground arith

  div-fits : (a b : ℕ) → a < 2 ^ (w - 1) → fits w (pos (a / b)) ≡ true
  div-fits a b h = lt→ltb _ _ (omega (arith, div-le_self a b))

  neg-fits : (a : ℕ) → a ≤ 2 ^ (w - 1) → fits w (sub_ℕ 0 a) ≡ true
  neg-fits a h = ground arith

  -- Only the quotient of the least integer by -1 does not fit.
  truncated_div-fits :
      (x y : ℤ)
      → fits w x ≡ true
      → fits w y ≡ true
      → (x ≡ negsuc (2 ^ (w - 1) - 1) → y ≢ negsuc 0)
      → fits w (truncated_div x y) ≡ true
  truncated_div-fits (pos a) (pos b) hx hy fine = div-fits a b (ltb→lt _ _ hx)
  truncated_div-fits (pos a) (negsuc b) hx hy fine =
      let lt : a < 2 ^ (w - 1) = ltb→lt _ _ hx in
      neg-fits (a / suc b) (omega (arith, div-le_self a (suc b)))
  truncated_div-fits (negsuc a) (pos b) hx hy fine =
      let lt : a < 2 ^ (w - 1) = ltb→lt _ _ hx in
      neg-fits (suc a / b) (omega (arith, div-le_self (suc a) b))
  truncated_div-fits (negsuc a) (negsuc zero) hx hy fine =
      let lt : a < 2 ^ (w - 1) = ltb→lt _ _ hx in
      let ne : suc a ≢ 2 ^ (w - 1) = λ e. fine (ap negsuc (omega arith)) refl in
      lt→ltb _ _ (omega (arith, div-le_self (suc a) 1))
  truncated_div-fits (negsuc a) (negsuc (suc b)) hx hy fine =
      let lt : a < 2 ^ (w - 1) = ltb→lt _ _ hx in
      let less : suc a / suc (suc b) < suc a = div-lt_self (omega arith) (omega arith) in
      lt→ltb _ _ (omega arith)

  -- `value1 / value2` is the truncated quotient, except where it is undefined.
  pub signed_div-truncated_div :
      (a b : ℕ)
      → a < 2 ^ w
      → b < 2 ^ w
      → b ≢ 0
      → (signed w a ≡ negsuc (2 ^ (w - 1) - 1) → signed w b ≢ negsuc 0)
      → (q : ℕ) × (signed_div w a b ≡ ok q)
        × (q < 2 ^ w)
        × (signed w q ≡ truncated_div (signed w a) (signed w b))
  unfolding signed_div
  signed_div-truncated_div a b ha hb nz fine =
      let (q, e, l, s) =
        checked-fits (truncated_div (signed w a) (signed w b)) (
          truncated_div-fits (signed w a) (signed w b) (signed-fits a ha) (signed-fits b hb)
            fine) in
      (q, ground arith, l, s)

  -- The product of the quotient and the divisor fits.
  product-fits : (x y : ℤ) → fits w x ≡ true → fits w (truncated_div x y *ℤ y) ≡ true
  product-fits (pos a) (pos b) hx =
      let lt : a < 2 ^ (w - 1) = ltb→lt _ _ hx in
      rw pos-mul-pos (lt→ltb _ _ (omega (arith, div-add-mod' a b)))
  product-fits (pos a) (negsuc b) hx =
      let lt : a < 2 ^ (w - 1) = ltb→lt _ _ hx in
      rw (neg-mul-negsuc (a / suc b) b) (lt→ltb _ _ (omega (arith, div-add-mod' a (suc b))))
  product-fits (negsuc a) (pos b) hx =
      let lt : a < 2 ^ (w - 1) = ltb→lt _ _ hx in
      rw (neg-mul-pos (suc a / b) b) (neg-fits _ (omega (arith, div-add-mod' (suc a) b)))
  product-fits (negsuc a) (negsuc b) hx =
      let lt : a < 2 ^ (w - 1) = ltb→lt _ _ hx in
      rw (pos-mul-negsuc (suc a / suc b) b)
        (neg-fits _ (omega (arith, div-add-mod' (suc a) (suc b))))

  truncated_rem-fits : (x y : ℤ) → fits w x ≡ true → fits w (truncated_rem x y) ≡ true
  truncated_rem-fits (pos a) (pos b) hx =
      let lt : a < 2 ^ (w - 1) = ltb→lt _ _ hx in lt→ltb _ _ (omega (arith, div-add-mod' a b))
  truncated_rem-fits (pos a) (negsuc b) hx =
      let lt : a < 2 ^ (w - 1) = ltb→lt _ _ hx in lt→ltb _ _ (omega (arith, div-add-mod' a (suc b)))
  truncated_rem-fits (negsuc a) (pos b) hx =
      let lt : a < 2 ^ (w - 1) = ltb→lt _ _ hx in neg-fits _ (omega (arith, div-add-mod' (suc a) b))
  truncated_rem-fits (negsuc a) (negsuc b) hx =
      let lt : a < 2 ^ (w - 1) = ltb→lt _ _ hx in
      neg-fits _ (omega (arith, div-add-mod' (suc a) (suc b)))

  -- `value1 - (value1 / value2) * value2` is the remainder with the sign of the dividend, except
  -- where the quotient is undefined.
  pub signed_rem-truncated_rem :
      (a b : ℕ)
      → a < 2 ^ w
      → b < 2 ^ w
      → b ≢ 0
      → (signed w a ≡ negsuc (2 ^ (w - 1) - 1) → signed w b ≢ negsuc 0)
      → (r : ℕ) × (signed_rem w a b ≡ ok r)
        × (r < 2 ^ w)
        × (signed w r ≡ truncated_rem (signed w a) (signed w b))
  unfolding signed_rem
  signed_rem-truncated_rem a b ha hb nz fine =
      let (q, e, lq, sq) = signed_div-truncated_div a b ha hb nz fine in
      let (p, e', lp, sp) =
        checked-fits (truncated_div (signed w a) (signed w b) *ℤ signed w b)
          (product-fits (signed w a) (signed w b) (signed-fits a ha)) in
      let (r, e'', lr, sr) =
        checked-fits (truncated_rem (signed w a) (signed w b))
          (truncated_rem-fits (signed w a) (signed w b) (signed-fits a ha)) in
      (r, rw (e, sq, e', sp, rest-truncated_rem (signed w a) (signed w b), e''), lr, sr)

  -- Negation fits, except that of the least integer.
  pub negated-fits :
      (z : ℤ) → fits w z ≡ true → z ≢ negsuc (2 ^ (w - 1) - 1) → fits w (pos 0 -ℤ z) ≡ true
  unfolding ◌-ℤ◌
  negated-fits (pos n) h ne = ground arith
  negated-fits (negsuc n) h ne =
      let lt : n < 2 ^ (w - 1) = ltb→lt _ _ h in
      let small : suc n ≢ 2 ^ (w - 1) = λ e. ne (ap negsuc (omega arith)) in ground arith
