-- ===== src/Interpreter/Integers/Wrapping.antt =====
-- `WrapSignedArithmetic` of src/vm/Interpreter.cpp against arithmetic on the integers.
use native.Mathlib.Nat.{mul_comm, mul-add, add-mul}
use geevm.Prelude.{◌⊎◌, inl, inr, Bool-cases, ltb, ap, sym, ◌∙◌, ℕ, suc, ◌+◌, ◌-◌, ◌*◌, ◌%◌, ◌^◌}
use geevm.Prelude.{◌<◌, ◌≡◌, refl, arith}
use geevm.Prelude.Int.{pos, negsuc, sub_ℕ, ◌+ℤ◌, ◌-ℤ◌, ◌*ℤ◌}
use geevm.Prelude.Words.{signed, pattern_of}
use geevm.Interpreter.Integers.{wrap_add, wrap_sub, wrap_mul}

pos-mul-negsuc : (q b : ℕ) → pos q *ℤ negsuc b ≡ sub_ℕ 0 (q * suc b)
unfolding ◌*ℤ◌
pos-mul-negsuc q b = ground arith

negsuc-mul-pos : (q b : ℕ) → negsuc q *ℤ pos b ≡ sub_ℕ 0 (suc q * b)
unfolding ◌*ℤ◌
negsuc-mul-pos q b = ground arith

negsuc-mul-negsuc : (q b : ℕ) → negsuc q *ℤ negsuc b ≡ pos (suc q * suc b)
unfolding ◌*ℤ◌
negsuc-mul-negsuc q b = ground arith

pos-mul-pos : (q b : ℕ) → pos q *ℤ pos b ≡ pos (q * b)
unfolding ◌*ℤ◌
pos-mul-pos q b = ground arith

-- The products of two numbers and of their complements to `m`.
products :
    (a b c d m : ℕ)
    → a + c ≡ m
    → b + d ≡ m
    → (a * b + a * d ≡ a * m) × (a * b + c * b ≡ b * m) × (c * d + (a + b) * m ≡ a * b + m * m)
products a b c d m p q =
    let one : a * b + a * d ≡ a * m = rw (← q, mul-add a b d) in
    let two : a * b + c * b ≡ b * m = rw (← p, mul-add b a c, mul_comm b a, mul_comm b c) in
    let three : c * b + c * d ≡ c * m = rw (← q, mul-add c b d) in
    let four : a * m + c * m ≡ m * m = sym (add-mul a c m) ∙ ap (λ x. x * m) p in
    (one, two, rw (add-mul a b m) (omega arith))

-- A word is not negative, or it has a complement.
signed32-cases :
    (a : ℕ)
    → a < 2 ^ 32
    → (signed 32 a ≡ pos a) ⊎ ((c : ℕ) × (a + suc c ≡ 2 ^ 32) × (signed 32 a ≡ negsuc c))
signed32-cases a h = elim (Bool-cases (ltb a (2 ^ 31))) [
  | inl e ↦ inl (rw e refl)
  | inr e ↦ inr (2 ^ 32 - a - 1, omega arith, rw e refl)
]

signed64-cases :
    (a : ℕ)
    → a < 2 ^ 64
    → (signed 64 a ≡ pos a) ⊎ ((c : ℕ) × (a + suc c ≡ 2 ^ 64) × (signed 64 a ≡ negsuc c))
signed64-cases a h = elim (Bool-cases (ltb a (2 ^ 63))) [
  | inl e ↦ inl (rw e refl)
  | inr e ↦ inr (2 ^ 64 - a - 1, omega arith, rw e refl)
]

wrap_add32 :
    (a b : ℕ)
    → a < 2 ^ 32
    → b < 2 ^ 32
    → wrap_add 32 a b ≡ pattern_of 32 (signed 32 a +ℤ signed 32 b)
unfolding wrap_add ◌+ℤ◌
wrap_add32 a b ha hb = ground arith

wrap_sub32 :
    (a b : ℕ)
    → a < 2 ^ 32
    → b < 2 ^ 32
    → wrap_sub 32 a b ≡ pattern_of 32 (signed 32 a -ℤ signed 32 b)
unfolding wrap_sub ◌-ℤ◌
wrap_sub32 a b ha hb = ground arith

wrap_add64 :
    (a b : ℕ)
    → a < 2 ^ 64
    → b < 2 ^ 64
    → wrap_add 64 a b ≡ pattern_of 64 (signed 64 a +ℤ signed 64 b)
unfolding wrap_add ◌+ℤ◌
wrap_add64 a b ha hb = ground arith

wrap_sub64 :
    (a b : ℕ)
    → a < 2 ^ 64
    → b < 2 ^ 64
    → wrap_sub 64 a b ≡ pattern_of 64 (signed 64 a -ℤ signed 64 b)
unfolding wrap_sub ◌-ℤ◌
wrap_sub64 a b ha hb = ground arith

-- The pattern of a negative product.
complement32 : (x y k : ℕ) → x + y ≡ k * 2 ^ 32 → x % 2 ^ 32 ≡ pattern_of 32 (sub_ℕ 0 y)
complement32 x y k h = ground arith

complement64 : (x y k : ℕ) → x + y ≡ k * 2 ^ 64 → x % 2 ^ 64 ≡ pattern_of 64 (sub_ℕ 0 y)
complement64 x y k h = ground arith

wrap_mul32 :
    (a b : ℕ)
    → a < 2 ^ 32
    → b < 2 ^ 32
    → wrap_mul 32 a b ≡ pattern_of 32 (signed 32 a *ℤ signed 32 b)
unfolding wrap_mul
wrap_mul32 a b ha hb = elim (signed32-cases a ha) [
  | inl e ↦ elim (signed32-cases b hb) [
    | inl e' ↦ rw (e, e', pos-mul-pos a b)
    | inr (d, q, e') ↦
        let sums = products a b (2 ^ 32 - a) (suc d) (2 ^ 32) (omega arith) q in
        rw (e, e', pos-mul-negsuc a d) (complement32 (a * b) (a * suc d) a sums.0)
  ]
  | inr (c, p, e) ↦ elim (signed32-cases b hb) [
    | inl e' ↦
        let sums = products a b (suc c) (2 ^ 32 - b) (2 ^ 32) p (omega arith) in
        rw (e, e', negsuc-mul-pos c b) (complement32 (a * b) (suc c * b) b sums.1)
    | inr (d, q, e') ↦
        let sums = products a b (suc c) (suc d) (2 ^ 32) p q in
        rw (e, e', negsuc-mul-negsuc c d) (omega (arith, sums.2))
  ]
]

wrap_mul64 :
    (a b : ℕ)
    → a < 2 ^ 64
    → b < 2 ^ 64
    → wrap_mul 64 a b ≡ pattern_of 64 (signed 64 a *ℤ signed 64 b)
unfolding wrap_mul
wrap_mul64 a b ha hb = elim (signed64-cases a ha) [
  | inl e ↦ elim (signed64-cases b hb) [
    | inl e' ↦ rw (e, e', pos-mul-pos a b)
    | inr (d, q, e') ↦
        let sums = products a b (2 ^ 64 - a) (suc d) (2 ^ 64) (omega arith) q in
        rw (e, e', pos-mul-negsuc a d) (complement64 (a * b) (a * suc d) a sums.0)
  ]
  | inr (c, p, e) ↦ elim (signed64-cases b hb) [
    | inl e' ↦
        let sums = products a b (suc c) (2 ^ 64 - b) (2 ^ 64) p (omega arith) in
        rw (e, e', negsuc-mul-pos c b) (complement64 (a * b) (suc c * b) b sums.1)
    | inr (d, q, e') ↦
        let sums = products a b (suc c) (suc d) (2 ^ 64) p q in
        rw (e, e', negsuc-mul-negsuc c d) (omega (arith, sums.2))
  ]
]

-- `iadd`, `isub` and `imul` at 32 bits, and `ladd`, `lsub` and `lmul` at 64: the pattern of the sum,
-- the difference and the product of the integers that the operands stand for, modulo 2 ^ 32 or 2 ^ 64.
pub wrap_arithmetic :
    (w a b : ℕ)
    → (w ≡ 32) ⊎ (w ≡ 64)
    → a < 2 ^ w
    → b < 2 ^ w
    → (wrap_add w a b ≡ pattern_of w (signed w a +ℤ signed w b))
      × (wrap_sub w a b ≡ pattern_of w (signed w a -ℤ signed w b))
      × (wrap_mul w a b ≡ pattern_of w (signed w a *ℤ signed w b))
wrap_arithmetic w a b (inl e) ha hb =
    let ha' : a < 2 ^ 32 = rw e at ha in
    let hb' : b < 2 ^ 32 = rw e at hb in
    rw e (wrap_add32 a b ha' hb', wrap_sub32 a b ha' hb', wrap_mul32 a b ha' hb')
wrap_arithmetic w a b (inr e) ha hb =
    let ha' : a < 2 ^ 64 = rw e at ha in
    let hb' : b < 2 ^ 64 = rw e at hb in
    rw e (wrap_add64 a b ha' hb', wrap_sub64 a b ha' hb', wrap_mul64 a b ha' hb')
