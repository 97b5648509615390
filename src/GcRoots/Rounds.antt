-- ===== src/GcRoots/Rounds.antt =====
-- That the loop of `AbstractInterpreter::execute` in src/vm/GcRoots.cpp ends: each round moves on.
use geevm.Prelude.{ℕ, zero, suc, ◌+◌, ◌≤◌, ◌<◌, ◌≡◌, ◌≢◌, refl, sym, ap, ◌∙◌, none, some, Result}
use geevm.Prelude.{ok, fault, ◌>>=◌, Fault, arith, ltb, ltb→lt, inl, inr, Bool-cases, ==_iff, ◌==◌}
use geevm.Prelude.{le→ltb, Option}
use geevm.Opcode.{Opcode, code_of}
use geevm.Opcode.Decoding.{opcode_of, opcode_of-code_of}
use geevm.GcRoots.{AbstractInterpreter, Constants, next_u1, next_u2}
use geevm.GcRoots.Execute.{execute_opcode}
use geevm.GcRoots.Instructions.{wide, wide_opcode}
use geevm.GcRoots.Compute.{execute_byte, execute_from}
use geevm.GcRoots.Advancing.{execute_opcode-Advances}
use geevm.GcRoots.Advancing.Helpers.{store-Keeps}
use geevm.GcRoots.Advancing.Members.{Advances, moved, stopped, next_u1-Advances, next_u2-Advances}
use geevm.GcRoots.Advancing.Members.{read_u2-then, push-Keeps, Keeps-refl}

-- A run of the loop without a bound on its rounds.
pub data Runs (constants : Constants)
    : AbstractInterpreter → Result AbstractInterpreter → Type 0 where
  at_end : {a : AbstractInterpreter} → a.end_pos ≤ a.code.pos → Runs constants a (ok a)
  no_opcode :
      {a : AbstractInterpreter} {why : Fault}
      → a.code.pos < a.end_pos
      → next_u1 a ≡ fault why
      → Runs constants a (fault why)
  no_step :
      {a b : AbstractInterpreter} {byte : ℕ} {why : Fault}
      → a.code.pos < a.end_pos
      → next_u1 a ≡ ok (byte, b)
      → execute_byte constants byte b ≡ fault why
      → Runs constants a (fault why)
  step :
      {a b c : AbstractInterpreter} {byte : ℕ} {r : Result AbstractInterpreter}
      → a.code.pos < a.end_pos
      → next_u1 a ≡ ok (byte, b)
      → execute_byte constants byte b ≡ ok c
      → Runs constants c r
      → Runs constants a r

-- If the operation returns, it has not moved back, and left the end where it was.
data Onward (a : AbstractInterpreter) : Result AbstractInterpreter → Type 0 where
  onward :
      {b : AbstractInterpreter} → a.code.pos ≤ b.code.pos → b.end_pos ≡ a.end_pos → Onward a (ok b)
  halted : {why : Fault} → Onward a (fault why)

Advances-Onward :
    {n : ℕ} {a : AbstractInterpreter} {r : Result AbstractInterpreter} → Advances n a r → Onward a r
Advances-Onward (moved p e) = onward (omega arith) e
Advances-Onward stopped = halted

Onward-trans :
    {a b : AbstractInterpreter} {r : Result AbstractInterpreter}
    → Onward a (ok b)
    → Onward b r
    → Onward a r
Onward-trans h halted = halted
Onward-trans (onward p e) (onward p' e') = onward (omega arith) (e' ∙ e)

read_Onward :
    (a : AbstractInterpreter) (r : Result (ℕ × AbstractInterpreter))
    (k : ℕ × AbstractInterpreter → Result AbstractInterpreter)
    → Onward a (r >>= λ (v, b). ok b)
    → ((v : ℕ) (b : AbstractInterpreter) → Onward b (k (v, b)))
    → Onward a (r >>= k)
read_Onward a (fault why) k h next = halted
read_Onward a (ok (v, b)) k h next = Onward-trans h (next v b)

wide_opcode-Onward :
    (i : ℕ) (o : Option Opcode) (a : AbstractInterpreter) → Onward a (wide_opcode i o a)
unfolding wide_opcode
wide_opcode-Onward i (some Opcode.iinc) a = Advances-Onward (read_u2-then a _ λ v b. push-Keeps _ b)
wide_opcode-Onward i (some Opcode.iload) a = Advances-Onward (push-Keeps _ a)
wide_opcode-Onward i (some Opcode.lload) a = Advances-Onward (push-Keeps _ a)
wide_opcode-Onward i (some Opcode.fload) a = Advances-Onward (push-Keeps _ a)
wide_opcode-Onward i (some Opcode.dload) a = Advances-Onward (push-Keeps _ a)
wide_opcode-Onward i (some Opcode.aload) a = Advances-Onward (push-Keeps _ a)
wide_opcode-Onward i (some Opcode.istore) a = Advances-Onward (store-Keeps _ _ a)
wide_opcode-Onward i (some Opcode.lstore) a = Advances-Onward (store-Keeps _ _ a)
wide_opcode-Onward i (some Opcode.fstore) a = Advances-Onward (store-Keeps _ _ a)
wide_opcode-Onward i (some Opcode.dstore) a = Advances-Onward (store-Keeps _ _ a)
wide_opcode-Onward i (some Opcode.astore) a = Advances-Onward (store-Keeps _ _ a)
wide_opcode-Onward i _ a = halted

wide-Onward : (a : AbstractInterpreter) → Onward a (wide a)
unfolding wide
wide-Onward a = read_Onward a (next_u1 a) _ (Advances-Onward (next_u1-Advances a)) λ v b.
    read_Onward b (next_u2 b) _ (Advances-Onward (next_u2-Advances b))
      λ i c. wide_opcode-Onward i (opcode_of v) c

-- An opcode with the byte of WIDE is WIDE.
is_wide : (opcode : Opcode) → code_of opcode ≡ code_of Opcode.wide → opcode ≡ Opcode.wide
is_wide opcode e =
    let same : some opcode ≡ some Opcode.wide =
      sym (opcode_of-code_of opcode) ∙ (ap opcode_of e ∙ opcode_of-code_of Opcode.wide) in
    cc

execute_opcode-Onward :
    (constants : Constants) (opcode : Opcode) (a : AbstractInterpreter)
    → Onward a (execute_opcode constants opcode a)
unfolding execute_opcode
execute_opcode-Onward constants opcode a =
    elim (Bool-cases (code_of opcode == code_of Opcode.wide)) [
      | inl e ↦
          let is : opcode ≡ Opcode.wide = is_wide opcode ((==_iff _ _).0 e) in rw is (wide-Onward a)
      | inr differs ↦
          let ne : opcode ≢ Opcode.wide = λ e. let q = ap code_of e in ground arith in
          Advances-Onward (execute_opcode-Advances constants opcode a ne)
    ]

execute_byte-Onward :
    (constants : Constants) (byte : ℕ) (a : AbstractInterpreter)
    → Onward a (execute_byte constants byte a)
execute_byte-Onward constants byte a =
    elim (opcode_of byte)
      as (λ o.
        Onward a (elim o [ none ↦ ok a | some opcode ↦ execute_opcode constants opcode a ])) [
          | none ↦ Advances-Onward (Keeps-refl a)
          | some opcode ↦ execute_opcode-Onward constants opcode a
        ]

-- What is known of a round that returns.
after_byte : {a b : AbstractInterpreter} {byte : ℕ} → next_u1 a ≡ ok (byte, b) → Advances 1 a (ok b)
after_byte {a = a} {b = b} e =
    let h : Advances 1 a (next_u1 a >>= λ (v, c). ok c) = next_u1-Advances a in rw e at h

Onward-ok :
    {a b : AbstractInterpreter}
    → Onward a (ok b)
    → (a.code.pos ≤ b.code.pos) × (b.end_pos ≡ a.end_pos)
Onward-ok (onward p e) = (p, e)

Advances-ok :
    {n : ℕ} {a b : AbstractInterpreter}
    → Advances n a (ok b)
    → (b.code.pos ≡ a.code.pos + n) × (b.end_pos ≡ a.end_pos)
Advances-ok (moved p e) = (p, e)

-- A round in front of the end, given what the rest does.
round-Runs :
    (constants : Constants) (a : AbstractInterpreter)
    (rest : AbstractInterpreter → Result AbstractInterpreter)
    → a.code.pos < a.end_pos
    → ((c : AbstractInterpreter)
        → a.code.pos < c.code.pos
        → c.end_pos ≡ a.end_pos
        → Runs constants c (rest c))
    → Runs constants a (next_u1 a >>= λ (byte, b). execute_byte constants byte b >>= rest)
round-Runs constants a rest before next = read (next_u1 a) refl
  where
    act :
        (byte : ℕ) (b : AbstractInterpreter)
        → next_u1 a ≡ ok (byte, b)
        → (r : Result AbstractInterpreter) → execute_byte constants byte b ≡ r
        → Runs constants a (r >>= rest)
    act byte b e (fault why) e' = no_step before e e'
    act byte b e (ok c) e' =
        let (p, q) = Onward-ok (rw e' at (execute_byte-Onward constants byte b)) in
        let (p', q') = Advances-ok (after_byte e) in
        step before e e' (next c (omega arith) (q ∙ q'))

    read :
        (r : Result (ℕ × AbstractInterpreter))
        → next_u1 a ≡ r
        → Runs constants a (r >>= λ (byte, b). execute_byte constants byte b >>= rest)
    read (fault why) e = no_opcode before e
    read (ok (byte, b)) e = act byte b e (execute_byte constants byte b) refl

-- From a position within `fuel` of the end, the bounded loop is a run of the loop: it is never cut off.
pub execute_from-Runs :
    (fuel : ℕ) (constants : Constants) (a : AbstractInterpreter)
    → a.end_pos ≤ a.code.pos + fuel
    → Runs constants a (execute_from fuel constants a)
unfolding execute_from
execute_from-Runs zero constants a h =
    rw (execute_from, le→ltb a.code.pos a.end_pos (omega arith)) (at_end (omega arith))
execute_from-Runs (suc fuel) constants a h = elim (Bool-cases (ltb a.code.pos a.end_pos)) [
  | inr at ↦ rw (execute_from, at) (at_end (ground (arith, at)))
  | inl before ↦
      rw (execute_from, before)
        (round-Runs constants a (execute_from fuel constants) (ltb→lt _ _ before)
          (λ c moves keeps. execute_from-Runs fuel constants c (omega arith)))
]
