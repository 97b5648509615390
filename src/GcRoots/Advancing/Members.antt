-- ===== src/GcRoots/Advancing/Members.antt =====
-- How far the members of `AbstractInterpreter` of src/vm/GcRoots.cpp move in the code.
use geevm.Prelude.{ℕ, ◌+◌, ◌-◌, ◌≡◌, refl, ◌∙◌, Bool, true, false, Result, ok, fault, ◌>>=◌, arith}
use geevm.Prelude.{if◌then◌else◌, guard, Fault, ltb, undefined, assertion, ap}
use geevm.ByteStream.{ByteStream, read_u1, read_u2}
use geevm.ByteStream.Reading.{read_u1-pos, read_u2-pos}
use geevm.GcRoots.{set_flag, AbstractInterpreter, push, pop, pop_slot, push_flag, take_flag}
use geevm.GcRoots.{flag_at, next_u1, next_u2, drop_slots, is_category_two, set_local}
use geevm.StackMap.{VerificationTypeInfo}

-- If the operation returns, it has moved the position by `n` and left the end where it was.
pub data Advances (n : ℕ) (a : AbstractInterpreter) : Result AbstractInterpreter → Type 0 where
  moved :
      {b : AbstractInterpreter}
      → b.code.pos ≡ a.code.pos + n
      → b.end_pos ≡ a.end_pos
      → Advances n a (ok b)
  stopped : {why : Fault} → Advances n a (fault why)

abbrev pub Keeps : AbstractInterpreter → Result AbstractInterpreter → Type 0
Keeps a r = Advances 0 a r

pub Keeps-refl : (a : AbstractInterpreter) → Keeps a (ok a)
Keeps-refl a = moved (omega arith) refl

pub Advances_trans :
    {m n : ℕ} {a b : AbstractInterpreter} {r : Result AbstractInterpreter}
    → Advances m a (ok b)
    → Advances n b r
    → Advances (m + n) a r
Advances_trans h stopped = stopped
Advances_trans (moved p e) (moved p' e') = moved (omega arith) (e' ∙ e)

-- An operation that keeps the position, in front of another.
pub then_Keeps :
    (a : AbstractInterpreter) (r : Result AbstractInterpreter)
    (k : AbstractInterpreter → Result AbstractInterpreter)
    → Keeps a r
    → ((b : AbstractInterpreter) → Keeps b (k b))
    → Keeps a (r >>= k)
then_Keeps a (fault why) k h next = stopped
then_Keeps a (ok b) k h next = Advances_trans h (next b)

-- Something that only reads the state, in front of an operation.
pub value_then {ℓ} :
    {A : Type ℓ} {n : ℕ} (a : AbstractInterpreter) (r : Result A)
    (k : A → Result AbstractInterpreter)
    → ((x : A) → Advances n a (k x))
    → Advances n a (r >>= k)
value_then a (fault why) k next = stopped
value_then a (ok x) k next = next x

-- What a read returns, in front of an operation.
pub read_then :
    (m n : ℕ) (a : AbstractInterpreter) (r : Result (ℕ × AbstractInterpreter))
    (k : ℕ × AbstractInterpreter → Result AbstractInterpreter)
    → Advances m a (r >>= λ (v, b). ok b)
    → ((v : ℕ) (b : AbstractInterpreter) → Advances n b (k (v, b)))
    → Advances (m + n) a (r >>= k)
read_then m n a (fault why) k h next = stopped
read_then m n a (ok (v, b)) k h next = Advances_trans h (next v b)

-- A read of the stream that leaves it at `s`.
read_from :
    (m : ℕ) (a : AbstractInterpreter) (r : Result (ℕ × ByteStream))
    → ((v : ℕ) (s : ByteStream) → r ≡ ok (v, s) → s.pos ≡ a.code.pos + m)
    → Advances m a (r >>= (λ (v, s). ok (v, record a { code = s })) >>= λ (v, b). ok b)
read_from m a (fault why) moves = stopped
read_from m a (ok (v, s)) moves = moved (moves v s refl) refl

pub next_u1-Advances : (a : AbstractInterpreter) → Advances 1 a (next_u1 a >>= λ (v, b). ok b)
unfolding next_u1
next_u1-Advances a = read_from 1 a (read_u1 a.code) (read_u1-pos a.code)

pub next_u2-Advances : (a : AbstractInterpreter) → Advances 2 a (next_u2 a >>= λ (v, b). ok b)
unfolding next_u2
next_u2-Advances a = read_from 2 a (read_u2 a.code) (read_u2-pos a.code)

module _ (a : AbstractInterpreter) (k : ℕ × AbstractInterpreter → Result AbstractInterpreter) where
  pub read_u1-then :
      ((v : ℕ) (b : AbstractInterpreter) → Keeps b (k (v, b))) → Advances 1 a (next_u1 a >>= k)
  read_u1-then next = read_then 1 0 a (next_u1 a) k (next_u1-Advances a) next

  pub read_u2-then :
      ((v : ℕ) (b : AbstractInterpreter) → Keeps b (k (v, b))) → Advances 2 a (next_u2 a >>= k)
  read_u2-then next = read_then 2 0 a (next_u2 a) k (next_u2-Advances a) next

kept : {a b : AbstractInterpreter} → b.code ≡ a.code → b.end_pos ≡ a.end_pos → Keeps a (ok b)
kept p e = moved (omega (arith, ap (λ s. s.pos) p)) e

pub if_Keeps :
    {a : AbstractInterpreter} (c : Bool) {r r' : Result AbstractInterpreter}
    → Keeps a r
    → Keeps a r'
    → Keeps a (if c then r else r')
if_Keeps true h h' = h
if_Keeps false h h' = h'

pub push_flag-Keeps : (b : Bool) (a : AbstractInterpreter) → Keeps a (push_flag b a)
unfolding push_flag
push_flag-Keeps b a = value_then a _ _ λ flags. kept refl refl

pub push-Keeps : (vti : VerificationTypeInfo) (a : AbstractInterpreter) → Keeps a (push vti a)
unfolding push
push-Keeps vti a = value_then a _ _ λ b.
    then_Keeps a _ _ (push_flag-Keeps b a)
      λ a'. if_Keeps (is_category_two vti) (push_flag-Keeps false a') (Keeps-refl a')

pop_slot-Keeps : (a : AbstractInterpreter) → Keeps a (pop_slot a)
unfolding pop_slot
pop_slot-Keeps a = value_then a (guard (ltb 0 a.stack_pointer) assertion) _ λ u.
    value_then a (set_flag a.operand_stack (a.stack_pointer - 1) false) _ λ flags. kept refl refl

pub pop-Keeps : (vti : VerificationTypeInfo) (a : AbstractInterpreter) → Keeps a (pop vti a)
unfolding pop
pop-Keeps vti a =
    then_Keeps a _ _ (if_Keeps (is_category_two vti) (pop_slot-Keeps a) (Keeps-refl a))
      pop_slot-Keeps

pub take_then :
    (a : AbstractInterpreter) (k : Bool × AbstractInterpreter → Result AbstractInterpreter)
    → ((v : Bool) (b : AbstractInterpreter) → Keeps b (k (v, b)))
    → Keeps a (take_flag a >>= k)
unfolding take_flag
take_then a k next =
    go (guard (ltb 0 a.stack_pointer) undefined) (flag_at a.operand_stack (a.stack_pointer - 1))
  where
    go :
        (g : Result (Unit {0})) (r : Result Bool)
        → Keeps a
            ((g >>= λ u. r >>= λ v. ok (v, record a { stack_pointer = a.stack_pointer - 1 })) >>= k)
    go (fault why) r = stopped
    go (ok u) (fault why) = stopped
    go (ok u) (ok v) = Advances_trans {m = 0} {n = 0} (kept refl refl) (next v _)

pub drop_slots-Keeps : (n : ℕ) (a : AbstractInterpreter) → Keeps a (ok (drop_slots n a))
unfolding drop_slots
drop_slots-Keeps n a = kept refl refl

pub set_local-Keeps : (i : ℕ) (b : Bool) (a : AbstractInterpreter) → Keeps a (set_local i b a)
unfolding set_local
set_local-Keeps i b a = value_then a _ _ λ flags. kept refl refl
