-- ===== src/Interpreter/StackOps.antt =====
-- The instructions of src/vm/Interpreter.cpp that rearrange the operand stack.
use geevm.Prelude.{ℕ, ◌≤◌, ◌<◌, ◌≡◌, refl, List, ◌∷◌, length, Result, ok, ◌>>=◌, arith}
use geevm.Frame.{CallFrame, push_generic_operand, pop_generic_operand}
use geevm.Frame.Stack.{Holds, push_generic_operand-Holds, pop_generic_operand-Holds}

pub pop : CallFrame → Result CallFrame
pop f = do (_, f) ← pop_generic_operand f; ok f

pub pop2 : CallFrame → Result CallFrame
pop2 f = do (_, f) ← pop_generic_operand f; (_, f) ← pop_generic_operand f; ok f

pub dup : CallFrame → Result CallFrame
dup f = do
  (value, f) ← pop_generic_operand f
  f ← push_generic_operand value f
  push_generic_operand value f

pub dup_x1 : CallFrame → Result CallFrame
dup_x1 f = do
  (value1, f) ← pop_generic_operand f
  (value2, f) ← pop_generic_operand f
  f ← push_generic_operand value1 f
  f ← push_generic_operand value2 f
  push_generic_operand value1 f

pub dup_x2 : CallFrame → Result CallFrame
dup_x2 f = do
  (value1, f) ← pop_generic_operand f
  (value2, f) ← pop_generic_operand f
  (value3, f) ← pop_generic_operand f
  f ← push_generic_operand value1 f
  f ← push_generic_operand value3 f
  f ← push_generic_operand value2 f
  push_generic_operand value1 f

pub dup2 : CallFrame → Result CallFrame
dup2 f = do
  (value1, f) ← pop_generic_operand f
  (value2, f) ← pop_generic_operand f
  f ← push_generic_operand value2 f
  f ← push_generic_operand value1 f
  f ← push_generic_operand value2 f
  push_generic_operand value1 f

pub dup2_x1 : CallFrame → Result CallFrame
dup2_x1 f = do
  (value1, f) ← pop_generic_operand f
  (value2, f) ← pop_generic_operand f
  (value3, f) ← pop_generic_operand f
  f ← push_generic_operand value2 f
  f ← push_generic_operand value1 f
  f ← push_generic_operand value3 f
  f ← push_generic_operand value2 f
  push_generic_operand value1 f

pub dup2_x2 : CallFrame → Result CallFrame
dup2_x2 f = do
  (value1, f) ← pop_generic_operand f
  (value2, f) ← pop_generic_operand f
  (value3, f) ← pop_generic_operand f
  (value4, f) ← pop_generic_operand f
  f ← push_generic_operand value2 f
  f ← push_generic_operand value1 f
  f ← push_generic_operand value4 f
  f ← push_generic_operand value3 f
  f ← push_generic_operand value2 f
  push_generic_operand value1 f

pub swap : CallFrame → Result CallFrame
swap f = do
  (value1, f) ← pop_generic_operand f
  (value2, f) ← pop_generic_operand f
  f ← push_generic_operand value1 f
  push_generic_operand value2 f

-- What the instructions do to the slots of the stack, the top first.
pub data Rearranges : (CallFrame → Result CallFrame) → List ℕ → List ℕ → Type 0 where
  by_pop : {a : ℕ} {r : List ℕ} → Rearranges pop (a ∷ r) r
  by_pop2 : {a b : ℕ} {r : List ℕ} → Rearranges pop2 (a ∷ b ∷ r) r
  by_dup : {a : ℕ} {r : List ℕ} → Rearranges dup (a ∷ r) (a ∷ a ∷ r)
  by_dup_x1 : {a b : ℕ} {r : List ℕ} → Rearranges dup_x1 (a ∷ b ∷ r) (a ∷ b ∷ a ∷ r)
  by_dup_x2 : {a b c : ℕ} {r : List ℕ} → Rearranges dup_x2 (a ∷ b ∷ c ∷ r) (a ∷ b ∷ c ∷ a ∷ r)
  by_dup2 : {a b : ℕ} {r : List ℕ} → Rearranges dup2 (a ∷ b ∷ r) (a ∷ b ∷ a ∷ b ∷ r)
  by_dup2_x1 : {a b c : ℕ} {r : List ℕ} → Rearranges dup2_x1 (a ∷ b ∷ c ∷ r) (a ∷ b ∷ c ∷ a ∷ b ∷ r)
  by_dup2_x2 :
      {a b c d : ℕ} {r : List ℕ}
      → Rearranges dup2_x2 (a ∷ b ∷ c ∷ d ∷ r) (a ∷ b ∷ c ∷ d ∷ a ∷ b ∷ r)
  by_swap : {a b : ℕ} {r : List ℕ} → Rearranges swap (a ∷ b ∷ r) (b ∷ a ∷ r)

-- The operation returns a frame that is `start` with the slots `ys` on its stack.
abbrev pub LeadsTo : CallFrame → List ℕ → Result CallFrame → Type 0
LeadsTo start ys r = (f : CallFrame) × (r ≡ ok f) × Holds start ys f

module _ {start : CallFrame} where
  -- A pushed value in front of further steps.
  push_then :
      (v : ℕ) (xs ys : List ℕ) (f : CallFrame) (k : CallFrame → Result CallFrame)
      → Holds start xs f
      → length xs < length start.operand_stack
      → ((f' : CallFrame) → Holds start (v ∷ xs) f' → LeadsTo start ys (k f'))
      → LeadsTo start ys (push_generic_operand v f >>= k)
  push_then v xs ys f k h room next =
      let (f', e, h') = push_generic_operand-Holds xs f v h room in rw e (next f' h')

  pop_then :
      (x : ℕ) (xs ys : List ℕ) (f : CallFrame) (k : ℕ × CallFrame → Result CallFrame)
      → Holds start (x ∷ xs) f
      → ((f' : CallFrame) → Holds start xs f' → LeadsTo start ys (k (x, f')))
      → LeadsTo start ys (pop_generic_operand f >>= k)
  pop_then x xs ys f k h next =
      let (f', e, h') = pop_generic_operand-Holds x xs f h in rw e (next f' h')

-- Where the slots that an instruction takes are on the stack and those that it leaves fit, it
-- returns, and leaves exactly the slots of the specification, and the rest of the frame as it was.
pub Rearranges-LeadsTo :
    {op : CallFrame → Result CallFrame} {xs ys : List ℕ} {start : CallFrame} (f : CallFrame)
    → Rearranges op xs ys
    → Holds start xs f
    → length ys ≤ length start.operand_stack
    → LeadsTo start ys (op f)
unfolding pop pop2 dup dup_x1 dup_x2 dup2 dup2_x1 dup2_x2 swap
Rearranges-LeadsTo f by_pop h room = pop_then _ _ _ _ _ h λ f h. (f, refl, h)
Rearranges-LeadsTo f by_pop2 h room =
    pop_then _ _ _ _ _ h λ f h. pop_then _ _ _ _ _ h λ f h. (f, refl, h)
Rearranges-LeadsTo f by_dup h room = pop_then _ _ _ _ _ h λ f h.
    push_then _ _ _ _ _ h (omega arith) λ f h. push_generic_operand-Holds _ f _ h (omega arith)
Rearranges-LeadsTo f by_dup_x1 h room = pop_then _ _ _ _ _ h λ f h. pop_then _ _ _ _ _ h λ f h.
    push_then _ _ _ _ _ h (omega arith) λ f h.
      push_then _ _ _ _ _ h (omega arith) λ f h. push_generic_operand-Holds _ f _ h (omega arith)
Rearranges-LeadsTo f by_dup_x2 h room = pop_then _ _ _ _ _ h λ f h. pop_then _ _ _ _ _ h λ f h.
    pop_then _ _ _ _ _ h λ f h. push_then _ _ _ _ _ h (omega arith) λ f h.
      push_then _ _ _ _ _ h (omega arith) λ f h.
        push_then _ _ _ _ _ h (omega arith) λ f h. push_generic_operand-Holds _ f _ h (omega arith)
Rearranges-LeadsTo f by_dup2 h room = pop_then _ _ _ _ _ h λ f h. pop_then _ _ _ _ _ h λ f h.
    push_then _ _ _ _ _ h (omega arith) λ f h. push_then _ _ _ _ _ h (omega arith) λ f h.
      push_then _ _ _ _ _ h (omega arith) λ f h. push_generic_operand-Holds _ f _ h (omega arith)
Rearranges-LeadsTo f by_dup2_x1 h room = pop_then _ _ _ _ _ h λ f h. pop_then _ _ _ _ _ h λ f h.
    pop_then _ _ _ _ _ h λ f h. push_then _ _ _ _ _ h (omega arith) λ f h.
      push_then _ _ _ _ _ h (omega arith) λ f h. push_then _ _ _ _ _ h (omega arith) λ f h.
        push_then _ _ _ _ _ h (omega arith) λ f h. push_generic_operand-Holds _ f _ h (omega arith)
Rearranges-LeadsTo f by_dup2_x2 h room = pop_then _ _ _ _ _ h λ f h. pop_then _ _ _ _ _ h λ f h.
    pop_then _ _ _ _ _ h λ f h. pop_then _ _ _ _ _ h λ f h.
      push_then _ _ _ _ _ h (omega arith) λ f h. push_then _ _ _ _ _ h (omega arith) λ f h.
        push_then _ _ _ _ _ h (omega arith) λ f h. push_then _ _ _ _ _ h (omega arith) λ f h.
          push_then _ _ _ _ _ h (omega arith)
            λ f h. push_generic_operand-Holds _ f _ h (omega arith)
Rearranges-LeadsTo f by_swap h room = pop_then _ _ _ _ _ h λ f h. pop_then _ _ _ _ _ h λ f h.
    push_then _ _ _ _ _ h (omega arith) λ f h. push_generic_operand-Holds _ f _ h (omega arith)
