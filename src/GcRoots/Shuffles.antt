-- ===== src/GcRoots/Shuffles.antt =====
-- What src/vm/GcRoots.cpp does to the flags of the operand stack for the instructions that move slots.
use geevm.Prelude.{◌≤◌, ◌<◌, refl, Bool, List, ◌∷◌, length, Result, ◌>>=◌, arith}
use geevm.Opcode.{Opcode}
use geevm.GcRoots.{AbstractInterpreter, Constants, push_flag, take_flag, drop_slots}
use geevm.GcRoots.StackOps.{dup, dup_x1, dup_x2, dup2, dup2_x1, dup2_x2, swap}
use geevm.GcRoots.Execute.{execute_opcode}
use geevm.GcRoots.Flags.{Flags, Leaves, push_flag-Leaves, take_flag-Leaves, drop_slots-Flags}

-- The slots of the stack before and after an instruction, the top first, whatever they hold.
pub data Shuffles {ℓ} {A : Type ℓ} : Opcode → List A → List A → Type ℓ where
  pops : {a : A} {r : List A} → Shuffles Opcode.pop (a ∷ r) r
  pops_two : {a b : A} {r : List A} → Shuffles Opcode.pop2 (a ∷ b ∷ r) r
  dups : {a : A} {r : List A} → Shuffles Opcode.dup (a ∷ r) (a ∷ a ∷ r)
  dups_x1 : {a b : A} {r : List A} → Shuffles Opcode.dup_x1 (a ∷ b ∷ r) (a ∷ b ∷ a ∷ r)
  dups_x2 : {a b c : A} {r : List A} → Shuffles Opcode.dup_x2 (a ∷ b ∷ c ∷ r) (a ∷ b ∷ c ∷ a ∷ r)
  dups2 : {a b : A} {r : List A} → Shuffles Opcode.dup2 (a ∷ b ∷ r) (a ∷ b ∷ a ∷ b ∷ r)
  dups2_x1 :
      {a b c : A} {r : List A} → Shuffles Opcode.dup2_x1 (a ∷ b ∷ c ∷ r) (a ∷ b ∷ c ∷ a ∷ b ∷ r)
  dups2_x2 :
      {a b c d : A} {r : List A}
      → Shuffles Opcode.dup2_x2 (a ∷ b ∷ c ∷ d ∷ r) (a ∷ b ∷ c ∷ d ∷ a ∷ b ∷ r)
  swaps : {a b : A} {r : List A} → Shuffles Opcode.swap (a ∷ b ∷ r) (b ∷ a ∷ r)

module _ {start : AbstractInterpreter} where
  take_then :
      (x : Bool) (xs ys : List Bool) (a : AbstractInterpreter)
      (k : Bool × AbstractInterpreter → Result AbstractInterpreter)
      → Flags start (x ∷ xs) a
      → ((b : AbstractInterpreter) → Flags start xs b → Leaves start ys (k (x, b)))
      → Leaves start ys (take_flag a >>= k)
  take_then x xs ys a k h next = let (b, e, h') = take_flag-Leaves xs a x h in rw e (next b h')

  push_then :
      (v : Bool) (xs ys : List Bool) (a : AbstractInterpreter)
      (k : AbstractInterpreter → Result AbstractInterpreter)
      → Flags start xs a
      → length xs < length start.operand_stack
      → ((b : AbstractInterpreter) → Flags start (v ∷ xs) b → Leaves start ys (k b))
      → Leaves start ys (push_flag v a >>= k)
  push_then v xs ys a k h room next =
      let (b, e, h') = push_flag-Leaves xs a v h room in rw e (next b h')

  last_push :
      (v : Bool) (xs : List Bool) (a : AbstractInterpreter)
      → Flags start xs a
      → length xs < length start.operand_stack
      → Leaves start (v ∷ xs) (push_flag v a)
  last_push v xs a h room = push_flag-Leaves xs a v h room

-- Where the slots that the instruction moves are on the stack and the result fits, its interpretation
-- returns, and the flags are moved just as the instruction moves the slots.
pub Shuffles-Leaves :
    (constants : Constants) {opcode : Opcode} {xs ys : List Bool} {start : AbstractInterpreter}
    (a : AbstractInterpreter)
    → Shuffles opcode xs ys
    → Flags start xs a
    → length ys ≤ length start.operand_stack
    → Leaves start ys (execute_opcode constants opcode a)
unfolding execute_opcode dup dup_x1 dup_x2 dup2 dup2_x1 dup2_x2 swap
Shuffles-Leaves constants a pops h room = (_, refl, drop_slots-Flags _ a _ h)
Shuffles-Leaves constants a pops_two h room =
    (_, refl, drop_slots-Flags _ (drop_slots 1 a) _ (drop_slots-Flags _ a _ h))
Shuffles-Leaves constants a dups h room =
    take_then _ _ _ a _ h
      λ a h. push_then _ _ _ a _ h (omega arith) λ a h. last_push _ _ a h (omega arith)
Shuffles-Leaves constants a dups_x1 h room = take_then _ _ _ a _ h λ a h.
    take_then _ _ _ a _ h λ a h.
      push_then _ _ _ a _ h (omega arith)
        λ a h. push_then _ _ _ a _ h (omega arith) λ a h. last_push _ _ a h (omega arith)
Shuffles-Leaves constants a dups_x2 h room = take_then _ _ _ a _ h λ a h.
    take_then _ _ _ a _ h λ a h. take_then _ _ _ a _ h λ a h.
      push_then _ _ _ a _ h (omega arith) λ a h.
        push_then _ _ _ a _ h (omega arith)
          λ a h. push_then _ _ _ a _ h (omega arith) λ a h. last_push _ _ a h (omega arith)
Shuffles-Leaves constants a dups2 h room = take_then _ _ _ a _ h λ a h. take_then _ _ _ a _ h λ a h.
    push_then _ _ _ a _ h (omega arith) λ a h.
      push_then _ _ _ a _ h (omega arith)
        λ a h. push_then _ _ _ a _ h (omega arith) λ a h. last_push _ _ a h (omega arith)
Shuffles-Leaves constants a dups2_x1 h room = take_then _ _ _ a _ h λ a h.
    take_then _ _ _ a _ h λ a h. take_then _ _ _ a _ h λ a h.
      push_then _ _ _ a _ h (omega arith) λ a h. push_then _ _ _ a _ h (omega arith) λ a h.
        push_then _ _ _ a _ h (omega arith)
          λ a h. push_then _ _ _ a _ h (omega arith) λ a h. last_push _ _ a h (omega arith)
Shuffles-Leaves constants a dups2_x2 h room = take_then _ _ _ a _ h λ a h.
    take_then _ _ _ a _ h λ a h. take_then _ _ _ a _ h λ a h. take_then _ _ _ a _ h λ a h.
      push_then _ _ _ a _ h (omega arith) λ a h. push_then _ _ _ a _ h (omega arith) λ a h.
        push_then _ _ _ a _ h (omega arith) λ a h.
          push_then _ _ _ a _ h (omega arith)
            λ a h. push_then _ _ _ a _ h (omega arith) λ a h. last_push _ _ a h (omega arith)
Shuffles-Leaves constants a swaps h room = take_then _ _ _ a _ h λ a h.
    take_then _ _ _ a _ h
      λ a h. push_then _ _ _ a _ h (omega arith) λ a h. last_push _ _ a h (omega arith)
