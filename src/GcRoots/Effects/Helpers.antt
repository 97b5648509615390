-- ===== src/GcRoots/Effects/Helpers.antt =====
-- What the steps of the instructions of src/vm/GcRoots.cpp do to the flags of the operand stack.
use geevm.Prelude.{◌≤◌, Bool, List, ◌++◌, length, Result, ◌>>=◌}
use geevm.StackMap.{VerificationTypeInfo, integer_type, object_type}
use geevm.GcRoots.{AbstractInterpreter, pop, pop_push, array_load, array_store, binary_op, shift}
use geevm.GcRoots.Instructions.{compare}
use geevm.GcRoots.Flags.{Flags, Leaves, flags_of_type, IsType, push-Leaves, pop-Leaves}

module _ {start : AbstractInterpreter} where
  -- A popped value in front of further steps.
  pop_then :
      (t : VerificationTypeInfo) (xs ys : List Bool) (a : AbstractInterpreter)
      (k : AbstractInterpreter → Result AbstractInterpreter)
      → Flags start (flags_of_type t ++ xs) a
      → ((b : AbstractInterpreter) → Flags start xs b → Leaves start ys (k b))
      → Leaves start ys (pop t a >>= k)
  pop_then t xs ys a k h next = let (b, e, h') = pop-Leaves xs a t h in rw e (next b h')

  module _ (r : List Bool) (a : AbstractInterpreter) (t : VerificationTypeInfo) where
    pub array_store-Leaves :
        Flags start
          (flags_of_type t ++ (flags_of_type integer_type ++ (flags_of_type object_type ++ r)))
          a
        → Leaves start r (array_store t a)
    unfolding array_store
    array_store-Leaves h =
        pop_then t (flags_of_type integer_type ++ (flags_of_type object_type ++ r)) _ a _ h
          λ b h. pop_then integer_type _ _ b _ h λ c h. pop-Leaves r c object_type h

    pub array_load-Leaves :
        IsType t
        → Flags start (flags_of_type integer_type ++ (flags_of_type object_type ++ r)) a
        → length (flags_of_type t ++ r) ≤ length start.operand_stack
        → Leaves start (flags_of_type t ++ r) (array_load t a)
    unfolding array_load
    array_load-Leaves n h room =
        pop_then integer_type _ _ a _ h
          λ b h. pop_then object_type _ _ b _ h λ c h. push-Leaves r c t n h room

    pub binary_op-Leaves :
        IsType t
        → Flags start (flags_of_type t ++ (flags_of_type t ++ r)) a
        → length (flags_of_type t ++ r) ≤ length start.operand_stack
        → Leaves start (flags_of_type t ++ r) (binary_op t a)
    unfolding binary_op
    binary_op-Leaves n h room =
        pop_then t (flags_of_type t ++ r) _ a _ h
          λ b h. pop_then t r _ b _ h λ c h. push-Leaves r c t n h room

    pub shift-Leaves :
        IsType t
        → Flags start (flags_of_type integer_type ++ (flags_of_type t ++ r)) a
        → length (flags_of_type t ++ r) ≤ length start.operand_stack
        → Leaves start (flags_of_type t ++ r) (shift t a)
    unfolding shift
    shift-Leaves n h room =
        pop_then integer_type (flags_of_type t ++ r) _ a _ h
          λ b h. pop_then t r _ b _ h λ c h. push-Leaves r c t n h room

    module _ (u : VerificationTypeInfo) (named : IsType u) where
      pub pop_push-Leaves :
          Flags start (flags_of_type t ++ r) a
          → length (flags_of_type u ++ r) ≤ length start.operand_stack
          → Leaves start (flags_of_type u ++ r) (pop_push t u a)
      pop_push-Leaves h room = pop_then t r _ a _ h λ b h. push-Leaves r b u named h room

      pub compare-Leaves :
          Flags start (flags_of_type t ++ (flags_of_type t ++ r)) a
          → length (flags_of_type u ++ r) ≤ length start.operand_stack
          → Leaves start (flags_of_type u ++ r) (compare t u a)
      compare-Leaves h room =
          pop_then t (flags_of_type t ++ r) _ a _ h
            λ b h. pop_then t r _ b _ h λ c h. push-Leaves r c u named h room
