-- ===== src/GarbageCollector/StackForwards.antt =====
-- What the loops over the threads and their frames in src/vm/GarbageCollector.cpp are to do with a frame, a
-- call stack and the list of threads.
use geevm.Prelude.{ℕ, ◌≡◌, some, none, List, [], ◌∷◌, ◌++◌, length, ok, Option}
use geevm.Prelude.Words.{pattern_of}
use geevm.Frame.{CallFrame}
use geevm.GcRoots.Compute.{Method, FrameRoots, compute}
use geevm.GarbageCollector.{Forwarding}
use geevm.GarbageCollector.Invariant.{Slots}
use geevm.GarbageCollector.Copies.{Slots-grows}
use geevm.GarbageCollector.Collecting.{Activation}
use geevm.GarbageCollector.Roots.{behind}
use geevm.GarbageCollector.Frames.{flagged}

abbrev pub local_places : FrameRoots → CallFrame → List ℕ
local_places roots f = flagged roots.local_variable_references (length f.local_variables) 0

abbrev pub operand_places : FrameRoots → CallFrame → List ℕ
operand_places roots f = flagged roots.operand_stack_references f.stack_pointer 0

-- `f'` is `f` with the flagged slots forwarded, and nothing else changed.
pub record FrameForwarded (m : Forwarding) (roots : FrameRoots) (f f' : CallFrame) : Type 0 where
  pub others :
      record f' { local_variables = f.local_variables; operand_stack = f.operand_stack } ≡ f
  pub locals : Slots m (behind (local_places roots f) []) f.local_variables f'.local_variables
  pub operands : Slots m (behind (operand_places roots f) []) f.operand_stack f'.operand_stack

-- What becomes of a frame: nothing, where the method is native.
abbrev pub ActivationForwarded : Forwarding → Activation → Activation → Type 0
ActivationForwarded m a a' = elim a.method [
  | none ↦ a' ≡ a
  | some method ↦
      (a'.method ≡ some method)
      × (roots : FrameRoots) × (compute method (pattern_of 32 a.frame.position) ≡ ok roots)
      × FrameForwarded m roots a.frame a'.frame
]

abbrev pub StackForwarded : Forwarding → List Activation → List Activation → Type 0
StackForwarded m [] [] = Unit
StackForwarded m [] (b ∷ bs) = ⊥
StackForwarded m (a ∷ rest) [] = ⊥
StackForwarded m (a ∷ rest) (b ∷ bs) = ActivationForwarded m a b × StackForwarded m rest bs

abbrev pub ThreadsForwarded : Forwarding → List (List Activation) → List (List Activation) → Type 0
ThreadsForwarded m [] [] = Unit
ThreadsForwarded m [] (t ∷ ts) = ⊥
ThreadsForwarded m (s ∷ ss) [] = ⊥
ThreadsForwarded m (s ∷ ss) (t ∷ ts) = StackForwarded m s t × ThreadsForwarded m ss ts

pub ActivationForwarded-grows :
    (m rest : Forwarding) (a a' : Activation)
    → ActivationForwarded m a a'
    → ActivationForwarded (m ++ rest) a a'
ActivationForwarded-grows m rest a a' = go a.method
  where
    Moved : Forwarding → Option Method → Type 0
    Moved n o = elim o [
      | none ↦ a' ≡ a
      | some method ↦
          (a'.method ≡ some method)
          × (roots : FrameRoots) × (compute method (pattern_of 32 a.frame.position) ≡ ok roots)
          × FrameForwarded n roots a.frame a'.frame
    ]

    go : (o : Option Method) → Moved m o → Moved (m ++ rest) o
    go none h = h
    go (some method) (is, roots, computed, moved) = (
      is,
      roots,
      computed,
      record {
        others = moved.others;
        locals = Slots-grows m rest moved.locals;
        operands = Slots-grows m rest moved.operands;
      },
    )

pub StackForwarded-grows :
    (m rest : Forwarding) (as₁ as₂ : List Activation)
    → StackForwarded m as₁ as₂
    → StackForwarded (m ++ rest) as₁ as₂
StackForwarded-grows m rest [] [] h = tt
StackForwarded-grows m rest [] (b ∷ bs) h = elim h [ ]
StackForwarded-grows m rest (a ∷ as₁) [] h = elim h [ ]
StackForwarded-grows m rest (a ∷ as₁) (b ∷ bs) (here, h) =
    (ActivationForwarded-grows m rest a b here, StackForwarded-grows m rest as₁ bs h)

pub ThreadsForwarded-grows :
    (m rest : Forwarding) (ss ts : List (List Activation))
    → ThreadsForwarded m ss ts
    → ThreadsForwarded (m ++ rest) ss ts
ThreadsForwarded-grows m rest [] [] h = tt
ThreadsForwarded-grows m rest [] (t ∷ ts) h = elim h [ ]
ThreadsForwarded-grows m rest (s ∷ ss) [] h = elim h [ ]
ThreadsForwarded-grows m rest (s ∷ ss) (t ∷ ts) (here, h) =
    (StackForwarded-grows m rest s t here, ThreadsForwarded-grows m rest ss ts h)
