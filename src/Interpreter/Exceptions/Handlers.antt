-- ===== src/Interpreter/Exceptions/Handlers.antt =====
-- Which handler `tryHandleException` of src/vm/Interpreter.cpp finds, and where a thrown exception
-- takes the frame.
use mathlib.Core.Path.{subst}
use geevm.Prelude.{ℕ, ◌^◌, ◌%◌, ◌<◌, ◌≤◌, ◌≡◌, ◌≢◌, ◌⊎◌, ◌↔◌, inl, inr, refl, sym, ◌∙◌, Bool, true}
use geevm.Prelude.{false, List, [], ◌∷◌, ==_iff, Fault, Option, none, some, ok, fault, arith}
use geevm.Prelude.{length, ◌==◌, Bool-cases, assertion, not_zero}
use geevm.Prelude.Int.{pos, ◌-ℤ◌}
use geevm.Instance.{JvmExpected, value, error, Object, object_at, class_of}
use geevm.Frame.{CallFrame, reference, set_position, clear_operand_stack}
use geevm.Frame.Stack.{Holds-self, Holds, view, pop_operand-Holds_one, push_operand-Holds_one}
use geevm.Interpreter.Machine.{is_none, Machine, Runtime, throw_instance}
use geevm.Interpreter.Exceptions.{ExceptionTableEntry, is_active, as_size, catches}
use geevm.Interpreter.Exceptions.{try_handle_exception, check_exception, with_exception_check}
use geevm.Interpreter.Exceptions.{athrow, ℤ}

module _ {W : Type 0} (rt : Runtime W) (w : W) (k pc : ℕ) where
  -- The entry is for the position, and for every exception or for a superclass of the thrown one.
  pub data Caught (e : ExceptionTableEntry) : Type 0 where
    catch_all : e.start_pc ≤ pc → pc < e.end_pc → e.catch_type ≡ 0 → Caught e
    catch_class :
        (c : ℕ)
        → e.start_pc ≤ pc
        → pc < e.end_pc
        → e.catch_type ≢ 0
        → rt.get_class w e.catch_type ≡ value c
        → rt.is_instance_of w k c ≡ true
        → Caught e

  pub data Passed (e : ExceptionTableEntry) : Type 0 where
    out_of_range : (pc < e.start_pc) ⊎ (e.end_pc ≤ pc) → Passed e
    other_class :
        (c : ℕ)
        → e.catch_type ≢ 0
        → rt.get_class w e.catch_type ≡ value c
        → rt.is_instance_of w k c ≡ false
        → Passed e

  -- The handler of the first entry that catches the exception, or none.
  pub data Handles : List ExceptionTableEntry → Option ℕ → Type 0 where
    no_entry : Handles [] none
    found :
        {e : ExceptionTableEntry} {es : List ExceptionTableEntry}
        → Caught e
        → Handles (e ∷ es) (some e.handler_pc)
    skipped :
        {e : ExceptionTableEntry} {es : List ExceptionTableEntry} {r : Option ℕ}
        → Passed e
        → Handles es r
        → Handles (e ∷ es) r

is_active_iff :
    (pc : ℕ) (e : ExceptionTableEntry)
    → (is_active pc e ≡ true) ↔ ((e.start_pc ≤ pc) × (pc < e.end_pc))
is_active_iff pc e = ground arith

is_active-out :
    (pc : ℕ) (e : ExceptionTableEntry)
    → (is_active pc e ≡ false) ↔ ((pc < e.start_pc) ⊎ (e.end_pc ≤ pc))
is_active-out pc e = ground arith

JvmExpected-cases : (r : JvmExpected ℕ) → ((c : ℕ) × (r ≡ value c)) ⊎ ((e : _) × (r ≡ error e))
JvmExpected-cases (value c) = inl (c, refl)
JvmExpected-cases (error e) = inr (e, refl)

module _ {W : Type 0} (rt : Runtime W) (w : W) (k pc : ℕ) where
  catches-Caught :
      (e : ExceptionTableEntry)
      → Caught rt w k pc e
      → (is_active pc e ≡ true) × (catches rt w k e ≡ ok true)
  unfolding catches
  catches-Caught e (catch_all l h z) = ((is_active_iff pc e).1 (l, h), rw z refl)
  catches-Caught e (catch_class c l h nz g i) =
      ((is_active_iff pc e).1 (l, h), rw ((not_zero _).1 nz, g, i) refl)

  -- An entry that is passed leaves the search to the rest.
  step-Passed :
      (e : ExceptionTableEntry) (es : List ExceptionTableEntry)
      → Passed rt w k pc e
      → try_handle_exception rt w k pc (e ∷ es) ≡ try_handle_exception rt w k pc es
  unfolding try_handle_exception catches
  step-Passed e es (out_of_range o) = rw ((is_active-out pc e).1 o) refl
  step-Passed e es (other_class c nz g i) =
      let passed : catches rt w k e ≡ ok false = rw ((not_zero _).1 nz, g, i) refl in
      elim (Bool-cases (is_active pc e)) [ inl a ↦ rw (a, passed) refl | inr a ↦ rw a refl ]

  try_handle_exception-of_Handles :
      (table : List ExceptionTableEntry) (r : Option ℕ)
      → Handles rt w k pc table r
      → try_handle_exception rt w k pc table ≡ ok r
  unfolding try_handle_exception
  try_handle_exception-of_Handles [] _ no_entry = refl
  try_handle_exception-of_Handles (e ∷ es) _ (found c) =
      let (a, b) = catches-Caught e c in rw (a, b) refl
  try_handle_exception-of_Handles (e ∷ es) r (skipped p h) =
      step-Passed e es p ∙ try_handle_exception-of_Handles es r h

  -- Every entry catches the exception, or is passed, or its class cannot be resolved.
  decide :
      (e : ExceptionTableEntry)
      → Caught rt w k pc e
        ⊎ (Passed rt w k pc e
            ⊎ ((is_active pc e ≡ true) × (catches rt w k e ≡ fault Fault.assertion)))
  unfolding catches
  decide e = elim (Bool-cases (is_active pc e)) [
    | inr a ↦ inr (inl (out_of_range ((is_active-out pc e).0 a)))
    | inl a ↦
        let (l, h) = (is_active_iff pc e).0 a in
        elim (Bool-cases (e.catch_type == 0)) [
          | inl z ↦ inl (catch_all l h ((==_iff _ _).0 z))
          | inr nz ↦ elim (JvmExpected-cases (rt.get_class w e.catch_type)) [
            | inr (x, g) ↦ inr (inr (a, rw (nz, g) refl))
            | inl (c, g) ↦ elim (Bool-cases (rt.is_instance_of w k c)) [
              | inl i ↦ inl (catch_class c l h ((not_zero _).0 nz) g i)
              | inr i ↦ inr (inl (other_class c ((not_zero _).0 nz) g i))
            ]
          ]
        ]
  ]

  -- `try_handle_exception` returns a result exactly if the table has it: the handler of the first
  -- entry that is for the position and for the class of the exception, or none if every entry is
  -- passed.
  pub try_handle_exception-Handles_iff :
      (table : List ExceptionTableEntry) (r : Option ℕ)
      → (try_handle_exception rt w k pc table ≡ ok r) ↔ Handles rt w k pc table r
  unfolding try_handle_exception
  try_handle_exception-Handles_iff table r = (go table r, try_handle_exception-of_Handles table r)
    where
      go :
          (table : List ExceptionTableEntry) (r : Option ℕ)
          → try_handle_exception rt w k pc table ≡ ok r
          → Handles rt w k pc table r
      go [] none h = no_entry
      go [] (some x) h = cc
      go (e ∷ es) r h = elim (decide e) [
        | inl c ↦
            let h' : ok (some e.handler_pc) ≡ ok r =
              sym (try_handle_exception-of_Handles (e ∷ es) _ (found c)) ∙ h in
            let same : some e.handler_pc ≡ r = cc in
            subst (λ x. Handles rt w k pc (e ∷ es) x) same (found c)
        | inr (inl p) ↦ skipped p (go es r (sym (step-Passed e es p) ∙ h))
        | inr (inr (a, b)) ↦ let h' : fault assertion ≡ ok r = rw (a, b) at h in cc
      ]

module _ {W : Type 0} (rt : Runtime W) where
  -- The position of the instruction that the search is for: one before the frame's.
  abbrev pub search_position : CallFrame → ℕ
  search_position f = as_size (f.position -ℤ pos 1)

  -- The position, and the exception pending, after the search.
  abbrev pub position_after : Option ℕ → ℤ → ℤ
  position_after none p = p
  position_after (some pc) p = pos pc

  abbrev pub pending_after : Option ℕ → ℕ → Option ℕ
  pending_after none r = some r
  pending_after (some pc) r = none

  -- Where `athrow` takes the machine: to the handler, with the exception cleared, or out of the
  -- method, with the exception pending. The exception is the only operand.
  pub record Thrown (m : Machine W) (r : ℕ) (handler : Option ℕ) (m' : Machine W) (leaves : Bool)
      : Type 0 where
    pub stack_is : view m'.frame ≡ r ∷ []
    pub position_is : m'.frame.position ≡ position_after handler m.frame.position
    pub exception_is : m'.exception ≡ pending_after handler r
    pub leaves_is : leaves ≡ is_none handler
    pub locals_kept : m'.frame.local_variables ≡ m.frame.local_variables
    pub heap_kept : m'.heap ≡ m.heap
    pub world_kept : m'.world ≡ m.world

  throw_instance-Holds :
      (m : Machine W) (r : ℕ)
      → m.has_uncaught_exception ≡ false
      → m.exception ≡ none
      → r ≢ 0
      → 0 < length m.frame.operand_stack
      → (f : CallFrame) × (throw_instance r m ≡ ok (record m { frame = f; exception = some r }))
        × Holds (clear_operand_stack m.frame) (r ∷ []) f
  unfolding throw_instance clear_operand_stack
  throw_instance-Holds m r quiet clear nonnull room =
      let h : Holds (clear_operand_stack m.frame) [] (clear_operand_stack m.frame) =
        Holds-self _ (omega arith) in
      let (f, e, h') = push_operand-Holds_one reference [] _ r refl h room in
      (f, rw (quiet, clear, e, (not_zero r).1 nonnull) refl, h')

  athrow-pending :
      (m : Machine W) (r : ℕ) (xs : List ℕ)
      → m.has_uncaught_exception ≡ false
      → m.exception ≡ none
      → r ≢ 0
      → r < 2 ^ 64
      → Holds m.frame (r ∷ xs) m.frame
      → (f : CallFrame) × (athrow rt m ≡ ok (record m { frame = f; exception = some r }))
        × (view f ≡ r ∷ [])
        × (f.position ≡ m.frame.position)
        × (f.local_variables ≡ m.frame.local_variables)
  unfolding athrow clear_operand_stack
  athrow-pending m r xs quiet clear nonnull small h =
      let (f₁, e₁, h₁) = pop_operand-Holds_one reference r xs m.frame refl h in
      let word : r % 2 ^ 64 ≡ r = omega arith in
      let (f, e, h') =
        throw_instance-Holds (record m { frame = f₁ }) r quiet clear nonnull (omega arith) in
      (
        f,
        rw (e₁, word, e) refl,
        h'.slots_are,
        h'.position_kept ∙ h₁.position_kept,
        h'.locals_kept ∙ h₁.locals_kept,
      )

  -- `athrow` of an object, with no exception pending: after the check of the exception the object is
  -- the only operand, and the frame stands at the handler of the first entry for the position of the
  -- instruction that catches the class of the object, with no exception pending; or, if every entry
  -- passes, the method is left with the exception pending. Local variables and heap are kept.
  pub athrow-Thrown :
      (m : Machine W) (r : ℕ) (xs : List ℕ) (o : Object) (table : List ExceptionTableEntry)
      (handler : Option ℕ)
      → m.has_uncaught_exception ≡ false
      → m.exception ≡ none
      → r ≢ 0
      → r < 2 ^ 64
      → Holds m.frame (r ∷ xs) m.frame
      → object_at m.heap r ≡ ok o
      → Handles rt m.world (class_of o) (search_position m.frame) table handler
      → (m' : Machine W) × (leaves : Bool) × (with_exception_check rt table (athrow rt m)
          ≡ ok (m', leaves))
        × Thrown m r handler m' leaves
  unfolding with_exception_check check_exception set_position
  athrow-Thrown m r xs o table none quiet clear nonnull small h at handles =
      let (f, e, v, p, l) = athrow-pending m r xs quiet clear nonnull small h in
      let none_found = (try_handle_exception-Handles_iff rt m.world _ _ table none).1 handles in
      (
        record m { frame = f; exception = some r },
        true,
        rw (e, at, p, none_found) refl,
        record {
          stack_is = v;
          position_is = p;
          exception_is = refl;
          leaves_is = refl;
          locals_kept = l;
          heap_kept = refl;
          world_kept = refl;
        },
      )
  athrow-Thrown m r xs o table (some pc) quiet clear nonnull small h at handles =
      let (f, e, v, p, l) = athrow-pending m r xs quiet clear nonnull small h in
      let one_found = (try_handle_exception-Handles_iff rt m.world _ _ table (some pc)).1 handles in
      (
        record m { frame = set_position (pos pc) f; exception = none },
        false,
        rw (e, at, p, one_found) refl,
        record {
          stack_is = v;
          position_is = refl;
          exception_is = refl;
          leaves_is = refl;
          locals_kept = l;
          heap_kept = refl;
          world_kept = refl;
        },
      )
