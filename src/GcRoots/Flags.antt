-- ===== src/GcRoots/Flags.antt =====
-- The flags of the operand stack of `AbstractInterpreter` in src/vm/GcRoots.cpp as a list, the top first,
-- and what pushing and popping do to it.
use native.Mathlib.Numerals.{add-one}
use native.Mathlib.Nat.{le_refl}
use geevm.Prelude.{ℕ, ◌+◌, ◌-◌, ◌%◌, ◌^◌, ◌≤◌, ◌<◌, ◌≡◌, refl, ap₂, ◌∙◌, Bool, false, List, [], ◌∷◌}
use geevm.Prelude.{◌++◌, length, set, get_or, ok, arith, length-set, lt→ltb, if◌then◌else◌, Result}
use geevm.Prelude.{zero, suc, inl, inr, Bool-cases, ◌>>=◌, leb, true}
use geevm.Frame.Slots.{slots, slots-set, slots-cons, get_or-set_self}
use geevm.StackMap.{VerificationTypeInfo}
use geevm.GcRoots.{AbstractInterpreter, is_reference, is_category_two, push_flag, take_flag, push}
use geevm.GcRoots.{pop_slot, pop, drop_slots, flag_at, uninitialized_type, null_type}

-- `a` is `start` with another operand stack, on which the flags `xs` lie. The pointer is of 16 bits, so
-- the capacity is below `2 ^ 16`.
pub record Flags (start : AbstractInterpreter) (xs : List Bool) (a : AbstractInterpreter)
    : Type 0 where
  pub flags_are : slots false a.operand_stack a.stack_pointer ≡ xs
  pub depth : a.stack_pointer ≡ length xs
  pub bounded : a.stack_pointer ≤ length a.operand_stack
  pub capacity : length a.operand_stack ≡ length start.operand_stack
  pub small : length start.operand_stack < 2 ^ 16
  pub locals_kept : a.local_variables ≡ start.local_variables
  pub code_kept : a.code ≡ start.code
  pub end_kept : a.end_pos ≡ start.end_pos

-- The operation returns, and leaves `start` with the flags `xs`.
abbrev pub Leaves : AbstractInterpreter → List Bool → Result AbstractInterpreter → Type 0
Leaves start xs r = (a : AbstractInterpreter) × (r ≡ ok a) × Flags start xs a

flag_at-get_or :
    (flags : List Bool) (i : ℕ) → i < length flags → flag_at flags i ≡ ok (get_or flags i false)
flag_at-get_or [] i h = elim h [ ]
flag_at-get_or (x ∷ xs) zero h = refl
flag_at-get_or (x ∷ xs) (suc i) h = flag_at-get_or xs i (omega arith)

module _ {start : AbstractInterpreter} (xs : List Bool) (a : AbstractInterpreter) where
  pub push_flag-Leaves :
      (v : Bool)
      → Flags start xs a
      → length xs < length start.operand_stack
      → Leaves start (v ∷ xs) (push_flag v a)
  unfolding push_flag
  push_flag-Leaves v h room =
      let lt : a.stack_pointer < length a.operand_stack = omega arith in
      let n = length-set {A = Bool} a.operand_stack a.stack_pointer v in
      let up : (a.stack_pointer + 1) % 2 ^ 16 ≡ a.stack_pointer + 1 = omega arith in
      (
        record a {
          operand_stack = set a.operand_stack a.stack_pointer v;
          stack_pointer = a.stack_pointer + 1;
        },
        rw (lt→ltb _ _ lt, up) refl,
        record {
          flags_are = rw add-one (
              ap₂ ◌∷◌ (get_or-set_self false _ _ v lt)
                (slots-set false _ _ v a.stack_pointer (le_refl _) ∙ h.flags_are));
          depth = omega arith;
          bounded = omega arith;
          capacity = n ∙ h.capacity;
          small = h.small;
          locals_kept = h.locals_kept;
          code_kept = h.code_kept;
          end_kept = h.end_kept;
        },
      )

  -- The flags below the top.
  Flags-below :
      (x : Bool) (flags : List Bool)
      → Flags start (x ∷ xs) a
      → length flags ≡ length a.operand_stack
      → slots false flags (a.stack_pointer - 1) ≡ slots false a.operand_stack (a.stack_pointer - 1)
      → Flags start xs (record a { operand_stack = flags; stack_pointer = a.stack_pointer - 1 })
  Flags-below x flags h n same = record {
    flags_are = same ∙ (slots-cons false a.operand_stack a.stack_pointer x xs h.flags_are).1;
    depth = omega arith;
    bounded = omega arith;
    capacity = n ∙ h.capacity;
    small = h.small;
    locals_kept = h.locals_kept;
    code_kept = h.code_kept;
    end_kept = h.end_kept;
  }

  pub take_flag-Leaves :
      (x : Bool)
      → Flags start (x ∷ xs) a
      → (b : AbstractInterpreter) × (take_flag a ≡ ok (x, b)) × Flags start xs b
  unfolding take_flag
  take_flag-Leaves x h =
      let lt : a.stack_pointer - 1 < length a.operand_stack = omega arith in
      let top = (slots-cons false a.operand_stack a.stack_pointer x xs h.flags_are).0 in
      (
        record a { stack_pointer = a.stack_pointer - 1 },
        rw (lt→ltb 0 a.stack_pointer (omega arith), flag_at-get_or _ _ lt, top) refl,
        Flags-below x a.operand_stack h refl refl,
      )

  pub pop_slot-Leaves : (x : Bool) → Flags start (x ∷ xs) a → Leaves start xs (pop_slot a)
  unfolding pop_slot
  pop_slot-Leaves x h =
      let lt : a.stack_pointer - 1 < length a.operand_stack = omega arith in
      let cleared = set a.operand_stack (a.stack_pointer - 1) false in
      (
        record a { operand_stack = cleared; stack_pointer = a.stack_pointer - 1 },
        rw (lt→ltb 0 a.stack_pointer (omega arith), lt→ltb _ _ lt) refl,
        Flags-below x cleared h (length-set _ _ _)
            (slots-set false a.operand_stack _ false (a.stack_pointer - 1) (le_refl _)),
      )

  -- One slot less, its flag left above the top.
  pub drop_slots-Flags : (x : Bool) → Flags start (x ∷ xs) a → Flags start xs (drop_slots 1 a)
  unfolding drop_slots
  drop_slots-Flags x h =
      let down : (a.stack_pointer + 2 ^ 16 - 1 % 2 ^ 16) % 2 ^ 16 ≡ a.stack_pointer - 1 =
        omega arith in
      rw down (Flags-below x a.operand_stack h refl refl)

-- The flags of a value of a type, the top first: a value of category two has two slots, and none of
-- them holds a reference.
abbrev pub flags_of_type : VerificationTypeInfo → List Bool
flags_of_type t = if is_category_two t then false ∷ false ∷ [] else leb null_type t ∷ []

abbrev pub flags_of : List VerificationTypeInfo → List Bool
flags_of [] = []
flags_of (t ∷ ts) = flags_of_type t ++ flags_of ts

-- A type that the enumeration names.
abbrev pub IsType : VerificationTypeInfo → Type 0
IsType t = t ≤ uninitialized_type

is_reference-eq : (t : VerificationTypeInfo) → IsType t → is_reference t ≡ ok (leb null_type t)
unfolding is_reference
is_reference-eq t h = ground arith

-- The steps of `push`, with what they test.
push_value-Leaves :
    {start : AbstractInterpreter} (xs : List Bool) (a : AbstractInterpreter) (two value : Bool)
    → (two ≡ true → value ≡ false)
    → Flags start xs a
    → length ((if two then false ∷ false ∷ [] else value ∷ []) ++ xs) ≤ length start.operand_stack
    → Leaves start
        ((if two then false ∷ false ∷ [] else value ∷ []) ++ xs)
        (push_flag value a >>= λ a. if two then push_flag false a else ok a)
push_value-Leaves xs a true true upper h room = let e = upper refl in cc
push_value-Leaves xs a true false upper h room =
    let (b, e, h₁) = push_flag-Leaves xs a false h (omega arith) in
    let (c, e', h₂) = push_flag-Leaves (false ∷ xs) b false h₁ (omega arith) in (c, rw e e', h₂)
push_value-Leaves xs a false value upper h room =
    let (b, e, h₁) = push_flag-Leaves xs a value h (omega arith) in (b, rw e refl, h₁)

module _ {start : AbstractInterpreter} (xs : List Bool) (a : AbstractInterpreter) where
  pub push-Leaves :
      (t : VerificationTypeInfo)
      → IsType t
      → Flags start xs a
      → length (flags_of_type t ++ xs) ≤ length start.operand_stack
      → Leaves start (flags_of_type t ++ xs) (push t a)
  unfolding push
  push-Leaves t named h room =
      let upper : is_category_two t ≡ true → leb null_type t ≡ false = λ two. ground arith in
      rw (is_reference-eq t named)
        (push_value-Leaves xs a (is_category_two t) (leb null_type t) upper h room)

  pub pop-Leaves :
      (t : VerificationTypeInfo) → Flags start (flags_of_type t ++ xs) a → Leaves start xs (pop t a)
  unfolding pop
  pop-Leaves t h = elim (Bool-cases (is_category_two t)) [
    | inl two ↦
        let h' : Flags start (false ∷ false ∷ xs) a = rw two at h in
        let (b, e, h₁) = pop_slot-Leaves (false ∷ xs) a false h' in
        let (c, e', h₂) = pop_slot-Leaves xs b false h₁ in (c, rw (two, e) e', h₂)
    | inr one ↦
        let h' : Flags start (leb null_type t ∷ xs) a = rw one at h in
        let (b, e, h₁) = pop_slot-Leaves xs a _ h' in (b, rw (one, e) refl, h₁)
  ]
