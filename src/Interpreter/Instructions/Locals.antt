-- ===== src/Interpreter/Instructions/Locals.antt =====
-- Storing to local variables and loading from them, as src/vm/Interpreter.cpp does through
-- `popAndStore` and `loadAndPush`.
use native.Mathlib.Nat.{mod-mod}
use geevm.Prelude.{inl, inr, Bool-cases, ap, ℕ, ◌+◌, ◌%◌, ◌^◌, ◌≤◌, ◌≡◌, ◌≢◌, refl, ◌∙◌, sym, true}
use geevm.Prelude.{List, some, ok, arith, length, ltb, lt→ltb, set, get_elem?, get_elem?-set_self}
use geevm.Prelude.{get_elem?-set_ne}
use geevm.Frame.{CallFrame, JvmType, width, category_two, store_value, load_value}
use geevm.Frame.Slots.{element-some}
use geevm.Frame.Stack.{Holds, view}
use geevm.Frame.Operands.{Operand, slots_of, length-Operand, pop_operand-Operand}
use geevm.Frame.Operands.{push_operand-Operand}
use geevm.Interpreter.Instructions.{load_and_push, pop_and_store}

-- Both slots of the variable are among the local variables.
abbrev pub HasVariable : JvmType → ℕ → CallFrame → Type 0
HasVariable t i f = i + slots_of t ≤ length f.local_variables

slots_of-positive : (t : JvmType) → 1 ≤ slots_of t
slots_of-positive t = elim (Bool-cases (category_two t)) [
  | inl two ↦ rw two (omega arith)
  | inr one ↦ rw one (omega arith)
]

store_value-set :
    (t : JvmType) (i v : ℕ) (f : CallFrame)
    → HasVariable t i f
    → store_value t i v f ≡ ok (record f { local_variables = set f.local_variables i v })
unfolding store_value
store_value-set t i v f has = elim (Bool-cases (category_two t)) [
  | inl two ↦
      let has' : i + 2 ≤ length f.local_variables = rw two at has in
      let first : ltb i (length f.local_variables) ≡ true = lt→ltb _ _ (omega arith) in
      let second : ltb (i + 1) (length f.local_variables) ≡ true = lt→ltb _ _ (omega arith) in
      rw (first, two, second) refl
  | inr one ↦
      let has' : i + 1 ≤ length f.local_variables = rw one at has in
      let first : ltb i (length f.local_variables) ≡ true = lt→ltb _ _ (omega arith) in
      rw (first, one) refl
]

-- What storing an operand in a variable and loading it again leaves: the value, at the width of its
-- type, on the stack; the local variables with the value, and nothing else changed.
pub record RoundTrip (t : JvmType) (i x : ℕ) (xs : List ℕ) (f stored loaded : CallFrame)
    : Type 0 where
  pub stack_between : view stored ≡ xs
  pub stack : List ℕ
  pub on_top : Operand t (x % 2 ^ width t) xs stack
  pub stack_after : view loaded ≡ stack
  pub variable_is : get_elem? stored.local_variables i ≡ some (x % 2 ^ width t)
  pub others_kept :
      (j : ℕ) → j ≢ i → get_elem? stored.local_variables j ≡ get_elem? f.local_variables j
  pub locals_kept : loaded.local_variables ≡ stored.local_variables
  pub position_kept : loaded.position ≡ f.position

-- An operand that is stored in a variable of the frame and loaded again, at the same type, is on the
-- stack as it was.
pub load_and_push-pop_and_store :
    (t : JvmType) (i x : ℕ) (xs ys : List ℕ) (f : CallFrame)
    → HasVariable t i f
    → Operand t x xs ys
    → Holds f ys f
    → (stored : CallFrame) × (loaded : CallFrame) × (pop_and_store t i f ≡ ok stored)
      × (load_and_push t i stored ≡ ok loaded)
      × RoundTrip t i x xs f stored loaded
unfolding load_and_push pop_and_store load_value
load_and_push-pop_and_store t i x xs ys f has top h =
    let (f₁, e₁, h₁) = pop_operand-Operand t x xs f ys top h in
    let v = x % 2 ^ width t in
    let same : length f₁.local_variables ≡ length f.local_variables = ap length h₁.locals_kept in
    let e₂ = store_value-set t i v f₁ (omega arith) in
    let stored : CallFrame = record f₁ { local_variables = set f₁.local_variables i v } in
    let h₂ : Holds stored xs stored = record {
      slots_are = h₁.slots_are;
      depth = h₁.depth;
      bounded = h₁.bounded;
      capacity = refl;
      locals_kept = refl;
      position_kept = refl;
      code_kept = refl;
    } in
    let is : get_elem? stored.local_variables i ≡ some v =
      get_elem?-set_self f₁.local_variables i v (omega (arith, slots_of-positive t)) in
    let word : v % 2 ^ width t ≡ v = mod-mod x (2 ^ width t) in
    let room : length xs + slots_of t ≤ length stored.operand_stack =
      omega (arith, length-Operand top) in
    let (loaded, us, e₃, top', h₃) = push_operand-Operand t v xs stored room h₂ in
    (
      stored,
      loaded,
      rw (e₁, e₂) refl,
      rw (element-some stored.local_variables i v is, word, e₃) refl,
      record {
        stack_between = h₁.slots_are;
        stack = us;
        on_top = top';
        stack_after = h₃.slots_are;
        variable_is = is;
        others_kept = λ j ne.
            get_elem?-set_ne f₁.local_variables v (λ e. ne (sym e))
            ∙ ap (λ l. get_elem? l j) h₁.locals_kept;
        locals_kept = h₃.locals_kept;
        position_kept = h₃.position_kept ∙ h₁.position_kept;
      },
    )
