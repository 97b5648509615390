-- ===== src/GcRoots/Advancing/Helpers.antt =====
-- How far the operations that the instructions of src/vm/GcRoots.cpp are made of move in the code.
use geevm.Prelude.{ℕ, refl, true, false, ok}
use geevm.Descriptor.{ReturnType, void, returns}
use geevm.ByteStream.{skip}
use geevm.StackMap.{VerificationTypeInfo}
use geevm.GcRoots.{AbstractInterpreter, Constants, Tag, pop_push, pop_pop, array_load, array_store}
use geevm.GcRoots.{store, binary_op, shift, drop_slots, ldc, push_constant, invoke, push_result}
use geevm.GcRoots.StackOps.{dup, dup_x1, dup_x2, dup2, dup2_x1, dup2_x2, swap}
use geevm.GcRoots.Instructions.{compare, iinc, get_static, put_static, get_field, put_field}
use geevm.GcRoots.Instructions.{newarray, anewarray, multianewarray}
use geevm.GcRoots.Advancing.Members.{Advances, Keeps, Keeps-refl, moved, stopped, then_Keeps}
use geevm.GcRoots.Advancing.Members.{value_then, read_u1-then, read_u2-then, push-Keeps, pop-Keeps}
use geevm.GcRoots.Advancing.Members.{take_then, drop_slots-Keeps, set_local-Keeps, push_flag-Keeps}
use geevm.GcRoots.Advancing.Members.{if_Keeps, read_then, Advances_trans, next_u1-Advances}
use geevm.GcRoots.Advancing.Members.{next_u2-Advances}

module _ (vti : VerificationTypeInfo) (a : AbstractInterpreter) where
  pub array_load-Keeps : Keeps a (array_load vti a)
  unfolding array_load
  array_load-Keeps =
      then_Keeps a _ _ (pop-Keeps _ a) λ b. then_Keeps b _ _ (pop-Keeps _ b) λ c. push-Keeps _ c

  pub array_store-Keeps : Keeps a (array_store vti a)
  unfolding array_store
  array_store-Keeps =
      then_Keeps a _ _ (pop-Keeps _ a) λ b. then_Keeps b _ _ (pop-Keeps _ b) λ c. pop-Keeps _ c

  pub binary_op-Keeps : Keeps a (binary_op vti a)
  unfolding binary_op
  binary_op-Keeps =
      then_Keeps a _ _ (pop-Keeps _ a) λ b. then_Keeps b _ _ (pop-Keeps _ b) λ c. push-Keeps _ c

  pub shift-Keeps : Keeps a (shift vti a)
  unfolding shift
  shift-Keeps =
      then_Keeps a _ _ (pop-Keeps _ a) λ b. then_Keeps b _ _ (pop-Keeps _ b) λ c. push-Keeps _ c

pub store-Keeps :
    (i : ℕ) (vti : VerificationTypeInfo) (a : AbstractInterpreter) → Keeps a (store i vti a)
unfolding store
store-Keeps i vti a = then_Keeps a _ _ (pop-Keeps _ a) λ b. value_then b _ _ λ v.
    then_Keeps b _ _ (set_local-Keeps i v b) λ c. if_Keeps _ (set_local-Keeps _ _ c) (Keeps-refl c)

module _ (from to : VerificationTypeInfo) (a : AbstractInterpreter) where
  pub pop_push-Keeps : Keeps a (pop_push from to a)
  pop_push-Keeps = then_Keeps a _ _ (pop-Keeps _ a) λ b. push-Keeps _ b

  pub pop_pop-Keeps : Keeps a (pop_pop from to a)
  pop_pop-Keeps = then_Keeps a _ _ (pop-Keeps _ a) λ b. pop-Keeps _ b

  pub compare-Keeps : Keeps a (compare from to a)
  compare-Keeps =
      then_Keeps a _ _ (pop-Keeps _ a) λ b. then_Keeps b _ _ (pop-Keeps _ b) λ c. push-Keeps _ c

module _ (a : AbstractInterpreter) where
  pub dup-Keeps : Keeps a (dup a)
  unfolding dup
  dup-Keeps = take_then a _ λ v b. then_Keeps b _ _ (push_flag-Keeps v b) λ c. push_flag-Keeps v c

  pub dup_x1-Keeps : Keeps a (dup_x1 a)
  unfolding dup_x1
  dup_x1-Keeps = take_then a _ λ v b. take_then b _ λ w c.
      then_Keeps c _ _ (push_flag-Keeps v c)
        λ d. then_Keeps d _ _ (push_flag-Keeps w d) λ e. push_flag-Keeps v e

  pub dup_x2-Keeps : Keeps a (dup_x2 a)
  unfolding dup_x2
  dup_x2-Keeps = take_then a _ λ v b. take_then b _ λ w c. take_then c _ λ x d.
      then_Keeps d _ _ (push_flag-Keeps v d) λ e.
        then_Keeps e _ _ (push_flag-Keeps x e)
          λ f. then_Keeps f _ _ (push_flag-Keeps w f) λ g. push_flag-Keeps v g

  pub dup2-Keeps : Keeps a (dup2 a)
  unfolding dup2
  dup2-Keeps = take_then a _ λ v b. take_then b _ λ w c. then_Keeps c _ _ (push_flag-Keeps w c) λ d.
      then_Keeps d _ _ (push_flag-Keeps v d)
        λ e. then_Keeps e _ _ (push_flag-Keeps w e) λ f. push_flag-Keeps v f

  pub dup2_x1-Keeps : Keeps a (dup2_x1 a)
  unfolding dup2_x1
  dup2_x1-Keeps = take_then a _ λ v b. take_then b _ λ w c. take_then c _ λ x d.
      then_Keeps d _ _ (push_flag-Keeps w d) λ e. then_Keeps e _ _ (push_flag-Keeps v e) λ f.
        then_Keeps f _ _ (push_flag-Keeps x f)
          λ g. then_Keeps g _ _ (push_flag-Keeps w g) λ h. push_flag-Keeps v h

  pub dup2_x2-Keeps : Keeps a (dup2_x2 a)
  unfolding dup2_x2
  dup2_x2-Keeps = take_then a _ λ v b. take_then b _ λ w c. take_then c _ λ x d.
      take_then d _ λ y e. then_Keeps e _ _ (push_flag-Keeps w e) λ f.
        then_Keeps f _ _ (push_flag-Keeps v f) λ g. then_Keeps g _ _ (push_flag-Keeps y g) λ h.
          then_Keeps h _ _ (push_flag-Keeps x h)
            λ i. then_Keeps i _ _ (push_flag-Keeps w i) λ j. push_flag-Keeps v j

  pub swap-Keeps : Keeps a (swap a)
  unfolding swap
  swap-Keeps =
      take_then a _
        λ v b. take_then b _ λ w c. then_Keeps c _ _ (push_flag-Keeps v c) λ d. push_flag-Keeps w d

push_constant-Keeps : (tag : Tag) (a : AbstractInterpreter) → Keeps a (push_constant tag a)
unfolding push_constant
push_constant-Keeps Tag.constant_integer a = push-Keeps _ a
push_constant-Keeps Tag.constant_float a = push-Keeps _ a
push_constant-Keeps Tag.constant_double a = push-Keeps _ a
push_constant-Keeps Tag.constant_long a = push-Keeps _ a
push_constant-Keeps Tag.constant_string a = push-Keeps _ a
push_constant-Keeps Tag.constant_class a = push-Keeps _ a
push_constant-Keeps _ a = stopped

push_result-Keeps : (t : ReturnType) (a : AbstractInterpreter) → Keeps a (push_result t a)
unfolding push_result
push_result-Keeps void a = Keeps-refl a
push_result-Keeps (returns t) a = push-Keeps _ a

skip_drop_slots-Advances :
    (n : ℕ) (a : AbstractInterpreter)
    → Advances 2 a (ok (drop_slots n (record a { code = skip 2 a.code })))
unfolding drop_slots skip
skip_drop_slots-Advances n a = moved refl refl

module _ (constants : Constants) where
  pub ldc-Keeps : (i : ℕ) (a : AbstractInterpreter) → Keeps a (ldc constants i a)
  unfolding ldc
  ldc-Keeps i a = value_then a _ _ λ tag. push_constant-Keeps tag a

  module _ (a : AbstractInterpreter) where
    pub get_static-Advances : Advances 2 a (get_static constants a)
    unfolding get_static
    get_static-Advances = read_u2-then a _ λ v b. value_then b _ _ λ t. push-Keeps _ b

    pub put_static-Advances : Advances 2 a (put_static constants a)
    unfolding put_static
    put_static-Advances = read_u2-then a _ λ v b. value_then b _ _ λ t. pop-Keeps _ b

    pub get_field-Advances : Advances 2 a (get_field constants a)
    unfolding get_field
    get_field-Advances = read_u2-then a _ λ v b. value_then b _ _ λ t. pop_push-Keeps _ _ b

    pub put_field-Advances : Advances 2 a (put_field constants a)
    unfolding put_field
    put_field-Advances = read_u2-then a _ λ v b. value_then b _ _ λ t. pop_pop-Keeps _ _ b

    pub invoke-Advances : Advances 2 a (invoke false constants a)
    unfolding invoke
    invoke-Advances = read_u2-then a _ λ v b.
        value_then b (constants.method_ref v) _
          λ method. Advances_trans {m = 0} {n = 0} (drop_slots-Keeps _ b) (push_result-Keeps _ _)

    pub invoke_interface-Advances : Advances 4 a (invoke true constants a)
    unfolding invoke
    invoke_interface-Advances = read_then 2 2 a _ _ (next_u2-Advances a) λ v b.
        value_then b (constants.method_ref v) _ λ method.
          Advances_trans {m = 2} {n = 0} (skip_drop_slots-Advances _ b) (push_result-Keeps _ _)

module _ (a : AbstractInterpreter) where
  pub iinc-Advances : Advances 2 a (iinc a)
  unfolding iinc
  iinc-Advances =
      read_then 1 1 a _ _ (next_u1-Advances a) λ v b. read_u1-then b _ λ w c. set_local-Keeps _ _ c

  pub newarray-Advances : (p : ℕ) → Advances 1 a (newarray p a)
  unfolding newarray
  newarray-Advances p =
      read_u1-then a _
        λ v b. then_Keeps b _ _ (pop-Keeps _ b) λ c. if_Keeps _ (push-Keeps _ c) (Keeps-refl c)

  pub anewarray-Advances : (p : ℕ) → Advances 2 a (anewarray p a)
  unfolding anewarray
  anewarray-Advances p =
      read_u2-then a _
        λ v b. then_Keeps b _ _ (pop-Keeps _ b) λ c. if_Keeps _ (push-Keeps _ c) (Keeps-refl c)

  pub multianewarray-Advances : Advances 3 a (multianewarray a)
  unfolding multianewarray
  multianewarray-Advances =
      read_then 2 1 a _ _ (next_u2-Advances a) λ v b. read_u1-then b _ λ w c. push-Keeps _ c
