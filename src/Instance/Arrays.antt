-- ===== src/Instance/Arrays.antt =====
-- Array elements of src/vm/Instance.h: which indices are in bounds, and what a write leaves.
use geevm.Prelude.{ℕ, ◌^◌, ◌≤◌, ◌<◌, ◌≡◌, ◌≢◌, ◌↔◌, refl, false, arith, length, set, get_elem?}
use geevm.Prelude.{get_elem?-set_self, get_elem?-set_ne, length-set, Bool-cases, some, ok, inl, inr}
use geevm.Prelude.{◌⊎◌, sym}
use geevm.Frame.Slots.{element-some}
use geevm.Instance.{JavaArray, value, error, is_out_of_bounds, out_of_bounds, get_array_element}
use geevm.Instance.{set_array_element}

-- An `int` index is refused exactly where, read as a signed number, it is negative or not below the
-- length: where its bit pattern is not below the length of an array of fewer than 2 ^ 31 elements.
pub is_out_of_bounds_iff :
    (index : ℕ) (a : JavaArray)
    → index < 2 ^ 32
    → length a.elements < 2 ^ 31
    → (is_out_of_bounds index a ≡ false) ↔ (index < length a.elements)
is_out_of_bounds_iff index a hi hl = (λ e. ground arith, λ lt. ground arith)

get_array_element-in_bounds :
    (index x : ℕ) (a : JavaArray)
    → index < 2 ^ 32
    → length a.elements < 2 ^ 31
    → index < length a.elements
    → get_elem? a.elements index ≡ some x
    → get_array_element index a ≡ ok (value x)
unfolding get_array_element
get_array_element-in_bounds index x a hi hl lt e =
    rw ((is_out_of_bounds_iff index a hi hl).1 lt, element-some a.elements index x e)

-- Writing an element of an array of fewer than 2 ^ 31 elements: outside of the bounds nothing is written and the error is reported; inside,
-- the element is read back, every other one is as it was, and so are the class and the length.
pub set_array_element-get :
    (index v : ℕ) (a : JavaArray)
    → index < 2 ^ 32
    → length a.elements < 2 ^ 31
    → ((length a.elements ≤ index)
        × (set_array_element index v a ≡ error out_of_bounds)
        × (get_array_element index a ≡ ok (error out_of_bounds)))
      ⊎ ((b : JavaArray) × (set_array_element index v a ≡ value b)
          × (get_array_element index b ≡ ok (value v))
          × (b.klass ≡ a.klass)
          × (length b.elements ≡ length a.elements)
          × ((j : ℕ) → j ≢ index → get_elem? b.elements j ≡ get_elem? a.elements j))
unfolding set_array_element get_array_element
set_array_element-get index v a hi hl = elim (Bool-cases (is_out_of_bounds index a)) [
  | inl p ↦ inl (ground arith, rw p, rw p)
  | inr p ↦
      let lt = (is_out_of_bounds_iff index a hi hl).0 p in
      let l = length-set a.elements index v in
      inr (
        record a { elements = set a.elements index v },
        rw p,
        get_array_element-in_bounds index v (record a { elements = set a.elements index v }) hi
            (omega arith) (omega arith) (get_elem?-set_self a.elements index v lt),
        refl,
        l,
        λ j ne. get_elem?-set_ne a.elements v (λ e. ne (sym e)),
      )
]
