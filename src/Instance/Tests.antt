-- ===== src/Instance/Tests.antt =====
-- Array elements of src/vm/Instance.h in an array of three.
use geevm.Prelude.{ℕ, ◌≤◌, ◌≡◌, ◌≢◌, ◌⊎◌, [], ◌∷◌, ok, length, get_elem?, arith}
use geevm.Instance.{JavaArray, value, error, out_of_bounds, get_array_element, set_array_element}
use geevm.Instance.Arrays.{set_array_element-get}

abbrev three : JavaArray
three = record { klass = 4; elements = 40 ∷ 41 ∷ 42 ∷ [] }

set_array_element-get_example :
    ((3 ≤ 1)
      × (set_array_element 1 9 three ≡ error out_of_bounds)
      × (get_array_element 1 three ≡ ok (error out_of_bounds)))
    ⊎ ((b : JavaArray) × (set_array_element 1 9 three ≡ value b)
        × (get_array_element 1 b ≡ ok (value 9))
        × (b.klass ≡ 4)
        × (length b.elements ≡ 3)
        × ((j : ℕ) → j ≢ 1 → get_elem? b.elements j ≡ get_elem? three.elements j))
set_array_element-get_example = set_array_element-get 1 9 three (omega arith) (omega arith)
