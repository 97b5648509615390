-- ===== src/Instance.antt =====
-- src/vm/Instance.h: the objects of the Java heap, and the elements of arrays. `JvmExpected` and
-- `VmError` are those of src/common/JvmError.h.
mod Tests
pub mod Arrays
use geevm.Prelude.{ℕ, ◌+◌, ◌%◌, ◌^◌, ◌≡◌, Bool, true, false, Option, none, some, List, ◌==◌, ltb}
use geevm.Prelude.{if◌then◌else◌, length, set, get_elem?, ◌||◌, not, Result, ok, fault, ◌>>=◌}
use geevm.Prelude.{undefined}
use geevm.Prelude.Int.{ℤ, pos, negsuc, ltb_ℤ}
use geevm.Prelude.Text.{JString, codes}
use geevm.Prelude.Words.{signed}
use geevm.Frame.{element}

pub record VmError : Type 0 where
  pub exception : JString
  pub message : JString

pub data JvmExpected (A : Type 0) : Type 0 where
  value : A → JvmExpected A
  error : VmError → JvmExpected A

-- `JavaArray<T>`: its class, and its elements as bit patterns of the element type.
pub record JavaArray : Type 0 where
  pub klass : ℕ
  pub elements : List ℕ

pub data Object : Type 0 where
  array : JavaArray → Object
  instance_of : ℕ → Object

-- Objects by reference. References are numbers; no object has the reference 0.
abbrev pub Heap : Type 0
Heap = ℕ → Option Object

abbrev pub update : Heap → ℕ → Object → Heap
update h r o = λ q. if q == r then some o else h q

-- Following a reference; what is not a reference to an object is undefined.
abbrev pub object_at : Heap → ℕ → Result Object
object_at h r = elim (h r) [ none ↦ fault undefined | some o ↦ ok o ]

-- `Instance::getClass`
abbrev pub class_of : Object → ℕ
class_of (array a) = a.klass
class_of (instance_of k) = k

-- `Instance::toArray<T>` is a cast with no check: on another object, undefined.
abbrev pub to_array : Object → Result JavaArray
to_array (array a) = ok a
to_array (instance_of k) = fault undefined

-- `index < 0 || index >= length()`
abbrev pub is_out_of_bounds : ℕ → JavaArray → Bool
is_out_of_bounds index a =
    ltb_ℤ (signed 32 index) (pos 0) || not (ltb_ℤ (signed 32 index) (pos (length a.elements)))

abbrev pub out_of_bounds : VmError
out_of_bounds = record {
  exception = codes "java/lang/ArrayIndexOutOfBoundsException";
  message = codes "";
}

-- `getArrayElement`
pub get_array_element : ℕ → JavaArray → Result (JvmExpected ℕ)
get_array_element index a =
    if is_out_of_bounds index a
    then ok (error out_of_bounds)
    else do x ← element a.elements index; ok (value x)

-- `setArrayElement`: the array with the element, or the error.
pub set_array_element : ℕ → ℕ → JavaArray → JvmExpected JavaArray
set_array_element index v a =
    if is_out_of_bounds index a
    then error out_of_bounds
    else value (record a { elements = set a.elements index v })
