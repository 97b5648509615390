-- ===== src/GarbageCollector.antt =====
-- src/vm/GarbageCollector.cpp and the class of src/vm/GarbageCollector.h: a copying collector on two regions.
-- Memory maps an address to the object that starts there; the null pointer is 0.
pub mod Weights
pub mod Forwards
pub mod Invariant
pub mod Copies
pub mod Places
pub mod References
pub mod Scanning
pub mod Collecting
pub mod Roots
pub mod Frames
pub mod StackForwards
pub mod CallStacks
pub mod Outcome
pub mod Completing
pub mod Collection
pub mod Allocation
mod Tests
use geevm.Prelude.{ℕ, zero, suc, ◌+◌, ◌-◌, ◌*◌, ◌/◌, Bool, true, false, Option, none, some, List}
use geevm.Prelude.{[], ◌∷◌, ◌++◌, length, set, get_elem?, ltb, ◌==◌, ◌&&◌, not, if◌then◌else◌}
use geevm.Prelude.{Result, ok, fault, ◌>>=◌, undefined}
use geevm.Frame.{element}

-- What the collector reads of a `JField`: a place in an object, or in the static values of its class.
pub record Field : Type 0 where
  pub offset : ℕ
  pub is_static : Bool
  pub is_reference_or_array : Bool

-- `JClass::Kind`, with the sizes of `allocationSize`.
pub data Kind : Type 0 where
  instance_kind : ℕ → Kind
  array_kind : ℕ → Bool → Kind

-- A loaded class: the order of the fields is that of the iteration over `mFields`.
pub record LoadedClass : Type 0 where
  pub kind : Kind
  pub fields : List Field
  pub static_values : List ℕ

-- `Instance`: the index of its class, and its values. Those of an array are its elements; those of
-- another object stand at the byte offsets of the fields.
pub record Instance : Type 0 where
  pub klass : ℕ
  pub slots : List ℕ

abbrev pub Memory : Type 0
Memory = ℕ → Option Instance

abbrev pub write : Memory → ℕ → Instance → Memory
write m a o = λ b. if b == a then some o else m b

-- Following a pointer to what is not an object is undefined.
abbrev pub object_at : Memory → ℕ → Result Instance
object_at m a = elim (m a) [ none ↦ fault undefined | some o ↦ ok o ]

abbrev pub class_at : List LoadedClass → ℕ → Result LoadedClass
class_at classes k = elim (get_elem? classes k) [ none ↦ fault undefined | some c ↦ ok c ]

-- `alignTo` of src/common/Memory.h. The alignment is a power of two, so the mask rounds down to one of
-- its multiples.
abbrev pub align_to : ℕ → ℕ → ℕ
align_to size alignment = (size + (alignment - 1)) / alignment * alignment

-- `alignof(std::max_align_t)`, and `sizeof(ArrayInstance)`
abbrev pub max_align : ℕ
max_align = 16

abbrev pub array_header_size : ℕ
array_header_size = 24

-- `allocationSize` of `InstanceClass` and of `ArrayClass`
abbrev pub allocation_size : Kind → Instance → ℕ
allocation_size (instance_kind size) o = size
allocation_size (array_kind element_size is_reference) o =
    array_header_size + length o.slots * element_size

abbrev pub object_size : List LoadedClass → Instance → Result ℕ
object_size classes o = do k ← class_at classes o.klass; ok (allocation_size k.kind o)

abbrev pub Forwarding : Type 0
Forwarding = List (ℕ × ℕ)

-- `map.find(instance)`
abbrev pub find : ℕ → Forwarding → Option ℕ
find r [] = none
find r ((o, n) ∷ m) = if o == r then some n else find r m

-- What copying changes.
pub record Copying : Type 0 where
  pub memory : Memory
  pub bump_ptr : ℕ
  pub map : Forwarding

-- `allocateUnchecked`: the address, and the new bump pointer.
abbrev pub allocate_unchecked : ℕ → ℕ → ℕ × ℕ
allocate_unchecked size bump_ptr = (bump_ptr, bump_ptr + align_to size max_align)

-- The copy of an object that has none yet.
pub copy_new : List LoadedClass → ℕ → Copying → Result (ℕ × Copying)
copy_new classes r c = do
  o ← object_at c.memory r
  size ← object_size classes o
  let (mem, bump_ptr) = allocate_unchecked size c.bump_ptr
  ok (
    mem,
    record { memory = write c.memory mem o; bump_ptr = bump_ptr; map = c.map ++ (r, mem) ∷ [] },
  )

-- `copyObject`
pub copy_object : List LoadedClass → ℕ → Copying → Result (ℕ × Copying)
copy_object classes r c =
    if r == 0
    then ok (0, c)
    else elim (find r c.map) [ some n ↦ ok (n, c) | none ↦ copy_new classes r c ]

-- Reading a reference of the object at `n`, copying what it refers to, and writing it back.
pub update_place : List LoadedClass → ℕ → ℕ → Copying → Result Copying
update_place classes n place c = do
  o ← object_at c.memory n
  v ← element o.slots place
  (copy, c) ← copy_object classes v c
  o ← object_at c.memory n
  ok (record c { memory = write c.memory n (record o { slots = set o.slots place copy }) })

-- The loop of `processReferences` over the fields of a class.
pub update_fields : List LoadedClass → ℕ → List Field → Copying → Result Copying
update_fields classes n [] c = ok c
update_fields classes n (f ∷ fs) c = do
  c ← if not f.is_static && f.is_reference_or_array then update_place classes n f.offset c else ok c
  update_fields classes n fs c

-- The loop over the elements of an array, from the index `i` on.
pub update_elements : List LoadedClass → ℕ → ℕ → ℕ → Copying → Result Copying
update_elements classes n zero i c = ok c
update_elements classes n (suc count) i c = do
  c ← update_place classes n i c
  update_elements classes n count (i + 1) c

pub update_kind : List LoadedClass → ℕ → Instance → LoadedClass → Kind → Copying → Result Copying
update_kind classes n o k (instance_kind size) c = update_fields classes n k.fields c
update_kind classes n o k (array_kind element_size is_reference) c =
    if is_reference then update_elements classes n (length o.slots) 0 c else ok c

-- `processReferences`: the size of the object as well.
pub process_references : List LoadedClass → ℕ → Copying → Result (ℕ × Copying)
process_references classes n c = do
  o ← object_at c.memory n
  k ← class_at classes o.klass
  c ← update_kind classes n o k k.kind c
  ok (allocation_size k.kind o, c)

-- The loop of `performGarbageCollection` over the copied objects. On fuel.
pub scan : ℕ → List LoadedClass → ℕ → Copying → Result Copying
scan zero classes scan_ptr c = if ltb scan_ptr c.bump_ptr then fault undefined else ok c
scan (suc fuel) classes scan_ptr c = elim (ltb scan_ptr c.bump_ptr) [
  | false ↦ ok c
  | true ↦ do
    (size, c) ← process_references classes scan_ptr c
    scan fuel classes (scan_ptr + align_to size max_align) c
]
