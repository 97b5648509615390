-- ===== src/GarbageCollector/Tests.antt =====
-- A small heap of src/vm/GarbageCollector.cpp: two objects that refer to each other and an array, roots of
-- every kind, and a collection that an allocation starts.
use mathlib.Core.Path.{subst}
use geevm.Prelude.{if◌then◌else◌, ◌+◌, ◌<◌, ◌≤◌, ℕ, ◌≡◌, ◌≢◌, refl, sym, inl, inr, ◌⊎◌, true, false}
use geevm.Prelude.{some, none, List, [], ◌∷◌, ◌++◌, replicate, ok, arith, get_elem?, ◌==◌, fault}
use geevm.Prelude.{undefined}
use geevm.Prelude.Int.{pos}
use geevm.Prelude.Words.{pattern_of}
use geevm.Frame.{CallFrame}
use geevm.GcRoots.{Constants, is_reference, mark_types, new_interpreter, push, push_flag, next_u1}
use geevm.GcRoots.Execute.{execute_opcode}
use geevm.Opcode.Decoding.{opcode_of}
use geevm.GcRoots.Width.{bytes_consumed_by_opcode}
use geevm.StackMap.{parse_stack_map, frame_at}
use geevm.GcRoots.Compute.{Method, compute, find_opcode, execute_from, execute}
use geevm.ByteStream.{skip, read_u1}
use geevm.GarbageCollector.{LoadedClass, instance_kind, array_kind, Instance, Memory, Forwarding}
use geevm.GarbageCollector.Weights.{In}
use geevm.GarbageCollector.Invariant.{Valid, FromSpace}
use geevm.GarbageCollector.Collecting.{Vm, allocate, perform_garbage_collection}
use geevm.GarbageCollector.CallStacks.{FrameReady}
use geevm.GarbageCollector.Outcome.{Collectable, Collected}
use geevm.GarbageCollector.Collection.{perform_garbage_collection-Collected}
use geevm.GarbageCollector.Allocation.{Occupied}
use geevm.GarbageCollector.Invariant.{size_at}
use geevm.GarbageCollector.Allocation.{Allocation, allocate-Allocation}

-- A class with a static and another reference, and arrays of references.
abbrev classes : List LoadedClass
classes =
    record {
      kind = instance_kind 24;
      fields =
          record { offset = 0; is_static = true; is_reference_or_array = true }
          ∷ record { offset = 8; is_static = false; is_reference_or_array = true }
          ∷ record { offset = 16; is_static = false; is_reference_or_array = false }
          ∷ [];
      static_values = 80 ∷ [];
    }
    ∷ record { kind = array_kind 8 true; fields = []; static_values = [] }
    ∷ []

abbrev node : ℕ → ℕ → Instance
node next value = record { klass = 0; slots = replicate 8 0 ++ next ∷ replicate 7 0 ++ value ∷ [] }

abbrev array : List ℕ → Instance
array elements = record { klass = 1; slots = elements }

abbrev memory : Memory
memory a =
    if a == 16
    then some (node 48 1)
    else if a == 48
    then some (node 16 2)
    else if a == 80
    then some (array (48 ∷ 0 ∷ []))
    else none

abbrev objects : List ℕ
objects = 16 ∷ 48 ∷ 80 ∷ []

abbrev constants : Constants
constants = record {
  tag_at = λ i. fault undefined;
  field_ref = λ i. fault undefined;
  method_ref = λ i. fault undefined;
}

-- `aload_0; areturn`, with a reference in its only local variable.
abbrev method : Method
method = record {
  max_locals = 1;
  max_stack = 1;
  code = 42 ∷ 176 ∷ [];
  first_frame = record { start_pos = 0; local_variables = 7 ∷ []; operand_stack = [] };
  stack_map_table = none;
  constants = constants;
}

abbrev frame : CallFrame
frame = record {
  local_variables = 48 ∷ [];
  operand_stack = 48 ∷ [];
  stack_pointer = 1;
  position = pos 2;
  code = 42 ∷ 176 ∷ [];
}

abbrev vm : Vm
vm = record {
  gc = record {
    memory = memory;
    from_region = 16;
    to_region = 144;
    bump_ptr = 128;
    is_gc_locked = false;
    root_list = 16 ∷ 0 ∷ [];
    heap_size = 256;
    run_after_every_allocation = false;
  };
  classes = classes;
  threads = (record { frame = frame; method = some method } ∷ []) ∷ [];
}

node-Valid :
    (a next value : ℕ)
    → a ≢ 0
    → (a < 144) ⊎ (144 + 128 ≤ a)
    → memory a ≡ some (node next value)
    → (next ≡ 0) ⊎ In next objects
    → Valid classes memory objects 144 128 a
node-Valid a next value ne apart is refers = record {
  not_null = ne;
  apart = apart;
  object = node next value;
  klass = _;
  is_object = is;
  has_class = refl;
  sized = omega arith;
  places_distinct = (tt, tt);
  places_refer = places;
}
  where
    places :
        (p : ℕ)
        → In p (8 ∷ [])
        → (v : ℕ) × (get_elem? (node next value).slots p ≡ some v) × ((v ≡ 0) ⊎ In v objects)
    places p (inl e) = (next, rw e refl, refers)
    places p (inr h) = absurd h

array-Valid : Valid classes memory objects 144 128 80
array-Valid = record {
  not_null = λ e. omega arith;
  apart = inl (omega arith);
  object = array (48 ∷ 0 ∷ []);
  klass = _;
  is_object = refl;
  has_class = refl;
  sized = omega arith;
  places_distinct = (((λ e. omega arith), tt), (tt, tt));
  places_refer = places;
}
  where
    places :
        (p : ℕ)
        → In p (0 ∷ 1 ∷ [])
        → (v : ℕ) × (get_elem? (48 ∷ 0 ∷ []) p ≡ some v) × ((v ≡ 0) ⊎ In v objects)
    places p (inl e) = (48, rw e refl, inr (inr (inl refl)))
    places p (inr (inl e)) = (0, rw e refl, inl refl)
    places p (inr (inr h)) = absurd h

objects-FromSpace : FromSpace classes memory objects 144 128
objects-FromSpace = record { valid = valid; fits = omega arith; based = omega arith }
  where
    At : ℕ → Type 0
    At a = Valid classes memory objects 144 128 a

    valid : (a : ℕ) → In a objects → At a
    valid a (inl e) =
        subst At (sym e)
          (node-Valid 16 48 1 (λ e. omega arith) (inl (omega arith)) refl (inr (inr (inl refl))))
    valid a (inr (inl e)) =
        subst At (sym e)
          (node-Valid 48 16 2 (λ e. omega arith) (inl (omega arith)) refl (inr (inl refl)))
    valid a (inr (inr (inl e))) = subst At (sym e) array-Valid
    valid a (inr (inr (inr h))) = absurd h

-- Behind `aload_0` the operand is a reference, as the local variable is.
frame-flags :
    compute method (pattern_of 32 frame.position)
    ≡ ok (record { local_variable_references = true ∷ []; operand_stack_references = true ∷ [] })
unfolding compute find_opcode parse_stack_map frame_at new_interpreter mark_types is_reference
    execute execute_from next_u1 execute_opcode push push_flag skip read_u1 opcode_of
    bytes_consumed_by_opcode
frame-flags = refl

frame-FrameReady : FrameReady classes memory objects 144 128 method frame
frame-FrameReady = record {
  roots = record { local_variable_references = true ∷ []; operand_stack_references = true ∷ [] };
  computed = frame-flags;
  locals_flagged = omega arith;
  operands_flagged = omega arith;
  operands_bounded = omega arith;
  locals_refer = refers;
  operands_refer = refers;
}
  where
    refers : (p v : ℕ) → In p (0 ∷ []) → get_elem? (48 ∷ []) p ≡ some v → (v ≡ 0) ⊎ In v objects
    refers p v (inl e) is = let is' : some 48 ≡ some v = rw e at is in inr (inr (inl (cc)))
    refers p v (inr h) is = absurd h

vm-Collectable : Collectable vm objects
vm-Collectable = record {
  unlocked = refl;
  from_space = objects-FromSpace;
  regions_apart = inl (omega arith);
  roots_refer = (inr (inl refl), (inl refl, tt));
  statics_refer = (
    record { places_distinct = (tt, tt); places_refer = statics },
    (record { places_distinct = tt; places_refer = λ p here. absurd here }, tt),
  );
  threads_ready = ((frame-FrameReady, tt), tt);
}
  where
    statics :
        (p : ℕ)
        → In p (0 ∷ [])
        → (v : ℕ) × (get_elem? (80 ∷ []) p ≡ some v) × ((v ≡ 0) ⊎ In v objects)
    statics p (inl e) = (80, rw e refl, inr (inr (inr (inl refl))))
    statics p (inr h) = absurd h

perform_garbage_collection-Collected_example :
    (vm' : Vm) × (m : Forwarding) × (perform_garbage_collection vm ≡ ok vm')
    × Collected vm objects m vm'
perform_garbage_collection-Collected_example =
    perform_garbage_collection-Collected vm objects vm-Collectable

vm-Occupied : Occupied vm objects
vm-Occupied = record { in_front = in_front; together = omega arith }
  where
    Fits : ℕ → Type 0
    Fits a = (16 ≤ a) × (a + size_at classes memory a ≤ 128)

    in_front : (a : ℕ) → In a objects → Fits a
    in_front a (inl e) = subst Fits (sym e) (omega arith, omega arith)
    in_front a (inr (inl e)) = subst Fits (sym e) (omega arith, omega arith)
    in_front a (inr (inr (inl e))) = subst Fits (sym e) (omega arith, omega arith)
    in_front a (inr (inr (inr h))) = absurd h

allocate-Allocation_example : Allocation 32 vm objects (allocate 32 vm)
allocate-Allocation_example = allocate-Allocation 32 vm objects vm-Collectable vm-Occupied
