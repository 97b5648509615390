-- ===== src/GarbageCollector/Collecting.antt =====
-- `GarbageCollector::allocate` and `GarbageCollector::performGarbageCollection` of
-- src/vm/GarbageCollector.cpp: the state of the collector, the roots, and the two regions.
use geevm.Prelude.{ℕ, ◌+◌, ◌/◌, Bool, true, false, Option, none, some, List, [], ◌∷◌, length, set}
use geevm.Prelude.{ltb, leb, ◌&&◌, if◌then◌else◌, Result, ok, ◌>>=◌, ◌>>◌, guard, panic, assertion}
use geevm.Prelude.Words.{pattern_of}
use geevm.Frame.{CallFrame, reference, element, store_value, replace_stack_value}
use geevm.GcRoots.Compute.{Method, compute, references_in_locals, references_in_operand_stack}
use geevm.GarbageCollector.{Field, LoadedClass, Memory, Copying, copy_object, scan}
use geevm.GarbageCollector.{allocate_unchecked}

-- The fields of `GarbageCollector`; the list of roots by the references that its nodes hold.
pub record GarbageCollector : Type 0 where
  pub memory : Memory
  pub from_region : ℕ
  pub to_region : ℕ
  pub bump_ptr : ℕ
  pub is_gc_locked : Bool
  pub root_list : List ℕ
  pub heap_size : ℕ
  pub run_after_every_allocation : Bool

-- A frame of a call stack; a native method has no byte code.
pub record Activation : Type 0 where
  pub frame : CallFrame
  pub method : Option Method

-- What the collector reads and writes of the virtual machine.
pub record Vm : Type 0 where
  pub gc : GarbageCollector
  pub classes : List LoadedClass
  pub threads : List (List Activation)

unfoldable pub lock_gc : GarbageCollector → GarbageCollector
lock_gc gc = record gc { is_gc_locked = true }

unfoldable pub unlock_gc : GarbageCollector → GarbageCollector
unlock_gc gc = record gc { is_gc_locked = false }

module _ (classes : List LoadedClass) where
  -- The loop over the pinned roots.
  unfoldable pub copy_roots : List ℕ → Copying → Result (List ℕ × Copying)
  copy_roots [] c = ok ([], c)
  copy_roots (root ∷ roots) c = do
    (copy, c) ← copy_object classes root c
    (copies, c) ← copy_roots roots c
    ok (copy ∷ copies, c)

  -- `getStaticFieldValue`, `copyObject`, `setStaticFieldValue`
  unfoldable pub copy_static : ℕ → List ℕ → Copying → Result (List ℕ × Copying)
  copy_static offset values c = do
    guard (ltb offset (length values)) assertion
    v ← element values offset
    (copy, c) ← copy_object classes v c
    ok (set values offset copy, c)

  -- The loop over the fields of a class.
  unfoldable pub copy_statics : List Field → List ℕ → Copying → Result (List ℕ × Copying)
  copy_statics [] values c = ok (values, c)
  copy_statics (f ∷ fs) values c = do
    (values, c) ←
        if f.is_static && f.is_reference_or_array
        then copy_static f.offset values c
        else ok (values, c)
    copy_statics fs values c

  -- The loop over the loaded classes, of which only the static values are written.
  unfoldable pub copy_classes : List LoadedClass → Copying → Result (List LoadedClass × Copying)
  copy_classes [] c = ok ([], c)
  copy_classes (k ∷ ks) c = do
    (values, c) ← copy_statics k.fields k.static_values c
    (ks, c) ← copy_classes ks c
    ok (record k { static_values = values } ∷ ks, c)

  -- The loops over the references of a frame: an index and an object each, and a copy is stored at the
  -- index.
  unfoldable pub copy_slots :
      (ℕ → ℕ → CallFrame → Result CallFrame)
      → List (ℕ × ℕ)
      → CallFrame
      → Copying
      → Result (CallFrame × Copying)
  copy_slots store [] f c = ok (f, c)
  copy_slots store ((i, object) ∷ rest) f c = do
    (copy, c) ← copy_object classes object c
    f ← store i copy f
    copy_slots store rest f c

  -- The body of the loop over the frames of a thread.
  unfoldable pub copy_frame : Activation → Copying → Result (Activation × Copying)
  copy_frame a c = elim a.method [
    | none ↦ ok (a, c)
    | some method ↦ do
      roots ← compute method (pattern_of 32 a.frame.position)
      locals ← references_in_locals roots a.frame
      (f, c) ← copy_slots (store_value reference) locals a.frame c
      operands ← references_in_operand_stack roots f
      (f, c) ← copy_slots replace_stack_value operands f c
      ok (record a { frame = f }, c)
  ]

  unfoldable pub copy_call_stack : List Activation → Copying → Result (List Activation × Copying)
  copy_call_stack [] c = ok ([], c)
  copy_call_stack (a ∷ rest) c = do
    (a, c) ← copy_frame a c
    (rest, c) ← copy_call_stack rest c
    ok (a ∷ rest, c)

  unfoldable pub copy_threads :
      List (List Activation) → Copying → Result (List (List Activation) × Copying)
  copy_threads [] c = ok ([], c)
  copy_threads (t ∷ ts) c = do
    (t, c) ← copy_call_stack t c
    (ts, c) ← copy_threads ts c
    ok (t ∷ ts, c)

-- `memset(region, 0, size)`
abbrev pub clear_region : ℕ → ℕ → Memory → Memory
clear_region start size m = λ a. if leb start a && ltb a (start + size) then none else m a

-- `performGarbageCollection`. Objects take at least a byte, so a region of `heap_size / 2` bytes has no
-- more objects than rounds are allowed.
unfoldable pub perform_garbage_collection : Vm → Result Vm
perform_garbage_collection vm = elim vm.gc.is_gc_locked [
  | true ↦ ok vm
  | false ↦ do
    let gc = lock_gc vm.gc
    let half = gc.heap_size / 2
    let old_region = gc.from_region
    let new_region = gc.to_region
    let c : Copying = record { memory = gc.memory; bump_ptr = new_region; map = [] }
    (roots, c) ← copy_roots vm.classes gc.root_list c
    (classes, c) ← copy_classes vm.classes vm.classes c
    (threads, c) ← copy_threads vm.classes vm.threads c
    c ← scan half vm.classes new_region c
    ok (record {
      gc = unlock_gc (record gc {
        memory = clear_region old_region half c.memory;
        from_region = new_region;
        to_region = old_region;
        bump_ptr = c.bump_ptr;
        root_list = roots;
      });
      classes = classes;
      threads = threads;
    })
]

-- The end of `allocate`: the address, and the machine with the new bump pointer.
abbrev pub take_space : ℕ → Vm → ℕ × Vm
take_space size vm =
    let (current, bump_ptr) = allocate_unchecked size vm.gc.bump_ptr in
    (current, record vm { gc = record vm.gc { bump_ptr = bump_ptr } })

-- `allocate`
unfoldable pub allocate : ℕ → Vm → Result (ℕ × Vm)
allocate size vm =
    if ltb (vm.gc.from_region + vm.gc.heap_size / 2) (vm.gc.bump_ptr + size)
    then (do
      vm ← perform_garbage_collection vm
      guard (leb (vm.gc.bump_ptr + size) (vm.gc.from_region + vm.gc.heap_size / 2)) panic
      ok (take_space size vm))
    else if vm.gc.run_after_every_allocation
    then (do vm ← perform_garbage_collection vm; ok (take_space size vm))
    else ok (take_space size vm)
