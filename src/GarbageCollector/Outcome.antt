-- ===== src/GarbageCollector/Outcome.antt =====
-- What `performGarbageCollection` of src/vm/GarbageCollector.cpp needs, and what it promises.
use geevm.Prelude.{ℕ, ◌+◌, ◌/◌, ◌≤◌, ◌<◌, ◌≡◌, ◌≢◌, ◌⊎◌, false, some, none, List, ok}
use geevm.GarbageCollector.{class_at, LoadedClass, Instance, Memory, Forwarding}
use geevm.GarbageCollector.Weights.{total}
use geevm.GarbageCollector.Invariant.{Slots, Has, FromSpace, reference_places, size_at}
use geevm.GarbageCollector.Collecting.{Vm}
use geevm.GarbageCollector.Roots.{Forwards, AllRefer, ClassesForwarded, AllStaticsRefer}
use geevm.GarbageCollector.CallStacks.{ThreadsReady}
use geevm.GarbageCollector.StackForwards.{ThreadsForwarded}

abbrev pub region_size : Vm → ℕ
region_size vm = vm.gc.heap_size / 2

-- `objects` are those of the old region, and every root is null or refers to one of them.
pub record Collectable (vm : Vm) (objects : List ℕ) : Type 0 where
  pub unlocked : vm.gc.is_gc_locked ≡ false
  pub from_space : FromSpace vm.classes vm.gc.memory objects vm.gc.to_region (region_size vm)
  pub regions_apart :
      (vm.gc.from_region + region_size vm ≤ vm.gc.to_region)
      ⊎ (vm.gc.to_region + region_size vm ≤ vm.gc.from_region)
  pub roots_refer :
      AllRefer vm.classes vm.gc.memory objects vm.gc.to_region (region_size vm) vm.gc.root_list
  pub statics_refer :
      AllStaticsRefer vm.classes vm.gc.memory objects vm.gc.to_region (region_size vm) vm.classes
  pub threads_ready :
      ThreadsReady vm.classes vm.gc.memory objects vm.gc.to_region (region_size vm) vm.threads

-- The object at `n` is a copy of the one at `o`: of the same class, with its references forwarded by
-- `m` and its other values as they were.
pub record IsCopy (classes : List LoadedClass) (old new : Memory) (m : Forwarding) (o n : ℕ)
    : Type 0 where
  pub before : Instance
  pub after : Instance
  pub klass : LoadedClass
  pub was : old o ≡ some before
  pub is_now : new n ≡ some after
  pub same_class : after.klass ≡ before.klass
  pub has_class : class_at classes before.klass ≡ ok klass
  pub slots_are : Slots m (reference_places klass before) before.slots after.slots

-- The machine after a collection that forwarded objects by `m`.
pub record Collected (vm : Vm) (objects : List ℕ) (m : Forwarding) (vm' : Vm) : Type 0 where
  pub roots_forwarded : Forwards m vm.gc.root_list vm'.gc.root_list
  pub statics_forwarded : ClassesForwarded m vm.classes vm'.classes
  pub threads_forwarded : ThreadsForwarded m vm.threads vm'.threads
  pub copies : (o n : ℕ) → Has m o n → IsCopy vm.classes vm.gc.memory vm'.gc.memory m o n
  pub injective : (o o' n : ℕ) → Has m o n → Has m o' n → o ≡ o'
  pub in_region : (o n : ℕ) → Has m o n → (vm.gc.to_region ≤ n) × (n < vm'.gc.bump_ptr)
  pub ends : (o n : ℕ) → Has m o n → n + size_at vm.classes vm.gc.memory o ≤ vm'.gc.bump_ptr
  pub apart :
      (o o' n n' : ℕ)
      → Has m o n
      → Has m o' n'
      → o ≢ o'
      → (n + size_at vm.classes vm.gc.memory o ≤ n') ⊎ (n' + size_at vm.classes vm.gc.memory o' ≤ n)
  pub starts : vm.gc.to_region ≤ vm'.gc.bump_ptr
  pub fits : vm'.gc.bump_ptr ≤ vm.gc.to_region + region_size vm
  pub no_larger :
      vm'.gc.bump_ptr ≤ vm.gc.to_region + total (size_at vm.classes vm.gc.memory) objects
  pub same_size : vm'.gc.heap_size ≡ vm.gc.heap_size
  pub cleared :
      (a : ℕ)
      → vm.gc.from_region ≤ a
      → a < vm.gc.from_region + region_size vm
      → vm'.gc.memory a ≡ none
  pub swapped : (vm'.gc.from_region ≡ vm.gc.to_region) × (vm'.gc.to_region ≡ vm.gc.from_region)
  pub unlocked : vm'.gc.is_gc_locked ≡ false
