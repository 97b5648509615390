-- ===== src/GarbageCollector/Collection.antt =====
-- What `performGarbageCollection` of src/vm/GarbageCollector.cpp does as a whole.
use geevm.Prelude.{◌++◌, ℕ, ◌+◌, ◌≤◌, ◌<◌, ◌≡◌, refl, sym, ◌∙◌, ◌⊎◌, false, ap, List, [], ok, arith}
use geevm.Prelude.{some_eq}
use geevm.GarbageCollector.{LoadedClass, Forwarding, Copying, scan}
use geevm.GarbageCollector.Invariant.{Slots, Has, reference_places, size_at, entry-bounds}
use geevm.GarbageCollector.Invariant.{bump-fits, size_at-Valid, bump-total}
use geevm.GarbageCollector.Collecting.{lock_gc, unlock_gc, Activation, Vm}
use geevm.GarbageCollector.Collecting.{perform_garbage_collection, clear_region}
use geevm.GarbageCollector.Roots.{Forwards, Forwards-grows, Unscanned, ClassesForwarded}
use geevm.GarbageCollector.Roots.{ClassesForwarded-grows, copy_roots-Grown, copy_classes-Grown}
use geevm.GarbageCollector.StackForwards.{ThreadsForwarded, ThreadsForwarded-grows}
use geevm.GarbageCollector.CallStacks.{copy_threads-Grown}
use geevm.GarbageCollector.Scanning.{Scanned, scan-Scanned}
use geevm.GarbageCollector.Outcome.{region_size, Collectable, IsCopy, Collected}
use geevm.GarbageCollector.Completing.{Slots-places, length-total, clear_region-out}
use geevm.GarbageCollector.Completing.{
  clear_region-in, later, Laid-injective, Laid-ends, Laid-apart,
}

module _ (vm : Vm) (objects : List ℕ) (h : Collectable vm objects) where
  start : Copying
  start = record { memory = vm.gc.memory; bump_ptr = vm.gc.to_region; map = [] }

  start-Unscanned : Unscanned vm.classes vm.gc.memory objects vm.gc.to_region (region_size vm) start
  unfolding start
  start-Unscanned = record {
    laid = refl;
    distinct = tt;
    old = λ a here. refl;
    entry = λ o n has. absurd has;
    fresh = λ a le. refl;
  }

  -- The machine that is left, from the last state of the copying.
  abbrev after : List ℕ → List LoadedClass → List (List Activation) → Copying → Vm
  after roots classes threads c = record {
    gc = record vm.gc {
      memory = clear_region vm.gc.from_region (region_size vm) c.memory;
      from_region = vm.gc.to_region;
      to_region = vm.gc.from_region;
      bump_ptr = c.bump_ptr;
      is_gc_locked = false;
      root_list = roots;
    };
    classes = classes;
    threads = threads;
  }

  -- What the scanned copies are.
  module _ (c c' : Copying)
      (sc : Scanned vm.classes vm.gc.memory objects vm.gc.to_region
        (region_size vm)
        h.from_space
        c
        c') where
    outside :
        (o n : ℕ)
        → Has c'.map o n
        → (n < vm.gc.from_region) ⊎ (vm.gc.from_region + region_size vm ≤ n)
    outside o n has =
        let (low, high) =
          entry-bounds vm.classes vm.gc.memory objects vm.gc.to_region (region_size vm) h.from_space
            sc.inv o n has in
        let (low', high') =
          bump-fits vm.classes vm.gc.memory objects vm.gc.to_region (region_size vm) h.from_space
            sc.inv in
        let apart = h.regions_apart in ground arith

    scanned-IsCopy :
        (o n : ℕ)
        → Has c'.map o n
        → IsCopy vm.classes vm.gc.memory
            (clear_region vm.gc.from_region (region_size vm) c'.memory)
            c'.map
            o
            n
    scanned-IsCopy o n has =
        let e = sc.inv.entry o n has in
        let v = h.from_space.valid o e.is_old in
        let same : e.before ≡ v.object = some_eq (sym e.was ∙ v.is_object) in
        let slots : Slots c'.map (sc.progress' n) v.object.slots e.now.slots =
          rw (ap (λ b. b.slots) same) at e.partly.slots_are in
        record {
          before = v.object;
          after = e.now;
          klass = v.klass;
          was = v.is_object;
          is_now =
              clear_region-out vm.gc.from_region (region_size vm) c'.memory n (outside o n has)
              ∙ e.is_now;
          same_class = e.partly.same_class ∙ ap (λ b. b.klass) same;
          has_class = v.has_class;
          slots_are =
              Slots-places c'.map (sc.progress' n) (reference_places v.klass v.object)
                v.object.slots e.now.slots (λ p here. (sc.complete o n has v p).0 here)
                (λ p here. (sc.complete o n has v p).1 here) slots;
        }

    -- The size of a forwarded object.
    scanned-sized : (o n : ℕ) → Has c'.map o n → 1 ≤ size_at vm.classes vm.gc.memory o
    scanned-sized o n has =
        size_at-Valid vm.classes vm.gc.memory objects vm.gc.to_region (region_size vm) o
          (h.from_space.valid o (sc.inv.entry o n has).is_old)

    scanned-injective : (o o' n : ℕ) → Has c'.map o n → Has c'.map o' n → o ≡ o'
    scanned-injective =
        Laid-injective vm.classes vm.gc.memory objects vm.gc.to_region (region_size vm)
          vm.gc.to_region c'.bump_ptr c'.map scanned-sized sc.inv.laid

  scanned :
      (c : Copying)
      → Unscanned vm.classes vm.gc.memory objects vm.gc.to_region (region_size vm) c
      → (c' : Copying) × (scan (region_size vm) vm.classes vm.gc.to_region c ≡ ok c')
        × Scanned vm.classes vm.gc.memory objects vm.gc.to_region (region_size vm) h.from_space c c'
  scanned c inv =
      let few = length-total (size_at vm.classes vm.gc.memory) objects (λ a here.
        size_at-Valid vm.classes vm.gc.memory objects vm.gc.to_region (region_size vm) a
          (h.from_space.valid a here)) in
      scan-Scanned vm.classes vm.gc.memory objects vm.gc.to_region (region_size vm) h.from_space
        (region_size vm) (λ _. []) c vm.gc.to_region [] c.map
        (record {
          inv = inv;
          map_is = refl;
          reached = refl;
          complete = λ o n has. absurd has;
          pending = λ o n has. refl;
        })
        (omega (arith, few, h.from_space.fits))

  -- With no lock held, the old region's objects fitting into the new one, every root null or an object
  -- of the old region, and the references of every frame of a method with byte code known to
  -- `compute`, a collection returns. Every root, and every reference of a copied object, is null where
  -- it was null and the address of the copy of what it referred to where it was not; each copy is else
  -- as its original, no two originals share a copy, the bytes of the copies lie in the new region, in
  -- front of the bump pointer and apart from each other, the old region is empty, and the regions have
  -- changed places.
  pub perform_garbage_collection-Collected :
      (vm' : Vm) × (m : Forwarding) × (perform_garbage_collection vm ≡ ok vm')
      × Collected vm objects m vm'
  unfolding perform_garbage_collection lock_gc unlock_gc start
  perform_garbage_collection-Collected =
      let r = region_size vm in
      let (roots, c₁, e₁, g₁, f₁) =
        copy_roots-Grown vm.classes vm.gc.memory objects vm.gc.to_region r h.from_space
          vm.gc.root_list start start-Unscanned h.roots_refer in
      let (classes, c₂, e₂, g₂, f₂) =
        copy_classes-Grown vm.classes vm.gc.memory objects vm.gc.to_region r h.from_space vm.classes
          c₁ g₁.inv h.statics_refer in
      let (threads, c₃, e₃, g₃, f₃) =
        copy_threads-Grown vm.classes vm.gc.memory objects vm.gc.to_region r h.from_space vm.threads
          c₂ g₂.inv h.threads_ready in
      let (c₄, e₄, sc) = scanned c₃ g₃.inv in
      let at_roots : Forwarding → Type 0 = λ m. Forwards m vm.gc.root_list roots in
      let grow_roots : (m more : Forwarding) → at_roots m → at_roots (m ++ more) =
        λ m more. Forwards-grows m more vm.gc.root_list roots in
      let at_statics : Forwarding → Type 0 = λ m. ClassesForwarded m vm.classes classes in
      let grow_statics : (m more : Forwarding) → at_statics m → at_statics (m ++ more) =
        λ m more. ClassesForwarded-grows m more vm.classes classes in
      (
        after roots classes threads c₄,
        c₄.map,
        rw (perform_garbage_collection, h.unlocked, e₁, e₂, e₃, e₄) refl,
        record {
          roots_forwarded = later at_roots grow_roots sc.extra sc.map_is (
              later at_roots grow_roots g₃.extra g₃.map_is
                (later at_roots grow_roots g₂.extra g₂.map_is f₁));
          statics_forwarded =
              later at_statics grow_statics sc.extra sc.map_is
                (later at_statics grow_statics g₃.extra g₃.map_is f₂);
          threads_forwarded =
              later (λ m. ThreadsForwarded m vm.threads threads)
                (λ m more. ThreadsForwarded-grows m more vm.threads threads) sc.extra sc.map_is f₃;
          copies = scanned-IsCopy c₃ c₄ sc;
          injective = scanned-injective c₃ c₄ sc;
          ends = Laid-ends vm.classes vm.gc.memory vm.gc.to_region c₄.bump_ptr c₄.map sc.inv.laid;
          apart =
              Laid-apart vm.classes vm.gc.memory objects vm.gc.to_region r vm.gc.to_region
                c₄.bump_ptr c₄.map (scanned-sized c₃ c₄ sc) sc.inv.laid;
          in_region =
              entry-bounds vm.classes vm.gc.memory objects vm.gc.to_region r h.from_space sc.inv;
          starts =
              (bump-fits vm.classes vm.gc.memory objects vm.gc.to_region r h.from_space sc.inv).0;
          fits =
              (bump-fits vm.classes vm.gc.memory objects vm.gc.to_region r h.from_space sc.inv).1;
          no_larger =
              bump-total vm.classes vm.gc.memory objects vm.gc.to_region r h.from_space sc.inv;
          same_size = refl;
          cleared = clear_region-in vm.gc.from_region r c₄.memory;
          swapped = (refl, refl);
          unlocked = refl;
        },
      )
