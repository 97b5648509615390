-- ===== src/GarbageCollector/Allocation.antt =====
-- What `GarbageCollector::allocate` of src/vm/GarbageCollector.cpp returns.
use geevm.Prelude.{
  ℕ, ◌+◌, ◌≤◌, ◌<◌, ◌≡◌, ◌⊎◌, inl, inr, refl, true, false, ltb, leb, arith, ok, tests, ◌/◌,
}
use geevm.Prelude.{ap, guard, ltb→lt, ◌>>◌, Bool, fault, panic, Result, List, if◌then◌else◌}
use geevm.GarbageCollector.{align_to, max_align, Forwarding}
use geevm.GarbageCollector.Weights.{In, total}
use geevm.GarbageCollector.Invariant.{size_at, Has}
use geevm.GarbageCollector.Collecting.{Vm, allocate}
use geevm.GarbageCollector.Outcome.{Collectable, Collected, region_size}
use geevm.GarbageCollector.Collection.{perform_garbage_collection-Collected}

-- The objects of the old region lie in front of the bump pointer, and take no more than is there.
pub record Occupied (vm : Vm) (objects : List ℕ) : Type 0 where
  pub in_front :
      (a : ℕ)
      → In a objects
      → (vm.gc.from_region ≤ a) × (a + size_at vm.classes vm.gc.memory a ≤ vm.gc.bump_ptr)
  pub together :
      vm.gc.from_region + total (size_at vm.classes vm.gc.memory) objects ≤ vm.gc.bump_ptr

-- The space at `p` is the next one of the region from which `vm` allocates, and lies within it; `vm'` is
-- `vm` with the bump pointer moved behind the space.
pub record Space (size : ℕ) (vm : Vm) (p : ℕ) (vm' : Vm) : Type 0 where
  pub at_bump : p ≡ vm.gc.bump_ptr
  pub starts : vm.gc.from_region ≤ p
  pub ends : p + size ≤ vm.gc.from_region + region_size vm
  pub advanced : vm' ≡ record vm { gc = record vm.gc { bump_ptr = p + align_to size max_align } }

-- The space does not fit behind the bump pointer.
abbrev pub IsFull : ℕ → Vm → Type 0
IsFull size vm = vm.gc.from_region + region_size vm < vm.gc.bump_ptr + size

-- What becomes of a request: space behind the objects; or a collection, and space behind the copies; or a
-- collection that leaves too little.
pub data Allocation (size : ℕ) (vm : Vm) (objects : List ℕ) : Result (ℕ × Vm) → Type 0 where
  without_collection :
      {p : ℕ} {vm' : Vm}
      → vm.gc.run_after_every_allocation ≡ false
      → Space size vm p vm'
      → ((a : ℕ) → In a objects → a + size_at vm.classes vm.gc.memory a ≤ p)
      → Allocation size vm objects (ok (p, vm'))
  after_collection :
      {p : ℕ} {vm' : Vm} (collected : Vm) (m : Forwarding)
      → IsFull size vm ⊎ (vm.gc.run_after_every_allocation ≡ true)
      → Collected vm objects m collected
      → Space size collected p vm'
      → ((o n : ℕ) → Has m o n → n + size_at vm.classes vm.gc.memory o ≤ p)
      → Allocation size vm objects (ok (p, vm'))
  exhausted :
      (collected : Vm) (m : Forwarding)
      → IsFull size vm
      → Collected vm objects m collected
      → IsFull size collected
      → Allocation size vm objects (fault panic)

module _ {size : ℕ} {vm : Vm} {objects : List ℕ} where
  if_Allocation :
      (test : Bool) {r r' : Result (ℕ × Vm)}
      → (test ≡ true → Allocation size vm objects r)
      → (test ≡ false → Allocation size vm objects r')
      → Allocation size vm objects (if test then r else r')
  if_Allocation true yes' no' = yes' refl
  if_Allocation false yes' no' = no' refl

  -- The check behind a collection.
  guard-Allocation :
      (test : Bool) {r : Result (ℕ × Vm)}
      → (test ≡ true → Allocation size vm objects r)
      → (test ≡ false → Allocation size vm objects (fault panic))
      → Allocation size vm objects (guard test panic >> r)
  guard-Allocation true yes' no' = yes' refl
  guard-Allocation false yes' no' = no' refl

-- Where the collection is possible and the objects lie in the region, in front of the bump pointer,
-- `allocate` ends in one of three ways. If the size fits and no collection is demanded, it returns the
-- space at the bump pointer, behind every object. If it does not fit or a collection is demanded, it
-- collects and returns the space at the bump pointer then, behind every copy. In both cases the space lies
-- within the region that is allocated from, and only the bump pointer is moved, behind the space, aligned.
-- If the size fits neither before nor after the collection, it panics.
pub allocate-Allocation :
    (size : ℕ) (vm : Vm) (objects : List ℕ)
    → Collectable vm objects
    → Occupied vm objects
    → Allocation size vm objects (allocate size vm)
unfolding allocate
allocate-Allocation size vm objects h occupied =
    let (vm', m, e, c) = perform_garbage_collection-Collected vm objects h in
    let same : region_size vm' ≡ region_size vm = ap (λ n. n / 2) c.same_size in
    let at : vm'.gc.from_region ≡ vm.gc.to_region = c.swapped.0 in
    let smaller = c.no_larger in
    let together = occupied.together in
    let starts : vm'.gc.from_region ≤ vm'.gc.bump_ptr = rw at c.starts in
    rw (allocate, e)
      (if_Allocation (ltb (vm.gc.from_region + region_size vm) (vm.gc.bump_ptr + size))
        (λ full.
          let is_full : IsFull size vm = ltb→lt _ _ full in
          guard-Allocation (leb (vm'.gc.bump_ptr + size) (vm'.gc.from_region + region_size vm'))
            (λ room.
              after_collection vm' m (inl is_full) c
                (record {
                  at_bump = refl;
                  starts = starts;
                  ends = omega (tests, room);
                  advanced = refl;
                })
                c.ends)
            (λ none_left. exhausted vm' m is_full c (ground arith)))
        (λ fits.
          let room : vm.gc.bump_ptr + size ≤ vm.gc.from_region + region_size vm = ground arith in
          if_Allocation vm.gc.run_after_every_allocation
            (λ always.
              after_collection vm' m (inr always) c
                (record { at_bump = refl; starts = starts; ends = omega arith; advanced = refl })
                c.ends)
            (λ never.
              without_collection never
                (record { at_bump = refl; starts = omega arith; ends = room; advanced = refl })
                (λ a here. (occupied.in_front a here).1))))
