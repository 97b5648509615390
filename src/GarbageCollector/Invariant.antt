-- ===== src/GarbageCollector/Invariant.antt =====
-- What holds while src/vm/GarbageCollector.cpp copies objects: the copies lie one behind another in the new
-- region, each object is copied once, and the old region is not written.
use geevm.Prelude.{ℕ, ◌+◌, ◌≤◌, ◌<◌, ◌≡◌, ◌≢◌, refl, ◌⊎◌, inl, inr, suc, zero, none, some, List, []}
use geevm.Prelude.{◌∷◌, length, get_elem?, not, ◌&&◌, arith, if◌then◌else◌, ok, fault}
use geevm.GarbageCollector.{LoadedClass, Field, Kind, instance_kind, array_kind, Instance, Memory}
use geevm.GarbageCollector.{class_at, align_to, max_align, allocation_size, Forwarding, Copying}
use geevm.GarbageCollector.Weights.{In, NotIn, Distinct, total, total_le}
use geevm.GarbageCollector.Forwards.{forward, originals}

-- The places of an object that hold references: those of the fields, or all elements of an array.
abbrev pub field_places : List Field → List ℕ
field_places [] = []
field_places (f ∷ fs) =
    if not f.is_static && f.is_reference_or_array
    then f.offset ∷ field_places fs
    else field_places fs

abbrev pub indices : ℕ → ℕ → List ℕ
indices zero i = []
indices (suc n) i = i ∷ indices n (i + 1)

abbrev pub places_of_kind : Kind → List Field → Instance → List ℕ
places_of_kind (instance_kind size) fields o = field_places fields
places_of_kind (array_kind size is_reference) fields o =
    if is_reference then indices (length o.slots) 0 else []

abbrev pub reference_places : LoadedClass → Instance → List ℕ
reference_places k o = places_of_kind k.kind k.fields o

-- `ys` are the values `xs` with the references at the places `done` forwarded.
pub record Slots (m : Forwarding) (done xs ys : List ℕ) : Type 0 where
  pub same_length : length ys ≡ length xs
  pub updated :
      (p v : ℕ)
      → In p done
      → get_elem? xs p ≡ some v
      → (v' : ℕ) × (get_elem? ys p ≡ some v') × (forward m v ≡ some v')
  pub kept : (p : ℕ) → NotIn p done → get_elem? ys p ≡ get_elem? xs p

-- `now` is a copy of `o` with the references at the places `done` forwarded.
pub record Partly (m : Forwarding) (done : List ℕ) (o now : Instance) : Type 0 where
  pub same_class : now.klass ≡ o.klass
  pub slots_are : Slots m done o.slots now.slots

abbrev pub Has : Forwarding → ℕ → ℕ → Type 0
Has [] o n = ⊥
Has ((p, q) ∷ m) o n = ((o ≡ p) × (n ≡ q)) ⊎ Has m o n

module _ (classes : List LoadedClass) (memory₀ : Memory) where
  -- The bytes that the object at an address takes.
  abbrev pub size_at : ℕ → ℕ
  size_at a = elim (memory₀ a) [
    | none ↦ 0
    | some o ↦ elim (class_at classes o.klass) [
      | fault why ↦ 0
      | ok k ↦ align_to (allocation_size k.kind o) max_align
    ]
  ]

  -- The entries of the map lie one behind another from `p` to `e`.
  abbrev pub Laid : ℕ → Forwarding → ℕ → Type 0
  Laid p [] e = p ≡ e
  Laid p ((o, n) ∷ m) e = (n ≡ p) × Laid (p + size_at o) m e

  module _ (objects : List ℕ) (base half : ℕ) where
    -- An object of the old region: its class is known, and its references are null or to objects.
    pub record Valid (a : ℕ) : Type 0 where
      pub not_null : a ≢ 0
      pub apart : (a < base) ⊎ (base + half ≤ a)
      pub object : Instance
      pub klass : LoadedClass
      pub is_object : memory₀ a ≡ some object
      pub has_class : class_at classes object.klass ≡ ok klass
      pub sized : 1 ≤ allocation_size klass.kind object
      pub places_distinct : Distinct (reference_places klass object)
      pub places_refer :
          (p : ℕ)
          → In p (reference_places klass object)
          → (v : ℕ) × (get_elem? object.slots p ≡ some v) × ((v ≡ 0) ⊎ In v objects)

    -- The old region, whose objects fit into the new one.
    pub record FromSpace : Type 0 where
      pub valid : (a : ℕ) → In a objects → Valid a
      pub fits : total size_at objects ≤ half
      pub based : 1 ≤ base

    pub record Entry (progress : ℕ → List ℕ) (c : Copying) (o n : ℕ) : Type 0 where
      pub is_old : In o objects
      pub before : Instance
      pub now : Instance
      pub was : memory₀ o ≡ some before
      pub is_now : c.memory n ≡ some now
      pub partly : Partly c.map (progress n) before now

    -- `progress` says of each copy which of its places have been forwarded.
    pub record Inv (progress : ℕ → List ℕ) (c : Copying) : Type 0 where
      pub laid : Laid base c.map c.bump_ptr
      pub distinct : Distinct (originals c.map)
      pub old : (a : ℕ) → In a objects → c.memory a ≡ memory₀ a
      pub entry : (o n : ℕ) → Has c.map o n → Entry progress c o n
      pub fresh : (a : ℕ) → c.bump_ptr ≤ a → progress a ≡ []

    pub size_at-Valid : (a : ℕ) → Valid a → 1 ≤ size_at a
    size_at-Valid a v = rw (size_at, v.is_object, v.has_class) (omega (arith, v.sized))

    Has-In : (m : Forwarding) (a : ℕ) → In a (originals m) → (n : ℕ) × Has m a n
    Has-In [] a h = elim h [ ]
    Has-In ((p, q) ∷ m) a (inl e) = (q, inl (e, refl))
    Has-In ((p, q) ∷ m) a (inr h) = let (n, h') = Has-In m a h in (n, inr h')

    Laid-total : (p e : ℕ) (m : Forwarding) → Laid p m e → e ≡ p + total size_at (originals m)
    Laid-total p e [] h = omega arith
    Laid-total p e ((o, n) ∷ m) (q, h) = omega (arith, Laid-total (p + size_at o) e m h)

    pub Laid-bounds :
        (p e : ℕ) (m : Forwarding)
        → ((o n : ℕ) → Has m o n → 1 ≤ size_at o)
        → Laid p m e
        → (o n : ℕ) → Has m o n
        → (p ≤ n) × (n < e)
    Laid-bounds p e [] sized h o n has = elim has [ ]
    Laid-bounds p e ((o', n') ∷ m) sized (q, h) o n (inl (eo, en)) =
        let s : 1 ≤ size_at o' = sized o' n' (inl (refl, refl)) in
        omega (arith, Laid-total (p + size_at o') e m h)
    Laid-bounds p e ((o', n') ∷ m) sized (q, h) o n (inr has) =
        omega (arith, Laid-bounds (p + size_at o') e m (λ o n h. sized o n (inr h)) h o n has)

    module _ (from : FromSpace) {progress : ℕ → List ℕ} {c : Copying} (inv : Inv progress c) where
      -- A copy lies between the start of the region and the bump pointer.
      pub entry-bounds : (o n : ℕ) → Has c.map o n → (base ≤ n) × (n < c.bump_ptr)
      entry-bounds =
          Laid-bounds base c.bump_ptr c.map
            (λ o n h. size_at-Valid o (from.valid o (inv.entry o n h).is_old)) inv.laid

      pub originals-old : (a : ℕ) → In a (originals c.map) → In a objects
      originals-old a h = let (n, has) = Has-In c.map a h in (inv.entry a n has).is_old

      -- The copies fit into the region, and so does one more.
      pub copies-fit :
          (r : ℕ)
          → In r objects
          → NotIn r (originals c.map)
          → (base ≤ c.bump_ptr) × (c.bump_ptr + size_at r ≤ base + half)
      copies-fit r here out =
          let t = total_le size_at (r ∷ originals c.map) objects (out, inv.distinct) sub in
          omega (arith, t, from.fits, Laid-total base c.bump_ptr c.map inv.laid)
        where
          sub : (a : ℕ) → In a (r ∷ originals c.map) → In a objects
          sub a (inl e) = rw e here
          sub a (inr h) = originals-old a h

      -- The copies take no more space than the objects.
      pub bump-total : c.bump_ptr ≤ base + total size_at objects
      bump-total =
          let t = total_le size_at (originals c.map) objects inv.distinct originals-old in
          omega (arith, t, Laid-total base c.bump_ptr c.map inv.laid)

      -- The bump pointer is within the region.
      pub bump-fits : (base ≤ c.bump_ptr) × (c.bump_ptr ≤ base + half)
      bump-fits =
          let t = total_le size_at (originals c.map) objects inv.distinct originals-old in
          omega (arith, t, from.fits, Laid-total base c.bump_ptr c.map inv.laid)

      -- An object of the old region is not a copy.
      pub old-ne_copy : (a o n : ℕ) → In a objects → Has c.map o n → a ≢ n
      old-ne_copy a o n h has =
          let (low, high) = entry-bounds o n has in
          let (low', high') = bump-fits in let side = (from.valid a h).apart in ground arith
