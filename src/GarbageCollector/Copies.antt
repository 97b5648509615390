-- ===== src/GarbageCollector/Copies.antt =====
-- What `copyObject` of src/vm/GarbageCollector.cpp does where the invariant of the collection holds.
use geevm.Prelude.{ℕ, ◌+◌, ◌≤◌, ◌<◌, ◌≡◌, ◌≢◌, refl, sym, ◌∙◌, ◌⊎◌, inl, inr, none, some, List, []}
use geevm.Prelude.{◌∷◌, ◌++◌, append-nil, ◌==◌, ==_iff, Bool-cases, Option-cases, ok, arith}
use geevm.GarbageCollector.{LoadedClass, Instance, Memory, write, Forwarding, Copying, find}
use geevm.GarbageCollector.{copy_new, copy_object, object_at}
use geevm.GarbageCollector.Weights.{In, Distinct-snoc}
use geevm.GarbageCollector.Forwards.{forward, originals, originals_snoc, forward-some, find-last}
use geevm.GarbageCollector.Forwards.{find-none}
use geevm.GarbageCollector.Invariant.{Slots, Has, size_at, Laid, Valid, FromSpace, Entry, Inv}
use geevm.GarbageCollector.Invariant.{entry-bounds, copies-fit, size_at-Valid}

pub write_self : (m : Memory) (a : ℕ) (o : Instance) → write m a o a ≡ some o
write_self m a o = ground arith

pub write-ne : (m : Memory) (a b : ℕ) (o : Instance) → b ≢ a → write m a o b ≡ m b
write-ne m a b o ne = ground arith

pub Has-snoc :
    (m : Forwarding) (r x o n : ℕ) → Has (m ++ (r, x) ∷ []) o n → Has m o n ⊎ ((o ≡ r) × (n ≡ x))
Has-snoc [] r x o n (inl e) = inr e
Has-snoc [] r x o n (inr h) = elim h [ ]
Has-snoc ((p, q) ∷ m) r x o n (inl e) = inl (inl e)
Has-snoc ((p, q) ∷ m) r x o n (inr h) = elim (Has-snoc m r x o n h) [
  | inl there ↦ inl (inr there)
  | inr e ↦ inr e
]

pub Has-more : (m rest : Forwarding) (o n : ℕ) → Has m o n → Has (m ++ rest) o n
Has-more [] rest o n h = elim h [ ]
Has-more ((p, q) ∷ m) rest o n (inl e) = inl e
Has-more ((p, q) ∷ m) rest o n (inr h) = inr (Has-more m rest o n h)

pub Slots-grows :
    (m rest : Forwarding) {done xs ys : List ℕ} → Slots m done xs ys → Slots (m ++ rest) done xs ys
Slots-grows m rest h = record {
  same_length = h.same_length;
  updated =
      λ p v here is. let (v', e, f) = h.updated p v here is in (v', e, forward-some m rest v v' f);
  kept = h.kept;
}

pub Slots-refl : (m : Forwarding) (xs : List ℕ) → Slots m [] xs xs
Slots-refl m xs = record {
  same_length = refl;
  updated = λ p v here is. absurd here;
  kept = λ p out. refl;
}

-- Later in the collection: more entries, and the copies that were there as they were.
pub record After (base : ℕ) (c c' : Copying) : Type 0 where
  pub extra : Forwarding
  pub map_is : c'.map ≡ c.map ++ extra
  pub copies_kept : (a : ℕ) → base ≤ a → a < c.bump_ptr → c'.memory a ≡ c.memory a

module _ (classes : List LoadedClass) (memory₀ : Memory) (objects : List ℕ) (base half : ℕ) where
  Laid-snoc :
      (p e : ℕ) (m : Forwarding) (r : ℕ)
      → Laid classes memory₀ p m e
      → Laid classes memory₀ p (m ++ (r, e) ∷ []) (e + size_at classes memory₀ r)
  Laid-snoc p e [] r h = (sym h, rw h refl)
  Laid-snoc p e ((o, n) ∷ m) r (q, h) = (q, Laid-snoc (p + size_at classes memory₀ o) e m r h)

  module _ (from : FromSpace classes memory₀ objects base half) (progress : ℕ → List ℕ)
      (c : Copying) (inv : Inv classes memory₀ objects base half progress c) where
    -- The state with a copy of the object at `r`.
    abbrev with_copy : (r : ℕ) → Instance → Copying
    with_copy r o = record {
      memory = write c.memory c.bump_ptr o;
      bump_ptr = c.bump_ptr + size_at classes memory₀ r;
      map = c.map ++ (r, c.bump_ptr) ∷ [];
    }

    copy_new-eq :
        (r : ℕ) (v : Valid classes memory₀ objects base half r)
        → In r objects
        → copy_new classes r c ≡ ok (c.bump_ptr, with_copy r v.object)
    unfolding copy_new
    copy_new-eq r v here =
        let e : c.memory r ≡ some v.object = inv.old r here ∙ v.is_object in
        rw (object_at, e, v.has_class, size_at, v.is_object, v.has_class) refl

    entry-with_copy :
        (r : ℕ) (v : Valid classes memory₀ objects base half r)
        → In r objects
        → (o n : ℕ) → Has (c.map ++ (r, c.bump_ptr) ∷ []) o n
        → Entry classes memory₀ objects base half progress (with_copy r v.object) o n
    entry-with_copy r v here o n has = elim (Has-snoc c.map r c.bump_ptr o n has) [
      | inl there ↦
          let e = inv.entry o n there in
          let (_, below) = entry-bounds classes memory₀ objects base half from inv o n there in
          record {
            is_old = e.is_old;
            before = e.before;
            now = e.now;
            was = e.was;
            is_now = write-ne c.memory c.bump_ptr n v.object (omega arith) ∙ e.is_now;
            partly = record {
              same_class = e.partly.same_class;
              slots_are = Slots-grows c.map ((r, c.bump_ptr) ∷ []) e.partly.slots_are;
            };
          }
      | inr (eo, en) ↦ record {
        is_old = rw eo here;
        before = v.object;
        now = v.object;
        was = rw eo v.is_object;
        is_now = rw en (write_self c.memory c.bump_ptr v.object);
        partly =
            rw (en, inv.fresh c.bump_ptr (omega arith))
              (record { same_class = refl; slots_are = Slots-refl _ v.object.slots });
      }
    ]

    copy_new-Inv :
        (r : ℕ) (v : Valid classes memory₀ objects base half r)
        → In r objects
        → find r c.map ≡ none
        → Inv classes memory₀ objects base half progress (with_copy r v.object)
    copy_new-Inv r v here none_yet =
        let out = find-none r c.map none_yet in
        record {
          laid = Laid-snoc base c.bump_ptr c.map r inv.laid;
          distinct =
              rw (originals_snoc c.map r c.bump_ptr)
                (Distinct-snoc r (originals c.map) inv.distinct out);
          old = λ a h. write-ne c.memory c.bump_ptr a v.object (apart a h) ∙ inv.old a h;
          entry = entry-with_copy r v here;
          fresh = λ a h. inv.fresh a (omega arith);
        }
      where
        apart : (a : ℕ) → In a objects → a ≢ c.bump_ptr
        apart a h =
            let (low, high) =
              copies-fit classes memory₀ objects base half from inv r here
                (find-none r c.map none_yet) in
            let s = size_at-Valid classes memory₀ objects base half r v in
            let side = (from.valid a h).apart in ground arith

    -- A reference that is null or to an object of the old region is copied, or its copy is found.
    pub copy_object-Inv :
        (r : ℕ)
        → (r ≡ 0) ⊎ In r objects
        → (copy : ℕ) × (c' : Copying) × (copy_object classes r c ≡ ok (copy, c'))
          × Inv classes memory₀ objects base half progress c'
          × After base c c'
          × (forward c'.map r ≡ some copy)
    unfolding copy_object
    copy_object-Inv r refers = elim (Bool-cases (r == 0)) [
      | inl null ↦ (0, c, rw null refl, inv, unchanged, rw null refl)
      | inr there ↦ elim (Option-cases (find r c.map)) [
        | inr (n, found) ↦ (n, c, rw (there, found) refl, inv, unchanged, rw (there, found) refl)
        | inl none_yet ↦
            let here : In r objects = elim refers [
              | inl e ↦ let t = (==_iff r 0).1 e in cc
              | inr h ↦ h
            ] in
            let v = from.valid r here in
            (
              c.bump_ptr,
              with_copy r v.object,
              rw (there, none_yet) (copy_new-eq r v here),
              copy_new-Inv r v here none_yet,
              record {
                extra = (r, c.bump_ptr) ∷ [];
                map_is = refl;
                copies_kept = λ a low high. write-ne c.memory c.bump_ptr a v.object (omega arith);
              },
              rw there (find-last r c.bump_ptr c.map none_yet),
            )
      ]
    ]
      where
        unchanged : After base c c
        unchanged = record {
          extra = [];
          map_is = sym (append-nil c.map);
          copies_kept = λ a low high. refl;
        }
