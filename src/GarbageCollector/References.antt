-- ===== src/GarbageCollector/References.antt =====
-- What `processReferences` of src/vm/GarbageCollector.cpp does to a copy none of whose references is forwarded
-- yet: it forwards all of them.
use mathlib.Core.Path.{fun_ext}
use geevm.Prelude.{◌⊎◌, ◌↔◌, ℕ, ◌+◌, ◌≡◌, ◌≢◌, refl, sym, ◌∙◌, inl, inr, true, false, ap, ap₂, zero}
use geevm.Prelude.{suc, List, [], ◌∷◌, ◌++◌, append-nil, append_assoc, length, not, ◌&&◌, ◌==◌}
use geevm.Prelude.{==_iff, Bool-cases, Result, ok, ◌>>=◌, arith, some_eq}
use geevm.GarbageCollector.{LoadedClass, Field, Kind, instance_kind, array_kind, Instance, Memory}
use geevm.GarbageCollector.{Forwarding, Copying, object_at, class_at, allocation_size, align_to}
use geevm.GarbageCollector.{max_align, update_place, update_fields, update_elements, update_kind}
use geevm.GarbageCollector.{process_references}
use geevm.GarbageCollector.Weights.{In, NotIn, Distinct, In-ne}
use geevm.GarbageCollector.Invariant.{Has, Valid, FromSpace, Inv, reference_places, field_places}
use geevm.GarbageCollector.Invariant.{indices, places_of_kind, size_at}
use geevm.GarbageCollector.Copies.{Has-more}
use geevm.GarbageCollector.Places.{mark, update_place-Inv}

-- Both loops update a list of places.
update_places : List LoadedClass → ℕ → List ℕ → Copying → Result Copying
update_places classes n [] c = ok c
update_places classes n (p ∷ ps) c = do c ← update_place classes n p c; update_places classes n ps c

module _ (classes : List LoadedClass) (n : ℕ) where
  update_fields-eq :
      (fs : List Field) (c : Copying)
      → update_fields classes n fs c ≡ update_places classes n (field_places fs) c
  unfolding update_fields update_places
  update_fields-eq [] c = refl
  update_fields-eq (f ∷ fs) c = elim (Bool-cases (not f.is_static && f.is_reference_or_array)) [
    | inl counts ↦
        rw (update_fields, counts)
          (ap (λ k. update_place classes n f.offset c >>= k) (fun_ext (update_fields-eq fs)))
    | inr other ↦ rw (update_fields, other) (update_fields-eq fs c)
  ]

  update_elements-eq :
      (count i : ℕ) (c : Copying)
      → update_elements classes n count i c ≡ update_places classes n (indices count i) c
  unfolding update_elements update_places
  update_elements-eq zero i c = refl
  update_elements-eq (suc count) i c =
      ap (λ k. update_place classes n i c >>= k) (fun_ext (update_elements-eq count (i + 1)))

  update_kind-eq :
      (o : Instance) (k : LoadedClass) (kind : Kind) (c : Copying)
      → update_kind classes n o k kind c
        ≡ update_places classes n (places_of_kind kind k.fields o) c
  unfolding update_kind update_places
  update_kind-eq o k (instance_kind size) c = update_fields-eq k.fields c
  update_kind-eq o k (array_kind size true) c = update_elements-eq (length o.slots) 0 c
  update_kind-eq o k (array_kind size false) c = refl

module _ (classes : List LoadedClass) (memory₀ : Memory) (objects : List ℕ) (base half : ℕ)
    (from : FromSpace classes memory₀ objects base half) where
  -- The places of the copy at `n` have been forwarded, and no other copy was written.
  record ForwardedAt (n : ℕ) (ps : List ℕ) (progress progress' : ℕ → List ℕ) : Type 0 where
    pub all : (p : ℕ) → In p ps → In p (progress' n)
    pub more : (p : ℕ) → In p (progress n) → In p (progress' n)
    pub only : (p : ℕ) → In p (progress' n) → In p ps ⊎ In p (progress n)
    pub elsewhere : (a : ℕ) → a ≢ n → progress' a ≡ progress a

  update_places-Inv :
      (ps : List ℕ) (progress : ℕ → List ℕ) (c : Copying) (o n : ℕ)
      → Inv classes memory₀ objects base half progress c
      → Has c.map o n
      → (v : Valid classes memory₀ objects base half o)
      → ((p : ℕ) → In p ps → In p (reference_places v.klass v.object))
      → Distinct ps
      → ((p : ℕ) → In p ps → NotIn p (progress n))
      → (c' : Copying) × (progress' : ℕ → List ℕ) × (extra : Forwarding) × (update_places classes n
            ps c
          ≡ ok c')
        × Inv classes memory₀ objects base half progress' c'
        × (c'.map ≡ c.map ++ extra)
        × ForwardedAt n ps progress progress'
  unfolding update_places
  update_places-Inv [] progress c o n inv has v sub d new = (
    c,
    progress,
    [],
    refl,
    inv,
    sym (append-nil c.map),
    record {
      all = λ p h. absurd h;
      more = λ p h. h;
      only = λ p h. inr h;
      elsewhere = λ a ne. refl;
    },
  )
  update_places-Inv (p ∷ ps) progress c o n inv has v sub (out, d) new =
      let (c₁, extra, e, inv₁, m) =
        update_place-Inv classes memory₀ objects base half from progress c o n p inv has v
          (sub p (inl refl)) (new p (inl refl)) in
      let mine : (n == n) ≡ true = (==_iff n n).1 refl in
      let new₁ : (q : ℕ) → In q ps → NotIn q (mark progress n p n) =
        λ q h. rw mine (In-ne ps h out, new q (inr h)) in
      let (c', progress', extra', e', inv', m', f) =
        update_places-Inv ps (mark progress n p) c₁ o n inv₁ (rw m (Has-more c.map extra o n has)) v
          (λ q h. sub q (inr h)) d new₁ in
      (
        c',
        progress',
        extra ++ extra',
        rw e e',
        inv',
        m' ∙ (ap (λ x. x ++ extra') m ∙ append_assoc c.map extra extra'),
        record {
          all = λ q h. elim h [
            | inl same ↦ f.more q (rw mine (inl same))
            | inr there ↦ f.all q there
          ];
          more = λ q h. f.more q (rw mine (inr h));
          only = λ q h. elim (f.only q h) [
            | inl there ↦ inl (inr there)
            | inr marked ↦ elim (rw mine at marked) [
              | inl same ↦ inl (inl same)
              | inr old ↦ inr old
            ]
          ];
          elsewhere = λ a ne.
              let other : (a == n) ≡ false = ground arith in f.elsewhere a ne ∙ rw other refl;
        },
      )

  -- The same, with all the places of the object.
  pub record Processed (o n : ℕ) (progress : ℕ → List ℕ) (c c' : Copying) : Type 0 where
    pub progress' : ℕ → List ℕ
    pub extra : Forwarding
    pub inv : Inv classes memory₀ objects base half progress' c'
    pub map_is : c'.map ≡ c.map ++ extra
    pub complete :
        (v : Valid classes memory₀ objects base half o) (p : ℕ)
        → In p (reference_places v.klass v.object) ↔ In p (progress' n)
    pub elsewhere : (a : ℕ) → a ≢ n → progress' a ≡ progress a

  places_of_kind-length :
      (kind : Kind) (fields : List Field) (a b : Instance)
      → length a.slots ≡ length b.slots
      → places_of_kind kind fields a ≡ places_of_kind kind fields b
  places_of_kind-length (instance_kind size) fields a b e = refl
  places_of_kind-length (array_kind size is_reference) fields a b e = rw e refl

  allocation_size-length :
      (kind : Kind) (a b : Instance)
      → length a.slots ≡ length b.slots
      → allocation_size kind a ≡ allocation_size kind b
  allocation_size-length (instance_kind size) a b e = refl
  allocation_size-length (array_kind size is_reference) a b e = rw e refl

  pub process_references-Inv :
      (progress : ℕ → List ℕ) (c : Copying) (o n : ℕ)
      → Inv classes memory₀ objects base half progress c
      → Has c.map o n
      → progress n ≡ []
      → (size : ℕ) × (c' : Copying) × (process_references classes n c ≡ ok (size, c'))
        × (align_to size max_align ≡ size_at classes memory₀ o)
        × Processed o n progress c c'
  unfolding process_references
  process_references-Inv progress c o n inv has none_yet =
      let e = inv.entry o n has in
      let v = from.valid o e.is_old in
      let was : e.before ≡ v.object = some_eq (sym e.was ∙ v.is_object) in
      let same_length : length e.now.slots ≡ length v.object.slots =
        e.partly.slots_are.same_length ∙ ap (λ b. length b.slots) was in
      let klass_is : class_at classes e.now.klass ≡ ok v.klass =
        ap (class_at classes) (e.partly.same_class ∙ ap (λ b. b.klass) was) ∙ v.has_class in
      let places_are =
        places_of_kind-length v.klass.kind v.klass.fields e.now v.object same_length in
      let (c', progress', extra, eq, inv', m, f) =
        update_places-Inv (reference_places v.klass v.object) progress c o n inv has v (λ p h. h)
          v.places_distinct (λ p h. rw none_yet tt) in
      let run : update_kind classes n e.now v.klass v.klass.kind c ≡ ok c' =
        update_kind-eq classes n e.now v.klass v.klass.kind c
        ∙ (ap (λ ps. update_places classes n ps c) places_are ∙ eq) in
      (
        allocation_size v.klass.kind e.now,
        c',
        rw (object_at, e.is_now, klass_is, run) refl,
        rw (allocation_size-length v.klass.kind e.now v.object same_length)
            (rw (size_at, v.is_object, v.has_class) refl),
        record {
          progress' = progress';
          extra = extra;
          inv = inv';
          map_is = m;
          complete = λ w p.
              let same : w.object ≡ v.object = some_eq (sym w.is_object ∙ v.is_object) in
              let klass : ok w.klass ≡ ok v.klass =
                sym w.has_class ∙ (ap (λ b. class_at classes b.klass) same ∙ v.has_class) in
              let klass_same : w.klass ≡ v.klass = cc in
              let places : reference_places w.klass w.object ≡ reference_places v.klass v.object =
                ap₂ reference_places klass_same same in
              (
                λ h. f.all p (rw places at h),
                λ h. elim (f.only p h) [
                  | inl there ↦ rw places there
                  | inr old ↦ absurd (rw none_yet at old)
                ],
              );
          elsewhere = f.elsewhere;
        },
      )
