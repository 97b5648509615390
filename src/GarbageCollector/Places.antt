-- ===== src/GarbageCollector/Places.antt =====
-- What the loops of `processReferences` in src/vm/GarbageCollector.cpp do to a copy where the invariant of the
-- collection holds.
use geevm.Prelude.{ℕ, ◌<◌, ◌≡◌, refl, sym, ◌∙◌, inl, inr, false, ap, some, List, [], ◌∷◌, ◌++◌}
use geevm.Prelude.{get_elem?, set, length, length-set, get_elem?-set_self, get_elem?-set_ne, suc}
use geevm.Prelude.{zero, if◌then◌else◌, ◌==◌, ==_iff, Bool-cases, ok, arith, some_eq}
use geevm.GarbageCollector.Weights.{In-ne, In, NotIn}
use geevm.Frame.Slots.{element-some}
use geevm.GarbageCollector.{LoadedClass, Instance, Memory, write, Forwarding, Copying, object_at}
use geevm.GarbageCollector.{update_place}
use geevm.GarbageCollector.Forwards.{forward}
use geevm.GarbageCollector.Invariant.{Partly, Has, Valid, FromSpace, Entry, Inv, reference_places}
use geevm.GarbageCollector.Invariant.{entry-bounds, old-ne_copy, Slots}
use geevm.GarbageCollector.Copies.{Has-more, copy_object-Inv, write-ne}

-- One more place of the copy at `n` is forwarded.
abbrev pub mark : (ℕ → List ℕ) → ℕ → ℕ → ℕ → List ℕ
mark progress n p a = if a == n then p ∷ progress a else progress a

pub get_elem?-bound : (xs : List ℕ) (i x : ℕ) → get_elem? xs i ≡ some x → i < length xs
get_elem?-bound [] i x e = cc
get_elem?-bound (y ∷ ys) zero x e = omega arith
get_elem?-bound (y ∷ ys) (suc i) x e = omega (arith, get_elem?-bound ys i x e)

-- A place that was not forwarded yet gets the forwarded reference.
pub Slots-set :
    (m : Forwarding) (done xs ys : List ℕ) (p v copy : ℕ)
    → Slots m done xs ys
    → NotIn p done
    → get_elem? ys p ≡ some v
    → forward m v ≡ some copy
    → Slots m (p ∷ done) xs (set ys p copy)
Slots-set m done xs ys p v copy h out is f = record {
  same_length = length-set ys p copy ∙ h.same_length;
  updated = λ q w here was. elim here [
    | inl e ↦
        let same : some w ≡ some v = sym was ∙ (ap (get_elem? xs) e ∙ (sym (h.kept p out) ∙ is)) in
        let at : get_elem? (set ys p copy) q ≡ some copy =
          rw e (get_elem?-set_self ys p copy (get_elem?-bound ys p v is)) in
        let w_is : w ≡ v = cc in (copy, at, rw w_is f)
    | inr there ↦
        let (v', e, f') = h.updated q w there was in
        (v', get_elem?-set_ne ys copy (λ e. In-ne done there out (sym e)) ∙ e, f')
  ];
  kept = λ q (ne, out'). get_elem?-set_ne ys copy (λ e. ne (sym e)) ∙ h.kept q out';
}

module _ (classes : List LoadedClass) (memory₀ : Memory) (objects : List ℕ) (base half : ℕ)
    (from : FromSpace classes memory₀ objects base half) where
  module _ (progress : ℕ → List ℕ) (c : Copying) (o n p x copy : ℕ) (now : Instance)
      (inv : Inv classes memory₀ objects base half progress c) (has : Has c.map o n)
      (is_now : c.memory n ≡ some now) (out : NotIn p (progress n))
      (is : get_elem? now.slots p ≡ some x) (f : forward c.map x ≡ some copy) where
    -- The state with the forwarded reference written.
    abbrev with_place : Copying
    with_place = record c {
      memory = write c.memory n (record now { slots = set now.slots p copy });
    }

    entry-with_place :
        (o' n' : ℕ)
        → Has c.map o' n'
        → Entry classes memory₀ objects base half (mark progress n p) with_place o' n'
    entry-with_place o' n' has' =
        let e = inv.entry o' n' has' in
        elim (Bool-cases (n' == n)) [
          | inr differs ↦ record {
            is_old = e.is_old;
            before = e.before;
            now = e.now;
            was = e.was;
            is_now = rw differs e.is_now;
            partly = rw differs e.partly;
          }
          | inl same ↦
              let at : n' ≡ n = (==_iff _ _).0 same in
              let now_is : e.now ≡ now = some_eq (sym e.is_now ∙ (ap c.memory at ∙ is_now)) in
              let part : Partly c.map (progress n) e.before now = rw (now_is, at) at e.partly in
              record {
                is_old = e.is_old;
                before = e.before;
                now = record now { slots = set now.slots p copy };
                was = e.was;
                is_now = rw same refl;
                partly =
                    rw (same, at)
                      (record {
                        same_class = part.same_class;
                        slots_are =
                            Slots-set c.map (progress n) e.before.slots now.slots p x copy
                              part.slots_are out is f;
                      });
              }
        ]

    Inv-with_place : Inv classes memory₀ objects base half (mark progress n p) with_place
    Inv-with_place = record {
      laid = inv.laid;
      distinct = inv.distinct;
      old = λ a h.
          write-ne c.memory n a _
            (old-ne_copy classes memory₀ objects base half from inv a o n h has)
          ∙ inv.old a h;
      entry = entry-with_place;
      fresh = λ a h.
          let (low, below) = entry-bounds classes memory₀ objects base half from inv o n has in
          let ne : (a == n) ≡ false = ground arith in rw ne (inv.fresh a h);
    }

  -- One place of the copy at `n`, which is not forwarded yet.
  pub update_place-Inv :
      (progress : ℕ → List ℕ) (c : Copying) (o n p : ℕ)
      → Inv classes memory₀ objects base half progress c
      → Has c.map o n
      → (v : Valid classes memory₀ objects base half o) → In p (reference_places v.klass v.object)
      → NotIn p (progress n)
      → (c' : Copying) × (extra : Forwarding) × (update_place classes n p c ≡ ok c')
        × Inv classes memory₀ objects base half (mark progress n p) c'
        × (c'.map ≡ c.map ++ extra)
  unfolding update_place
  update_place-Inv progress c o n p inv has v here out =
      let e = inv.entry o n has in
      let was : e.before ≡ v.object = some_eq (sym e.was ∙ v.is_object) in
      let (x, is, refers) = v.places_refer p here in
      let is_now : get_elem? e.now.slots p ≡ some x =
        e.partly.slots_are.kept p out ∙ (ap (λ b. get_elem? b.slots p) was ∙ is) in
      let (copy, c₁, eq, inv₁, after, f) =
        copy_object-Inv classes memory₀ objects base half from progress c inv x refers in
      let (low, below) = entry-bounds classes memory₀ objects base half from inv o n has in
      let there : c₁.memory n ≡ some e.now = after.copies_kept n low below ∙ e.is_now in
      (
        record c₁ { memory = write c₁.memory n (record e.now { slots = set e.now.slots p copy }) },
        after.extra,
        rw (object_at, e.is_now, element-some e.now.slots p x is_now, eq, there) refl,
        Inv-with_place progress c₁ o n p x copy e.now inv₁
            (rw after.map_is (Has-more c.map after.extra o n has)) there out is_now f,
        after.map_is,
      )
