-- ===== src/GarbageCollector/Roots.antt =====
-- What the loops over the roots in src/vm/GarbageCollector.cpp do: every root that they visit is forwarded.
use mathlib.Core.Path.{fun_ext}
use geevm.Prelude.{ℕ, ◌≡◌, refl, sym, ◌∙◌, ◌⊎◌, inl, inr, ap, some, List, [], ◌∷◌, ◌++◌, append-nil}
use geevm.Prelude.{append_assoc, get_elem?, set, length, ◌&&◌, if◌then◌else◌, Bool-cases, Result}
use geevm.Prelude.{ok, ◌>>=◌, lt→ltb}
use geevm.Frame.Slots.{element-some}
use geevm.GarbageCollector.{LoadedClass, Field, Memory, Forwarding, Copying, copy_object}
use geevm.GarbageCollector.Weights.{In, NotIn, Distinct, In-ne}
use geevm.GarbageCollector.Forwards.{forward, forward-some}
use geevm.GarbageCollector.Invariant.{Slots, FromSpace, Inv}
use geevm.GarbageCollector.Copies.{copy_object-Inv, Slots-grows, Slots-refl}
use geevm.GarbageCollector.Places.{Slots-set, get_elem?-bound}
use geevm.GarbageCollector.Collecting.{copy_roots, copy_static, copy_statics, copy_classes}

-- Values of the one list are forwarded to those of the other.
abbrev pub Forwards : Forwarding → List ℕ → List ℕ → Type 0
Forwards m [] [] = Unit
Forwards m [] (k ∷ ks) = ⊥
Forwards m (r ∷ rs) [] = ⊥
Forwards m (r ∷ rs) (k ∷ ks) = (forward m r ≡ some k) × Forwards m rs ks

pub Forwards-grows :
    (m rest : Forwarding) (rs ks : List ℕ) → Forwards m rs ks → Forwards (m ++ rest) rs ks
Forwards-grows m rest [] [] h = tt
Forwards-grows m rest [] (k ∷ ks) h = elim h [ ]
Forwards-grows m rest (r ∷ rs) [] h = elim h [ ]
Forwards-grows m rest (r ∷ rs) (k ∷ ks) (f, h) =
    (forward-some m rest r k f, Forwards-grows m rest rs ks h)

-- The places of the static references of a class.
abbrev pub static_places : List Field → List ℕ
static_places [] = []
static_places (f ∷ fs) =
    if f.is_static && f.is_reference_or_array then f.offset ∷ static_places fs else static_places fs

-- The places that have been visited, the last one first.
abbrev pub behind : List ℕ → List ℕ → List ℕ
behind [] done = done
behind (p ∷ ps) done = behind ps (p ∷ done)

-- The loop over the fields visits a list of places.
copy_places : List LoadedClass → List ℕ → List ℕ → Copying → Result (List ℕ × Copying)
copy_places classes [] values c = ok (values, c)
copy_places classes (p ∷ ps) values c = do
  (values, c) ← copy_static classes p values c
  copy_places classes ps values c

copy_statics-eq :
    (classes : List LoadedClass) (fs : List Field) (values : List ℕ) (c : Copying)
    → copy_statics classes fs values c ≡ copy_places classes (static_places fs) values c
unfolding copy_statics copy_places
copy_statics-eq classes [] values c = refl
copy_statics-eq classes (f ∷ fs) values c =
    elim (Bool-cases (f.is_static && f.is_reference_or_array)) [
      | inl counts ↦
          rw (copy_statics, counts)
            (ap (λ k. copy_static classes f.offset values c >>= k)
              (fun_ext λ (values, c). copy_statics-eq classes fs values c))
      | inr other ↦ rw (copy_statics, other) (copy_statics-eq classes fs values c)
    ]

-- The classes with their static references forwarded.
abbrev pub ClassesForwarded : Forwarding → List LoadedClass → List LoadedClass → Type 0
ClassesForwarded m [] [] = Unit
ClassesForwarded m [] (k' ∷ ks') = ⊥
ClassesForwarded m (k ∷ ks) [] = ⊥
ClassesForwarded m (k ∷ ks) (k' ∷ ks') =
    (k' ≡ record k { static_values = k'.static_values })
    × Slots m (behind (static_places k.fields) []) k.static_values k'.static_values
    × ClassesForwarded m ks ks'

pub ClassesForwarded-grows :
    (m rest : Forwarding) (ks ks' : List LoadedClass)
    → ClassesForwarded m ks ks'
    → ClassesForwarded (m ++ rest) ks ks'
ClassesForwarded-grows m rest [] [] h = tt
ClassesForwarded-grows m rest [] (k' ∷ ks') h = elim h [ ]
ClassesForwarded-grows m rest (k ∷ ks) [] h = elim h [ ]
ClassesForwarded-grows m rest (k ∷ ks) (k' ∷ ks') (same, slots, h) =
    (same, Slots-grows m rest slots, ClassesForwarded-grows m rest ks ks' h)

module _ (classes : List LoadedClass) (memory₀ : Memory) (objects : List ℕ) (base half : ℕ) where
  -- A reference that is null or to an object of the old region.
  abbrev pub Refers : ℕ → Type 0
  Refers v = (v ≡ 0) ⊎ In v objects

  abbrev pub AllRefer : List ℕ → Type 0
  AllRefer [] = Unit
  AllRefer (v ∷ vs) = Refers v × AllRefer vs

  -- A state of the phase of the roots: no copy has been scanned.
  abbrev pub Unscanned : Copying → Type 0
  Unscanned c = Inv classes memory₀ objects base half (λ _. []) c

  -- From one such state to a later one.
  pub record Grown (c c' : Copying) : Type 0 where
    pub inv : Unscanned c'
    pub extra : Forwarding
    pub map_is : c'.map ≡ c.map ++ extra

  pub Grown-refl : (c : Copying) → Unscanned c → Grown c c
  Grown-refl c inv = record { inv = inv; extra = []; map_is = sym (append-nil c.map) }

  pub Grown-trans : {a b c : Copying} → Grown a b → Grown b c → Grown a c
  Grown-trans {a = a} g h = record {
    inv = h.inv;
    extra = g.extra ++ h.extra;
    map_is = h.map_is ∙ (ap (λ m. m ++ h.extra) g.map_is ∙ append_assoc a.map g.extra h.extra);
  }

  -- The static references of a class are there, each at a place of its own.
  pub record StaticsRefer (fields : List Field) (values : List ℕ) : Type 0 where
    pub places_distinct : Distinct (static_places fields)
    pub places_refer :
        (p : ℕ) → In p (static_places fields) → (v : ℕ) × (get_elem? values p ≡ some v) × Refers v

  abbrev pub AllStaticsRefer : List LoadedClass → Type 0
  AllStaticsRefer [] = Unit
  AllStaticsRefer (k ∷ ks) = StaticsRefer k.fields k.static_values × AllStaticsRefer ks

  module _ (from : FromSpace classes memory₀ objects base half) where
    pub copy_object-Grown :
        (v : ℕ) (c : Copying)
        → Unscanned c
        → Refers v
        → (copy : ℕ) × (c' : Copying) × (copy_object classes v c ≡ ok (copy, c'))
          × Grown c c'
          × (forward c'.map v ≡ some copy)
    copy_object-Grown v c inv refers =
        let (copy, c', e, inv', after, f) =
          copy_object-Inv classes memory₀ objects base half from (λ _. []) c inv v refers in
        (copy, c', e, record { inv = inv'; extra = after.extra; map_is = after.map_is }, f)

    pub copy_roots-Grown :
        (roots : List ℕ) (c : Copying)
        → Unscanned c
        → AllRefer roots
        → (copies : List ℕ) × (c' : Copying) × (copy_roots classes roots c ≡ ok (copies, c'))
          × Grown c c'
          × Forwards c'.map roots copies
    unfolding copy_roots
    copy_roots-Grown [] c inv all = ([], c, refl, Grown-refl c inv, tt)
    copy_roots-Grown (r ∷ rs) c inv (here, all) =
        let (copy, c₁, e, g, f) = copy_object-Grown r c inv here in
        let (copies, c₂, e', g', fs) = copy_roots-Grown rs c₁ g.inv all in
        (
          copy ∷ copies,
          c₂,
          rw (e, e') refl,
          Grown-trans g g',
          (rw g'.map_is (forward-some c₁.map g'.extra r copy f), fs),
        )

    copy_static-Grown :
        (p v : ℕ) (done xs values : List ℕ) (c : Copying)
        → Unscanned c
        → Slots c.map done xs values
        → NotIn p done
        → get_elem? xs p ≡ some v
        → Refers v
        → (values' : List ℕ) × (c' : Copying) × (copy_static classes p values c ≡ ok (values', c'))
          × Grown c c'
          × Slots c'.map (p ∷ done) xs values'
    unfolding copy_static
    copy_static-Grown p v done xs values c inv slots out is refers =
        let (copy, c', e, g, f) = copy_object-Grown v c inv refers in
        let now : get_elem? values p ≡ some v = slots.kept p out ∙ is in
        let slots' : Slots c'.map done xs values = rw g.map_is (Slots-grows c.map g.extra slots) in
        (
          set values p copy,
          c',
          rw
              (
                lt→ltb p (length values) (get_elem?-bound values p v now),
                element-some values p v now,
                e,
              )
              refl,
          g,
          Slots-set c'.map done xs values p v copy slots' out now f,
        )

    copy_places-Grown :
        (ps done xs values : List ℕ) (c : Copying)
        → Unscanned c
        → Slots c.map done xs values
        → Distinct ps
        → ((p : ℕ) → In p ps → NotIn p done)
        → ((p : ℕ) → In p ps → (v : ℕ) × (get_elem? xs p ≡ some v) × Refers v)
        → (values' : List ℕ) × (c' : Copying) × (copy_places classes ps values c ≡ ok (values', c'))
          × Grown c c'
          × Slots c'.map (behind ps done) xs values'
    unfolding copy_places
    copy_places-Grown [] done xs values c inv slots d new refer =
        (values, c, refl, Grown-refl c inv, slots)
    copy_places-Grown (p ∷ ps) done xs values c inv slots (out, d) new refer =
        let (v, is, refers) = refer p (inl refl) in
        let (values₁, c₁, e, g, slots₁) =
          copy_static-Grown p v done xs values c inv slots (new p (inl refl)) is refers in
        let (values₂, c₂, e', g', slots₂) =
          copy_places-Grown ps (p ∷ done) xs values₁ c₁ g.inv slots₁ d
            (λ q h. (In-ne ps h out, new q (inr h))) (λ q h. refer q (inr h)) in
        (values₂, c₂, rw (e, e') refl, Grown-trans g g', slots₂)

    -- The static references of a class are forwarded; its other static values stay.
    pub copy_statics-Grown :
        (fs : List Field) (values : List ℕ) (c : Copying)
        → Unscanned c
        → StaticsRefer fs values
        → (values' : List ℕ) × (c' : Copying) × (copy_statics classes fs values c
            ≡ ok (values', c'))
          × Grown c c'
          × Slots c'.map (behind (static_places fs) []) values values'
    copy_statics-Grown fs values c inv h =
        let (values', c', e, g, slots) =
          copy_places-Grown (static_places fs) [] values values c inv (Slots-refl c.map values)
            h.places_distinct (λ p here. tt) h.places_refer in
        (values', c', copy_statics-eq classes fs values c ∙ e, g, slots)

    pub copy_classes-Grown :
        (ks : List LoadedClass) (c : Copying)
        → Unscanned c
        → AllStaticsRefer ks
        → (ks' : List LoadedClass) × (c' : Copying) × (copy_classes classes ks c ≡ ok (ks', c'))
          × Grown c c'
          × ClassesForwarded c'.map ks ks'
    unfolding copy_classes
    copy_classes-Grown [] c inv all = ([], c, refl, Grown-refl c inv, tt)
    copy_classes-Grown (k ∷ ks) c inv (here, all) =
        let (values, c₁, e, g, slots) = copy_statics-Grown k.fields k.static_values c inv here in
        let (ks', c₂, e', g', h) = copy_classes-Grown ks c₁ g.inv all in
        (
          record k { static_values = values } ∷ ks',
          c₂,
          rw (e, e') refl,
          Grown-trans g g',
          (refl, rw g'.map_is (Slots-grows c₁.map g'.extra slots), h),
        )
