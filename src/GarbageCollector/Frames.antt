-- ===== src/GarbageCollector/Frames.antt =====
-- What the loop over the frames in src/vm/GarbageCollector.cpp does: every slot of a frame that is flagged as
-- a reference is forwarded, and the others stay.
use geevm.Prelude.{ℕ, zero, suc, ◌+◌, ◌≤◌, ◌<◌, ◌≡◌, refl, ◌∙◌, inl, inr, false, some, List, []}
use geevm.Prelude.{◌∷◌, get_elem?, set, length, Bool, ap, if◌then◌else◌, Bool-cases, Result, ok}
use geevm.Prelude.{lt→ltb, length-set, arith, get_or}
use geevm.Frame.{CallFrame, reference, store_value, replace_stack_value}
use geevm.GarbageCollector.{LoadedClass, Memory, Copying}
use geevm.GarbageCollector.Weights.{In, NotIn, Distinct, In-ne}
use geevm.GarbageCollector.Invariant.{Slots, FromSpace}
use geevm.GarbageCollector.Copies.{Slots-grows}
use geevm.GarbageCollector.Places.{Slots-set}
use geevm.GarbageCollector.Collecting.{copy_slots}
use geevm.GarbageCollector.Roots.{behind, Refers, Unscanned, Grown, Grown-refl, Grown-trans}
use geevm.GarbageCollector.Roots.{copy_object-Grown}
use geevm.GcRoots.{flag_at}
use geevm.GcRoots.Compute.{references_from}

-- The indices of the flags that are set, `n` of them from the index `i` on.
abbrev pub flagged : List Bool → ℕ → ℕ → List ℕ
flagged flags zero i = []
flagged flags (suc n) i =
    let rest = flagged flags n (i + 1) in if get_or flags i false then i ∷ rest else rest

-- Such an index is in the range, and none is twice.
pub flagged-bounds :
    (flags : List Bool) (n i p : ℕ) → In p (flagged flags n i) → (i ≤ p) × (p < i + n)
flagged-bounds flags zero i p h = elim h [ ]
flagged-bounds flags (suc n) i p h = elim (Bool-cases (get_or flags i false)) [
  | inl yes' ↦ elim (rw yes' at h) [
    | inl e ↦ omega arith
    | inr there ↦ omega (arith, flagged-bounds flags n (i + 1) p there)
  ]
  | inr no' ↦ omega (arith, flagged-bounds flags n (i + 1) p (rw no' at h))
]

NotIn-bounds : (p : ℕ) (xs : List ℕ) → ((q : ℕ) → In q xs → p < q) → NotIn p xs
NotIn-bounds p [] h = tt
NotIn-bounds p (x ∷ xs) h =
    ((λ e. let lt = h x (inl refl) in omega arith), NotIn-bounds p xs (λ q there. h q (inr there)))

pub flagged-Distinct : (flags : List Bool) (n i : ℕ) → Distinct (flagged flags n i)
flagged-Distinct flags zero i = tt
flagged-Distinct flags (suc n) i = elim (Bool-cases (get_or flags i false)) [
  | inl yes' ↦ rw yes' (
    NotIn-bounds i (flagged flags n (i + 1))
        (λ q h. let b = flagged-bounds flags n (i + 1) q h in omega (arith, b.0)),
    flagged-Distinct flags n (i + 1),
  )
  | inr no' ↦ rw no' (flagged-Distinct flags n (i + 1))
]

-- Each index with its value.
abbrev pub Values : List ℕ → List ℕ → List (ℕ × ℕ) → Type 0
Values xs [] [] = Unit
Values xs [] (r ∷ rs) = ⊥
Values xs (i ∷ is) [] = ⊥
Values xs (i ∷ is) ((j, v) ∷ rs) = (j ≡ i) × (get_elem? xs i ≡ some v) × Values xs is rs

flag_at-some :
    (flags : List Bool) (i : ℕ) → i < length flags → flag_at flags i ≡ ok (get_or flags i false)
flag_at-some [] i h = elim h [ ]
flag_at-some (x ∷ xs) zero h = refl
flag_at-some (x ∷ xs) (suc i) h = flag_at-some xs i (omega arith)

get_elem?-some : (xs : List ℕ) (i : ℕ) → i < length xs → (x : ℕ) × (get_elem? xs i ≡ some x)
get_elem?-some [] i h = elim h [ ]
get_elem?-some (x ∷ xs) zero h = (x, refl)
get_elem?-some (x ∷ xs) (suc i) h = get_elem?-some xs i (omega arith)

-- The references that are found are the values at the flagged indices.
pub references_from-Values :
    (value_at : ℕ → Result ℕ) (xs : List ℕ) (flags : List Bool) (n i : ℕ)
    → ((p v : ℕ) → p < i + n → get_elem? xs p ≡ some v → value_at p ≡ ok v)
    → i + n ≤ length flags
    → i + n ≤ length xs
    → (rs : List (ℕ × ℕ)) × (references_from value_at flags n i ≡ ok rs)
      × Values xs (flagged flags n i) rs
unfolding references_from
references_from-Values value_at xs flags zero i reads h h' = ([], refl, tt)
references_from-Values value_at xs flags (suc n) i reads h h' =
    let (rs, e, vs) =
      references_from-Values value_at xs flags n (i + 1) (λ p v lt. reads p v (omega arith))
        (omega arith) (omega arith) in
    let (v, is) = get_elem?-some xs i (omega arith) in
    elim (Bool-cases (get_or flags i false)) [
      | inl yes' ↦ (
        (i, v) ∷ rs,
        rw (flag_at-some flags i (omega arith), yes', reads i v (omega arith) is, e) refl,
        rw yes' (refl, is, vs),
      )
      | inr no' ↦ (rs, rw (flag_at-some flags i (omega arith), no', e) refl, rw no' vs)
    ]

module _ (classes : List LoadedClass) (memory₀ : Memory) (objects : List ℕ) (base half : ℕ)
    (from : FromSpace classes memory₀ objects base half) where
  -- A loop that stores copies with `store`, which writes one of the `cells` of a frame and keeps `Fit`.
  module _ (store : ℕ → ℕ → CallFrame → Result CallFrame) (cells : CallFrame → List ℕ)
      (Fit : CallFrame → Type 0) (limit : ℕ)
      (law : (i v : ℕ) (f : CallFrame)
        → i < limit
        → Fit f
        → (f' : CallFrame) × (store i v f ≡ ok f') × Fit f' × (cells f' ≡ set (cells f) i v)) where
    pub copy_slots-Grown :
        (ps done xs : List ℕ) (rs : List (ℕ × ℕ)) (f : CallFrame) (c : Copying)
        → Unscanned classes memory₀ objects base half c
        → Fit f
        → Slots c.map done xs (cells f)
        → Values xs ps rs
        → ((p : ℕ) → In p ps → p < limit)
        → ((p v : ℕ)
            → In p ps
            → get_elem? xs p ≡ some v
            → Refers classes memory₀ objects base half v)
        → Distinct ps
        → ((p : ℕ) → In p ps → NotIn p done)
        → (f' : CallFrame) × (c' : Copying) × (copy_slots classes store rs f c ≡ ok (f', c'))
          × Grown classes memory₀ objects base half c c'
          × Fit f'
          × Slots c'.map (behind ps done) xs (cells f')
    unfolding copy_slots
    copy_slots-Grown [] done xs [] f c inv fit slots vs lt refer d new =
        (f, c, refl, Grown-refl classes memory₀ objects base half c inv, fit, slots)
    copy_slots-Grown [] done xs (r ∷ rs) f c inv fit slots vs lt refer d new = absurd vs
    copy_slots-Grown (p ∷ ps) done xs [] f c inv fit slots vs lt refer d new = absurd vs
    copy_slots-Grown (p ∷ ps) done xs ((j, v) ∷ rs) f c inv fit slots (at, is, vs) lt refer (out, d)
          new =
        let (copy, c₁, e, g, fwd) =
          copy_object-Grown classes memory₀ objects base half from v c inv
            (refer p v (inl refl) is) in
        let (f₁, e₁, fit₁, cells₁) = law p copy f (lt p (inl refl)) fit in
        let grown : Slots c₁.map done xs (cells f) =
          rw g.map_is (Slots-grows c.map g.extra slots) in
        let now : get_elem? (cells f) p ≡ some v = slots.kept p (new p (inl refl)) ∙ is in
        let slots₁ : Slots c₁.map (p ∷ done) xs (cells f₁) =
          rw cells₁
            (Slots-set c₁.map done xs (cells f) p v copy grown (new p (inl refl)) now fwd) in
        let (f₂, c₂, e₂, g₂, fit₂, slots₂) =
          copy_slots-Grown ps (p ∷ done) xs rs f₁ c₁ g.inv fit₁ slots₁ vs (λ q h. lt q (inr h))
            (λ q w h. refer q w (inr h)) d (λ q h. (In-ne ps h out, new q (inr h))) in
        (
          f₂,
          c₂,
          rw (at, e, e₁) e₂,
          Grown-trans classes memory₀ objects base half g g₂,
          fit₂,
          slots₂,
        )

-- `f` is `start` with other local variables.
pub record LocalsOf (start f : CallFrame) : Type 0 where
  pub others : record f { local_variables = start.local_variables } ≡ start
  pub count : length f.local_variables ≡ length start.local_variables

-- `f` is `start` with other values on the operand stack.
pub record OperandsOf (start f : CallFrame) : Type 0 where
  pub others : record f { operand_stack = start.operand_stack } ≡ start
  pub count : length f.operand_stack ≡ length start.operand_stack

module _ (start : CallFrame) (i v : ℕ) (f : CallFrame) where
  pub store_value-law :
      i < length start.local_variables
      → LocalsOf start f
      → (f' : CallFrame) × (store_value reference i v f ≡ ok f')
        × LocalsOf start f'
        × (f'.local_variables ≡ set f.local_variables i v)
  unfolding store_value
  store_value-law lt fit = (
    record f { local_variables = set f.local_variables i v },
    rw (lt→ltb i (length f.local_variables) (omega (arith, fit.count))) refl,
    record { others = fit.others; count = length-set f.local_variables i v ∙ fit.count },
    refl,
  )

  pub replace_stack_value-law :
      i < start.stack_pointer
      → OperandsOf start f
      → (f' : CallFrame) × (replace_stack_value i v f ≡ ok f')
        × OperandsOf start f'
        × (f'.operand_stack ≡ set f.operand_stack i v)
  unfolding replace_stack_value
  replace_stack_value-law lt fit =
      let sp : f.stack_pointer ≡ start.stack_pointer = ap (λ g. g.stack_pointer) fit.others in
      (
        record f { operand_stack = set f.operand_stack i v },
        rw (lt→ltb i f.stack_pointer (omega arith)) refl,
        record { others = fit.others; count = length-set f.operand_stack i v ∙ fit.count },
        refl,
      )
