-- ===== src/StackMap/Lookup.antt =====
-- Which frame `StackMap::frameAt` of src/vm/StackMap.cpp finds.
use geevm.Prelude.{ℕ, ◌≤◌, ◌<◌, ◌≡◌, inl, inr, refl, ap, true, List, [], ◌∷◌, ◌++◌, ok, arith, leb}
use geevm.Prelude.{ltb, ltb→lt, Bool-cases}
use geevm.StackMap.{FrameInfo, frame_at}

-- The frames start later and later.
abbrev pub IsSorted : List FrameInfo → Type 0
IsSorted [] = Unit
IsSorted (f ∷ []) = Unit
IsSorted (f ∷ g ∷ fs) = (f.start_pos ≤ g.start_pos) × IsSorted (g ∷ fs)

abbrev pub AllAfter : ℕ → List FrameInfo → Type 0
AllAfter position [] = Unit
AllAfter position (f ∷ fs) = (position < f.start_pos) × AllAfter position fs

-- `f` is the last frame that starts at the position or before it.
pub record IsActive (frames : List FrameInfo) (position : ℕ) (f : FrameInfo) : Type 0 where
  pub before : List FrameInfo
  pub after : List FrameInfo
  pub splits : frames ≡ before ++ f ∷ after
  pub starts : f.start_pos ≤ position
  pub ends : AllAfter position after

AllAfter-IsSorted :
    (position : ℕ) (f : FrameInfo) (fs : List FrameInfo)
    → position < f.start_pos
    → IsSorted (f ∷ fs)
    → AllAfter position (f ∷ fs)
AllAfter-IsSorted position f [] h sorted = (h, tt)
AllAfter-IsSorted position f (g ∷ fs) h (le, sorted) =
    (h, AllAfter-IsSorted position g fs (omega arith) sorted)

-- In frames that start later and later, the first not behind the position, `frame_at` returns the
-- last frame that starts at the position or before it.
pub frame_at-IsActive :
    (f : FrameInfo) (fs : List FrameInfo) (position : ℕ)
    → IsSorted (f ∷ fs)
    → f.start_pos ≤ position
    → (found : FrameInfo) × (frame_at (f ∷ fs) position ≡ ok found)
      × IsActive (f ∷ fs) position found
unfolding frame_at
frame_at-IsActive f [] position sorted h =
    let e : leb f.start_pos position ≡ true = ground arith in
    (f, rw e refl, record { before = []; after = []; splits = refl; starts = h; ends = tt })
frame_at-IsActive f (g ∷ fs) position (le, sorted) h =
    let e : leb f.start_pos position ≡ true = ground arith in
    elim (Bool-cases (ltb position g.start_pos)) [
      | inl before_next ↦ (
        f,
        rw (e, before_next) refl,
        record {
          before = [];
          after = g ∷ fs;
          splits = refl;
          starts = h;
          ends = AllAfter-IsSorted position g fs (ltb→lt _ _ before_next) sorted;
        },
      )
      | inr past ↦
          let (found, e', active) = frame_at-IsActive g fs position sorted (ground arith) in
          (
            found,
            rw (e, past) e',
            record {
              before = f ∷ active.before;
              after = active.after;
              splits = ap (◌∷◌ f) active.splits;
              starts = active.starts;
              ends = active.ends;
            },
          )
    ]
