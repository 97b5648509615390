-- ===== src/Interpreter/Jumps/Switches.antt =====
-- Where `lookupSwitch` and `tableSwitch` of src/vm/Interpreter.cpp go.
use native.Mathlib.Nat.{add-zero}
use geevm.Prelude.{ℕ, zero, suc, ◌+◌, ◌%◌, ◌^◌, ◌<◌, ◌≤◌, ◌≡◌, ◌≢◌, refl, sym, ap, ◌∙◌, Bool, true}
use geevm.Prelude.{false, List, [], ◌∷◌, ◌++◌, ◌||◌, lt→ltb, if◌then◌else◌, some, Result, ok, ◌>>=◌}
use geevm.Prelude.{arith, length, get_elem?, append_assoc, le→ltb}
use geevm.Prelude.Int.{pos_part, neg_part, int_laws, eq_of_parts, ℤ, pos, ◌+ℤ◌, ◌-ℤ◌, ◌≤ℤ◌}
use geevm.Prelude.Int.{suc-sub-one, ltb_ℤ}
use geevm.Prelude.Words.{signed}
use geevm.Interpreter.Integers.{checked}
use geevm.Frame.{CallFrame, int32, pop_operand, set_position}
use geevm.Frame.Stack.{Holds, pop_operand-Holds_one}
use geevm.Frame.Reading.{IsAt, bytes4, moved, read_u1-IsAt, read_u4-IsAt}
use geevm.Interpreter.Jumps.{lookup_switch, table_switch, skip_padding, read_pairs, find_pair}
use geevm.Interpreter.Jumps.{offset_or, table_at, read_table, is_aligned, opcode_position, rounds}
use geevm.Interpreter.Jumps.Targets.{Arrives}

-- The padding up to a multiple of four.
pub record Padding (n : ℕ) (pad : List ℕ) : Type 0 where
  pub is_short : length pad < 4
  pub reaches : (n + length pad) % 4 ≡ 0

skip_padding-IsAt :
    (fuel n : ℕ) (pad rest : List ℕ) (f : CallFrame)
    → length pad < fuel
    → Padding n pad
    → IsAt n (pad ++ rest) f
    → (skip_padding fuel f ≡ ok (moved f (n + length pad)))
      × IsAt (n + length pad) rest (moved f (n + length pad))
unfolding skip_padding
skip_padding-IsAt zero n pad rest f h p at = elim h [ ]
skip_padding-IsAt (suc fuel) n [] rest f h p at =
    let aligned : is_aligned (pos n) ≡ true = ground (arith, p.reaches) in
    let same : f ≡ moved f (n + 0) =
      ap (λ p. record f { position = p }) (at.position_is ∙ ap pos (sym (add-zero n))) in
    (
      rw (skip_padding, at.position_is, aligned) (ap ok same),
      record { position_is = refl; rest_is = rw add-zero at.rest_is },
    )
skip_padding-IsAt (suc fuel) n (b ∷ pad) rest f h p at =
    let aligned : is_aligned (pos n) ≡ false = ground (arith, p.reaches, p.is_short) in
    let (e, at₁) = read_u1-IsAt n (pad ++ rest) f b at in
    let p₁ : Padding (n + 1) pad = record {
      is_short = omega (arith, p.is_short);
      reaches = omega (arith, p.reaches);
    } in
    let (e₂, at₂) =
      skip_padding-IsAt fuel (n + 1) pad rest (moved f (n + 1)) (omega arith) p₁ at₁ in
    let behind : n + 1 + length pad ≡ n + suc (length pad) = omega arith in
    (
      rw (skip_padding, at.position_is, aligned, e) (e₂ ∙ ap (λ m. ok (moved f m)) behind),
      rw behind at at₂,
    )

-- The bytes of the pairs of `lookupSwitch`, and of the offsets of `tableSwitch`.
abbrev pub pair_bytes : List (ℕ × ℕ) → List ℕ
pair_bytes [] = []
pair_bytes ((value, offset) ∷ pairs) = bytes4 value ++ (bytes4 offset ++ pair_bytes pairs)

abbrev pub table_bytes : List ℕ → List ℕ
table_bytes [] = []
table_bytes (offset ∷ table) = bytes4 offset ++ table_bytes table

-- Every number of the pairs or of the table is a word.
abbrev pub AllWords : List (ℕ × ℕ) → Type 0
AllWords [] = Unit
AllWords ((value, offset) ∷ pairs) = (value < 2 ^ 32) × (offset < 2 ^ 32) × AllWords pairs

abbrev pub AllOffsets : List ℕ → Type 0
AllOffsets [] = Unit
AllOffsets (offset ∷ table) = (offset < 2 ^ 32) × AllOffsets table

-- The offset that belongs to a key: that of the first pair with the key, or the default.
pub data Selects (key default_offset : ℕ) : List (ℕ × ℕ) → ℕ → Type 0 where
  no_match : Selects key default_offset [] default_offset
  first_match :
      {offset : ℕ} {pairs : List (ℕ × ℕ)}
      → Selects key default_offset ((key, offset) ∷ pairs) offset
  later_match :
      {value offset o : ℕ} {pairs : List (ℕ × ℕ)}
      → value ≢ key
      → Selects key default_offset pairs o
      → Selects key default_offset ((value, offset) ∷ pairs) o

find_pair-Selects :
    (key d o : ℕ) (pairs : List (ℕ × ℕ))
    → Selects key d pairs o
    → offset_or (find_pair key pairs) d ≡ o
unfolding find_pair
find_pair-Selects key d o pairs no_match = refl
find_pair-Selects key d o ((_, _) ∷ _) (first_match {offset} {pairs}) = ground arith
find_pair-Selects key d _ ((_, _) ∷ _) (later_match {value} {offset} {o} {pairs} ne s) =
    ground (arith, find_pair-Selects key d o pairs s)

read_pairs-IsAt :
    (pairs : List (ℕ × ℕ)) (n : ℕ) (rest : List ℕ) (f : CallFrame)
    → AllWords pairs
    → IsAt n (pair_bytes pairs ++ rest) f
    → (m : ℕ) × (read_pairs (length pairs) f ≡ ok (pairs, moved f m))
unfolding read_pairs
read_pairs-IsAt [] n rest f words at =
    (n, ap (λ p. ok ([], record f { position = p })) at.position_is)
read_pairs-IsAt ((value, offset) ∷ pairs) n rest f (hv, ho, words) at =
    let (e₁, at₁) =
      read_u4-IsAt n _ f value hv
        (rw (append_assoc (bytes4 value), append_assoc (bytes4 offset)) at at) in
    let (e₂, at₂) = read_u4-IsAt (n + 4) _ (moved f (n + 4)) offset ho at₁ in
    let (m, e₃) = read_pairs-IsAt pairs (n + 4 + 4) rest (moved f (n + 4 + 4)) words at₂ in
    (m, rw (e₁, e₂, e₃) refl)

read_table-IsAt :
    (table : List ℕ) (n : ℕ) (rest : List ℕ) (f : CallFrame)
    → AllOffsets table
    → IsAt n (table_bytes table ++ rest) f
    → (m : ℕ) × (read_table (length table) f ≡ ok (table, moved f m))
unfolding read_table
read_table-IsAt [] n rest f words at =
    (n, ap (λ p. ok ([], record f { position = p })) at.position_is)
read_table-IsAt (offset ∷ table) n rest f (ho, words) at =
    let (e₁, at₁) = read_u4-IsAt n _ f offset ho (rw (append_assoc (bytes4 offset)) at at) in
    let (m, e₂) = read_table-IsAt table (n + 4) rest (moved f (n + 4)) words at₁ in
    (m, rw (e₁, e₂) refl)

-- The key is popped behind the tables.
pop_key :
    (f : CallFrame) (m key : ℕ) (xs : List ℕ) (target : ℤ)
    → Holds f (key ∷ xs) f
    → (f' : CallFrame) × (pop_operand int32 (moved f m) ≡ ok (key % 2 ^ 32, f'))
      × Arrives f xs target (set_position target f')
unfolding set_position
pop_key f m key xs target h =
    let h' : Holds (moved f m) (key ∷ xs) (moved f m) = record {
      slots_are = h.slots_are;
      depth = h.depth;
      bounded = h.bounded;
      capacity = h.capacity;
      locals_kept = refl;
      position_kept = refl;
      code_kept = refl;
    } in
    let (f', e, h'') = pop_operand-Holds_one int32 key xs (moved f m) refl h' in
    (
      f',
      e,
      record {
        slots_are = h''.slots_are;
        position_is = refl;
        locals_kept = h''.locals_kept;
        code_kept = h''.code_kept;
      },
    )

-- The offset that belongs to an index: that of the table inside its range, or the default.
pub data Picks (index low : ℤ) (default_offset : ℕ) (table : List ℕ) : ℕ → Type 0 where
  inside :
      (i : ℕ) {o : ℕ}
      → index ≡ low +ℤ pos i
      → get_elem? table i ≡ some o
      → Picks index low default_offset table o
  below :
      suc (pos_part index + neg_part low) ≤ pos_part low + neg_part index
      → Picks index low default_offset table default_offset
  above : low +ℤ pos (length table) ≤ℤ index → Picks index low default_offset table default_offset

get_elem?-lt : (xs : List ℕ) (i x : ℕ) → get_elem? xs i ≡ some x → i < length xs
get_elem?-lt [] i x h = cc
get_elem?-lt (y ∷ xs) zero x h = omega arith
get_elem?-lt (y ∷ xs) (suc i) x h = omega (arith, get_elem?-lt xs i x h)

or_true : (b : Bool) → (b || true) ≡ true
or_true true = refl
or_true false = refl

-- Where `table_switch` goes after it has read its tables.
abbrev pick : ℤ → ℤ → ℤ → ℕ → List ℕ → Result ℕ
pick index low high d table =
    if ltb_ℤ index low || ltb_ℤ high index then ok d else table_at table (index -ℤ low)

pick-Picks :
    (index low high : ℤ) (d o : ℕ) (table : List ℕ)
    → high +ℤ pos 1 ≡ low +ℤ pos (length table)
    → Picks index low d table o
    → pick index low high d table ≡ ok o
pick-Picks index low high d o table span (inside i e h) =
    let lt = get_elem?-lt table i o h in
    let not_below : ltb_ℤ index low ≡ false =
      le→ltb _ _ (omega (int_laws, ap pos_part e, ap neg_part e)) in
    let not_above : ltb_ℤ high index ≡ false =
      le→ltb _ _
        (omega (int_laws, ap pos_part e, ap neg_part e, ap pos_part span, ap neg_part span, lt)) in
    let at : index -ℤ low ≡ pos i =
      eq_of_parts _ _ (omega (int_laws, ap pos_part e, ap neg_part e)) in
    rw (not_below, not_above, at, table_at, h) refl
pick-Picks index low high d _ table span (below h) = rw (lt→ltb _ _ h) refl
pick-Picks index low high d _ table span (above h) =
    let is_above : ltb_ℤ high index ≡ true =
      lt→ltb _ _ (omega (int_laws, ap pos_part span, ap neg_part span, h)) in
    rw (is_above, or_true (ltb_ℤ index low)) refl

module _ (n : ℕ) (pad xs rest : List ℕ) (d key : ℕ) (f : CallFrame) where
  -- `lookup_switch` with its opcode at `n`, up to three bytes of padding, the default offset `d` and
  -- fewer than 2 ^ 31 pairs: it pops the key and goes to its own position plus the offset that the
  -- first pair with the key selects, or the default if there is none, read as a signed 32-bit number.
  pub lookup_switch-Arrives :
      (pairs : List (ℕ × ℕ)) (o : ℕ)
      → Padding (suc n) pad
      → d < 2 ^ 32
      → length pairs < 2 ^ 31
      → AllWords pairs
      → IsAt (suc n) (pad ++ (bytes4 d ++ (bytes4 (length pairs) ++ (pair_bytes pairs ++ rest)))) f
      → Holds f (key ∷ xs) f
      → Selects (key % 2 ^ 32) d pairs o
      → (f' : CallFrame) × (lookup_switch f ≡ ok f') × Arrives f xs (pos n +ℤ signed 32 o) f'
  unfolding lookup_switch
  lookup_switch-Arrives pairs o p hd hl words at h s =
      let k = suc n + length pad in
      let (e₁, at₁) = skip_padding-IsAt 4 (suc n) pad _ f p.is_short p at in
      let (e₂, at₂) = read_u4-IsAt k _ (moved f k) d hd at₁ in
      let (e₃, at₃) = read_u4-IsAt (k + 4) _ (moved f (k + 4)) (length pairs) (omega arith) at₂ in
      let (m, e₄) = read_pairs-IsAt pairs (k + 4 + 4) rest (moved f (k + 4 + 4)) words at₃ in
      let count : rounds (signed 32 (length pairs)) ≡ length pairs = ground arith in
      let (f', e₅, arrives) = pop_key f m key xs (pos n +ℤ signed 32 o) h in
      let start : opcode_position f ≡ pos n = rw at.position_is (suc-sub-one n) in
      (
        set_position (pos n +ℤ signed 32 o) f',
        rw (e₁, e₂, e₃, count, e₄, e₅, start, find_pair-Selects _ d o pairs s),
        arrives,
      )

-- A continuation after both branches, or after each.
if-bind :
    (c : Bool) (d o : ℕ) (t : Result ℕ) (g : ℕ → CallFrame)
    → (if c then ok d else t) ≡ ok o
    → (if c then ok (g d) else t >>= λ x. ok (g x)) ≡ ok (g o)
if-bind true d o t g h = cc
if-bind false d o t g h = rw h refl

-- The number of entries of the table, computed from its bounds.
count_entries :
    (low high : ℕ) (k : ℕ)
    → signed 32 high ≡ signed 32 low +ℤ pos k
    → suc k < 2 ^ 31
    → (ltb_ℤ (signed 32 high) (signed 32 low) ≡ false)
      × (checked 32 (signed 32 high -ℤ signed 32 low) ≡ ok k)
      × (checked 32 (signed 32 k +ℤ pos 1) ≡ ok (suc k))
      × (rounds (signed 32 (suc k)) ≡ suc k)
unfolding checked
count_entries low high k e h =
    let difference : signed 32 high -ℤ signed 32 low ≡ pos k =
      eq_of_parts _ _ (omega (int_laws, ap pos_part e, ap neg_part e)) in
    let small : signed 32 k ≡ pos k = ground arith in
    let next : pos k +ℤ pos 1 ≡ pos (suc k) = eq_of_parts _ _ (omega int_laws) in
    (
      le→ltb _ _ (omega (int_laws, ap pos_part e, ap neg_part e)),
      rw difference (ground arith),
      rw (small, next) (ground arith),
      ground arith,
    )

-- `table_switch` with its opcode at `n`, up to three bytes of padding, the default offset `d`, the
-- bounds `low` and `high` and as many offsets as the bounds have indices, fewer than 2 ^ 31: it pops
-- the index and goes to its own position plus the offset of the table at the index, or the default
-- where the index is out of bounds, read as a signed 32-bit number.
pub table_switch-Arrives :
    (n : ℕ) (pad xs rest : List ℕ) (d low high index o first : ℕ) (table : List ℕ) (f : CallFrame)
    → Padding (suc n) pad
    → (d < 2 ^ 32) × (low < 2 ^ 32) × (high < 2 ^ 32)
    → signed 32 high ≡ signed 32 low +ℤ pos (length table)
    → suc (length table) < 2 ^ 31
    → AllOffsets (first ∷ table)
    → IsAt
        (suc n)
        (pad
          ++ (bytes4 d ++ (bytes4 low ++ (bytes4 high ++ (table_bytes (first ∷ table) ++ rest)))))
        f
    → Holds f (index ∷ xs) f
    → Picks (signed 32 (index % 2 ^ 32)) (signed 32 low) d (first ∷ table) o
    → (f' : CallFrame) × (table_switch f ≡ ok f') × Arrives f xs (pos n +ℤ signed 32 o) f'
unfolding table_switch
table_switch-Arrives n pad xs rest d low high index o first table f p (hd, hlow, hhigh) span hl
      words at h s =
    let k = suc n + length pad in
    let (e₁, at₁) = skip_padding-IsAt 4 (suc n) pad _ f p.is_short p at in
    let (e₂, at₂) = read_u4-IsAt k _ (moved f k) d hd at₁ in
    let (e₃, at₃) = read_u4-IsAt (k + 4) _ (moved f (k + 4)) low hlow at₂ in
    let (e₄, at₄) = read_u4-IsAt (k + 4 + 4) _ (moved f (k + 4 + 4)) high hhigh at₃ in
    let (e₅, e₆, e₇, e₈) = count_entries low high (length table) span hl in
    let (m, e₉) = read_table-IsAt (first ∷ table) _ rest (moved f (k + 4 + 4 + 4)) words at₄ in
    let (f', e₁₀, arrives) = pop_key f m index xs (pos n +ℤ signed 32 o) h in
    let start : opcode_position f ≡ pos n = rw at.position_is (suc-sub-one n) in
    let end : signed 32 high +ℤ pos 1 ≡ signed 32 low +ℤ pos (suc (length table)) =
      eq_of_parts _ _ (omega (int_laws, ap pos_part span, ap neg_part span)) in
    let picked = pick-Picks _ _ (signed 32 high) d o (first ∷ table) end s in
    (
      set_position (pos n +ℤ signed 32 o) f',
      rw (e₁, e₂, e₃, e₄, e₅, e₆, e₇, e₈, e₉, e₁₀, start)
          (if-bind _ d o _ (λ x. set_position (pos n +ℤ signed 32 x) f') picked),
      arrives,
    )
