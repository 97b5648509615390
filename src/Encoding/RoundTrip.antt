-- ===== src/Encoding/RoundTrip.antt =====
-- That `decodeJvmUtf8` of src/common/Encoding.cpp takes the modified UTF-8 of a text to its UTF-8.
use native.Mathlib.Nat.{le_refl}
use geevm.Prelude.{append_assoc, lt→ltb, le→ltb, ◌^◌}
use geevm.Prelude.{ℕ, zero, suc, ◌+◌, ◌-◌, ◌/◌, ◌%◌, ◌≤◌, ◌<◌, ◌≡◌, refl, ◌⊎◌, inl, inr, List, []}
use geevm.Prelude.{◌∷◌, ◌++◌, length, drop, ok, arith, ltb, ◌==◌, if◌then◌else◌, Bool-cases, ◌>>=◌}
use geevm.Prelude.{ap, ap₂, sym, ◌∙◌, ==_iff, ltb→lt, true}
use geevm.Encoding.{decode_round, decode_from, decode_jvm_utf8}
use geevm.Prelude.{length-append}

-- A code point that is no surrogate.
abbrev pub IsScalar : ℕ → Type 0
IsScalar c = (c < 55296) ⊎ ((57344 ≤ c) × (c < 1114112))

abbrev pub two_bytes : ℕ → List ℕ
two_bytes c = (192 + c / 64) ∷ (128 + c % 64) ∷ []

abbrev pub three_bytes : ℕ → List ℕ
three_bytes c = (224 + c / 4096) ∷ (128 + c / 64 % 64) ∷ (128 + c % 64) ∷ []

abbrev pub four_bytes : ℕ → List ℕ
four_bytes c =
    (240 + c / 262144) ∷ (128 + c / 4096 % 64) ∷ (128 + c / 64 % 64) ∷ (128 + c % 64) ∷ []

-- Standard UTF-8.
abbrev pub utf8 : ℕ → List ℕ
utf8 c =
    if ltb c 128
    then c ∷ []
    else if ltb c 2048
    then two_bytes c
    else if ltb c 65536
    then three_bytes c
    else four_bytes c

abbrev pub surrogates : ℕ → List ℕ
surrogates c = three_bytes (55296 + (c - 65536) / 1024) ++ three_bytes (56320 + (c - 65536) % 1024)

-- Modified UTF-8: two bytes for the null code point, and two surrogates above 65535.
abbrev pub modified_utf8 : ℕ → List ℕ
modified_utf8 c =
    if c == 0
    then 192 ∷ 128 ∷ []
    else if ltb c 128
    then c ∷ []
    else if ltb c 2048
    then two_bytes c
    else if ltb c 65536
    then three_bytes c
    else surrogates c

abbrev pub all_bytes : (ℕ → List ℕ) → List ℕ → List ℕ
all_bytes f [] = []
all_bytes f (c ∷ cs) = f c ++ all_bytes f cs

abbrev pub AllScalar : List ℕ → Type 0
AllScalar [] = Unit
AllScalar (c ∷ cs) = IsScalar c × AllScalar cs

decode_round-one : (c : ℕ) (rest : List ℕ) → c < 128 → decode_round (c ∷ rest) ≡ ok (c ∷ [], 1)
decode_round-one c rest h =
    let e : (c / 128 == 0) ≡ true = ground arith in rw (decode_round, e) refl

decode_round-two :
    (c : ℕ) (rest : List ℕ)
    → 128 ≤ c
    → c < 2048
    → decode_round (two_bytes c ++ rest) ≡ ok (two_bytes c, 2)
decode_round-two c rest low high = ground arith

decode_round-three :
    (c : ℕ) (rest : List ℕ)
    → 2048 ≤ c
    → c < 65536
    → IsScalar c
    → decode_round (three_bytes c ++ rest) ≡ ok (three_bytes c, 3)
decode_round-three c rest low high scalar = ground arith

decode_round-six :
    (c : ℕ) (rest : List ℕ)
    → 65536 ≤ c
    → c < 1114112
    → decode_round (surrogates c ++ rest) ≡ ok (four_bytes c, 6)
decode_round-six c rest low high = ground arith

-- A round for a code point whose bytes are known.
round_as :
    (c : ℕ) (rest m u : List ℕ)
    → modified_utf8 c ≡ m
    → utf8 c ≡ u
    → decode_round (m ++ rest) ≡ ok (u, length m)
    → decode_round (modified_utf8 c ++ rest) ≡ ok (utf8 c, length (modified_utf8 c))
round_as c rest m u m_is u_is t =
    ap (λ m. decode_round (m ++ rest)) m_is ∙ t ∙ sym (ap₂ (λ u m. ok (u, length m)) u_is m_is)

-- The round for one code point.
decode_round-modified_utf8 :
    (c : ℕ) (rest : List ℕ)
    → IsScalar c
    → decode_round (modified_utf8 c ++ rest) ≡ ok (utf8 c, length (modified_utf8 c))
decode_round-modified_utf8 c rest scalar = elim (Bool-cases (c == 0)) [
  | inl null ↦
      let small : ltb c 128 ≡ true = ground arith in
      round_as c rest (192 ∷ 128 ∷ []) (0 ∷ []) (rw (modified_utf8, null) refl)
        (rw (utf8, small) (ap (λ n. n ∷ []) ((==_iff c 0).0 null))) refl
  | inr not_null ↦ elim (Bool-cases (ltb c 128)) [
    | inl one ↦
        round_as c rest (c ∷ []) (c ∷ []) (rw (modified_utf8, not_null, one) refl)
          (rw (utf8, one) refl) (decode_round-one c rest (ltb→lt _ _ one))
    | inr above ↦ elim (Bool-cases (ltb c 2048)) [
      | inl two ↦
          round_as c rest (two_bytes c) (two_bytes c)
            (rw (modified_utf8, not_null, above, two) refl) (rw (utf8, above, two) refl)
            (decode_round-two c rest (ground arith) (ltb→lt _ _ two))
      | inr above' ↦ elim (Bool-cases (ltb c 65536)) [
        | inl three ↦
            round_as c rest (three_bytes c) (three_bytes c)
              (rw (modified_utf8, not_null, above, above', three) refl)
              (rw (utf8, above, above', three) refl)
              (decode_round-three c rest (ground arith) (ltb→lt _ _ three) scalar)
        | inr above'' ↦
            round_as c rest (surrogates c) (four_bytes c)
              (rw (modified_utf8, not_null, above, above', above'') refl)
              (rw (utf8, above, above', above'') refl)
              (decode_round-six c rest (ground arith) (ground arith))
      ]
    ]
  ]
]

drop-length : (xs ys : List ℕ) → drop (length xs) (xs ++ ys) ≡ ys
drop-length [] ys = refl
drop-length (x ∷ xs) ys = drop-length xs ys

length-modified_utf8 : (c : ℕ) → 1 ≤ length (modified_utf8 c)
length-modified_utf8 c = ground arith

-- What a round leaves: the index behind the bytes `m` of a code point.
decode_from-round :
    (fuel : ℕ) (before m u rest : List ℕ)
    → 1 ≤ length m
    → length (before ++ (m ++ rest)) < 2 ^ 16
    → decode_round (m ++ rest) ≡ ok (u, length m)
    → decode_from (suc fuel) (before ++ (m ++ rest)) (length before)
      ≡ decode_from fuel ((before ++ m) ++ rest) (length (before ++ m)) >>= λ more. ok (u ++ more)
unfolding decode_from
decode_from-round fuel before m u rest some_byte small e =
    let n = length-append before (m ++ rest) in
    let n' = length-append m rest in
    let i : (length before + length m) % 2 ^ 16 ≡ length (before ++ m) =
      omega (arith, length-append before m) in
    let bytes : before ++ (m ++ rest) ≡ (before ++ m) ++ rest = sym (append_assoc before m rest) in
    rw
      (
        decode_from,
        lt→ltb (length before) (length (before ++ (m ++ rest))) (omega arith),
        drop-length before (m ++ rest),
        e,
        i,
      )
      (ap (λ bs. decode_from fuel bs (length (before ++ m)) >>= λ more. ok (u ++ more)) bytes)

decode_from-end :
    (fuel : ℕ) (before : List ℕ) → decode_from fuel (before ++ []) (length before) ≡ ok []
unfolding decode_from
decode_from-end zero before =
    let n = length-append before [] in
    rw (decode_from, le→ltb (length before) (length (before ++ [])) (omega arith)) refl
decode_from-end (suc fuel) before =
    let n = length-append before [] in
    rw (decode_from, le→ltb (length before) (length (before ++ [])) (omega arith)) refl

-- From behind the bytes `before`.
decode_from-modified_utf8 :
    (fuel : ℕ) (before cs : List ℕ)
    → AllScalar cs
    → length (before ++ all_bytes modified_utf8 cs) < 2 ^ 16
    → length (all_bytes modified_utf8 cs) ≤ fuel
    → decode_from fuel (before ++ all_bytes modified_utf8 cs) (length before)
      ≡ ok (all_bytes utf8 cs)
decode_from-modified_utf8 fuel before [] all small enough = decode_from-end fuel before
decode_from-modified_utf8 zero before (c ∷ cs) all small enough =
    let some_byte = length-modified_utf8 c in
    absurd (omega (arith, length-append (modified_utf8 c) (all_bytes modified_utf8 cs)))
decode_from-modified_utf8 (suc fuel) before (c ∷ cs) (scalar, all) small enough =
    let rest = all_bytes modified_utf8 cs in
    let some_byte = length-modified_utf8 c in
    let n = length-append (modified_utf8 c) rest in
    let fewer : length rest ≤ fuel = omega arith in
    let same : length ((before ++ modified_utf8 c) ++ rest) < 2 ^ 16 =
      rw (append_assoc before (modified_utf8 c) rest) small in
    let again = decode_from-modified_utf8 fuel (before ++ modified_utf8 c) cs all same fewer in
    decode_from-round fuel before (modified_utf8 c) (utf8 c) rest some_byte small
      (decode_round-modified_utf8 c rest scalar)
    ∙ ap (λ r. r >>= λ more. ok (utf8 c ++ more)) again

-- For a text of code points that are no surrogates, whose modified UTF-8 is shorter than 65536 bytes,
-- `decode_jvm_utf8` returns, with the UTF-8 of the text.
pub decode_jvm_utf8-modified_utf8 :
    (cs : List ℕ)
    → AllScalar cs
    → length (all_bytes modified_utf8 cs) < 2 ^ 16
    → decode_jvm_utf8 (all_bytes modified_utf8 cs) ≡ ok (all_bytes utf8 cs)
unfolding decode_jvm_utf8
decode_jvm_utf8-modified_utf8 cs all small =
    decode_from-modified_utf8 (length (all_bytes modified_utf8 cs)) [] cs all small (le_refl _)
