-- ===== src/StackMap/Frames.antt =====
-- The frames that `StackMap::parseStackMap` of src/vm/StackMap.cpp reads from a table that is written
-- entry by entry.
use geevm.Prelude.{ℕ, ◌+◌, ◌-◌, ◌^◌, ◌≤◌, ◌<◌, ◌≡◌, ◌≢◌, refl, false, List, [], ◌∷◌, ◌++◌, map}
use geevm.Prelude.{length, take, ok, arith, ◌==◌, append_assoc}
use geevm.Frame.Reading.{bytes2}
use geevm.ByteStream.{ByteStream, skip}
use geevm.ByteStream.Reading.{Left, advanced, read_u1-Left, skip-Left}
use geevm.StackMap.{VerificationTypeInfo, object_type, uninitialized_type, read_type_info}
use geevm.StackMap.{read_type_infos}

-- A type in the table: that of an object comes with the index of its class, an uninitialized one with
-- the position of the instruction that makes it.
pub data TypeInfo : Type 0 where
  plain : ℕ → TypeInfo
  object : ℕ → TypeInfo
  uninitialized : ℕ → TypeInfo

abbrev pub kind_of : TypeInfo → VerificationTypeInfo
kind_of (plain k) = k
kind_of (object index) = object_type
kind_of (uninitialized offset) = uninitialized_type

abbrev pub type_bytes : TypeInfo → List ℕ
type_bytes (plain k) = k ∷ []
type_bytes (object index) = object_type ∷ bytes2 index
type_bytes (uninitialized offset) = uninitialized_type ∷ bytes2 offset

abbrev pub IsTypeInfo : TypeInfo → Type 0
IsTypeInfo (plain k) = (k ≢ object_type) × (k ≢ uninitialized_type)
IsTypeInfo _ = Unit

abbrev pub all_bytes : List TypeInfo → List ℕ
all_bytes [] = []
all_bytes (t ∷ ts) = type_bytes t ++ all_bytes ts

abbrev pub AreTypeInfos : List TypeInfo → Type 0
AreTypeInfos [] = Unit
AreTypeInfos (t ∷ ts) = IsTypeInfo t × AreTypeInfos ts

pub read_type_info-Left :
    (t : TypeInfo) (rest : List ℕ) (s : ByteStream)
    → IsTypeInfo t
    → Left (type_bytes t ++ rest) s
    → (s' : ByteStream) × (read_type_info s ≡ ok (kind_of t, s')) × Left rest s'
unfolding read_type_info
read_type_info-Left (plain k) rest s (not_object, not_uninitialized) h =
    let (e, h') = read_u1-Left rest s k h in
    let e₁ : (k == 7) ≡ false = ground arith in
    let e₂ : (k == 8) ≡ false = ground arith in (advanced s 1, rw (e, e₁, e₂) refl, h')
read_type_info-Left (object index) rest s valid h =
    let (e, h') = read_u1-Left (bytes2 index ++ rest) s 7 h in
    (skip 2 (advanced s 1), rw e refl, skip-Left rest (advanced s 1) (bytes2 index) h')
read_type_info-Left (uninitialized offset) rest s valid h =
    let (e, h') = read_u1-Left (bytes2 offset ++ rest) s 8 h in
    (skip 2 (advanced s 1), rw e refl, skip-Left rest (advanced s 1) (bytes2 offset) h')

pub read_type_infos-Left :
    (ts : List TypeInfo) (rest : List ℕ) (s : ByteStream)
    → AreTypeInfos ts
    → Left (all_bytes ts ++ rest) s
    → (s' : ByteStream) × (read_type_infos (length ts) s ≡ ok (map kind_of ts, s')) × Left rest s'
unfolding read_type_infos
read_type_infos-Left [] rest s valid h = (s, refl, h)
read_type_infos-Left (t ∷ ts) rest s (valid, valids) h =
    let (s₁, e₁, h₁) =
      read_type_info-Left t (all_bytes ts ++ rest) s valid
        (rw (append_assoc (type_bytes t)) at h) in
    let (s₂, e₂, h₂) = read_type_infos-Left ts rest s₁ valids h₁ in (s₂, rw (e₁, e₂) refl, h₂)

-- The entries of the table, by the names of the class file format.
pub data Entry : Type 0 where
  same : ℕ → Entry
  same_locals_one_stack : ℕ → TypeInfo → Entry
  same_locals_one_stack_extended : ℕ → TypeInfo → Entry
  chopped : ℕ → ℕ → Entry
  same_extended : ℕ → Entry
  appended : List TypeInfo → ℕ → Entry
  full : ℕ → List TypeInfo → List TypeInfo → Entry

-- The `offset_delta` of an entry.
abbrev pub delta_of : Entry → ℕ
delta_of (same delta) = delta
delta_of (same_locals_one_stack delta t) = delta
delta_of (same_locals_one_stack_extended delta t) = delta
delta_of (chopped count delta) = delta
delta_of (same_extended delta) = delta
delta_of (appended ts delta) = delta
delta_of (full delta locals stack) = delta

abbrev pub entry_bytes : Entry → List ℕ
entry_bytes (same delta) = delta ∷ []
entry_bytes (same_locals_one_stack delta t) = (delta + 64) ∷ type_bytes t
entry_bytes (same_locals_one_stack_extended delta t) = 247 ∷ (bytes2 delta ++ type_bytes t)
entry_bytes (chopped count delta) = (251 - count) ∷ bytes2 delta
entry_bytes (same_extended delta) = 251 ∷ bytes2 delta
entry_bytes (appended ts delta) = (251 + length ts) ∷ (bytes2 delta ++ all_bytes ts)
entry_bytes (full delta locals stack) =
    255
    ∷ (bytes2 delta
        ++ (bytes2 (length locals)
            ++ (all_bytes locals ++ (bytes2 (length stack) ++ all_bytes stack))))

-- An entry that can be written behind a frame with these local variables.
abbrev pub IsEntry : Entry → List VerificationTypeInfo → Type 0
IsEntry (same delta) previous = delta ≤ 63
IsEntry (same_locals_one_stack delta t) previous = (delta ≤ 63) × IsTypeInfo t
IsEntry (same_locals_one_stack_extended delta t) previous = (delta < 2 ^ 16) × IsTypeInfo t
IsEntry (chopped count delta) previous =
    (1 ≤ count) × (count ≤ 3) × (count ≤ length previous) × (delta < 2 ^ 16)
IsEntry (same_extended delta) previous = delta < 2 ^ 16
IsEntry (appended ts delta) previous =
    (1 ≤ length ts) × (length ts ≤ 3) × (delta < 2 ^ 16) × AreTypeInfos ts
IsEntry (full delta locals stack) previous =
    (delta < 2 ^ 16)
    × (length locals < 2 ^ 16)
    × (length stack < 2 ^ 16)
    × AreTypeInfos locals
    × AreTypeInfos stack

-- What an entry says: the local variables behind those of the frame before, and the stack.
abbrev pub locals_after : Entry → List VerificationTypeInfo → List VerificationTypeInfo
locals_after (chopped count delta) previous = take (length previous - count) previous
locals_after (appended ts delta) previous = previous ++ map kind_of ts
locals_after (full delta locals stack) previous = map kind_of locals
locals_after _ previous = previous

abbrev pub stack_after : Entry → List VerificationTypeInfo
stack_after (same_locals_one_stack delta t) = kind_of t ∷ []
stack_after (same_locals_one_stack_extended delta t) = kind_of t ∷ []
stack_after (full delta locals stack) = map kind_of stack
stack_after _ = []
