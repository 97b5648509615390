-- ===== src/Encoding.antt =====
-- `decodeJvmUtf8` of src/common/Encoding.cpp, from the modified UTF-8 of class files to UTF-8. A test of the
-- upper bits of a byte is one of its quotient by the weight of the lowest of them.
pub mod RoundTrip
mod Tests
use geevm.Prelude.{ℕ, zero, suc, ◌+◌, ◌*◌, ◌/◌, ◌%◌, Bool, true, false, List, [], ◌∷◌, ◌++◌, drop}
use geevm.Prelude.{◌==◌, if◌then◌else◌, Result, ok, fault, ◌>>=◌, undefined, panic}
use geevm.Prelude.{length, ltb, ◌^◌}
use geevm.Frame.{element}

-- `&&` on tests that read bytes, from left to right.
abbrev pub and_then : Bool → Result Bool → Result Bool
and_then false test = ok false
and_then true test = test

-- The upper bits of the byte at an index, with the lower ones shifted out.
abbrev pub upper_bits : List ℕ → ℕ → ℕ → ℕ → Result Bool
upper_bits bytes i weight bits = do b ← element bytes i; ok (b / weight == bits)

abbrev pub is_two_bytes : List ℕ → Result Bool
is_two_bytes bytes = do test ← upper_bits bytes 0 32 6; and_then test (upper_bits bytes 1 64 2)

abbrev pub is_three_bytes : List ℕ → Result Bool
is_three_bytes bytes = do
  test ← upper_bits bytes 0 16 14
  test ← and_then test (upper_bits bytes 1 64 2)
  and_then test (upper_bits bytes 2 64 2)

-- The negation of the test that tells three bytes from six.
abbrev pub is_six_bytes : List ℕ → Result Bool
is_six_bytes bytes = do
  test ← upper_bits bytes 0 1 237
  test ← and_then test (upper_bits bytes 1 16 10)
  test ← and_then test (upper_bits bytes 2 128 1)
  test ← and_then test (upper_bits bytes 3 1 237)
  test ← and_then test (upper_bits bytes 4 16 11)
  and_then test (upper_bits bytes 5 64 2)

-- What a round puts into the buffer, and how many bytes it takes.
abbrev pub Round : Type 0
Round = Result (List ℕ × ℕ)

abbrev pub decode_two : List ℕ → Round
decode_two bytes = do
  b0 ← element bytes 0
  b1 ← element bytes 1
  let code_point = b0 % 32 * 64 + b1 % 64
  ok (if code_point == 0 then 0 ∷ [] else b0 ∷ b1 ∷ [], 2)

abbrev pub decode_three : List ℕ → Round
decode_three bytes = do
  b0 ← element bytes 0
  b1 ← element bytes 1
  b2 ← element bytes 2
  ok (b0 ∷ b1 ∷ b2 ∷ [], 3)

-- The code point is below 2 ^ 21, so its shares have no bit in common with the marks.
abbrev pub decode_six : List ℕ → Round
decode_six bytes = do
  b1 ← element bytes 1
  b2 ← element bytes 2
  b4 ← element bytes 4
  b5 ← element bytes 5
  let code_point = 65536 + b1 % 16 * 65536 + b2 % 64 * 1024 + b4 % 16 * 64 + b5 % 64
  ok (
    (240 + code_point / 262144)
        ∷ (128 + code_point / 4096 % 64)
        ∷ (128 + code_point / 64 % 64)
        ∷ (128 + code_point % 64)
        ∷ [],
    6,
  )

-- The rounds for a byte with the upper bit set.
abbrev pub decode_long : List ℕ → Bool → Round
decode_long bytes true = decode_two bytes
decode_long bytes false = do
  three ← is_three_bytes bytes
  if three
      then (do six ← is_six_bytes bytes; if six then decode_six bytes else decode_three bytes)
      else fault panic

-- The body of the loop.
abbrev pub decode_round : List ℕ → Round
decode_round bytes = do
  one ← upper_bits bytes 0 128 0
  if one
      then (do b0 ← element bytes 0; ok (b0 ∷ [], 1))
      else (do two ← is_two_bytes bytes; decode_long bytes two)

-- The loop of `decodeJvmUtf8` from the index `i` on, which is a `types::u2`: it wraps around at 65536. A
-- round reads the bytes from the index on, at indices that are promoted to `int`. On fuel.
unfoldable pub decode_from : ℕ → List ℕ → ℕ → Result (List ℕ)
decode_from zero bytes i = if ltb i (length bytes) then fault undefined else ok []
decode_from (suc fuel) bytes i = elim (ltb i (length bytes)) [
  | false ↦ ok []
  | true ↦ do
    (buffer, count) ← decode_round (drop i bytes)
    rest ← decode_from fuel bytes ((i + count) % 2 ^ 16)
    ok (buffer ++ rest)
]

-- `decodeJvmUtf8`: each round takes a byte at least, so as many rounds as bytes are enough where the index
-- does not wrap around.
unfoldable pub decode_jvm_utf8 : List ℕ → Result (List ℕ)
decode_jvm_utf8 bytes = decode_from (length bytes) bytes 0
