-- ===== src/Encoding/Tests.antt =====
-- A text with a code point of each length in src/common/Encoding.cpp.
use geevm.Prelude.{◌≡◌, inl, inr, [], ◌∷◌, ok, arith}
use geevm.Encoding.{decode_jvm_utf8}
use geevm.Encoding.RoundTrip.{decode_jvm_utf8-modified_utf8}

-- Null, `A`, two bytes, three, and a pair of surrogates.
decode_jvm_utf8-modified_utf8_example :
    decode_jvm_utf8
      (192 ∷ 128 ∷ 65 ∷ 195 ∷ 169 ∷ 226 ∷ 130 ∷ 172 ∷ 237 ∷ 160 ∷ 189 ∷ 237 ∷ 184 ∷ 128 ∷ [])
    ≡ ok (0 ∷ 65 ∷ 195 ∷ 169 ∷ 226 ∷ 130 ∷ 172 ∷ 240 ∷ 159 ∷ 152 ∷ 128 ∷ [])
decode_jvm_utf8-modified_utf8_example =
    decode_jvm_utf8-modified_utf8 (0 ∷ 65 ∷ 233 ∷ 8364 ∷ 128512 ∷ [])
      (
        inl (omega arith),
        (inl (omega arith), (inl (omega arith), (inl (omega arith), (inr (omega arith), tt)))),
      )
      (omega arith)
