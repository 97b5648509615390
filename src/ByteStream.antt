-- ===== src/ByteStream.antt =====
-- src/common/ByteStream.h: bytes and a position. Reading behind the end is undefined.
pub mod Reading
use geevm.Prelude.{ℕ, ◌+◌, ◌*◌, ◌^◌, List, Result, ok, ◌>>=◌}
use geevm.Frame.{element}

pub record ByteStream : Type 0 where
  pub bytes : List ℕ
  pub pos : ℕ

-- `ByteStream::ByteStream`
abbrev pub stream_of : List ℕ → ByteStream
stream_of bytes = record { bytes = bytes; pos = 0 }

unfoldable pub read_u1 : ByteStream → Result (ℕ × ByteStream)
read_u1 s = do b ← element s.bytes s.pos; ok (b, record s { pos = s.pos + 1 })

unfoldable pub read_u2 : ByteStream → Result (ℕ × ByteStream)
read_u2 s = do
  b₀ ← element s.bytes s.pos
  b₁ ← element s.bytes (s.pos + 1)
  ok (b₀ * 2 ^ 8 + b₁, record s { pos = s.pos + 2 })

unfoldable pub read_u4 : ByteStream → Result (ℕ × ByteStream)
read_u4 s = do
  b₀ ← element s.bytes s.pos
  b₁ ← element s.bytes (s.pos + 1)
  b₂ ← element s.bytes (s.pos + 2)
  b₃ ← element s.bytes (s.pos + 3)
  ok (b₀ * 2 ^ 24 + b₁ * 2 ^ 16 + b₂ * 2 ^ 8 + b₃, record s { pos = s.pos + 4 })

unfoldable pub skip : ℕ → ByteStream → ByteStream
skip count s = record s { pos = s.pos + count }
