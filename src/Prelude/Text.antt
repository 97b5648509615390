-- ===== src/Prelude/Text.antt =====
-- `JString` of src/common/JvmTypes.h: a sequence of UTF-16 code units.
use Prim.Native.Nat.{ℕ}
use Prim.Native.Char.{code}
use Prim.Native.String.{String}
use mathlib.Core.List.{List, [], ◌∷◌}

abbrev pub JString : Type 0
JString = List ℕ

-- The code units of a literal such as `u"java/lang/Object"`: its code points, where it is ASCII.
abbrev pub codes : String → JString
codes String.[] = []
codes (String.◌∷◌ c s) = code c ∷ codes s
