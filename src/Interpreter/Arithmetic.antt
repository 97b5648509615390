-- ===== src/Interpreter/Arithmetic.antt =====
-- The arithmetic instructions of src/vm/Interpreter.cpp.
pub mod InPlace
pub mod Quotients
pub mod Comparisons
use geevm.Prelude.{ℕ, zero, suc, ◌+◌, ◌-◌, ◌*◌, ◌/◌, ◌%◌, ◌^◌, ◌≡◌, Bool, true, false, ◌==◌, ◌&&◌}
use geevm.Prelude.{set, if◌then◌else◌, leb, Result, ok, fault, ◌>>=◌, ◌>>◌, guard, undefined}
use geevm.Prelude.{bit_and}
use geevm.Prelude.Int.{ℤ, pos, negsuc, ltb_ℤ}
use geevm.Prelude.Text.{codes}
use geevm.Prelude.Words.{signed, pattern_of, sign_extend}
use geevm.Frame.{CallFrame, JvmType, int8, int16, int32, int64, char16, float32, float64, uint32}
use geevm.Frame.{reference, width, category_two, element, push_operand, pop_operand, top_of_stack}
use geevm.Frame.{load_value, store_value}
use geevm.Interpreter.Machine.{Machine, Runtime, Floats, on_frame, throw_new}
use geevm.Interpreter.Integers.{signed_div, signed_rem, signed_neg, signed_add}

-- How far below `topOfStack` the slot of the first operand is.
abbrev pub operand_offset : JvmType → ℕ
operand_offset t = if category_two t then 2 else 1

-- The two overloads of `simpleOp`: the second operand is popped, the first replaced in place.
unfoldable pub simple_op : JvmType → (ℕ → ℕ → ℕ) → CallFrame → Result CallFrame
simple_op t op f = do
  (value2, f) ← pop_operand t f
  top ← top_of_stack f
  guard (leb (operand_offset t) top) undefined
  value1 ← element f.operand_stack (top - operand_offset t)
  ok (record f {
    operand_stack = set f.operand_stack (top - operand_offset t) (op (value1 % 2 ^ width t) value2);
  })

-- `JavaIntegerType`
abbrev pub is_integer : JvmType → Bool
is_integer int8 = true
is_integer int16 = true
is_integer int32 = true
is_integer int64 = true
is_integer _ = false

-- `div`: a zero divisor throws, and then the division goes on.
pub div : {W : Type 0} → Runtime W → Floats → JvmType → Machine W → Result (Machine W)
div rt fl t m = do
  (value2, f) ← pop_operand t m.frame
  (value1, f) ← pop_operand t f
  m ←
      if is_integer t && value2 == 0
      then throw_new rt (codes "java/lang/ArithmeticException") (codes "Divison by zero")
          (record m { frame = f })
      else ok (record m { frame = f })
  result ← if is_integer t then signed_div (width t) value1 value2 else ok (fl.div t value1 value2)
  on_frame (push_operand t result) m

pub rem : Floats → JvmType → CallFrame → Result CallFrame
rem fl t f = do
  (value2, f) ← pop_operand t f
  (value1, f) ← pop_operand t f
  result ← if is_integer t then signed_rem (width t) value1 value2 else ok (fl.fmod t value1 value2)
  push_operand t result f

pub neg : Floats → JvmType → CallFrame → Result CallFrame
neg fl t f = do
  (value, f) ← pop_operand t f
  result ← if is_integer t then signed_neg (width t) value else ok (fl.neg t value)
  push_operand t result f

-- `target >> offset`, on a signed or an unsigned `ShiftType` of the width of `t`.
abbrev pub shift_right : Bool → ℕ → ℕ → ℕ → ℕ
shift_right true w x k =
    pattern_of w (elim (signed w x) [ pos n ↦ pos (n / 2 ^ k) | negsuc n ↦ negsuc (n / 2 ^ k) ])
shift_right false w x k = x / 2 ^ k

-- `shift<T, ShiftType, OffsetMask, IsLeft>`; the flag before the mask says that `ShiftType` is signed.
unfoldable pub shift : JvmType → Bool → ℕ → Bool → CallFrame → Result CallFrame
shift t is_signed offset_mask is_left f = do
  (value2, f) ← pop_operand int32 f
  (value1, f) ← pop_operand t f
  let offset = bit_and value2 offset_mask
  push_operand t
      (if is_left
        then value1 * 2 ^ offset % 2 ^ width t
        else shift_right is_signed (width t) value1 offset)
      f

-- `StoredAsInt`
abbrev pub stored_as_int : JvmType → Bool
stored_as_int int8 = true
stored_as_int int16 = true
stored_as_int char16 = true
stored_as_int _ = false

-- The value of an integer type.
abbrev pub value_of : JvmType → ℕ → ℤ
value_of char16 x = pos x
value_of t x = signed (width t) x

-- `static_cast<TargetTy>` of an integer; to `float` and `double` it rounds.
abbrev pub cast_from_int : Floats → JvmType → ℤ → ℕ
cast_from_int fl float32 z = fl.of_int float32 z
cast_from_int fl float64 z = fl.of_int float64 z
cast_from_int fl t z = pattern_of (width t) z

-- `castInteger<SourceTy, TargetTy>`
unfoldable pub cast_integer : Floats → JvmType → JvmType → CallFrame → Result CallFrame
cast_integer fl source target f = do
  (value, f) ← pop_operand source f
  let result = cast_from_int fl target (value_of source value)
  if stored_as_int target
      then push_operand int32 (pattern_of 32 (value_of target result)) f
      else push_operand target result f

-- `std::numeric_limits<TargetTy>`, of a signed type of width `w`
abbrev pub max_value : ℕ → ℤ
max_value w = pos (2 ^ (w - 1) - 1)

abbrev pub min_value : ℕ → ℤ
min_value w = negsuc (2 ^ (w - 1) - 1)

-- The conversion that `castFloatToInt` makes.
float_to_int : Floats → JvmType → ℕ → ℕ → ℤ
float_to_int fl source w value =
    if fl.is_nan source value
    then pos 0
    else let zero_value = fl.of_int source (pos 0) in
      let truncated =
        if fl.less source zero_value value then fl.floor source value else fl.ceil source value in
      if fl.less source truncated (fl.of_int source (max_value w))
        && fl.less source (fl.of_int source (min_value w)) truncated
      then fl.to_int source truncated
      else if fl.less source truncated zero_value
      then min_value w
      else max_value w

-- `castFloatToInt<SourceTy, TargetTy>`
unfoldable pub cast_float_to_int : Floats → JvmType → JvmType → CallFrame → Result CallFrame
unfolding float_to_int
cast_float_to_int fl source target f = do
  (value, f) ← pop_operand source f
  push_operand target (pattern_of (width target) (float_to_int fl source (width target) value)) f

-- F2D and D2F
unfoldable pub convert_float : Floats → JvmType → JvmType → CallFrame → Result CallFrame
convert_float fl source target f = do
  (value, f) ← pop_operand source f
  push_operand target (fl.convert source target value) f

-- `<` and `==` of the type
abbrev pub less : Floats → JvmType → ℕ → ℕ → Bool
less fl float32 a b = fl.less float32 a b
less fl float64 a b = fl.less float64 a b
less fl t a b = ltb_ℤ (value_of t a) (value_of t b)

abbrev pub equal : Floats → JvmType → ℕ → ℕ → Bool
equal fl float32 a b = fl.equal float32 a b
equal fl float64 a b = fl.equal float64 a b
equal fl t a b = a == b

-- `compare<T, NotEqualValue>`
unfoldable pub compare_op : Floats → JvmType → ℤ → CallFrame → Result CallFrame
compare_op fl t not_equal_value f = do
  (value2, f) ← pop_operand t f
  (value1, f) ← pop_operand t f
  push_operand int32
      (pattern_of 32 (
        if less fl t value2 value1
        then pos 1
        else if equal fl t value1 value2
        then pos 0
        else if less fl t value1 value2
        then negsuc 0
        else not_equal_value))
      f

-- `IINC` and its wide form: `loadValue<int32_t>(index) + constant`, on `int`
unfoldable pub increment : ℕ → ℕ → CallFrame → Result CallFrame
increment index constant f = do
  value ← load_value int32 index f
  sum ← signed_add 32 value constant
  store_value int32 index sum f
