-- ===== src/Decode/Shown.antt =====
-- What `printf` shows of a number, by the conversions of the C standard: the specification of the
-- `switch` in `decodeNonStringFmt`.
use static_logger.Prelude.{ℕ, Bool, ◌||◌, Option, none, some, ◌==◌, if◌then◌else◌, ◌≡◌, arith}
use static_logger.Decode.{Value, character, signed_int, unsigned_int, floating, value_of}

-- The conversions of printf, by what they read.
pub data Conversion : Type 0 where
  decimal unsigned real letter unknown : Conversion

abbrev pub conversion : ℕ → Conversion
conversion flag =
    if flag == b'd' || flag == b'i'
    then decimal
    else if flag == b'u' || flag == b'o' || flag == b'x' || flag == b'X'
    then unsigned
    else if flag == b'e' || flag == b'E' || flag == b'f' || flag == b'F'
    then real
    else if flag == b'g' || flag == b'G' || flag == b'a' || flag == b'A'
    then real
    else if flag == b'c'
    then letter
    else unknown

-- The sizes of the integer types, and of `float` and `double`.
abbrev pub is_integer_size : ℕ → Bool
is_integer_size size = size == 1 || size == 2 || size == 4 || size == 8

abbrev pub is_real_size : ℕ → Bool
is_real_size size = size == 4 || size == 8

-- The number that a conversion shows of an argument of this size; `none` where the logger prints
-- nothing: for `%p`, `long double`, and `%c` of more than a byte.
abbrev pub shown_by : Conversion → ℕ → ℕ → Option Value
shown_by decimal size bits = if is_integer_size size then some (signed_int size bits) else none
shown_by unsigned size bits = if is_integer_size size then some (unsigned_int size bits) else none
shown_by real size bits = if is_real_size size then some (floating size bits) else none
shown_by letter size bits = if size == 1 then some (character bits) else none
shown_by unknown size bits = none

unfoldable pub shown_value : ℕ → ℕ → ℕ → Option Value
shown_value size flag bits = shown_by (conversion flag) size bits

pub value_of-shown : (size flag bits : ℕ) → value_of size flag bits ≡ shown_value size flag bits
unfolding value_of shown_value
value_of-shown size flag bits = ground arith
