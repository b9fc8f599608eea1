-- ===== src/Args.antt =====
-- The arguments of a log statement and their place in the log entry: `as_uint64_t`, `getArgSize`,
-- `getArgSizes`, `storeArgument` and `storeArguments` of src/static_log_internal.h.
-- A function that is generic in the type of an argument is by cases on `Arg`; `wchar_t` strings,
-- which no `getArgSize` accepts, are left out. The two operands of the sum in `getArgSizes` are
-- evaluated from left to right.
pub mod Sizes
pub mod Layout
mod Tests
use static_logger.Prelude.{
  ℕ, zero, suc, ◌+◌, ◌-◌, ◌*◌, ◌%◌, ◌^◌, Bool, true, false, not, ◌&&◌, Option, none, some, List, [],
  ◌∷◌, ◌++◌, ◌==◌, ltb, leb, if◌then◌else◌, length, take,
}
use static_logger.Prelude.Int.{pos, leb_ℤ}
use static_logger.Prelude.Memory.{Memory, write_bytes}
use static_logger.Prelude.Bytes.{le_bytes}
use static_logger.Format.Types.{
  ParamType, dynamic_precision, string_with_dynamic_precision, is_string, value,
}

-- An integer or a floating-point number is its size and the number that its bytes make up. `text`
-- is a `const char *` or a `char *`: its address, and its characters before the NUL.
pub data Arg : Type 0 where
  integer : (size : ℕ) → (signed : Bool) → ℕ → Arg
  floating : (size : ℕ) → ℕ → Arg
  pointer : ℕ → Arg
  text : (address : ℕ) → List ℕ → Arg

abbrev pub pointer_size : ℕ
pointer_size = 8

-- `sizeof(T)`
abbrev pub size_of : Arg → ℕ
size_of (integer size signed bits) = size
size_of (floating size bits) = size
size_of (pointer bits) = pointer_size
size_of (text address chars) = pointer_size

-- The object representation.
abbrev pub object_bytes : Arg → List ℕ
object_bytes (integer size signed bits) = le_bytes size bits
object_bytes (floating size bits) = le_bytes size bits
object_bytes (pointer bits) = le_bytes pointer_size bits
object_bytes (text address chars) = le_bytes pointer_size address

-- Both overloads: an integer is converted, with its sign extended, and all else is 0.
unfoldable pub as_uint64 : Arg → ℕ
as_uint64 (integer size false bits) = bits
as_uint64 (integer size true bits) =
    if ltb bits (2 ^ (8 * size - 1)) then bits else (bits + 2 ^ 64 - 2 ^ (8 * size)) % 2 ^ 64
as_uint64 _ = 0

abbrev pub is_dynamic_precision : ParamType → Bool
is_dynamic_precision dynamic_precision = true
is_dynamic_precision _ = false

abbrev pub has_dynamic_precision : ParamType → Bool
has_dynamic_precision string_with_dynamic_precision = true
has_dynamic_precision _ = false

-- `fmt_type >= ParamType::kSTRING`
abbrev pub has_static_precision : ParamType → Bool
has_static_precision t = leb_ℤ (pos 0) (value t)

-- The string size that `getArgSize` comes to for a string of `len` characters.
unfoldable pub string_size_of : ParamType → ℕ → ℕ → ℕ
unfolding value
string_size_of t previous_precision len =
    let fmt_length = len % 2 ^ 32 in
    if has_static_precision t && ltb fmt_length len
    then fmt_length
    else if has_dynamic_precision t && ltb previous_precision len
    then previous_precision
    else len

-- What a call returns, and what it leaves in its two references.
pub record Sized : Type 0 where
  pub size : ℕ
  pub previous_precision : ℕ
  pub string_size : ℕ

-- The overload for what is no string.
unfoldable pub scalar_size : ParamType → ℕ → Arg → Sized
unfolding as_uint64
scalar_size t prev arg = record {
  size = size_of arg;
  previous_precision = if is_dynamic_precision t then as_uint64 arg else prev;
  string_size = size_of arg;
}

unfoldable pub get_arg_size : ParamType → ℕ → ℕ → Arg → Sized
unfolding scalar_size string_size_of is_string
get_arg_size t prev string_size (text address chars) =
    if not (is_string t)
    then record { size = pointer_size; previous_precision = prev; string_size = string_size }
    else record {
      size = string_size_of t prev (length chars) + 4;
      previous_precision = prev;
      string_size = string_size_of t prev (length chars);
    }
get_arg_size t prev string_size arg = scalar_size t prev arg

-- The sum of the two operands in `size_t`, and the element that the first has filled in.
abbrev pub add_size : Sized → Option (ℕ × List ℕ) → Option (ℕ × List ℕ)
add_size sized none = none
add_size sized (some (n, sizes)) = some ((sized.size + n) % 2 ^ 64, sized.string_size ∷ sizes)

-- `arg_fmt_types` and `string_sizes` from index `arg_num` on; `none` is an index out of range. The
-- result has the sum, and the array with the sizes filled in.
unfoldable pub get_arg_sizes : List ParamType → ℕ → List ℕ → List Arg → Option (ℕ × List ℕ)
get_arg_sizes types prev string_sizes [] = some (0, string_sizes)
get_arg_sizes (t ∷ types) prev (s ∷ string_sizes) (arg ∷ args) =
    let sized = get_arg_size t prev s arg in
    add_size sized (get_arg_sizes types sized.previous_precision string_sizes args)
get_arg_sizes _ prev _ (arg ∷ args) = none

-- The memory and the buffer pointer.
pub record Cursor : Type 0 where
  pub memory : Memory
  pub position : ℕ

-- `memcpy` to the buffer pointer, which is moved on.
unfoldable pub put : List ℕ → Cursor → Cursor
put bs c = record { memory = write_bytes c.memory c.position bs; position = c.position + length bs }

-- `throws` is the `std::invalid_argument`; `faults` is a read behind the end of an argument or an
-- index out of range.
pub data Stored : Type 0 where
  stored : Cursor → Stored
  throws faults : Stored

unfoldable pub store_argument : Arg → ParamType → ℕ → Cursor → Stored
unfolding put is_string
store_argument (text address chars) t string_size c =
    if not (is_string t)
    then stored (put (le_bytes pointer_size address) c)
    else if ltb (2 ^ 32 - 1) string_size
    then throws
    else if ltb (length chars + 1) string_size
    then faults
    else stored (put (take string_size (chars ++ 0 ∷ [])) (put (le_bytes 4 string_size) c))
store_argument arg t string_size c = stored (put (object_bytes arg) c)

infixl 5 ◌>>=◌
abbrev pub ◌>>=◌ : Stored → (Cursor → Stored) → Stored
stored c >>= f = f c
throws >>= f = throws
faults >>= f = faults

unfoldable pub store_arguments : List ParamType → List ℕ → List Arg → Cursor → Stored
store_arguments types string_sizes [] c = stored c
store_arguments (t ∷ types) (s ∷ string_sizes) (arg ∷ args) c = do
  c' ← store_argument arg t s c
  store_arguments types string_sizes args c'
store_arguments _ _ (arg ∷ args) c = faults
