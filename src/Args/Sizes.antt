-- ===== src/Args/Sizes.antt =====
-- The size that a string argument takes in the log entry.
use static_logger.Prelude.{ℕ, ◌+◌, ◌^◌, ◌≤◌, ◌<◌, List, ltb, if◌then◌else◌, length, ◌≡◌, arith}
use static_logger.Format.Types.{ParamType, string}
use static_logger.Args.{text, has_dynamic_precision, string_size_of, get_arg_size}

pub string_size_of-le : (t : ParamType) (prev len : ℕ) → string_size_of t prev len ≤ len
unfolding string_size_of
string_size_of-le t prev len = ground arith

-- A string of less than 4 GiB is cut by a dynamic precision alone, to the value of the last one.
pub string_size_of-short :
    (t : ParamType) (prev len : ℕ)
    → len < 2 ^ 32
    → string_size_of t prev len
      ≡ (if has_dynamic_precision t then (if ltb prev len then prev else len) else len)
unfolding string_size_of
string_size_of-short t prev len h = ground arith

-- A static precision does not cut the string: whatever `n` is, `%.<n>s` reserves and stores all
-- characters of a string of less than 4 GiB.
pub get_arg_size-static_precision :
    (n prev string_size address : ℕ) (chars : List ℕ)
    → length chars < 2 ^ 32
    → get_arg_size (string n) prev string_size (text address chars)
      ≡ record { size = length chars + 4; previous_precision = prev; string_size = length chars }
unfolding get_arg_size
get_arg_size-static_precision n prev string_size address chars h = ground arith
