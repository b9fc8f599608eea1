-- ===== src/Process/Tests.antt =====
-- Witnesses and tests of `process_fmt`.
use static_logger.Prelude.{◌^◌, ◌-◌, ℕ, true, false, some, List, [], ◌∷◌, ◌++◌, ◌≡◌, refl, arith}
use static_logger.Prelude.Memory.{Memory, read_bytes, write_bytes}
use static_logger.Prelude.Bytes.{le_value}
use static_logger.Prelude.Decimal.{to_string, to_string_from}
use static_logger.Format.Chars.{is_flag, is_digit, is_length, is_terminal}
use static_logger.Format.Types.{is_string, value}
use static_logger.Format.Grammar.{
  absent, digits, Directive, Piece, plain, directive, print, types, IsFormat,
}
use static_logger.Decode.{
  Value, character, signed_int, unsigned_int, floating, c_string, Platform, LogBuffer,
}
use static_logger.Decode.Shown.{shown_value}
use static_logger.Args.{
  Arg, integer, text, string_size_of, get_arg_size, scalar_size, get_arg_sizes, Cursor, stored,
  store_arguments,
}
use static_logger.Process.{aborts, process_fmt}
use static_logger.Process.Assertion.{process_fmt-aborts}
use static_logger.Process.Stored.{logged_text}
use static_logger.Process.RoundTrip.{AllKinds, store_arguments-process_fmt}
use static_logger.Process.Render.{rendered}
use static_logger.Process.Print.{Prints, process_fmt-rendered}

abbrev plain_text : List ℕ → Value → List ℕ
plain_text fmt (character bits) = bits ∷ []
plain_text fmt (signed_int n bits) = to_string bits
plain_text fmt (unsigned_int n bits) = to_string bits
plain_text fmt (floating n bits) = to_string bits
plain_text fmt (c_string s) = s

abbrev release : Platform
release = record { malloc = λ n. some (4096, λ _. 0); convert = plain_text; ndebug = true }

abbrev hundred_bytes : LogBuffer
hundred_bytes = record { address = 1024; memory = λ _. b'x'; len = 100 }

-- `x=%d, %s`
abbrev number_and_name : List Piece
number_and_name =
    plain b'x'
    ∷ plain b'='
    ∷ directive
        (record { flags = []; width = absent; precision = absent; lengths = []; terminal = b'd' })
    ∷ plain b','
    ∷ plain b' '
    ∷ directive (record {
      flags = b'-' ∷ [];
      width = digits (b'5' ∷ []);
      precision = absent;
      lengths = [];
      terminal = b's';
    })
    ∷ []

number_and_name-IsFormat : IsFormat number_and_name
unfolding is_flag is_digit is_length is_terminal
number_and_name-IsFormat = (
  refl,
  (
    refl,
    (
      record {
        flags_are = tt;
        width_is = tt;
        precision_is = tt;
        lengths_are = tt;
        terminal_is = refl;
        not_n = refl;
        not_percent = refl;
      },
      (
        refl,
        (
          refl,
          (
            record {
              flags_are = (refl, tt);
              width_is = (refl, tt);
              precision_is = tt;
              lengths_are = tt;
              terminal_is = refl;
              not_n = refl;
              not_percent = refl;
            },
            tt,
          ),
        ),
      ),
    ),
  ),
)

-- 1234, and the string `ab`
abbrev storage : Memory
storage = write_bytes (λ _. 0) 0 (210 ∷ 4 ∷ 0 ∷ 0 ∷ 2 ∷ 0 ∷ 0 ∷ 0 ∷ b'a' ∷ b'b' ∷ [])

abbrev shown : List ℕ
shown = b'x' ∷ b'=' ∷ b'1' ∷ b'2' ∷ b'3' ∷ b'4' ∷ b',' ∷ b' ' ∷ b'a' ∷ b'b' ∷ []

number_shown : rendered release storage number_and_name (4 ∷ 2 ∷ []) 0 ≡ shown
unfolding read_bytes write_bytes le_value shown_value is_string to_string_from
number_shown = refl

process_fmt-rendered_example :
    Prints hundred_bytes 40 (rendered release storage number_and_name (4 ∷ 2 ∷ []) 0) (
      process_fmt release storage
        (print number_and_name)
        (types number_and_name)
        (4 ∷ 2 ∷ [])
        0
        hundred_bytes
        40)
unfolding read_bytes write_bytes le_value shown_value is_string value to_string_from
process_fmt-rendered_example =
    process_fmt-rendered release storage number_and_name (4 ∷ 2 ∷ []) 0 hundred_bytes 40
      number_and_name-IsFormat
      (refl, (refl, ((tt, tt, omega arith), (refl, (refl, ((tt, tt, omega arith), tt)))))) refl
      (λ n. ground arith) (omega arith) (omega arith)

abbrev name_spec : Directive
name_spec = record {
  flags = b'-' ∷ [];
  width = digits (b'5' ∷ []);
  precision = absent;
  lengths = [];
  terminal = b's';
}

-- `x=%d, `, in front of `%-5s!`
abbrev number_first : List Piece
number_first =
    plain b'x'
    ∷ plain b'='
    ∷ directive
        (record { flags = []; width = absent; precision = absent; lengths = []; terminal = b'd' })
    ∷ plain b','
    ∷ plain b' '
    ∷ []

name_behind-IsFormat : IsFormat (number_first ++ (directive name_spec ∷ plain b'!' ∷ []))
unfolding is_flag is_digit is_length is_terminal
name_behind-IsFormat =
    let (x, (e, (number, (comma, (blank, (name, _)))))) = number_and_name-IsFormat in
    (x, (e, (number, (comma, (blank, (name, (refl, tt)))))))

-- Eight characters fit behind offset 40, and ten do not.
abbrev small_buffer : LogBuffer
small_buffer = record { address = 1024; memory = λ _. b'x'; len = 49 }

abbrev debug : Platform
debug = record { malloc = λ n. some (4096, λ _. 0); convert = plain_text; ndebug = false }

process_fmt-aborts_example :
    process_fmt debug storage
      (print (number_first ++ (directive name_spec ∷ plain b'!' ∷ [])))
      (types (number_first ++ (directive name_spec ∷ plain b'!' ∷ [])))
      (4 ∷ 2 ∷ [])
      0
      hundred_bytes
      40
    ≡ aborts
unfolding read_bytes write_bytes le_value shown_value is_string value to_string_from
process_fmt-aborts_example =
    process_fmt-aborts debug storage number_first name_spec (plain b'!' ∷ []) (4 ∷ 2 ∷ []) 0
      hundred_bytes 40 name_behind-IsFormat
      (refl, (refl, ((tt, tt, omega arith), (refl, (refl, ((tt, tt, omega arith), (refl, tt)))))))
      (refl, tt) refl refl (λ n. ground arith) (omega arith) (omega arith) (omega arith)

abbrev two_args : List Arg
two_args = integer 4 true 1234 ∷ text 7 (b'a' ∷ b'b' ∷ []) ∷ []

-- A staging buffer that holds other bytes.
abbrev entry_start : Cursor
entry_start = record { memory = λ _. 255; position = 32 }

two_args-AllKinds : AllKinds number_and_name two_args
unfolding is_string value
two_args-AllKinds = (
  refl,
  (
    refl,
    (
      (tt, tt, omega arith),
      (refl, omega arith),
      (
        refl,
        (refl, ((tt, tt, omega arith), (refl, omega arith, (omega arith, (omega arith, tt))), tt)),
      ),
    ),
  ),
)

store_arguments-process_fmt_example :
    (c' : Cursor) × (store_arguments (types number_and_name) (4 ∷ 2 ∷ []) two_args entry_start
      ≡ stored c')
    × Prints hundred_bytes 40 (logged_text release number_and_name (4 ∷ 2 ∷ []) two_args) (
        process_fmt release c'.memory
          (print number_and_name)
          (types number_and_name)
          (4 ∷ 2 ∷ [])
          32
          hundred_bytes
          40)
unfolding get_arg_sizes get_arg_size scalar_size string_size_of is_string value types shown_value
    to_string_from
store_arguments-process_fmt_example =
    store_arguments-process_fmt release number_and_name two_args (2 ^ 64 - 1) (0 ∷ 0 ∷ [])
      (4 ∷ 2 ∷ []) 10 entry_start hundred_bytes 40 number_and_name-IsFormat two_args-AllKinds refl
      refl (λ n. ground arith) (omega arith) (omega arith)
