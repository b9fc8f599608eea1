-- ===== src/Args/Tests.antt =====
-- The arguments of a log statement at concrete values.
use static_logger.Prelude.{
  ℕ, ◌+◌, ◌-◌, ◌%◌, ◌^◌, false, List, [], ◌∷◌, length, some, ◌≡◌, refl, arith,
}
use static_logger.Prelude.Bytes.{le_bytes}
use static_logger.Format.Types.{
  ParamType, non_string, dynamic_precision, string_with_dynamic_precision, string, value, is_string,
}
use static_logger.Args.{
  Arg, integer, text, as_uint64, string_size_of, scalar_size, get_arg_size, get_arg_sizes, Cursor,
  put, stored, store_arguments,
}
use static_logger.Args.Sizes.{get_arg_size-static_precision}
use static_logger.Args.Layout.{payloads, store_arguments-payloads}

-- "hello"
abbrev hello : List ℕ
hello = b'h' ∷ b'e' ∷ b'l' ∷ b'l' ∷ b'o' ∷ []

-- The arguments of "%d %.*s".
abbrev sample_types : List ParamType
sample_types = non_string ∷ dynamic_precision ∷ string_with_dynamic_precision ∷ []

abbrev sample : List Arg
sample = integer 4 false 258 ∷ integer 4 false 2 ∷ text 4096 hello ∷ []

abbrev start : Cursor
start = record { memory = λ _. 0; position = 32 }

sample_sizes :
    get_arg_sizes sample_types (2 ^ 64 - 1) (0 ∷ 0 ∷ 0 ∷ 0 ∷ []) sample
    ≡ some (14, 4 ∷ 4 ∷ 2 ∷ 0 ∷ [])
unfolding get_arg_sizes get_arg_size scalar_size string_size_of is_string value as_uint64
sample_sizes = refl

payloads-sample :
    payloads sample_types (4 ∷ 4 ∷ 2 ∷ 0 ∷ []) sample
    ≡ 2 ∷ 1 ∷ 0 ∷ 0 ∷ 2 ∷ 0 ∷ 0 ∷ 0 ∷ 2 ∷ 0 ∷ 0 ∷ 0 ∷ b'h' ∷ b'e' ∷ []
unfolding is_string value le_bytes
payloads-sample = refl

store_arguments-payloads_example :
    (store_arguments sample_types (4 ∷ 4 ∷ 2 ∷ 0 ∷ []) sample start
      ≡ stored (put (payloads sample_types (4 ∷ 4 ∷ 2 ∷ 0 ∷ []) sample) start))
    × (14 ≡ length (payloads sample_types (4 ∷ 4 ∷ 2 ∷ 0 ∷ []) sample) % 2 ^ 64)
store_arguments-payloads_example =
    store_arguments-payloads sample sample_types (2 ^ 64 - 1) (0 ∷ 0 ∷ 0 ∷ 0 ∷ [])
      (4 ∷ 4 ∷ 2 ∷ 0 ∷ []) 14 start (omega arith) sample_sizes

-- "%.2s" with "hello" reserves all five characters.
get_arg_size-static_precision_example :
    get_arg_size (string 2) 0 0 (text 4096 hello)
    ≡ record { size = 5 + 4; previous_precision = 0; string_size = 5 }
get_arg_size-static_precision_example = get_arg_size-static_precision 2 0 0 4096 hello (omega arith)
