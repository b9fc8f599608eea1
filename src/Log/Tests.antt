-- ===== src/Log/Tests.antt =====
-- A log statement at a concrete place and buffer.
use static_logger.Prelude.{◌+◌, ◌-◌, ◌^◌, ◌<◌, false, List, [], ◌∷◌, ◌↔◌, some, ◌≡◌, refl, arith}
use static_logger.Prelude.Int.{pos, leb_ℤ}
use static_logger.Prelude.Bytes.{le_bytes}
use static_logger.Format.Types.{non_string, string_with_no_precision, value, is_string}
use static_logger.Staging.{new}
use static_logger.Staging.Invariant.{new-IsValid}
use static_logger.Staging.Queue.{new-Holds}
use static_logger.Args.{
  Arg, integer, text, as_uint64, string_size_of, scalar_size, get_arg_size, get_arg_sizes,
}
use static_logger.Log.{Site, as_log_level, set_log_level, dropped, static_log}
use static_logger.Log.Entry.{Logs, static_log-Logs}
use static_logger.Log.Level.{static_log-dropped}

-- STATIC_LOG(kNOTICE, "%s %d", "hi", 7)
abbrev greeting : Site
greeting = record {
  severity = 3;
  param_types = string_with_no_precision ∷ non_string ∷ [];
  static_info = 8192;
  param_size = 12288;
}

abbrev greeting_args : List Arg
greeting_args = text 4096 (b'h' ∷ b'i' ∷ []) ∷ integer 4 false 7 ∷ []

greeting_sizes :
    get_arg_sizes greeting.param_types (2 ^ 64 - 1) (0 ∷ 0 ∷ 0 ∷ []) greeting_args
    ≡ some (10, 2 ∷ 4 ∷ 0 ∷ [])
unfolding get_arg_sizes get_arg_size scalar_size string_size_of is_string value as_uint64
greeting_sizes = refl

static_log-Logs_example :
    Logs greeting greeting_args
      (2 ∷ 4 ∷ 0 ∷ [])
      42
      1000
      []
      (static_log greeting 4 (0 ∷ 0 ∷ 0 ∷ []) greeting_args 1000 [] (new 7))
unfolding is_string value le_bytes
static_log-Logs_example =
    static_log-Logs greeting 4 (0 ∷ 0 ∷ 0 ∷ []) (2 ∷ 4 ∷ 0 ∷ []) greeting_args 10 1000 [] (new 7) []
      (omega arith) (omega arith) greeting_sizes (omega arith) tt (new-IsValid 7) tt (new-Holds 7)

static_log-dropped_example :
    (static_log greeting
        (set_log_level (pos (2 ^ 32 + 2)))
        (0 ∷ 0 ∷ 0 ∷ [])
        greeting_args
        1000
        []
        (new 7)
      ≡ dropped)
    ↔ ((leb_ℤ (pos 3) (as_log_level (pos (2 ^ 32 + 2))) ≡ false) × (0 < 3))
static_log-dropped_example =
    static_log-dropped (pos (2 ^ 32 + 2)) greeting (0 ∷ 0 ∷ 0 ∷ []) greeting_args 1000 [] (new 7)
      (omega arith)
