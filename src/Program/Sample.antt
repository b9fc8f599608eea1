-- ===== src/Program/Sample.antt =====
-- STATIC_LOG(kERROR, "n%d", 7), for the tests.
use static_logger.Prelude.{ℕ, ◌≤◌, true, [], ◌∷◌, refl, arith}
use static_logger.Prelude.Bytes.{le_bytes}
use static_logger.Prelude.Decimal.{to_string_from, padded}
use static_logger.Format.Types.{is_string, value}
use static_logger.Format.Grammar.{print, types}
use static_logger.Decode.Shown.{shown_value}
use static_logger.Args.{integer, as_uint64, scalar_size, get_arg_size, get_arg_sizes}
use static_logger.Writer.Sample.{counter, counter-IsFormat, env, error_level, site}
use static_logger.Logger.{default_cache_size}
use static_logger.Program.{Call}
use static_logger.Program.Calls.{IsCall, IsServed}

abbrev pub count_call : ℕ → Call
count_call timestamp = record {
  site = site;
  format = counter;
  level = error_level;
  slots = 0 ∷ [];
  sizes = 4 ∷ [];
  args = integer 4 true 7 ∷ [];
  n = 4;
  timestamp = timestamp;
}

pub count_call-IsCall : (timestamp : ℕ) → timestamp ≤ 1003 → IsCall 4 (count_call timestamp)
unfolding types is_string value get_arg_sizes get_arg_size scalar_size as_uint64 le_bytes
count_call-IsCall timestamp h = record {
  above = omega arith;
  site_types = refl;
  kinds = (refl, ((tt, tt, omega arith), (refl, omega arith), tt));
  sized = refl;
  small = omega arith;
  early = omega arith;
}

pub count_call-IsServed : (timestamp : ℕ) → IsServed env default_cache_size (count_call timestamp)
unfolding print types is_string value shown_value to_string_from padded
count_call-IsServed timestamp = record {
  is_site = record {
    format_is = refl;
    types_are = refl;
    sizes_are = refl;
    level_is = refl;
    is_format = counter-IsFormat;
    info_small = omega arith;
    param_size_small = omega arith;
  };
  room = omega arith;
}
