-- ===== src/Writer/Sample.antt =====
-- A log statement and its surroundings, for the tests.
use static_logger.Prelude.{ℕ, true, some, List, [], ◌∷◌, refl, arith}
use static_logger.Prelude.Bytes.{le_bytes}
use static_logger.Prelude.Decimal.{to_string, to_string_from, padded}
use static_logger.Format.Chars.{is_terminal}
use static_logger.Format.Types.{non_string, is_string, value}
use static_logger.Format.Grammar.{absent, Piece, plain, directive, print, types, IsFormat}
use static_logger.Prefix.{Tm, StaticInfo}
use static_logger.Prefix.Time.{IsTm}
use static_logger.Decode.{Value, character, signed_int, unsigned_int, floating, c_string}
use static_logger.Decode.Shown.{shown_value}
use static_logger.Log.{Site}
use static_logger.Args.{integer}
use static_logger.Writer.Entry.{Statement, IsCalm, IsStatement}
use static_logger.Writer.{Surroundings}

abbrev pub plain_text : List ℕ → Value → List ℕ
plain_text fmt (character bits) = bits ∷ []
plain_text fmt (signed_int n bits) = to_string bits
plain_text fmt (unsigned_int n bits) = to_string bits
plain_text fmt (floating n bits) = to_string bits
plain_text fmt (c_string s) = s

-- `n%d`
abbrev pub counter : List Piece
counter =
    plain b'n'
    ∷ directive
        (record { flags = []; width = absent; precision = absent; lengths = []; terminal = b'd' })
    ∷ []

pub counter-IsFormat : IsFormat counter
unfolding is_terminal
counter-IsFormat = (
  refl,
  (
    record {
      flags_are = tt;
      width_is = tt;
      precision_is = tt;
      lengths_are = tt;
      terminal_is = refl;
      not_n = refl;
      not_percent = refl;
    },
    tt,
  ),
)

abbrev pub info : StaticInfo
info = record {
  num_params = 1;
  param_types = non_string ∷ [];
  format = b'n' ∷ b'%' ∷ b'd' ∷ [];
  log_level = 1;
  function_name = b'f' ∷ [];
  line = 7;
}

abbrev pub noon : Tm
noon = record { year = 124; mon = 1; mday = 29; hour = 12; min = 5; sec = 59 }

pub noon-IsTm : IsTm noon
noon-IsTm = record {
  year_low = omega arith;
  year_high = omega arith;
  mon_small = omega arith;
  mday_small = omega arith;
  hour_small = omega arith;
  min_small = omega arith;
  sec_small = omega arith;
}

abbrev pub env : Surroundings
env = record {
  platform = record { malloc = λ n. some (4096, λ _. 0); convert = plain_text; ndebug = true };
  nanotime = 42;
  localtime = λ _. noon;
  static_info = λ _. info;
  param_size = λ _. 4 ∷ [];
}

abbrev pub error_level : List ℕ
error_level = b'e' ∷ b'r' ∷ b'r' ∷ b'o' ∷ b'r' ∷ []

-- STATIC_LOG(kERROR, "n%d", 7)
abbrev pub site : Site
site = record {
  severity = 1;
  param_types = non_string ∷ [];
  static_info = 8192;
  param_size = 12288;
}

abbrev pub counted_seven : Statement
counted_seven = record {
  site = site;
  format = counter;
  args = integer 4 true 7 ∷ [];
  sizes = 4 ∷ [];
  size = 36;
  level = error_level;
}

pub env-IsCalm : IsCalm env
env-IsCalm = record { release = refl; copies = λ k. ground arith; tm = noon-IsTm }

pub counted_seven-IsStatement : IsStatement env 1000 counted_seven
unfolding print types is_string value le_bytes shown_value to_string_from padded
counted_seven-IsStatement = record {
  format_is = refl;
  types_are = refl;
  site_types = refl;
  sizes_are = refl;
  level_is = refl;
  is_format = counter-IsFormat;
  is_static = (refl, ((tt, tt, omega arith), tt));
  matches = ((refl, refl, omega arith), tt);
  size_is = refl;
  size_small = omega arith;
  info_small = omega arith;
  param_size_small = omega arith;
  room = omega arith;
}
