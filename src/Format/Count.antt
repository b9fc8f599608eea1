-- ===== src/Format/Count.antt =====
-- The callers of `getParamInfo` in src/static_log_internal.h: `countFmtParams`,
-- `getNumNibblesNeeded`, `analyzeFormatStringHelper` and `analyzeFormatString`.
use static_logger.Prelude.{
  ℕ, zero, suc, ◌+◌, Bool, true, false, Option, none, some, List, [], ◌∷◌, if◌then◌else◌, length,
}
use static_logger.Format.Types.{
  ParamType, invalid, dynamic_width, dynamic_precision, non_string, Result, ok, throws,
}
use static_logger.Format.Scan.{Chars, get_param_info}

abbrev pub is_invalid : ParamType → Bool
is_invalid invalid = true
is_invalid _ = false

-- `t == kNON_STRING || t == kDYNAMIC_PRECISION || t == kDYNAMIC_WIDTH`
abbrev pub needs_nibble : ParamType → Bool
needs_nibble non_string = true
needs_nibble dynamic_precision = true
needs_nibble dynamic_width = true
needs_nibble _ = false

-- The loop `while (getParamInfo(fmt, count) != kINVALID) ++count`; `none` means that the fuel ran
-- out.
unfoldable pub count_from : ℕ → Chars → ℕ → Option (Result ℕ)
count_from zero fmt count = none
count_from (suc fuel) fmt count = elim (get_param_info fmt count) [
  | ok t ↦
      let rest = count_from fuel fmt (count + 1) in if is_invalid t then some (ok count) else rest
  | throws e ↦ some (throws e)
]

-- A parameter takes at least one character, so there are fewer rounds than the fuel.
unfoldable pub count_fmt_params : Chars → Option (Result ℕ)
unfolding count_from
count_fmt_params fmt = count_from (length fmt + 1) fmt 0

-- `{{ getParamInfo(fmt, Indices)... }}` for the `n` indices from `i` on
unfoldable pub analyze_from : Chars → ℕ → ℕ → Result (List ParamType)
analyze_from fmt i zero = ok []
analyze_from fmt i (suc n) = elim (get_param_info fmt i) [
  | ok t ↦ elim (analyze_from fmt (i + 1) n) [ ok ts ↦ ok (t ∷ ts) | throws e ↦ throws e ]
  | throws e ↦ throws e
]

unfoldable pub analyze_format_string : ℕ → Chars → Result (List ParamType)
unfolding analyze_from
analyze_format_string n_params fmt = analyze_from fmt 0 n_params

-- The loop of `getNumNibblesNeeded` over the `n` parameters from `i` on.
unfoldable pub nibbles_from : Chars → ℕ → ℕ → ℕ → Result ℕ
nibbles_from fmt i zero num_nibbles = ok num_nibbles
nibbles_from fmt i (suc n) num_nibbles = elim (get_param_info fmt i) [
  | ok t ↦ nibbles_from fmt (i + 1) n (if needs_nibble t then num_nibbles + 1 else num_nibbles)
  | throws e ↦ throws e
]

-- The loop runs if its bound, `countFmtParams(fmt)`, has a value.
abbrev pub nibbles_below : Chars → Option (Result ℕ) → Option (Result ℕ)
nibbles_below fmt none = none
nibbles_below fmt (some (ok n)) = some (nibbles_from fmt 0 n 0)
nibbles_below fmt (some (throws e)) = some (throws e)

unfoldable pub get_num_nibbles_needed : Chars → Option (Result ℕ)
get_num_nibbles_needed fmt = nibbles_below fmt (count_fmt_params fmt)
