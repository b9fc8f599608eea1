-- ===== src/Format/Types.antt =====
-- `enum ParamType` of src/static_log_internal.h, and the errors of its constant evaluation.
use static_logger.Prelude.{ℕ, Bool, not}
use static_logger.Prelude.Int.{ℤ, pos, negsuc, leb_ℤ}

-- `string n` is `ParamType(n)`: a string whose static precision is `n` (`kSTRING` is `string 0`).
pub data ParamType : Type 0 where
  invalid dynamic_width dynamic_precision non_string : ParamType
  string_with_dynamic_precision string_with_no_precision : ParamType
  string : ℕ → ParamType

-- The value of the enumerator.
unfoldable pub value : ParamType → ℤ
value invalid = negsuc 5
value dynamic_width = negsuc 4
value dynamic_precision = negsuc 3
value non_string = negsuc 2
value string_with_dynamic_precision = negsuc 1
value string_with_no_precision = negsuc 0
value (string n) = pos n

-- `t > ParamType::kNON_STRING`
unfoldable pub is_string : ParamType → Bool
unfolding value
is_string t = not (leb_ℤ (value t) (value non_string))

-- `overflow` is a signed overflow in a constant expression, which a compiler refuses.
pub data Error : Type 0 where
  unrecognized_specifier unsupported_n overflow : Error

pub data Result {ℓ} (A : Type ℓ) : Type ℓ where
  ok : A → Result A
  throws : Error → Result A
