-- ===== src/Format/Grammar.antt =====
-- The formats that printf documents, as a syntax tree with its text and its parameters: a
-- description of what src/static_log_internal.h reads that does not mention the scanner.
use static_logger.Prelude.{
  ℕ, ◌+◌, ◌-◌, ◌*◌, ◌<◌, Bool, true, false, List, [], ◌∷◌, ◌++◌, ◌==◌, if◌then◌else◌, ◌≡◌,
}
use static_logger.Format.Chars.{is_flag, is_digit, is_length, is_terminal}
use static_logger.Format.Types.{
  ParamType, dynamic_width, dynamic_precision, non_string, string_with_dynamic_precision,
  string_with_no_precision, string,
}
use static_logger.Format.Scan.{Chars, int_limit}
use static_logger.Format.Params.{Params, end, more}

-- A width or a precision: absent, `*`, or digits.
pub data Amount : Type 0 where
  absent star : Amount
  digits : Chars → Amount

-- `%<flags><width>.<precision><length><terminal>`
pub record Directive : Type 0 where
  pub flags : Chars
  pub width : Amount
  pub precision : Amount
  pub lengths : Chars
  pub terminal : ℕ

pub data Piece : Type 0 where
  plain : ℕ → Piece
  percent : Piece
  directive : Directive → Piece

abbrev pub digits_value : ℕ → Chars → ℕ
digits_value p [] = p
digits_value p (d ∷ ds) = digits_value (10 * p + (d - b'0')) ds

abbrev pub print_width : Amount → Chars → Chars
print_width absent rest = rest
print_width star rest = b'*' ∷ rest
print_width (digits ds) rest = ds ++ rest

abbrev pub print_precision : Amount → Chars → Chars
print_precision absent rest = rest
print_precision star rest = b'.' ∷ b'*' ∷ rest
print_precision (digits ds) rest = b'.' ∷ (ds ++ rest)

abbrev pub print_tail : Directive → Chars → Chars
print_tail d rest = d.lengths ++ (d.terminal ∷ rest)

abbrev pub print_directive : Directive → Chars → Chars
print_directive d rest =
    d.flags ++ print_width d.width (print_precision d.precision (print_tail d rest))

unfoldable pub print : List Piece → Chars
print [] = []
print (plain c ∷ ps) = c ∷ print ps
print (percent ∷ ps) = b'%' ∷ b'%' ∷ print ps
print (directive d ∷ ps) = b'%' ∷ print_directive d (print ps)

abbrev pub string_type : Amount → ParamType
string_type absent = string_with_no_precision
string_type star = string_with_dynamic_precision
string_type (digits ds) = string (digits_value 0 ds)

abbrev pub dynamic : Amount → ParamType → List ParamType → List ParamType
dynamic star t ts = t ∷ ts
dynamic _ t ts = ts

-- The parameters of a directive, in front of those that follow.
abbrev pub directive_types : Directive → List ParamType → List ParamType
directive_types d ts = dynamic d.width dynamic_width (
    dynamic d.precision dynamic_precision
      ((if d.terminal == b's' then string_type d.precision else non_string) ∷ ts))

unfoldable pub types : List Piece → List ParamType
types [] = []
types (plain c ∷ ps) = types ps
types (percent ∷ ps) = types ps
types (directive d ∷ ps) = directive_types d (types ps)

abbrev pub All : (ℕ → Bool) → Chars → Type 0
All test [] = Unit
All test (c ∷ s) = (test c ≡ true) × All test s

abbrev pub IsWidth : Amount → Type 0
IsWidth (digits ds) = All is_digit ds
IsWidth _ = Unit

abbrev pub IsPrecision : Amount → Type 0
IsPrecision (digits ds) = All is_digit ds × (digits_value 0 ds < int_limit)
IsPrecision _ = Unit

pub record IsDirective (d : Directive) : Type 0 where
  pub flags_are : All is_flag d.flags
  pub width_is : IsWidth d.width
  pub precision_is : IsPrecision d.precision
  pub lengths_are : All is_length d.lengths
  pub terminal_is : is_terminal d.terminal ≡ true
  pub not_n : (d.terminal == b'n') ≡ false
  pub not_percent : (d.terminal == b'%') ≡ false

abbrev pub IsFormat : List Piece → Type 0
IsFormat [] = Unit
IsFormat (plain c ∷ ps) = ((c == b'%') ≡ false) × IsFormat ps
IsFormat (percent ∷ ps) = IsFormat ps
IsFormat (directive d ∷ ps) = IsDirective d × IsFormat ps

-- The parameter that a width takes, in front of `ps`.
abbrev pub width_param : Amount → Params → Params
width_param star ps = more dynamic_width ps
width_param absent ps = ps
width_param (digits ds) ps = ps

-- The parameters `ts`, in front of `ps`.
abbrev pub from_list_onto : List ParamType → Params → Params
from_list_onto [] ps = ps
from_list_onto (t ∷ ts) ps = more t (from_list_onto ts ps)

abbrev pub from_list : List ParamType → Params
from_list [] = end
from_list (t ∷ ts) = more t (from_list ts)
