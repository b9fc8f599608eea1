-- ===== src/Format/Scan.antt =====
-- The scanner of src/static_log_internal.h: `getParamInfo` and the functions that call it.
use static_logger.Prelude.{
  ℕ, zero, suc, ◌+◌, ◌-◌, ◌*◌, ◌^◌, Bool, true, false, not, Option, none, some, List, [], ◌∷◌, ◌==◌,
  ltb, if◌then◌else◌, length,
}
use static_logger.Format.Chars.{is_flag, is_digit, is_length, is_terminal}
use static_logger.Format.Types.{
  ParamType, invalid, dynamic_width, dynamic_precision, non_string, string_with_dynamic_precision,
  string_with_no_precision, string, Error, unrecognized_specifier, unsupported_n, overflow, Result,
  ok, throws,
}

abbrev pub Chars : Type 0
Chars = List ℕ

-- `fmt[pos]`
abbrev pub at : Chars → ℕ
at [] = 0
at (c ∷ _) = c

-- `++pos`
abbrev pub advance : Chars → Chars
advance [] = []
advance (_ ∷ s) = s

-- `while (test(fmt[pos])) ++pos;` (the NUL is in no class)
unfoldable pub skip : (ℕ → Bool) → Chars → Chars
skip test [] = []
skip test (c ∷ s) = if test c then skip test s else c ∷ s

-- How a part of the loop's body ends: by a `return`, by an exception, or at what follows it.
pub data Flow {ℓ} (A : Type ℓ) : Type ℓ where
  returns : ParamType → Flow A
  raises : Error → Flow A
  goes : A → Flow A

infixl 5 ◌>>=◌
abbrev pub ◌>>=◌ {ℓ κ} : {A : Type ℓ} {B : Type κ} → Flow A → (A → Flow B) → Flow B
returns t >>= f = returns t
raises e >>= f = raises e
goes a >>= f = f a

-- `hasDynamicPrecision`, and `precision` with `none` for -1
pub record Precision : Type 0 where
  pub has_dynamic : Bool
  pub precision : Option ℕ

abbrev pub int_limit : ℕ
int_limit = 2 ^ 31

-- `while (isDigit(fmt[pos])) { precision = 10*precision + (fmt[pos] - '0'); ++pos; }`
unfoldable pub scan_precision : ℕ → Chars → Result (ℕ × Chars)
scan_precision p [] = ok (p, [])
scan_precision p (c ∷ s) =
    let p' = 10 * p + (c - b'0') in
    let rest = scan_precision p' s in
    if is_digit c then (if ltb p' int_limit then rest else throws overflow) else ok (p, c ∷ s)

-- The first component is `param_num`.
unfoldable pub consume_width : ℕ → Chars → Flow (ℕ × Chars)
consume_width n s =
    if at s == b'*'
    then (if n == 0 then returns dynamic_width else goes (n - 1, advance s))
    else goes (n, skip is_digit s)

-- The digits of a static precision are read.
abbrev pub static_precision : ℕ → Result (ℕ × Chars) → Flow (ℕ × Precision × Chars)
static_precision n (ok (p, s)) = goes (n, record { has_dynamic = false; precision = some p }, s)
static_precision n (throws e) = raises e

unfoldable pub consume_precision : ℕ → Chars → Flow (ℕ × Precision × Chars)
consume_precision n s =
    if not (at s == b'.')
    then goes (n, record { has_dynamic = false; precision = none }, s)
    else if at (advance s) == b'*'
    then (if n == 0
        then returns dynamic_precision
        else goes (n - 1, record { has_dynamic = true; precision = none }, advance (advance s)))
    else static_precision n (scan_precision 0 (advance s))

-- What a parameter is, by the terminal and the precision of its specifier.
unfoldable pub param_type : ℕ → Precision → ParamType
param_type c p =
    if not (c == b's')
    then non_string
    else if p.has_dynamic
    then string_with_dynamic_precision
    else elim p.precision [ none ↦ string_with_no_precision | some n ↦ string n ]

unfoldable pub consume_terminal : ℕ → Precision → Chars → Flow (ℕ × Chars)
consume_terminal n p s =
    if not (is_terminal (at s))
    then raises unrecognized_specifier
    else if at s == b'n'
    then raises unsupported_n
    else if not (n == 0)
    then goes (n - 1, advance s)
    else returns (param_type (at s) p)

unfoldable pub behind_width : ℕ → Chars → Flow (ℕ × Chars)
behind_width n s = do (n', p, s') ← consume_precision n s; consume_terminal n' p (skip is_length s')

-- The body of the loop behind a `%` that no `%` follows.
unfoldable pub specifier : ℕ → Chars → Flow (ℕ × Chars)
specifier n s = do (n₁, s₁) ← consume_width n (skip is_flag s); behind_width n₁ s₁

-- One round of the loop, at `fmt[pos] == c` with `s` behind it.
unfoldable pub round : ℕ → ℕ → Chars → Flow (ℕ × Chars)
round n c s =
    if not (c == b'%')
    then goes (n, s)
    else if at s == b'%'
    then goes (n, advance s)
    else specifier n s

-- The end of a round: `loop` is the rest of the rounds.
abbrev pub resume : (ℕ → Chars → Result ParamType) → Flow (ℕ × Chars) → Result ParamType
resume loop (returns t) = ok t
resume loop (raises e) = throws e
resume loop (goes (n, s)) = loop n s

-- The loop `while (pos < N - 1)`. Each round reads at least a character, so fuel that is the
-- length of the suffix does not run out before the suffix does.
unfoldable pub param_info_from : ℕ → ℕ → Chars → Result ParamType
param_info_from fuel n [] = ok invalid
param_info_from zero n (c ∷ s) = ok invalid
param_info_from (suc fuel) n (c ∷ s) = resume (param_info_from fuel) (round n c s)

unfoldable pub get_param_info : Chars → ℕ → Result ParamType
get_param_info fmt n = param_info_from (length fmt) n fmt
