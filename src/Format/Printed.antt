-- ===== src/Format/Printed.antt =====
-- What the scanner reads in a format that was printed from its syntax tree.
use static_logger.Prelude.{
  ℕ, ◌+◌, ◌-◌, ◌*◌, ◌<◌, ◌≤◌, Bool, true, false, none, some, [], ◌∷◌, ◌++◌, ◌==◌, if◌then◌else◌,
  ◌≡◌, refl, arith,
}
use static_logger.Format.Chars.{is_flag, is_digit, is_length, is_terminal}
use static_logger.Format.Types.{dynamic_precision, non_string, ok}
use static_logger.Format.Scan.{Chars, at, skip, Precision, scan_precision, param_type, int_limit}
use static_logger.Format.Params.{Params, more, terminal_params, precision_params, specifier_params}
use static_logger.Format.Grammar.{
  Amount, absent, star, digits, Directive, digits_value, print_width, print_precision, print_tail,
  string_type, dynamic, All, IsWidth, IsPrecision, IsDirective, from_list_onto, width_param,
}

-- A class is skipped up to the first character outside it.
skip-append :
    (test : ℕ → Bool) (s rest : Chars) → All test s → skip test (s ++ rest) ≡ skip test rest
unfolding skip
skip-append test [] rest h = refl
skip-append test (c ∷ s) rest h = rw (h.0) (skip-append test s rest h.1)

skip-stops : (test : ℕ → Bool) (s : Chars) → test (at s) ≡ false → skip test s ≡ s
unfolding skip
skip-stops test [] h = refl
skip-stops test (c ∷ s) h = rw h

-- A leading zero of the width is read as a flag, to the same end.
skip_width :
    (ds rest : Chars)
    → All is_digit ds
    → is_flag (at rest) ≡ false
    → is_digit (at rest) ≡ false
    → skip is_digit (skip is_flag (ds ++ rest)) ≡ rest
unfolding skip
skip_width [] rest h f d = rw (skip-stops is_flag rest f) (skip-stops is_digit rest d)
skip_width (c ∷ ds) rest h f d = ground (
  arith,
  skip_width ds rest h.1 f d,
  skip-append is_digit ds rest h.1,
  skip-stops is_digit rest d,
)

width_start :
    (ds rest : Chars)
    → All is_digit ds
    → is_flag (at rest) ≡ false
    → (at rest == b'*') ≡ false
    → (at (skip is_flag (ds ++ rest)) == b'*') ≡ false
unfolding skip is_digit
width_start [] rest h f d = rw (skip-stops is_flag rest f) d
width_start (c ∷ ds) rest h f d = ground (arith, width_start ds rest h.1 f d)

digits_value_grows : (p : ℕ) (ds : Chars) → p ≤ digits_value p ds
digits_value_grows p [] = omega arith
digits_value_grows p (d ∷ ds) = omega (arith, digits_value_grows (10 * p + (d - b'0')) ds)

scan_precision-digits :
    (p : ℕ) (ds rest : Chars)
    → All is_digit ds
    → is_digit (at rest) ≡ false
    → digits_value p ds < int_limit
    → scan_precision p (ds ++ rest) ≡ ok (digits_value p ds, rest)
unfolding scan_precision
scan_precision-digits p [] [] h d small = refl
scan_precision-digits p [] (c ∷ rest) h d small = rw d
scan_precision-digits p (c ∷ ds) rest h d small = ground (
  arith,
  h.0,
  digits_value_grows (10 * p + (c - b'0')) ds,
  scan_precision-digits (10 * p + (c - b'0')) ds rest h.1 d,
)

-- What stands between the precision and the terminal is in no other class.
pub tail_start :
    (d : Directive) (rest : Chars)
    → IsDirective d
    → let c = at (print_tail d rest) in
      (is_flag c ≡ false)
      × (is_digit c ≡ false)
      × ((c == b'*') ≡ false)
      × ((c == b'.') ≡ false)
      × ((c == b'%') ≡ false)
unfolding is_flag is_digit is_length is_terminal
tail_start d rest h = start d.lengths h.lengths_are
  where
    start :
        (ls : Chars)
        → All is_length ls
        → let c = at (ls ++ (d.terminal ∷ rest)) in
          (is_flag c ≡ false)
          × (is_digit c ≡ false)
          × ((c == b'*') ≡ false)
          × ((c == b'.') ≡ false)
          × ((c == b'%') ≡ false)
    start [] l = ground (arith, h.terminal_is, h.not_percent)
    start (c ∷ ls) l = ground (arith, l.0)

terminal_not_length : (c : ℕ) → is_terminal c ≡ true → is_length c ≡ false
unfolding is_terminal is_length
terminal_not_length c h = ground arith

pub terminal_params-tail :
    (p : Precision) (d : Directive) (rest : Chars) (k : Chars → Params)
    → IsDirective d
    → terminal_params p (skip is_length (print_tail d rest)) k
      ≡ more (param_type d.terminal p) (k rest)
unfolding terminal_params
terminal_params-tail p d rest k h = rw (
  skip-append is_length d.lengths (d.terminal ∷ rest) h.lengths_are,
  skip-stops is_length (d.terminal ∷ rest) (terminal_not_length d.terminal h.terminal_is),
  h.terminal_is,
  h.not_n,
)

digits_start :
    (ds rest : Chars)
    → All is_digit ds
    → (at rest == b'*') ≡ false
    → (at (ds ++ rest) == b'*') ≡ false
unfolding is_digit
digits_start [] rest h s = s
digits_start (c ∷ ds) rest h s = ground (arith, h.0)

-- `t` is what follows the precision, and `c` its terminal.
module _ (c : ℕ) (t rest : Chars) (k : Chars → Params) (not_digit : is_digit (at t) ≡ false)
    (not_star : (at t == b'*') ≡ false) (not_point : (at t == b'.') ≡ false)
    (ends : (p : Precision)
      → terminal_params p (skip is_length t) k ≡ more (param_type c p) (k rest)) where
  pub precision_params-print :
      (a : Amount)
      → IsPrecision a
      → precision_params (print_precision a t) k
        ≡ from_list_onto
            (dynamic a dynamic_precision ((if c == b's' then string_type a else non_string) ∷ []))
            (k rest)
  unfolding precision_params param_type
  precision_params-print absent h =
      rw not_point (rw (ends (record { has_dynamic = false; precision = none })) (ground arith))
  precision_params-print star h =
      rw (ends (record { has_dynamic = true; precision = none })) (ground arith)
  precision_params-print (digits ds) h =
      rw (digits_start ds t h.0 not_star, scan_precision-digits 0 ds t h.0 not_digit h.1)
        (rw (ends (record { has_dynamic = false; precision = some (digits_value 0 ds) }))
          (ground arith))

-- `u` is what follows the width.
module _ (u : Chars) (k : Chars → Params) (not_flag : is_flag (at u) ≡ false)
    (not_digit : is_digit (at u) ≡ false) (not_star : (at u == b'*') ≡ false)
    (not_percent : (at u == b'%') ≡ false) where
  pub specifier_params-print :
      (flags : Chars) (w : Amount)
      → All is_flag flags
      → IsWidth w
      → specifier_params (flags ++ print_width w u) k ≡ width_param w (precision_params u k)
  unfolding specifier_params
  specifier_params-print flags absent f h = rw (
    skip-append is_flag flags u f,
    skip-stops is_flag u not_flag,
    not_star,
    skip-stops is_digit u not_digit,
  )
  specifier_params-print flags star f h = rw (
    skip-append is_flag flags (b'*' ∷ u) f,
    skip-stops is_flag (b'*' ∷ u) (unfold is_flag in refl),
  )
  specifier_params-print flags (digits ds) f h = rw (
    skip-append is_flag flags (ds ++ u) f,
    width_start ds u h not_flag not_star,
    skip_width ds u h not_flag not_digit,
  )

  pub print-start :
      (flags : Chars) (w : Amount)
      → All is_flag flags
      → IsWidth w
      → (at (flags ++ print_width w u) == b'%') ≡ false
  unfolding is_flag is_digit
  print-start (c ∷ flags) w f h = ground (arith, f.0)
  print-start [] absent f h = not_percent
  print-start [] star f h = refl
  print-start [] (digits []) f h = not_percent
  print-start [] (digits (c ∷ ds)) f h = ground (arith, h.0)
