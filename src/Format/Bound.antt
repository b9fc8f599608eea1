-- ===== src/Format/Bound.antt =====
-- A format has no more parameters than characters, and none of them is `kINVALID`: the bound on the
-- rounds of `countFmtParams`.
use static_logger.Prelude.{
  ℕ, zero, suc, ◌≤◌, true, false, none, [], ◌∷◌, ◌==◌, if◌then◌else◌, length, ◌≡◌, arith,
}
use static_logger.Format.Chars.{is_flag, is_digit, is_length, is_terminal}
use static_logger.Format.Types.{dynamic_width, Result, ok, throws}
use static_logger.Format.Scan.{Chars, at, advance, skip, Precision, scan_precision, param_type}
use static_logger.Format.Count.{is_invalid}
use static_logger.Format.Params.{
  Params, end, bad, more, terminal_params, static_precision_params, precision_params,
  specifier_params, params_from,
}
use static_logger.Format.Fuel.{
  length-skip, length-advance, Shorter, Shorter-le, scan_precision-Shorter,
}

-- No member is `kINVALID`, and there are at most `n` of them.
abbrev pub Fits : ℕ → Params → Type 0
Fits n end = Unit
Fits n (bad e) = Unit
Fits zero (more t ps) = ⊥
Fits (suc n) (more t ps) = (is_invalid t ≡ false) × Fits n ps

Fits-le : (n m : ℕ) (ps : Params) → Fits n ps → n ≤ m → Fits m ps
Fits-le n m end h le = h
Fits-le n m (bad e) h le = h
Fits-le zero m (more t ps) h le = absurd h
Fits-le (suc n) zero (more t ps) h le = absurd (omega arith)
Fits-le (suc n) (suc m) (more t ps) h le = (h.0, Fits-le n m ps h.1 (omega arith))

param_type-valid : (c : ℕ) (p : Precision) → is_invalid (param_type c p) ≡ false
unfolding param_type
param_type-valid c p = ground arith

module _ (k : Chars → Params) (fits : (s : Chars) → Fits (length s) (k s)) where
  terminal_params-Fits : (p : Precision) (s : Chars) → Fits (length s) (terminal_params p s k)
  unfolding terminal_params is_terminal
  terminal_params-Fits p [] = tt
  terminal_params-Fits p (c ∷ s) = ground (arith, fits s, param_type-valid c p)

  skipped-Fits :
      (p : Precision) (s : Chars) (n : ℕ)
      → length s ≤ n
      → Fits n (terminal_params p (skip is_length s) k)
  skipped-Fits p s n h =
      Fits-le (length (skip is_length s)) n _ (terminal_params-Fits p (skip is_length s))
        (omega (arith, length-skip is_length s))

  static_precision_params-Fits :
      (n : ℕ) (r : Result (ℕ × Chars)) → Shorter n r → Fits n (static_precision_params k r)
  static_precision_params-Fits n (ok (p, s)) h = skipped-Fits _ s n h
  static_precision_params-Fits n (throws e) h = tt

  precision_params-Fits : (s : Chars) → Fits (length s) (precision_params s k)
  unfolding precision_params
  precision_params-Fits [] = skipped-Fits _ [] 0 (omega arith)
  precision_params-Fits (c ∷ []) = ground (
    arith,
    skipped-Fits (record { has_dynamic = false; precision = none }) (c ∷ []) 1 (omega arith),
    static_precision_params-Fits 1 (scan_precision 0 [])
        (Shorter-le {m = 1} _ (scan_precision-Shorter 0 []) (omega arith)),
  )
  precision_params-Fits (c ∷ d ∷ s) = ground (
    arith,
    skipped-Fits (record { has_dynamic = false; precision = none }) (c ∷ d ∷ s) (length (c ∷ d ∷ s))
        (omega arith),
    skipped-Fits (record { has_dynamic = true; precision = none }) s (suc (length s)) (omega arith),
    static_precision_params-Fits (suc (suc (length s))) (scan_precision 0 (d ∷ s))
        (Shorter-le {m = suc (suc (length s))} _ (scan_precision-Shorter 0 (d ∷ s)) (omega arith)),
  )

  width_params-Fits :
      (s : Chars) (n : ℕ)
      → length s ≤ n
      → Fits n (
          if at s == b'*'
          then more dynamic_width (precision_params (advance s) k)
          else precision_params (skip is_digit s) k)
  unfolding skip
  width_params-Fits [] n h = Fits-le 0 n _ (precision_params-Fits (skip is_digit [])) (omega arith)
  width_params-Fits (c ∷ s) zero h = absurd (omega arith)
  width_params-Fits (c ∷ s) (suc n) h = ground (
    arith,
    Fits-le (length s) n _ (precision_params-Fits s) (omega arith),
    Fits-le (length (skip is_digit (c ∷ s))) (suc n) _
        (precision_params-Fits (skip is_digit (c ∷ s)))
        (omega (arith, length-skip is_digit (c ∷ s))),
  )

  specifier_params-Fits : (s : Chars) → Fits (length s) (specifier_params s k)
  unfolding specifier_params
  specifier_params-Fits s = width_params-Fits (skip is_flag s) (length s) (length-skip is_flag s)

-- A parameter takes at least one character of the format.
pub params_from-Fits : (fuel : ℕ) (s : Chars) → Fits (length s) (params_from fuel s)
unfolding params_from
params_from-Fits fuel [] = tt
params_from-Fits zero (c ∷ s) = tt
params_from-Fits (suc fuel) (c ∷ s) = ground (
  arith,
  Fits-le (length s) (suc (length s)) _ (params_from-Fits fuel s) (omega arith),
  Fits-le (length (advance s)) (suc (length s)) _ (params_from-Fits fuel (advance s))
      (omega (arith, length-advance s)),
  Fits-le (length s) (suc (length s)) _
      (specifier_params-Fits (params_from fuel) (params_from-Fits fuel) s) (omega arith),
)
