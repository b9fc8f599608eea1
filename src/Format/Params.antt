-- ===== src/Format/Params.antt =====
-- A format read once from left to right, as the sequence of its parameters, and the proof that
-- `getParamInfo`, which starts again for each parameter, returns the members of that sequence.
use static_logger.Prelude.{
  ℕ, zero, suc, true, false, not, none, some, [], ◌∷◌, ◌==◌, if◌then◌else◌, length, ◌≡◌, refl, ◌∙◌,
  arith,
}
use static_logger.Format.Chars.{is_flag, is_digit, is_length, is_terminal}
use static_logger.Format.Types.{
  ParamType, invalid, dynamic_width, dynamic_precision, Error, unrecognized_specifier,
  unsupported_n, Result, ok, throws,
}
use static_logger.Format.Scan.{
  Chars, at, advance, skip, static_precision, behind_width, resume, Flow, returns, raises, goes,
  ◌>>=◌, Precision, scan_precision, consume_width, consume_precision, param_type, consume_terminal,
  specifier, round, param_info_from, get_param_info,
}

-- The parameters in order, up to the end of the format or to the first error.
pub data Params : Type 0 where
  end : Params
  bad : Error → Params
  more : ParamType → Params → Params

-- The answer of `getParamInfo` for the n-th parameter.
abbrev pub index : Params → ℕ → Result ParamType
index end n = ok invalid
index (bad e) n = throws e
index (more t ps) zero = ok t
index (more t ps) (suc n) = index ps n

-- In each of the next three, `k` reads what follows the specifier.
unfoldable pub terminal_params : Precision → Chars → (Chars → Params) → Params
terminal_params p s k =
    if not (is_terminal (at s))
    then bad unrecognized_specifier
    else if at s == b'n'
    then bad unsupported_n
    else more (param_type (at s) p) (k (advance s))

abbrev pub static_precision_params : (Chars → Params) → Result (ℕ × Chars) → Params
static_precision_params k (ok (p, s)) =
    terminal_params (record { has_dynamic = false; precision = some p }) (skip is_length s) k
static_precision_params k (throws e) = bad e

unfoldable pub precision_params : Chars → (Chars → Params) → Params
precision_params s k =
    if not (at s == b'.')
    then terminal_params (record { has_dynamic = false; precision = none }) (skip is_length s) k
    else if at (advance s) == b'*'
    then more dynamic_precision (
        terminal_params (record { has_dynamic = true; precision = none })
          (skip is_length (advance (advance s))) k)
    else static_precision_params k (scan_precision 0 (advance s))

unfoldable pub specifier_params : Chars → (Chars → Params) → Params
specifier_params s k =
    if at (skip is_flag s) == b'*'
    then more dynamic_width (precision_params (advance (skip is_flag s)) k)
    else precision_params (skip is_digit (skip is_flag s)) k

unfoldable pub params_from : ℕ → Chars → Params
params_from fuel [] = end
params_from zero (c ∷ s) = end
params_from (suc fuel) (c ∷ s) =
    let here = params_from fuel s in
    let behind = params_from fuel (advance s) in
    let directive = specifier_params s (params_from fuel) in
    if not (c == b'%') then here else if at s == b'%' then behind else directive

unfoldable pub params : Chars → Params
params fmt = params_from (length fmt) fmt

-- What a round's outcome means, if `k` reads the rest.
abbrev pub answer : Flow (ℕ × Chars) → (Chars → Params) → Result ParamType
answer (returns t) k = ok t
answer (raises e) k = throws e
answer (goes (n, s)) k = index (k s) n

answer-consume_terminal :
    (n : ℕ) (p : Precision) (s : Chars) (k : Chars → Params)
    → answer (consume_terminal n p s) k ≡ index (terminal_params p s k) n
unfolding consume_terminal terminal_params
answer-consume_terminal zero p s k = ground arith
answer-consume_terminal (suc n) p s k = ground arith

answer-static_precision :
    (n : ℕ) (r : Result (ℕ × Chars)) (k : Chars → Params)
    → answer (static_precision n r >>= λ (m, p, s). consume_terminal m p (skip is_length s)) k
      ≡ index (static_precision_params k r) n
answer-static_precision n (ok (p, s)) k = answer-consume_terminal n _ (skip is_length s) k
answer-static_precision n (throws e) k = refl

answer-behind_width :
    (n : ℕ) (s : Chars) (k : Chars → Params)
    → answer (behind_width n s) k ≡ index (precision_params s k) n
unfolding behind_width consume_precision precision_params
answer-behind_width zero s k = ground (
  arith,
  answer-consume_terminal 0 (record { has_dynamic = false; precision = none }) (skip is_length s) k,
  answer-static_precision 0 (scan_precision 0 (advance s)) k,
)
answer-behind_width (suc n) s k = ground (
  arith,
  answer-consume_terminal (suc n) (record { has_dynamic = false; precision = none })
      (skip is_length s) k,
  answer-static_precision (suc n) (scan_precision 0 (advance s)) k,
  answer-consume_terminal n (record { has_dynamic = true; precision = none })
      (skip is_length (advance (advance s))) k,
)

pub answer-specifier :
    (n : ℕ) (s : Chars) (k : Chars → Params)
    → answer (specifier n s) k ≡ index (specifier_params s k) n
unfolding specifier consume_width specifier_params
answer-specifier zero s k = ground (arith, answer-behind_width 0 (skip is_digit (skip is_flag s)) k)
answer-specifier (suc n) s k = ground (
  arith,
  answer-behind_width (suc n) (skip is_digit (skip is_flag s)) k,
  answer-behind_width n (advance (skip is_flag s)) k,
)

pub resume-answer :
    (loop : ℕ → Chars → Result ParamType) (k : Chars → Params)
    → ((n : ℕ) (s : Chars) → loop n s ≡ index (k s) n)
    → (f : Flow (ℕ × Chars)) → resume loop f ≡ answer f k
resume-answer loop k h (returns t) = refl
resume-answer loop k h (raises e) = refl
resume-answer loop k h (goes (n, s)) = h n s

answer-round :
    (fuel n c : ℕ) (s : Chars)
    → answer (round n c s) (params_from fuel) ≡ index (params_from (suc fuel) (c ∷ s)) n
unfolding round params_from
answer-round fuel n c s = ground (arith, answer-specifier n s (params_from fuel))

param_info_from-index :
    (fuel n : ℕ) (s : Chars) → param_info_from fuel n s ≡ index (params_from fuel s) n
unfolding param_info_from params_from
param_info_from-index fuel n [] = refl
param_info_from-index zero n (c ∷ s) = refl
param_info_from-index (suc fuel) n (c ∷ s) =
    resume-answer (param_info_from fuel) (params_from fuel) (param_info_from-index fuel)
      (round n c s)
    ∙ answer-round fuel n c s

-- `getParamInfo` for the n-th parameter returns the n-th member of the sequence, `kINVALID` behind
-- its end, and throws the error that stands at or before that place.
pub get_param_info-index : (fmt : Chars) (n : ℕ) → get_param_info fmt n ≡ index (params fmt) n
unfolding get_param_info params
get_param_info-index fmt n = param_info_from-index (length fmt) n fmt
