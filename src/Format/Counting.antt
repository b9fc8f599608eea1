-- ===== src/Format/Counting.antt =====
-- `countFmtParams`, `analyzeFormatString` and `getNumNibblesNeeded` against the sequence of
-- parameters.
use static_logger.Prelude.{
  ℕ, zero, suc, ◌+◌, Bool, Option, some, List, [], ◌∷◌, if◌then◌else◌, length, ◌≡◌, refl, sym, ap,
  ◌∙◌, arith,
}
use static_logger.Format.Types.{ParamType, Result, ok, throws}
use static_logger.Format.Scan.{Chars, get_param_info}
use static_logger.Format.Count.{
  needs_nibble, count_from, count_fmt_params, analyze_from, analyze_format_string, nibbles_from,
  nibbles_below, get_num_nibbles_needed,
}
use static_logger.Format.Params.{Params, end, bad, more, index, params, get_param_info-index}
use static_logger.Format.Bound.{Fits, params_from-Fits}

abbrev pub map_result {ℓ κ} : {A : Type ℓ} {B : Type κ} → (A → B) → Result A → Result B
map_result f (ok a) = ok (f a)
map_result f (throws e) = throws e

-- All the parameters, or the first error.
abbrev pub to_list : Params → Result (List ParamType)
to_list end = ok []
to_list (bad e) = throws e
to_list (more t ps) = map_result (◌∷◌ t) (to_list ps)

abbrev pub count_if : (ParamType → Bool) → List ParamType → ℕ
count_if test [] = 0
count_if test (t ∷ ts) = (if test t then 1 else 0) + count_if test ts

add_zero : (n : ℕ) → n ≡ n + 0
add_zero n = omega arith

add_one_add : (n m : ℕ) → n + 1 + m ≡ n + suc m
add_one_add n m = omega arith

-- From here on `ps` is what follows the `count` parameters that the loop has passed.
abbrev Follows : Chars → ℕ → Params → Type 0
Follows fmt count ps = (j : ℕ) → get_param_info fmt (count + j) ≡ index ps j

Follows-more :
    (fmt : Chars) (count : ℕ) (t : ParamType) (ps : Params)
    → Follows fmt count (more t ps)
    → (get_param_info fmt count ≡ ok t) × Follows fmt (count + 1) ps
Follows-more fmt count t ps h = (
  ap (get_param_info fmt) (add_zero count) ∙ h 0,
  λ j. ap (get_param_info fmt) (add_one_add count j) ∙ h (suc j),
)

count_from-Follows :
    (fuel : ℕ) (fmt : Chars) (count : ℕ) (ps : Params)
    → Fits fuel ps
    → Follows fmt count ps
    → count_from (suc fuel) fmt count ≡ some (map_result (λ ts. count + length ts) (to_list ps))
unfolding count_from
count_from-Follows fuel fmt count end fits h =
    rw (ap (get_param_info fmt) (add_zero count) ∙ h 0, count_from)
      (ap (λ n. some (ok n)) (add_zero count))
count_from-Follows fuel fmt count (bad e) fits h =
    rw (ap (get_param_info fmt) (add_zero count) ∙ h 0, count_from)
count_from-Follows zero fmt count (more t ps) fits h = absurd fits
count_from-Follows (suc fuel) fmt count (more t ps) fits h =
    let (now, later) = Follows-more fmt count t ps h in
    rw (now, count_from)
      (rw (fits.0) (count_from-Follows fuel fmt (count + 1) ps fits.1 later ∙ shift (to_list ps)))
  where
    shift :
        (r : Result (List ParamType))
        → ◌≡◌ {A = Option (Result ℕ)}
            (some (map_result (λ ts. count + 1 + length ts) r))
            (some (map_result (λ ts. count + length ts) (map_result (◌∷◌ t) r)))
    shift (ok ts) = ap (λ n. some (ok n)) (add_one_add count (length ts))
    shift (throws e) = refl

params-Follows : (fmt : Chars) → Follows fmt 0 (params fmt)
params-Follows fmt j = ap (get_param_info fmt) zero_add ∙ get_param_info-index fmt j
  where
    zero_add : 0 + j ≡ j
    zero_add = omega arith

-- The number that `countFmtParams` returns is the number of the format's parameters; on a
-- malformed format it throws the first error. It always ends.
pub count_fmt_params-to_list :
    (fmt : Chars) → count_fmt_params fmt ≡ some (map_result length (to_list (params fmt)))
unfolding count_fmt_params params
count_fmt_params-to_list fmt =
    ap (λ n. count_from n fmt 0) fuel
    ∙ count_from-Follows (length fmt) fmt 0 (params fmt) (params_from-Fits (length fmt) fmt)
        (params-Follows fmt)
    ∙ drop_zero (to_list (params fmt))
  where
    fuel : length fmt + 1 ≡ suc (length fmt)
    fuel = omega arith

    drop_zero :
        (r : Result (List ParamType))
        → ◌≡◌ {A = Option (Result ℕ)}
            (some (map_result (λ ts. 0 + length ts) r))
            (some (map_result length r))
    drop_zero (ok ts) = ground arith
    drop_zero (throws e) = refl

cons-eq-ok :
    (t : ParamType) (r : Result (List ParamType)) (ts : List ParamType)
    → map_result (◌∷◌ t) r ≡ ok ts
    → (us : List ParamType) × (r ≡ ok us) × (ts ≡ t ∷ us)
cons-eq-ok t (ok us) ts e = (us, refl, ground arith)
cons-eq-ok t (throws e') ts e = cc

analyze_from-Follows :
    (fmt : Chars) (i : ℕ) (ps : Params) (ts : List ParamType)
    → Follows fmt i ps
    → to_list ps ≡ ok ts
    → analyze_from fmt i (length ts) ≡ ok ts
unfolding analyze_from
analyze_from-Follows fmt i end [] h e = refl
analyze_from-Follows fmt i end (t ∷ ts) h e = cc
analyze_from-Follows fmt i (bad x) ts h e = cc
analyze_from-Follows fmt i (more t ps) ts h e =
    let (now, later) = Follows-more fmt i t ps h in
    let (us, e', split) = cons-eq-ok t (to_list ps) ts e in
    rw split
      (rw (now, analyze_from) (rw (analyze_from-Follows fmt (i + 1) ps us later e', analyze_from)))

-- When `countFmtParams` returns `n`, `analyzeFormatString<n>` succeeds and holds the format's `n`
-- parameters in order.
pub analyze_format_string-count :
    (fmt : Chars) (n : ℕ)
    → count_fmt_params fmt ≡ some (ok n)
    → (ts : List ParamType) × (analyze_format_string n fmt ≡ ok ts)
      × (to_list (params fmt) ≡ ok ts)
      × (length ts ≡ n)
unfolding analyze_format_string
analyze_format_string-count fmt n e =
    counted (to_list (params fmt)) refl (sym (count_fmt_params-to_list fmt) ∙ e)
  where
    counted :
        (r : Result (List ParamType))
        → to_list (params fmt) ≡ r
        → ◌≡◌ {A = Option (Result ℕ)} (some (map_result length r)) (some (ok n))
        → (ts : List ParamType) × (analyze_from fmt 0 n ≡ ok ts)
          × (to_list (params fmt) ≡ ok ts)
          × (length ts ≡ n)
    counted (ok ts) h c =
        let size : length ts ≡ n = ground arith in
        (
          ts,
          ap (analyze_from fmt 0) (sym size)
              ∙ analyze_from-Follows fmt 0 (params fmt) ts (params-Follows fmt) h,
          h,
          size,
        )
    counted (throws x) h c = cc

nibbles_from-Follows :
    (fmt : Chars) (i acc : ℕ) (ps : Params) (ts : List ParamType)
    → Follows fmt i ps
    → to_list ps ≡ ok ts
    → nibbles_from fmt i (length ts) acc ≡ ok (acc + count_if needs_nibble ts)
unfolding nibbles_from
nibbles_from-Follows fmt i acc end [] h e = ap ok (add_zero acc)
nibbles_from-Follows fmt i acc end (t ∷ ts) h e = cc
nibbles_from-Follows fmt i acc (bad x) ts h e = cc
nibbles_from-Follows fmt i acc (more t ps) ts h e =
    let (now, later) = Follows-more fmt i t ps h in
    let (us, e', split) = cons-eq-ok t (to_list ps) ts e in
    rw split
      (rw (now, nibbles_from) (nibbles_from-Follows fmt (i + 1) _ ps us later e' ∙ ground arith))

-- `getNumNibblesNeeded` counts the parameters that are neither strings nor missing, dynamic widths
-- and precisions among them; on a malformed format it throws the first error.
pub get_num_nibbles_needed-to_list :
    (fmt : Chars)
    → get_num_nibbles_needed fmt ≡ some (map_result (count_if needs_nibble) (to_list (params fmt)))
unfolding get_num_nibbles_needed
get_num_nibbles_needed-to_list fmt =
    ap (nibbles_below fmt) (count_fmt_params-to_list fmt) ∙ counted (to_list (params fmt)) refl
  where
    counted :
        (r : Result (List ParamType))
        → to_list (params fmt) ≡ r
        → nibbles_below fmt (some (map_result length r))
          ≡ some (map_result (count_if needs_nibble) r)
    counted (ok ts) h =
        ap some (nibbles_from-Follows fmt 0 0 (params fmt) ts (params-Follows fmt) h ∙ ground arith)
    counted (throws e) h = refl
