-- ===== src/Format/RoundTrip.antt =====
-- The scanner against the syntax tree of a format.
use static_logger.Prelude.{
  ℕ, zero, suc, false, some, List, [], ◌∷◌, ◌==◌, if◌then◌else◌, length, ◌≡◌, refl, sym, ap, ◌∙◌,
  arith,
}
use static_logger.Format.Chars.{is_flag, is_digit}
use static_logger.Format.Types.{
  ParamType, invalid, dynamic_width, dynamic_precision, non_string, ok,
}
use static_logger.Format.Scan.{Chars, at, get_param_info}
use static_logger.Format.Count.{count_fmt_params, analyze_format_string}
use static_logger.Format.Params.{
  Params, index, specifier_params, params_from, params, get_param_info-index,
}
use static_logger.Format.Fuel.{params-cons}
use static_logger.Format.Counting.{
  to_list, map_result, count_fmt_params-to_list, analyze_format_string-count,
}
use static_logger.Format.Grammar.{
  Amount, absent, star, digits, Directive, Piece, plain, percent, directive, print_precision,
  print_tail, print_directive, print, string_type, dynamic, directive_types, types, IsDirective,
  IsFormat, from_list, from_list_onto, width_param,
}
use static_logger.Format.Printed.{
  tail_start, terminal_params-tail, precision_params-print, specifier_params-print, print-start,
}

-- What follows the width is in no class that the width could take.
precision_start :
    (a : Amount) (t : Chars)
    → (is_flag (at t) ≡ false)
      × (is_digit (at t) ≡ false)
      × ((at t == b'*') ≡ false)
      × ((at t == b'.') ≡ false)
      × ((at t == b'%') ≡ false)
    → let c = at (print_precision a t) in
      (is_flag c ≡ false) × (is_digit c ≡ false) × ((c == b'*') ≡ false) × ((c == b'%') ≡ false)
unfolding is_flag is_digit
precision_start absent t h = (h.0, h.1, h.2, h.4)
precision_start star t h = (refl, refl, refl, refl)
precision_start (digits ds) t h = (refl, refl, refl, refl)

regroup :
    (w a : Amount) (t : ParamType) (ps : Params)
    → width_param w (from_list_onto (dynamic a dynamic_precision (t ∷ [])) ps)
      ≡ from_list_onto (dynamic w dynamic_width (dynamic a dynamic_precision (t ∷ []))) ps
regroup star a t ps = refl
regroup absent a t ps = refl
regroup (digits ds) a t ps = refl

onto-from_list :
    (w a : Amount) (t : ParamType) (ts : List ParamType)
    → from_list_onto (dynamic w dynamic_width (dynamic a dynamic_precision (t ∷ []))) (from_list ts)
      ≡ from_list (dynamic w dynamic_width (dynamic a dynamic_precision (t ∷ ts)))
onto-from_list w a t ts = ground arith

directive_param : Directive → ParamType
directive_param d = if d.terminal == b's' then string_type d.precision else non_string

specifier_params-directive :
    (d : Directive) (rest : Chars) (k : Chars → Params)
    → IsDirective d
    → (specifier_params (print_directive d rest) k ≡ from_list_onto (directive_types d []) (k rest))
      × ((at (print_directive d rest) == b'%') ≡ false)
specifier_params-directive d rest k h =
    let t = print_tail d rest in
    let outside = tail_start d rest h in
    let (flag, digit, asterisk, percent_sign) = precision_start d.precision t outside in
    let u = print_precision d.precision t in
    (
      specifier_params-print u k flag digit asterisk percent_sign d.flags d.width h.flags_are
            h.width_is
          ∙ ap (width_param d.width) (
              precision_params-print d.terminal t rest k outside.1 outside.2 outside.3
                (λ p. terminal_params-tail p d rest k h) d.precision h.precision_is)
          ∙ regroup d.width d.precision _ (k rest),
      print-start u k flag digit asterisk percent_sign d.flags d.width h.flags_are h.width_is,
    )

params-print : (ps : List Piece) → IsFormat ps → params (print ps) ≡ from_list (types ps)
unfolding print types
params-print [] h = unfold params params_from in refl
params-print (plain c ∷ ps) h = params-cons c (print ps) ∙ rw (h.0) (params-print ps h.1)
params-print (percent ∷ ps) h = params-cons b'%' (b'%' ∷ print ps) ∙ params-print ps h
params-print (directive d ∷ ps) h =
    let (read, start) = specifier_params-directive d (print ps) params h.0 in
    params-cons b'%' (print_directive d (print ps))
    ∙ rw start (
        read
        ∙ ap (from_list_onto (directive_types d [])) (params-print ps h.1)
        ∙ onto-from_list d.width d.precision _ (types ps))

to_list-from_list : (ts : List ParamType) → to_list (from_list ts) ≡ ok ts
to_list-from_list [] = refl
to_list-from_list (t ∷ ts) = ap (map_result (◌∷◌ t)) (to_list-from_list ts)

abbrev pub type_at : List ParamType → ℕ → ParamType
type_at [] n = invalid
type_at (t ∷ ts) zero = t
type_at (t ∷ ts) (suc n) = type_at ts n

index-from_list : (ts : List ParamType) (n : ℕ) → index (from_list ts) n ≡ ok (type_at ts n)
index-from_list [] n = refl
index-from_list (t ∷ ts) zero = refl
index-from_list (t ∷ ts) (suc n) = index-from_list ts n

-- On the text of a well-formed format `getParamInfo` returns the type of the n-th parameter that
-- the syntax tree has, and `kINVALID` behind the last.
pub get_param_info-print :
    (ps : List Piece) (n : ℕ)
    → IsFormat ps
    → get_param_info (print ps) n ≡ ok (type_at (types ps) n)
get_param_info-print ps n h =
    get_param_info-index (print ps) n
    ∙ ap (λ qs. index qs n) (params-print ps h)
    ∙ index-from_list (types ps) n

-- A well-formed format compiles: `countFmtParams` returns the number of parameters of the syntax
-- tree, and `analyzeFormatString` their types in order.
pub analyze_format_string-print :
    (ps : List Piece)
    → IsFormat ps
    → (count_fmt_params (print ps) ≡ some (ok (length (types ps))))
      × (analyze_format_string (length (types ps)) (print ps) ≡ ok (types ps))
analyze_format_string-print ps h =
    let listed = ap to_list (params-print ps h) ∙ to_list-from_list (types ps) in
    let counted : count_fmt_params (print ps) ≡ some (ok (length (types ps))) =
      count_fmt_params-to_list (print ps) ∙ ap (λ r. some (map_result length r)) listed in
    let (ts, analyzed, same, size) =
      analyze_format_string-count (print ps) (length (types ps)) counted in
    (counted, analyzed ∙ sym same ∙ listed)
