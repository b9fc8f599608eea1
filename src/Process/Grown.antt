-- ===== src/Process/Grown.antt =====
-- `process_fmt` behind a string for which the log buffer has been made larger.
use static_logger.Prelude.{
  ℕ, zero, suc, ◌+◌, ◌-◌, ◌≤◌, ◌<◌, true, none, some, List, [], ◌∷◌, length, ◌≡◌, refl, sym, ap,
  ◌∙◌, lt→ltb, arith,
}
use mathlib.Core.List.{append-nil}
use static_logger.Prelude.Memory.{Memory, read_bytes}
use static_logger.Format.Types.{ParamType, is_string}
use static_logger.Format.Scan.{Chars}
use static_logger.Format.Grammar.{
  Directive, Piece, plain, percent, directive, print, print_directive, types, IsDirective, IsFormat,
}
use static_logger.Decode.{Platform, LogBuffer, has_param_buffer}
use static_logger.Decode.String.{string_text}
use static_logger.Decode.StringGrows.{decode_string_fmt-grows}
use static_logger.Process.{
  Formatting, goes, stops, dangles, less, put_literal, process_round, process_from, print_param,
}
use static_logger.Process.Split.{split_terminal-directive, first-directive}
use static_logger.Process.Render.{
  spec, type_of, string_size, rendered, IsStatic, at_pos, directive_types-static,
}
use static_logger.Process.Print.{
  print_directive_longer, process_round-directive, process_round-plain, process_round-percent,
}

-- The variables of the loop when `log_pos` points into a buffer that has been freed.
abbrev lost : LogBuffer → ℕ → List ParamType → List ℕ → ℕ → Formatting
lost b reserved ts sizes p = record (at_pos b 0 reserved ts sizes p) { log_pos = none }

put_literal-lost :
    (c : ℕ) (s : Chars) (b : LogBuffer) (r : ℕ) (ts : List ParamType) (sizes : List ℕ) (p : ℕ)
    → put_literal c s (lost b r ts sizes p) ≡ stops dangles
unfolding put_literal
put_literal-lost c s b r ts sizes p = refl

process_round-lost :
    (os : Platform) (storage : Memory) (d : Directive) (rest : Chars) (b : LogBuffer) (r : ℕ)
    (t : ParamType) (ts : List ParamType) (sizes : List ℕ) (p : ℕ)
    → IsDirective d
    → process_round os storage b'%' (print_directive d rest) (lost b r (t ∷ ts) sizes p)
      ≡ stops dangles
unfolding process_round
process_round-lost os storage d rest b r t ts sizes p h =
    rw (first-directive d rest h, split_terminal-directive d rest h) refl

-- Whatever comes next in the format is written through the dangling pointer.
process_from-lost :
    (fuel : ℕ) (os : Platform) (storage : Memory) (piece : Piece) (ps : List Piece) (b : LogBuffer)
    (r : ℕ) (sizes : List ℕ) (p : ℕ)
    → IsFormat (piece ∷ ps)
    → IsStatic (piece ∷ ps) sizes
    → 0 < fuel
    → process_from fuel os storage (print (piece ∷ ps)) (lost b r (types (piece ∷ ps)) sizes p)
      ≡ dangles
unfolding process_from print types
process_from-lost zero os storage piece ps b r sizes p f st h = absurd (omega arith)
process_from-lost (suc fuel) os storage (plain c) ps b r sizes p f st h =
    rw
      (
        process_round-plain os storage c (print ps) (lost b r (types ps) sizes p) f.0,
        put_literal-lost c (print ps) b r (types ps) sizes p,
      )
      refl
process_from-lost (suc fuel) os storage percent ps b r sizes p f st h =
    rw
      (
        process_round-percent os storage (print ps) (lost b r (types ps) sizes p),
        put_literal-lost b'%' (print ps) b r (types ps) sizes p,
      )
      refl
process_from-lost (suc fuel) os storage (directive d) ps b r [] p f st h = absurd st
process_from-lost (suc fuel) os storage (directive d) ps b r (size ∷ sizes) p f st h =
    rw
      (
        directive_types-static d (types ps) st.0.0 st.0.1,
        process_round-lost os storage d (print ps) b r (type_of d) (types ps) (size ∷ sizes) p f.0,
      )
      refl

print_param-grows :
    (os : Platform) (storage : Memory) (fmt s : Chars) (b : LogBuffer) (q r : ℕ) (t : ParamType)
    (size : ℕ) (ts : List ParamType) (sizes : List ℕ) (p address : ℕ) (fresh : Memory)
    → is_string t ≡ true
    → os.ndebug ≡ true
    → ((n : ℕ) → has_param_buffer os n ≡ true)
    → q + r ≡ b.len
    → length fmt < 100
    → let text = string_text os fmt (read_bytes storage (p + 4) (string_size storage p)) in
      r < length text
      → os.malloc (length text + 1 + b.len - r) ≡ some (address, fresh)
      → (c : LogBuffer) × (print_param os storage fmt s q t size (at_pos b q r ts sizes p)
          ≡ goes s (
              lost c
                (less (length text + 1) (length text))
                ts
                sizes
                (p + (4 + string_size storage p))))
unfolding print_param
print_param-grows os storage fmt s b q r t size ts sizes p address fresh kind release copies whole
      short long granted =
    let param = read_bytes storage (p + 4) (string_size storage p) in
    let (c, grown, _, _) =
      decode_string_fmt-grows os b r q param fmt address fresh release (copies (length param)) whole
        long granted in
    (c, rw (lt→ltb (length fmt) 100 short, kind, grown) refl)

-- The round of the string, and the one behind it.
pub process_from-grows :
    (fuel : ℕ) (os : Platform) (storage : Memory) (d : Directive) (piece : Piece) (ps : List Piece)
    (sizes : List ℕ) (p : ℕ) (b : LogBuffer) (q r address : ℕ) (fresh : Memory)
    → IsFormat (directive d ∷ piece ∷ ps)
    → IsStatic (directive d ∷ piece ∷ ps) sizes
    → is_string (type_of d) ≡ true
    → os.ndebug ≡ true
    → ((n : ℕ) → has_param_buffer os n ≡ true)
    → q + r ≡ b.len
    → length (print (directive d ∷ piece ∷ ps)) ≤ fuel
    → let len = length (rendered os storage (directive d ∷ []) sizes p) in
      r < len
      → os.malloc (q + len + 1) ≡ some (address, fresh)
      → process_from fuel os storage
          (print (directive d ∷ piece ∷ ps))
          (at_pos b q r (types (directive d ∷ piece ∷ ps)) sizes p)
        ≡ dangles
unfolding process_from print types
process_from-grows zero os storage d piece ps sizes p b q r address fresh f st kind release copies
      whole enough long granted =
    absurd (omega arith)
process_from-grows (suc fuel) os storage d piece ps [] p b q r address fresh f st kind release
      copies whole enough long granted =
    absurd st
process_from-grows (suc fuel) os storage d piece ps (size ∷ sizes) p b q r address fresh f st kind
      release copies whole enough long granted =
    let rest = print (piece ∷ ps) in
    let text = string_text os (spec d) (read_bytes storage (p + 4) (string_size storage p)) in
    let shown : length (rendered os storage (directive d ∷ []) (size ∷ sizes) p) ≡ length text =
      rw kind (ap length (append-nil text)) in
    let asked : q + length (rendered os storage (directive d ∷ []) (size ∷ sizes) p) + 1
        ≡ length text + 1 + b.len - r =
      omega (arith, shown) in
    let (c, grown) =
      print_param-grows os storage (spec d) rest b q r (type_of d) size (types (piece ∷ ps)) sizes p
        address fresh kind release copies whole st.0.2 (omega (arith, shown))
        (ap os.malloc (sym asked) ∙ granted) in
    rw
      (
        directive_types-static d (types (piece ∷ ps)) st.0.0 st.0.1,
        process_round-directive os storage d rest b q r (types (piece ∷ ps)) size sizes p f.0,
        grown,
      )
      (process_from-lost fuel os storage piece ps c (less (length text + 1) (length text)) sizes
        (p + (4 + string_size storage p)) f.1 st.1 (omega (arith, print_directive_longer d rest)))
