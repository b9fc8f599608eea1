-- ===== src/Process/Print.antt =====
-- `process_fmt` prints the text that an entry stands for.
use static_logger.Prelude.{
  ℕ, zero, suc, ◌+◌, ◌-◌, ◌^◌, ◌≤◌, ◌<◌, true, false, List, [], ◌∷◌, ◌++◌, ◌==◌, length,
  length-append, ◌≡◌, refl, ap, ◌∙◌, arith,
}
use static_logger.Prelude.Memory.{Memory, update, read_bytes}
use static_logger.Format.Types.{ParamType}
use static_logger.Format.Scan.{Chars}
use static_logger.Format.Grammar.{
  Directive, Piece, plain, percent, directive, print, print_directive, types, IsDirective, IsFormat,
}
use static_logger.Decode.{Platform, LogBuffer, has_param_buffer, until_nul}
use static_logger.Decode.Snprintf.{IsPrinted, IsPrinted-append, update-IsPrinted}
use static_logger.Process.{
  Formatting, Processed, formatted, less, put_literal, process_round, process_from, process_fmt,
  print_param,
}
use static_logger.Process.Split.{
  body, print_directive-body, until_nul-directive, split_terminal-directive, first-directive,
}
use static_logger.Process.Render.{
  spec, last-spec, type_of, rendered, param_text, param_width, IsStatic, at_pos, less-small,
  put_literal-fits, directive_types-static, print_param-fits,
}

-- The function returns the end of the text, which stands in the buffer that it leaves.
abbrev pub Prints : LogBuffer → ℕ → List ℕ → Processed → Type 0
Prints b q text result =
    (c : LogBuffer) × (result ≡ formatted (q + length text) c)
    × (c.len ≡ b.len)
    × IsPrinted b q text c

prepend :
    (b c : LogBuffer) (q : ℕ) (xs ys : List ℕ) (result : Processed)
    → c.len ≡ b.len
    → IsPrinted b q xs c
    → Prints c (q + length xs) ys result
    → Prints b q (xs ++ ys) result
prepend b c q xs ys result same h (d, e, l, k) =
    let end : q + length xs + length ys ≡ q + length (xs ++ ys) =
      omega (arith, length-append xs ys) in
    (d, e ∙ ap (λ n. formatted n d) end, l ∙ same, IsPrinted-append b c d q xs ys h k)

IsPrinted-nothing : (b : LogBuffer) (q : ℕ) → q < b.len → IsPrinted b q [] b
unfolding read_bytes
IsPrinted-nothing b q h = record { before = refl; printed = refl; room = omega arith }

pub print_directive_longer :
    (d : Directive) (rest : Chars) → length rest < length (print_directive d rest)
print_directive_longer d rest =
    let whole = ap length (print_directive-body d rest) in
    omega (arith, whole, length-append (body d) (d.terminal ∷ rest))

-- A round at a specifier.
pub process_round-directive :
    (os : Platform) (storage : Memory) (d : Directive) (rest : Chars) (b : LogBuffer) (q r : ℕ)
    (ts : List ParamType) (size : ℕ) (sizes : List ℕ) (p : ℕ)
    → IsDirective d
    → process_round os storage b'%'
        (print_directive d rest)
        (at_pos b q r (type_of d ∷ ts) (size ∷ sizes) p)
      ≡ print_param os storage (spec d) rest q (type_of d) size (at_pos b q r ts sizes p)
unfolding process_round
process_round-directive os storage d rest b q r ts size sizes p h =
    rw (first-directive d rest h, split_terminal-directive d rest h) refl

pub process_round-plain :
    (os : Platform) (storage : Memory) (c : ℕ) (s : Chars) (f : Formatting)
    → (c == b'%') ≡ false
    → process_round os storage c s f ≡ put_literal c s f
unfolding process_round
process_round-plain os storage c s f h = rw h refl

pub process_round-percent :
    (os : Platform) (storage : Memory) (s : Chars) (f : Formatting)
    → process_round os storage b'%' (b'%' ∷ s) f ≡ put_literal b'%' s f
unfolding process_round
process_round-percent os storage s f = refl

abbrev with_char : ℕ → ℕ → LogBuffer → LogBuffer
with_char q c b = record b { memory = update b.memory q c }

process_from-rendered :
    (fuel : ℕ) (os : Platform) (storage : Memory) (ps : List Piece) (sizes : List ℕ) (p : ℕ)
    (b : LogBuffer) (q r : ℕ)
    → IsFormat ps
    → IsStatic ps sizes
    → os.ndebug ≡ true
    → ((n : ℕ) → has_param_buffer os n ≡ true)
    → q + r ≡ b.len
    → b.len < 2 ^ 64
    → length (print ps) ≤ fuel
    → length (rendered os storage ps sizes p) < r
    → Prints b q
        (rendered os storage ps sizes p)
        (process_from fuel os storage (print ps) (at_pos b q r (types ps) sizes p))
unfolding process_from print types
process_from-rendered fuel os storage [] sizes p b q r f st release copies whole small enough fits =
    let end : less b.len r ≡ q + 0 = omega arith in
    (b, ap (λ n. formatted n b) end, refl, IsPrinted-nothing b q (omega arith))
process_from-rendered zero os storage (plain c ∷ ps) sizes p b q r f st release copies whole small
      enough fits =
    absurd (omega arith)
process_from-rendered (suc fuel) os storage (plain c ∷ ps) sizes p b q r f st release copies whole
      small enough fits =
    let again =
      process_from-rendered fuel os storage ps sizes p (with_char q c b) (q + 1) (r - 1) f.1 st.1
        release copies (omega arith) small (omega arith) (omega arith) in
    rw
      (
        process_round-plain os storage c (print ps) (at_pos b q r (types ps) sizes p) f.0,
        put_literal-fits c (print ps) b q r (types ps) sizes p whole small (omega arith),
      )
      (prepend b (with_char q c b) q (c ∷ []) (rendered os storage ps sizes p) _ refl
        (update-IsPrinted b q c (omega arith)) again)
process_from-rendered zero os storage (percent ∷ ps) sizes p b q r f st release copies whole small
      enough fits =
    absurd (omega arith)
process_from-rendered (suc fuel) os storage (percent ∷ ps) sizes p b q r f st release copies whole
      small enough fits =
    let again =
      process_from-rendered fuel os storage ps sizes p (with_char q b'%' b) (q + 1) (r - 1) f st
        release copies (omega arith) small (omega arith) (omega arith) in
    rw
      (
        process_round-percent os storage (print ps) (at_pos b q r (types ps) sizes p),
        put_literal-fits b'%' (print ps) b q r (types ps) sizes p whole small (omega arith),
      )
      (prepend b (with_char q b'%' b) q (b'%' ∷ []) (rendered os storage ps sizes p) _ refl
        (update-IsPrinted b q b'%' (omega arith)) again)
process_from-rendered fuel os storage (directive d ∷ ps) [] p b q r f st release copies whole small
      enough fits =
    absurd st
process_from-rendered zero os storage (directive d ∷ ps) (size ∷ sizes) p b q r f st release copies
      whole small enough fits =
    absurd (omega arith)
process_from-rendered (suc fuel) os storage (directive d ∷ ps) (size ∷ sizes) p b q r f st release
      copies whole small enough fits =
    let t = type_of d in
    let text = param_text os storage (spec d) d.terminal t size p in
    let p' = p + param_width storage t size p in
    let total = length-append text (rendered os storage ps sizes p') in
    let (c, step, (same, _), first) =
      print_param-fits os storage (spec d) (print ps) b q r t size (types ps) sizes p d.terminal
        (last-spec d) (λ _. release) copies whole small st.0.2 (omega arith) in
    let again =
      process_from-rendered fuel os storage ps sizes p' c (q + length text) (r - length text) f.1
        st.1 release copies (omega arith) (omega arith)
        (omega (arith, print_directive_longer d (print ps))) (omega arith) in
    rw
      (
        directive_types-static d (types ps) st.0.0 st.0.1,
        process_round-directive os storage d (print ps) b q r (types ps) size sizes p f.0,
        step,
      )
      (prepend b c q text (rendered os storage ps sizes p') _ same first again)

-- A format is read to its end.
pub until_nul-print :
    (ps : List Piece) (sizes : List ℕ)
    → IsFormat ps
    → IsStatic ps sizes
    → until_nul (print ps) ≡ print ps
unfolding print
until_nul-print [] sizes f st = refl
until_nul-print (plain c ∷ ps) sizes f st =
    rw (st.0) (ap (◌∷◌ c) (until_nul-print ps sizes f.1 st.1))
until_nul-print (percent ∷ ps) sizes f st =
    ap (λ s. b'%' ∷ (b'%' ∷ s)) (until_nul-print ps sizes f st)
until_nul-print (directive d ∷ ps) [] f st = absurd st
until_nul-print (directive d ∷ ps) (size ∷ sizes) f st =
    ap (◌∷◌ b'%') (until_nul-directive d (print ps) f.0 (until_nul-print ps sizes f.1 st.1))

-- A format without `*` or NUL, with specifiers below 100 characters, whose text and a NUL fit in
-- the log buffer behind `start_pos`, in a build without assertions where each copy of a string
-- finds its space: `process_fmt` ends, returns the end of the text, counted from the start of the
-- buffer, and leaves the text whole behind what was in the buffer before, which it does not touch.
-- The text has each plain character, each string in its own format, and each number in its own
-- format as its conversion shows one of its size: an integer conversion one of 1, 2, 4 or 8 bytes,
-- `%e`, `%f`, `%g` and `%a` one of 4 or 8, and `%c` one of 1. It has nothing for any other pair of
-- conversion and size, such as that of `%p`.
pub process_fmt-rendered :
    (os : Platform) (storage : Memory) (ps : List Piece) (sizes : List ℕ) (p : ℕ) (b : LogBuffer)
    (start_pos : ℕ)
    → IsFormat ps
    → IsStatic ps sizes
    → os.ndebug ≡ true
    → ((n : ℕ) → has_param_buffer os n ≡ true)
    → b.len < 2 ^ 64
    → start_pos + length (rendered os storage ps sizes p) < b.len
    → Prints b start_pos
        (rendered os storage ps sizes p)
        (process_fmt os storage (print ps) (types ps) sizes p b start_pos)
unfolding process_fmt
process_fmt-rendered os storage ps sizes p b start_pos f st release copies small fits =
    let left = less-small b.len start_pos (omega arith) small in
    rw (until_nul-print ps sizes f st, left)
      (process_from-rendered (length (print ps)) os storage ps sizes p b start_pos
        (b.len - start_pos) f st release copies (omega arith) small (omega arith) (omega arith))
