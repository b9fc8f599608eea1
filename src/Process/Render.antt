-- ===== src/Process/Render.antt =====
-- The text that an entry stands for, by the syntax tree of its format, and the steps of
-- `process_fmt` that print it.
use static_logger.Prelude.{
  ℕ, ◌+◌, ◌-◌, ◌^◌, ◌≤◌, ◌<◌, true, false, Bool-cases, Option, none, some, List, [], ◌∷◌, ◌++◌,
  ◌==◌, if◌then◌else◌, length, ◌≡◌, refl, ap₂, lt→ltb, ◌∙◌, inl, inr, arith,
}
use static_logger.Prelude.Memory.{Memory, read_bytes, length-read_bytes, update}
use static_logger.Prelude.Bytes.{le_value}
use static_logger.Format.Types.{ParamType, non_string, is_string}
use static_logger.Format.Scan.{Chars}
use static_logger.Format.Grammar.{
  Amount, absent, star, digits, Directive, Piece, plain, percent, directive, string_type,
  directive_types, dynamic,
}
use static_logger.Decode.{Value, Platform, LogBuffer, value_of, last, has_param_buffer}
use static_logger.Decode.Snprintf.{IsPrinted, with_text, with_text-IsPrinted}
use static_logger.Decode.NonString.{
  value_text, with_value, decode_non_string_fmt-fits, with_value-IsPrinted,
}
use static_logger.Decode.String.{string_text, decode_string_fmt-fits}
use static_logger.Decode.Shown.{shown_value, value_of-shown}
use static_logger.Process.{Formatting, goes, less, put_literal, print_param}
use static_logger.Process.Split.{body}

-- `%` up to the terminal.
abbrev pub spec : Directive → Chars
spec d = b'%' ∷ (body d ++ d.terminal ∷ [])

last_of : (x : ℕ) (xs : Chars) (t : ℕ) → last (x ∷ (xs ++ t ∷ [])) ≡ t
last_of x [] t = refl
last_of x (y ∷ xs) t = last_of y xs t

pub last-spec : (d : Directive) → last (spec d) ≡ d.terminal
last-spec d = last_of b'%' (body d) d.terminal

abbrev pub type_of : Directive → ParamType
type_of d = if d.terminal == b's' then string_type d.precision else non_string

abbrev pub string_size : Memory → ℕ → ℕ
string_size storage p = le_value (read_bytes storage p 4)

-- The text of the parameter at offset `p`, by the conversion `flag` of the specifier `fmt`, and the
-- bytes that it takes.
abbrev pub param_text : Platform → Memory → Chars → ℕ → ParamType → ℕ → ℕ → List ℕ
param_text os storage fmt flag t size p =
    if is_string t
    then string_text os fmt (read_bytes storage (p + 4) (string_size storage p))
    else value_text os fmt (shown_value size flag (le_value (read_bytes storage p size)))

abbrev pub param_width : Memory → ParamType → ℕ → ℕ → ℕ
param_width storage t size p = if is_string t then 4 + string_size storage p else size

-- The text of an entry: its characters, and its parameters from offset `p` on.
abbrev pub rendered : Platform → Memory → List Piece → List ℕ → ℕ → List ℕ
rendered os storage [] sizes p = []
rendered os storage (plain c ∷ ps) sizes p = c ∷ rendered os storage ps sizes p
rendered os storage (percent ∷ ps) sizes p = b'%' ∷ rendered os storage ps sizes p
rendered os storage (directive d ∷ ps) [] p = []
rendered os storage (directive d ∷ ps) (size ∷ sizes) p =
    param_text os storage (spec d) d.terminal (type_of d) size p
    ++ rendered os storage ps sizes (p + param_width storage (type_of d) size p)

abbrev pub IsStaticAmount : Amount → Type 0
IsStaticAmount star = ⊥
IsStaticAmount _ = Unit

-- No NUL is among the characters, no specifier has a width or precision of its own among the
-- parameters, or 100 characters, and each has a size.
abbrev pub IsStatic : List Piece → List ℕ → Type 0
IsStatic [] sizes = Unit
IsStatic (plain c ∷ ps) sizes = ((c == 0) ≡ false) × IsStatic ps sizes
IsStatic (percent ∷ ps) sizes = IsStatic ps sizes
IsStatic (directive d ∷ ps) [] = ⊥
IsStatic (directive d ∷ ps) (size ∷ sizes) =
    (IsStaticAmount d.width × IsStaticAmount d.precision × (length (spec d) < 100))
    × IsStatic ps sizes

-- The variables of the loop at offset `q` of the buffer `b`.
abbrev pub at_pos : LogBuffer → ℕ → ℕ → List ParamType → List ℕ → ℕ → Formatting
at_pos b q reserved ts sizes p = record {
  buffer = b;
  log_pos = some q;
  reserved = reserved;
  param_types = ts;
  param_sizes = sizes;
  param_list = p;
}

pub less-small : (r n : ℕ) → n ≤ r → r < 2 ^ 64 → less r n ≡ r - n
less-small r n h k = omega arith

pub put_literal-fits :
    (c : ℕ) (s : Chars) (b : LogBuffer) (q r : ℕ) (ts : List ParamType) (sizes : List ℕ) (p : ℕ)
    → q + r ≡ b.len
    → b.len < 2 ^ 64
    → 0 < r
    → put_literal c s (at_pos b q r ts sizes p)
      ≡ goes s (at_pos (record b { memory = update b.memory q c }) (q + 1) (r - 1) ts sizes p)
unfolding put_literal
put_literal-fits c s b q r ts sizes p whole small room =
    let fewer = less-small r 1 (omega arith) (omega arith) in
    let inside = lt→ltb q b.len (omega arith) in rw (inside, fewer) refl

dynamic-static :
    (a : Amount) (t : ParamType) (ts : List ParamType) → IsStaticAmount a → dynamic a t ts ≡ ts
dynamic-static absent t ts h = refl
dynamic-static star t ts h = absurd h
dynamic-static (digits ds) t ts h = refl

with_value-place :
    (os : Platform) (fmt : Chars) (q : ℕ) (v : Option Value) (b : LogBuffer)
    → ((with_value os fmt q v b).len ≡ b.len) × ((with_value os fmt q v b).address ≡ b.address)
with_value-place os fmt q none b = (refl, refl)
with_value-place os fmt q (some v) b = (refl, refl)

pub directive_types-static :
    (d : Directive) (ts : List ParamType)
    → IsStaticAmount d.width
    → IsStaticAmount d.precision
    → directive_types d ts ≡ type_of d ∷ ts
directive_types-static d ts w p = dynamic-static d.width _ _ w ∙ dynamic-static d.precision _ _ p

string_param :
    (os : Platform) (storage : Memory) (fmt s : Chars) (b : LogBuffer) (q r : ℕ) (t : ParamType)
    (size : ℕ) (ts : List ParamType) (sizes : List ℕ) (p : ℕ)
    → is_string t ≡ true
    → os.ndebug ≡ true
    → ((n : ℕ) → has_param_buffer os n ≡ true)
    → q + r ≡ b.len
    → b.len < 2 ^ 64
    → length fmt < 100
    → let text = string_text os fmt (read_bytes storage (p + 4) (string_size storage p)) in
      length text < r
      → print_param os storage fmt s q t size (at_pos b q r ts sizes p)
        ≡ goes s (
            at_pos
              (with_text q text b)
              (q + length text)
              (r - length text)
              ts
              sizes
              (p + (4 + string_size storage p)))
unfolding print_param
string_param os storage fmt s b q r t size ts sizes p kind release copies whole small short fits =
    let param = read_bytes storage (p + 4) (string_size storage p) in
    let text = string_text os fmt param in
    rw
      (
        lt→ltb (length fmt) 100 short,
        kind,
        decode_string_fmt-fits os b r q param fmt release (copies (length param)) whole fits,
        less-small r (length text) (omega arith) (omega arith),
      )
      refl

number_param :
    (os : Platform) (storage : Memory) (fmt s : Chars) (b : LogBuffer) (q r : ℕ) (t : ParamType)
    (size : ℕ) (ts : List ParamType) (sizes : List ℕ) (p flag : ℕ)
    → last fmt ≡ flag
    → is_string t ≡ false
    → q + r ≡ b.len
    → b.len < 2 ^ 64
    → length fmt < 100
    → let v = shown_value size flag (le_value (read_bytes storage p size)) in
      let text = value_text os fmt v in
      length text < r
      → print_param os storage fmt s q t size (at_pos b q r ts sizes p)
        ≡ goes s (
            at_pos
              (with_value os fmt q v b)
              (q + length text)
              (r - length text)
              ts
              sizes
              (p + size))
unfolding print_param
number_param os storage fmt s b q r t size ts sizes p flag ends kind whole small short fits =
    let param = read_bytes storage p size in
    let v = shown_value size flag (le_value param) in
    let text = value_text os fmt v in
    let known : value_of (length param) (last fmt) (le_value param) ≡ v =
      value_of-shown (length param) (last fmt) (le_value param)
      ∙ ap₂ (λ n c. shown_value n c (le_value param)) (length-read_bytes storage p size) ends in
    rw
      (
        lt→ltb (length fmt) 100 short,
        kind,
        decode_non_string_fmt-fits 1 os b r q fmt param v known whole fits,
        less-small r (length text) (omega arith) (omega arith),
      )
      refl

pub print_param-fits :
    (os : Platform) (storage : Memory) (fmt s : Chars) (b : LogBuffer) (q r : ℕ) (t : ParamType)
    (size : ℕ) (ts : List ParamType) (sizes : List ℕ) (p flag : ℕ)
    → last fmt ≡ flag
    → (is_string t ≡ true → os.ndebug ≡ true)
    → ((n : ℕ) → has_param_buffer os n ≡ true)
    → q + r ≡ b.len
    → b.len < 2 ^ 64
    → length fmt < 100
    → length (param_text os storage fmt flag t size p) < r
    → let text = param_text os storage fmt flag t size p in
      (c : LogBuffer) × (print_param os storage fmt s q t size (at_pos b q r ts sizes p)
        ≡ goes s (
            at_pos c
              (q + length text)
              (r - length text)
              ts
              sizes
              (p + param_width storage t size p)))
      × ((c.len ≡ b.len) × (c.address ≡ b.address))
      × IsPrinted b q text c
print_param-fits os storage fmt s b q r t size ts sizes p flag ends release copies whole small short
      fits =
    let v = shown_value size flag (le_value (read_bytes storage p size)) in
    elim (Bool-cases (is_string t)) [
      | inl kind ↦
          let less_than = rw kind at fits in
          let text = string_text os fmt (read_bytes storage (p + 4) (string_size storage p)) in
          rw kind (
            with_text q text b,
            string_param os storage fmt s b q r t size ts sizes p kind (release kind) copies whole
                small short less_than,
            (refl, refl),
            with_text-IsPrinted q text b (omega arith),
          )
      | inr kind ↦
          let less_than = rw kind at fits in
          rw kind (
            with_value os fmt q v b,
            number_param os storage fmt s b q r t size ts sizes p flag ends kind whole small short
                less_than,
            with_value-place os fmt q v b,
            with_value-IsPrinted os b q fmt v (omega arith),
          )
    ]
