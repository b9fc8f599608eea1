-- ===== src/Process/Split.antt =====
-- How `process_fmt` finds the specifiers of a format that was printed from its syntax tree.
use mathlib.Core.List.{append_assoc}
use static_logger.Prelude.{
  ℕ, true, false, some, [], ◌∷◌, ◌++◌, ◌==◌, ◌≡◌, refl, sym, ap, ◌∙◌, arith,
}
use static_logger.Format.Chars.{is_flag, is_digit, is_length, is_terminal}
use static_logger.Format.Scan.{Chars, at}
use static_logger.Format.Grammar.{
  Amount, absent, star, digits, Directive, print_width, print_precision, print_directive, All,
  IsWidth, IsPrecision, IsDirective,
}
use static_logger.Decode.{until_nul}
use static_logger.Process.{split_terminal}

-- Neither a terminal nor a NUL.
abbrev IsInner : ℕ → Type 0
IsInner c = (is_terminal c ≡ false) × ((c == 0) ≡ false)

abbrev AllInner : Chars → Type 0
AllInner [] = Unit
AllInner (c ∷ s) = IsInner c × AllInner s

inner-append : (xs ys : Chars) → AllInner xs → AllInner ys → AllInner (xs ++ ys)
inner-append [] ys h k = k
inner-append (x ∷ xs) ys h k = (h.0, inner-append xs ys h.1 k)

flag-IsInner : (c : ℕ) → is_flag c ≡ true → IsInner c
unfolding is_flag is_terminal
flag-IsInner c h = (ground arith, ground arith)

digit-IsInner : (c : ℕ) → is_digit c ≡ true → IsInner c
unfolding is_digit is_terminal
digit-IsInner c h = (ground arith, ground arith)

length-IsInner : (c : ℕ) → is_length c ≡ true → IsInner c
unfolding is_length is_terminal
length-IsInner c h = (ground arith, ground arith)

flags_inner : (s : Chars) → All is_flag s → AllInner s
flags_inner [] h = tt
flags_inner (c ∷ s) h = (flag-IsInner c h.0, flags_inner s h.1)

digits_inner : (s : Chars) → All is_digit s → AllInner s
digits_inner [] h = tt
digits_inner (c ∷ s) h = (digit-IsInner c h.0, digits_inner s h.1)

lengths_inner : (s : Chars) → All is_length s → AllInner s
lengths_inner [] h = tt
lengths_inner (c ∷ s) h = (length-IsInner c h.0, lengths_inner s h.1)

-- What stands between the `%` and the terminal.
abbrev pub body : Directive → Chars
body d = d.flags ++ print_width d.width (print_precision d.precision d.lengths)

width_inner : (a : Amount) (s : Chars) → IsWidth a → AllInner s → AllInner (print_width a s)
unfolding is_terminal
width_inner absent s h k = k
width_inner star s h k = ((refl, refl), k)
width_inner (digits ds) s h k = inner-append ds s (digits_inner ds h) k

precision_inner :
    (a : Amount) (s : Chars) → IsPrecision a → AllInner s → AllInner (print_precision a s)
unfolding is_terminal
precision_inner absent s h k = k
precision_inner star s h k = ((refl, refl), ((refl, refl), k))
precision_inner (digits ds) s h k = ((refl, refl), inner-append ds s (digits_inner ds h.0) k)

body_inner : (d : Directive) → IsDirective d → AllInner (body d)
body_inner d h =
    inner-append d.flags (print_width d.width (print_precision d.precision d.lengths))
      (flags_inner d.flags h.flags_are)
      (width_inner d.width (print_precision d.precision d.lengths) h.width_is (
        precision_inner d.precision d.lengths h.precision_is
          (lengths_inner d.lengths h.lengths_are)))

width-append : (a : Amount) (s t : Chars) → print_width a (s ++ t) ≡ print_width a s ++ t
width-append absent s t = refl
width-append star s t = refl
width-append (digits ds) s t = sym (append_assoc ds s t)

precision-append :
    (a : Amount) (s t : Chars) → print_precision a (s ++ t) ≡ print_precision a s ++ t
precision-append absent s t = refl
precision-append star s t = refl
precision-append (digits ds) s t = ap (◌∷◌ b'.') (sym (append_assoc ds s t))

pub print_directive-body :
    (d : Directive) (rest : Chars) → print_directive d rest ≡ body d ++ d.terminal ∷ rest
print_directive-body d rest =
    ap (λ s. d.flags ++ print_width d.width s)
      (precision-append d.precision d.lengths (d.terminal ∷ rest))
    ∙ ap (◌++◌ d.flags)
        (width-append d.width (print_precision d.precision d.lengths) (d.terminal ∷ rest))
    ∙ sym (append_assoc d.flags _ (d.terminal ∷ rest))

split_terminal-append :
    (xs : Chars) (t : ℕ) (rest : Chars)
    → AllInner xs
    → is_terminal t ≡ true
    → split_terminal (xs ++ t ∷ rest) ≡ some (xs ++ t ∷ [], rest)
unfolding split_terminal
split_terminal-append [] t rest h k = rw k refl
split_terminal-append (x ∷ xs) t rest h k = rw (h.0.0, split_terminal-append xs t rest h.1 k) refl

-- The specifier of a directive is found whole.
pub split_terminal-directive :
    (d : Directive) (rest : Chars)
    → IsDirective d
    → split_terminal (print_directive d rest) ≡ some (body d ++ d.terminal ∷ [], rest)
split_terminal-directive d rest h =
    ap split_terminal (print_directive-body d rest)
    ∙ split_terminal-append (body d) d.terminal rest (body_inner d h) h.terminal_is

first-inner :
    (xs : Chars) (t : ℕ) (rest : Chars)
    → AllInner xs
    → (t == b'%') ≡ false
    → (at (xs ++ t ∷ rest) == b'%') ≡ false
unfolding is_terminal
first-inner [] t rest h k = k
first-inner (x ∷ xs) t rest h k = ground (arith, h.0.0)

pub first-directive :
    (d : Directive) (rest : Chars) → IsDirective d → (at (print_directive d rest) == b'%') ≡ false
first-directive d rest h =
    ap (λ s. at s == b'%') (print_directive-body d rest)
    ∙ first-inner (body d) d.terminal rest (body_inner d h) h.not_percent

terminal_nonzero : (t : ℕ) → is_terminal t ≡ true → (t == 0) ≡ false
unfolding is_terminal
terminal_nonzero t h = ground arith

until_nul-append :
    (xs : Chars) (t : ℕ) (rest : Chars)
    → AllInner xs
    → is_terminal t ≡ true
    → until_nul rest ≡ rest
    → until_nul (xs ++ t ∷ rest) ≡ xs ++ t ∷ rest
until_nul-append [] t rest h k e = rw (terminal_nonzero t k) (ap (◌∷◌ t) e)
until_nul-append (x ∷ xs) t rest h k e =
    rw (h.0.1) (ap (◌∷◌ x) (until_nul-append xs t rest h.1 k e))

-- No NUL stands in a directive.
pub until_nul-directive :
    (d : Directive) (rest : Chars)
    → IsDirective d
    → until_nul rest ≡ rest
    → until_nul (print_directive d rest) ≡ print_directive d rest
until_nul-directive d rest h e =
    let whole = print_directive-body d rest in
    ap until_nul whole
    ∙ until_nul-append (body d) d.terminal rest (body_inner d h) h.terminal_is e
    ∙ sym whole
