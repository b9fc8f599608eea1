-- ===== src/Process/Assertion.antt =====
-- `process_fmt` in a build with assertions.
use static_logger.Prelude.{
  ℕ, suc, zero, ◌+◌, ◌-◌, ◌*◌, ◌^◌, ◌≤◌, ◌<◌, true, false, List, [], ◌∷◌, ◌++◌, length, ◌≡◌, refl,
  ◌∙◌, lt→ltb, arith,
}
use static_logger.Prelude.Memory.{Memory, read_bytes}
use static_logger.Format.Types.{is_string}
use static_logger.Format.Grammar.{
  Directive, Piece, plain, percent, directive, print, types, IsFormat,
}
use static_logger.Decode.{Platform, LogBuffer, has_param_buffer}
use static_logger.Decode.String.{decode_string_fmt-aborts}
use static_logger.Process.{aborts, process_from, process_fmt, print_param}
use static_logger.Process.Render.{
  spec, type_of, string_size, rendered, IsStatic, at_pos, less-small, directive_types-static,
}
use static_logger.Process.Print.{process_round-directive, until_nul-print}
use static_logger.Process.Leads.{AllPrint, process_from-Reaches}

-- No piece is a specifier for a string.
abbrev pub AllNumbers : List Piece → Type 0
AllNumbers [] = Unit
AllNumbers (plain c ∷ ps) = AllNumbers ps
AllNumbers (percent ∷ ps) = AllNumbers ps
AllNumbers (directive d ∷ ps) = (is_string (type_of d) ≡ false) × AllNumbers ps

numbers-AllPrint : (os : Platform) (ps : List Piece) → AllNumbers ps → AllPrint os ps
numbers-AllPrint os [] h = tt
numbers-AllPrint os (plain c ∷ ps) h = numbers-AllPrint os ps h
numbers-AllPrint os (percent ∷ ps) h = numbers-AllPrint os ps h
numbers-AllPrint os (directive d ∷ ps) h = ((λ e. absurd (cc (h.0, e))), numbers-AllPrint os ps h.1)

-- The round of the string.
process_from-aborts :
    (fuel : ℕ) (os : Platform) (storage : Memory) (d : Directive) (ps : List Piece) (sizes : List ℕ)
    (p : ℕ) (b : LogBuffer) (q r : ℕ)
    → IsFormat (directive d ∷ ps)
    → IsStatic (directive d ∷ ps) sizes
    → is_string (type_of d) ≡ true
    → os.ndebug ≡ false
    → b.len + q < b.address
    → length (print (directive d ∷ ps)) ≤ fuel
    → process_from fuel os storage
        (print (directive d ∷ ps))
        (at_pos b q r (types (directive d ∷ ps)) sizes p)
      ≡ aborts
unfolding process_from print types print_param
process_from-aborts zero os storage d ps sizes p b q r f st kind debug far enough =
    absurd (omega arith)
process_from-aborts (suc fuel) os storage d ps [] p b q r f st kind debug far enough = absurd st
process_from-aborts (suc fuel) os storage d ps (size ∷ sizes) p b q r f st kind debug far enough =
    let param = read_bytes storage (p + 4) (string_size storage p) in
    rw
      (
        directive_types-static d (types ps) st.0.0 st.0.1,
        process_round-directive os storage d (print ps) b q r (types ps) size sizes p f.0,
        lt→ltb (length (spec d)) 100 st.0.2,
        kind,
        decode_string_fmt-aborts os b r q param (spec d) debug far,
      )
      refl

-- A format without `*`, without NUL and with specifiers below 100 characters, in a build with
-- assertions where each copy of a string would find its space: if a specifier for a string stands in
-- it, behind pieces that are none and whose text fits in the log buffer, and the address of the
-- buffer is at least twice its length, then `process_fmt` aborts at the first string, whatever the
-- string is and whatever stands behind it.
pub process_fmt-aborts :
    (os : Platform) (storage : Memory) (lead : List Piece) (d : Directive) (ps : List Piece)
    (sizes : List ℕ) (p : ℕ) (b : LogBuffer) (start_pos : ℕ)
    → IsFormat (lead ++ (directive d ∷ ps))
    → IsStatic (lead ++ (directive d ∷ ps)) sizes
    → AllNumbers lead
    → is_string (type_of d) ≡ true
    → os.ndebug ≡ false
    → ((n : ℕ) → has_param_buffer os n ≡ true)
    → b.len < 2 ^ 64
    → start_pos + length (rendered os storage lead sizes p) < b.len
    → 2 * b.len ≤ b.address
    → process_fmt os storage
        (print (lead ++ (directive d ∷ ps)))
        (types (lead ++ (directive d ∷ ps)))
        sizes
        p
        b
        start_pos
      ≡ aborts
unfolding process_fmt
process_fmt-aborts os storage lead d ps sizes p b start_pos f st numbers kind debug copies small
      fits far =
    let tail = directive d ∷ ps in
    let left = less-small b.len start_pos (omega arith) small in
    let at_string =
      process_from-Reaches os storage copies tail (length (print (lead ++ tail))) lead sizes p b
        start_pos (b.len - start_pos) f st (numbers-AllPrint os lead numbers) (omega arith) small
        (omega arith) (omega arith) in
    rw (until_nul-print (lead ++ tail) sizes f st, left)
      (at_string.goes_to
        ∙ process_from-aborts at_string.fuel os storage d ps at_string.sizes at_string.p
            at_string.buffer at_string.q at_string.r at_string.is_format at_string.is_static kind
            debug (omega (arith, at_string.behind, at_string.same_len, at_string.same_address))
            at_string.enough)
