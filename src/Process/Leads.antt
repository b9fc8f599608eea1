-- ===== src/Process/Leads.antt =====
-- `process_fmt` up to some piece of a format.
use static_logger.Prelude.{
  ℕ, zero, suc, ◌+◌, ◌-◌, ◌^◌, ◌≤◌, ◌<◌, true, List, [], ◌∷◌, ◌++◌, length, length-append, ◌≡◌,
  refl, ◌∙◌, arith,
}
use static_logger.Prelude.Memory.{Memory, update}
use static_logger.Format.Types.{is_string}
use static_logger.Format.Grammar.{Piece, plain, percent, directive, print, types, IsFormat}
use static_logger.Decode.{Platform, LogBuffer, has_param_buffer}
use static_logger.Process.{Processed, process_from}
use static_logger.Process.Render.{
  spec, last-spec, type_of, rendered, param_text, param_width, IsStatic, at_pos, put_literal-fits,
  directive_types-static, print_param-fits,
}
use static_logger.Process.Print.{
  print_directive_longer, process_round-directive, process_round-plain, process_round-percent,
}

-- No string is printed, or the build has no assertions.
abbrev pub AllPrint : Platform → List Piece → Type 0
AllPrint os [] = Unit
AllPrint os (plain c ∷ ps) = AllPrint os ps
AllPrint os (percent ∷ ps) = AllPrint os ps
AllPrint os (directive d ∷ ps) = (is_string (type_of d) ≡ true → os.ndebug ≡ true) × AllPrint os ps

pub release-AllPrint : (os : Platform) (ps : List Piece) → os.ndebug ≡ true → AllPrint os ps
release-AllPrint os [] h = tt
release-AllPrint os (plain c ∷ ps) h = release-AllPrint os ps h
release-AllPrint os (percent ∷ ps) h = release-AllPrint os ps h
release-AllPrint os (directive d ∷ ps) h = ((λ _. h), release-AllPrint os ps h)

-- The loop stands before the pieces `tail`, and has printed the `len` characters of `lead` in front
-- of them.
pub record Reaches (os : Platform) (storage : Memory) (lead tail : List Piece) (sizes₀ : List ℕ)
    (p₀ q₀ len address : ℕ) (result : Processed) : Type 0 where
  pub fuel : ℕ
  pub sizes : List ℕ
  pub p : ℕ
  pub buffer : LogBuffer
  pub q : ℕ
  pub r : ℕ
  pub goes_to :
      result ≡ process_from fuel os storage (print tail) (at_pos buffer q r (types tail) sizes p)
  pub behind : q ≡ q₀ + length (rendered os storage lead sizes₀ p₀)
  pub whole : q + r ≡ buffer.len
  pub same_len : buffer.len ≡ len
  pub same_address : buffer.address ≡ address
  pub enough : length (print tail) ≤ fuel
  pub is_static : IsStatic tail sizes
  pub is_format : IsFormat tail
  pub further :
      (ps : List Piece)
      → length (rendered os storage (lead ++ ps) sizes₀ p₀)
        ≡ length (rendered os storage lead sizes₀ p₀) + length (rendered os storage ps sizes p)

module _ (os : Platform) (storage : Memory) (copies : (n : ℕ) → has_param_buffer os n ≡ true)
    (tail : List Piece) where
  -- One more character in front.
  character-Reaches :
      (piece : Piece) (lead : List Piece) (sizes : List ℕ) (p q len address : ℕ)
      (result next : Processed)
      → ((ps : List Piece)
          → length (rendered os storage (piece ∷ ps) sizes p)
            ≡ suc (length (rendered os storage ps sizes p)))
      → result ≡ next
      → Reaches os storage lead tail sizes p (q + 1) len address next
      → Reaches os storage (piece ∷ lead) tail sizes p q len address result
  character-Reaches piece lead sizes p q len address result next one e h = record {
    fuel = h.fuel;
    sizes = h.sizes;
    p = h.p;
    buffer = h.buffer;
    q = h.q;
    r = h.r;
    goes_to = e ∙ h.goes_to;
    behind = omega (arith, h.behind, one lead);
    whole = h.whole;
    same_len = h.same_len;
    same_address = h.same_address;
    enough = h.enough;
    is_static = h.is_static;
    is_format = h.is_format;
    further = λ ps. omega (arith, h.further ps, one lead, one (lead ++ ps));
  }

  pub process_from-Reaches :
      (fuel : ℕ) (lead : List Piece) (sizes : List ℕ) (p : ℕ) (b : LogBuffer) (q r : ℕ)
      → IsFormat (lead ++ tail)
      → IsStatic (lead ++ tail) sizes
      → AllPrint os lead
      → q + r ≡ b.len
      → b.len < 2 ^ 64
      → length (print (lead ++ tail)) ≤ fuel
      → length (rendered os storage lead sizes p) < r
      → Reaches os storage lead tail sizes p q b.len b.address (
          process_from fuel os storage
            (print (lead ++ tail))
            (at_pos b q r (types (lead ++ tail)) sizes p))
  unfolding process_from print types
  process_from-Reaches fuel [] sizes p b q r f st pr whole small enough fits = record {
    fuel = fuel;
    sizes = sizes;
    p = p;
    buffer = b;
    q = q;
    r = r;
    goes_to = refl;
    behind = omega arith;
    whole = whole;
    same_len = refl;
    same_address = refl;
    enough = enough;
    is_static = st;
    is_format = f;
    further = λ ps. omega arith;
  }
  process_from-Reaches zero (plain c ∷ lead) sizes p b q r f st pr whole small enough fits =
      absurd (omega arith)
  process_from-Reaches (suc fuel) (plain c ∷ lead) sizes p b q r f st pr whole small enough fits =
      let c' = record b { memory = update b.memory q c } in
      character-Reaches (plain c) lead sizes p q b.len b.address _ _ (λ ps. refl)
        (rw
          (
            process_round-plain os storage c (print (lead ++ tail))
                (at_pos b q r (types (lead ++ tail)) sizes p) f.0,
            put_literal-fits c (print (lead ++ tail)) b q r (types (lead ++ tail)) sizes p whole
                small (omega arith),
          )
          refl)
        (process_from-Reaches fuel lead sizes p c' (q + 1) (r - 1) f.1 st.1 pr (omega arith) small
          (omega arith) (omega arith))
  process_from-Reaches zero (percent ∷ lead) sizes p b q r f st pr whole small enough fits =
      absurd (omega arith)
  process_from-Reaches (suc fuel) (percent ∷ lead) sizes p b q r f st pr whole small enough fits =
      let c' = record b { memory = update b.memory q b'%' } in
      character-Reaches percent lead sizes p q b.len b.address _ _ (λ ps. refl)
        (rw
          (
            process_round-percent os storage (print (lead ++ tail))
                (at_pos b q r (types (lead ++ tail)) sizes p),
            put_literal-fits b'%' (print (lead ++ tail)) b q r (types (lead ++ tail)) sizes p whole
                small (omega arith),
          )
          refl)
        (process_from-Reaches fuel lead sizes p c' (q + 1) (r - 1) f st pr (omega arith) small
          (omega arith) (omega arith))
  process_from-Reaches fuel (directive e ∷ lead) [] p b q r f st pr whole small enough fits =
      absurd st
  process_from-Reaches zero (directive e ∷ lead) (size ∷ sizes) p b q r f st pr whole small enough
        fits =
      absurd (omega arith)
  process_from-Reaches (suc fuel) (directive e ∷ lead) (size ∷ sizes) p b q r f st pr whole small
        enough fits =
      let t = type_of e in
      let text = param_text os storage (spec e) e.terminal t size p in
      let p' = p + param_width storage t size p in
      let through = λ (ps : List Piece). length-append text (rendered os storage ps sizes p') in
      let (c, step, (same, place), first) =
        print_param-fits os storage (spec e) (print (lead ++ tail)) b q r t size
          (types (lead ++ tail)) sizes p e.terminal (last-spec e) pr.0 copies whole small st.0.2
          (omega (arith, through lead)) in
      let h =
        process_from-Reaches fuel lead sizes p' c (q + length text) (r - length text) f.1 st.1 pr.1
          (omega arith) (omega arith)
          (omega (arith, print_directive_longer e (print (lead ++ tail))))
          (omega (arith, through lead)) in
      record {
        fuel = h.fuel;
        sizes = h.sizes;
        p = h.p;
        buffer = h.buffer;
        q = h.q;
        r = h.r;
        goes_to =
            rw
              (
                directive_types-static e (types (lead ++ tail)) st.0.0 st.0.1,
                process_round-directive os storage e (print (lead ++ tail)) b q r
                    (types (lead ++ tail)) size sizes p f.0,
                step,
              )
              h.goes_to;
        behind = omega (arith, h.behind, through lead);
        whole = h.whole;
        same_len = h.same_len ∙ same;
        same_address = h.same_address ∙ place;
        enough = h.enough;
        is_static = h.is_static;
        is_format = h.is_format;
        further = λ ps. omega (arith, h.further ps, through lead, through (lead ++ ps));
      }
