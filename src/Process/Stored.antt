-- ===== src/Process/Stored.antt =====
-- What `process_fmt` reads is what `storeArguments` has written.
use static_logger.Prelude.{
  ℕ, zero, suc, ◌+◌, ◌^◌, ◌≤◌, ◌<◌, true, false, List, [], ◌∷◌, ◌++◌, ◌==◌, length, length-append,
  length-take, take, ◌≡◌, refl, sym, ap, ap₂, ◌∙◌, arith,
}
use static_logger.Prelude.Memory.{read-split, Memory, read_bytes}
use static_logger.Prelude.Bytes.{le_bytes, le_value, length-le_bytes, le_value-le_bytes}
use static_logger.Format.Types.{ParamType, is_string}
use static_logger.Format.Scan.{Chars}
use static_logger.Format.Grammar.{Piece, plain, percent, directive, types}
use static_logger.Args.{Arg, integer, floating, pointer, text, pointer_size}
use static_logger.Args.Layout.{payload, payloads}
use static_logger.Decode.{Platform, c_string, until_nul}
use static_logger.Decode.NonString.{value_text}
use static_logger.Decode.Shown.{shown_value}
use static_logger.Process.Render.{
  spec, type_of, param_text, param_width, rendered, string_size, IsStatic, directive_types-static,
}

-- The text of an argument by the conversion `flag` of the specifier `fmt`: a string is cut at the
-- size that was stored for it.
abbrev pub arg_text : Platform → Chars → ℕ → ℕ → Arg → List ℕ
arg_text os fmt flag size (text address chars) = os.convert fmt (c_string (take size chars))
arg_text os fmt flag size (integer n signed bits) = value_text os fmt (shown_value n flag bits)
arg_text os fmt flag size (floating n bits) = value_text os fmt (shown_value n flag bits)
arg_text os fmt flag size (pointer bits) = value_text os fmt (shown_value pointer_size flag bits)

-- The text of a log statement.
abbrev pub logged_text : Platform → List Piece → List ℕ → List Arg → List ℕ
logged_text os [] sizes args = []
logged_text os (plain c ∷ ps) sizes args = c ∷ logged_text os ps sizes args
logged_text os (percent ∷ ps) sizes args = b'%' ∷ logged_text os ps sizes args
logged_text os (directive d ∷ ps) (size ∷ sizes) (arg ∷ args) =
    arg_text os (spec d) d.terminal size arg ++ logged_text os ps sizes args
logged_text os (directive d ∷ ps) _ _ = []

abbrev pub AllNonzero : List ℕ → Type 0
AllNonzero [] = Unit
AllNonzero (c ∷ s) = (0 < c) × AllNonzero s

-- The argument is of the kind that the parameter asks for, and the size is that of its bytes, or
-- what is stored of a string.
abbrev pub Matches : ParamType → ℕ → Arg → Type 0
Matches t size (text address chars) =
    (is_string t ≡ true) × (size ≤ length chars) × (size < 2 ^ 32) × AllNonzero chars
Matches t size (integer n signed bits) = (is_string t ≡ false) × (size ≡ n) × (bits < 256 ^ n)
Matches t size (floating n bits) = (is_string t ≡ false) × (size ≡ n) × (bits < 256 ^ n)
Matches t size (pointer bits) =
    (is_string t ≡ false) × (size ≡ pointer_size) × (bits < 256 ^ pointer_size)

-- The arguments match the parameters one by one.
abbrev pub AllMatch : List Piece → List ℕ → List Arg → Type 0
AllMatch [] sizes args = Unit
AllMatch (plain c ∷ ps) sizes args = AllMatch ps sizes args
AllMatch (percent ∷ ps) sizes args = AllMatch ps sizes args
AllMatch (directive d ∷ ps) (size ∷ sizes) (arg ∷ args) =
    Matches (type_of d) size arg × AllMatch ps sizes args
AllMatch (directive d ∷ ps) _ _ = ⊥

-- The stored bytes of a string are its characters up to its size.
until_nul-take :
    (s : ℕ) (chars : List ℕ)
    → s ≤ length chars
    → AllNonzero chars
    → until_nul (take s (chars ++ 0 ∷ [])) ≡ take s chars
until_nul-take zero chars h k = refl
until_nul-take (suc s) [] h k = absurd (omega arith)
until_nul-take (suc s) (c ∷ chars) h k =
    let nonzero : (c == 0) ≡ false = ground (arith, k.0) in
    rw nonzero (ap (◌∷◌ c) (until_nul-take s chars (omega arith) k.1))

-- A number of `n` bytes.
number_text :
    (os : Platform) (storage : Memory) (fmt : Chars) (flag n bits p : ℕ)
    → bits < 256 ^ n
    → read_bytes storage p (length (le_bytes n bits)) ≡ le_bytes n bits
    → value_text os fmt (shown_value n flag (le_value (read_bytes storage p n)))
      ≡ value_text os fmt (shown_value n flag bits)
number_text os storage fmt flag n bits p small h =
    let same : read_bytes storage p n ≡ le_bytes n bits =
      ap (read_bytes storage p) (sym (length-le_bytes n bits)) ∙ h in
    rw (same, le_value-le_bytes n bits small) refl

param_text-payload :
    (os : Platform) (storage : Memory) (fmt : Chars) (flag : ℕ) (t : ParamType) (size : ℕ)
    (arg : Arg) (p : ℕ)
    → Matches t size arg
    → read_bytes storage p (length (payload t size arg)) ≡ payload t size arg
    → (param_text os storage fmt flag t size p ≡ arg_text os fmt flag size arg)
      × (param_width storage t size p ≡ length (payload t size arg))
param_text-payload os storage fmt flag t size (text address chars) p (str, le, small, nz) h =
    let tail = take size (chars ++ 0 ∷ []) in
    let four = length-le_bytes 4 size in
    let (first, rest) = read-split storage p (le_bytes 4 size) tail (rw str at h) in
    let count : length tail ≡ size =
      omega (arith, length-take size (chars ++ 0 ∷ []), length-append chars (0 ∷ [])) in
    let head : read_bytes storage p 4 ≡ le_bytes 4 size =
      ap (read_bytes storage p) (sym four) ∙ first in
    let stored_size : string_size storage p ≡ size =
      ap le_value head ∙ le_value-le_bytes 4 size (omega arith) in
    let chars_read : read_bytes storage (p + 4) size ≡ tail =
      ap₂ (λ a n. read_bytes storage (p + a) n) (sym four) (sym count) ∙ rest in
    rw (str, stored_size, chars_read)
      (
        ap (λ text. os.convert fmt (c_string text)) (until_nul-take size chars le nz),
        omega (arith, length-append (le_bytes 4 size) tail),
      )
param_text-payload os storage fmt flag t size (integer n signed bits) p (other, same, small) h =
    rw (other, same)
      (number_text os storage fmt flag n bits p small h, sym (length-le_bytes n bits))
param_text-payload os storage fmt flag t size (floating n bits) p (other, same, small) h =
    rw (other, same)
      (number_text os storage fmt flag n bits p small h, sym (length-le_bytes n bits))
param_text-payload os storage fmt flag t size (pointer bits) p (other, same, small) h =
    rw (other, same)
      (
        number_text os storage fmt flag pointer_size bits p small h,
        sym (length-le_bytes pointer_size bits),
      )

-- If the stored bytes of the arguments stand at offset `p`, the text that `process_fmt` prints from
-- there is that of the log statement: each plain character, and each argument in its own format, a
-- string up to the size that was stored for it.
pub rendered-logged_text :
    (os : Platform) (storage : Memory) (ps : List Piece) (sizes : List ℕ) (args : List Arg) (p : ℕ)
    → IsStatic ps sizes
    → AllMatch ps sizes args
    → read_bytes storage p (length (payloads (types ps) sizes args))
      ≡ payloads (types ps) sizes args
    → rendered os storage ps sizes p ≡ logged_text os ps sizes args
unfolding types
rendered-logged_text os storage [] sizes args p st m h = refl
rendered-logged_text os storage (plain c ∷ ps) sizes args p st m h =
    ap (◌∷◌ c) (rendered-logged_text os storage ps sizes args p st.1 m h)
rendered-logged_text os storage (percent ∷ ps) sizes args p st m h =
    ap (◌∷◌ b'%') (rendered-logged_text os storage ps sizes args p st m h)
rendered-logged_text os storage (directive d ∷ ps) [] args p st m h = absurd st
rendered-logged_text os storage (directive d ∷ ps) (size ∷ sizes) [] p st m h = absurd m
rendered-logged_text os storage (directive d ∷ ps) (size ∷ sizes) (arg ∷ args) p st m h =
    let t = type_of d in
    let (now, later) =
      read-split storage p (payload t size arg) (payloads (types ps) sizes args)
        (rw (directive_types-static d (types ps) st.0.0 st.0.1) at h) in
    let (same, width) = param_text-payload os storage (spec d) d.terminal t size arg p m.0 now in
    ap₂ ◌++◌ same (
      rw width (
        rendered-logged_text os storage ps sizes args (p + length (payload t size arg)) st.1 m.1
          later))
