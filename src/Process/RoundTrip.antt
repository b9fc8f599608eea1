-- ===== src/Process/RoundTrip.antt =====
-- From the arguments of a log statement to the text in the log: `getArgSizes` and `storeArguments` of
-- src/static_log_internal.h, then `process_fmt` of src/static_log_backend.cc.
use static_logger.Prelude.{
  ℕ, ◌+◌, ◌^◌, ◌<◌, true, false, some, List, [], ◌∷◌, ◌==◌, length, ◌≡◌, refl, arith,
}
use static_logger.Prelude.Memory.{read_bytes, read_bytes-write_bytes}
use static_logger.Format.Types.{ParamType, is_string}
use static_logger.Format.Grammar.{Piece, plain, percent, directive, print, types, IsFormat}
use static_logger.Args.{
  Arg, integer, floating, pointer, text, pointer_size, get_arg_size, scalar_size, get_arg_sizes,
  Cursor, put, stored, store_arguments,
}
use static_logger.Args.Sizes.{string_size_of-le}
use static_logger.Args.Layout.{
  payloads, AllShort, IsShort, add_size-eq-some, store_arguments-payloads,
}
use static_logger.Decode.{Platform, LogBuffer, has_param_buffer}
use static_logger.Process.{process_fmt}
use static_logger.Process.Render.{type_of, IsStatic, IsStaticAmount, spec, directive_types-static}
use static_logger.Process.Print.{Prints, process_fmt-rendered}
use static_logger.Process.Stored.{AllNonzero, Matches, AllMatch, logged_text, rendered-logged_text}

-- The argument is of the kind that the parameter asks for; a string has less than 4 GiB.
abbrev pub IsKind : ParamType → Arg → Type 0
IsKind t (text address chars) = (is_string t ≡ true) × (length chars < 2 ^ 32) × AllNonzero chars
IsKind t (integer n signed bits) = (is_string t ≡ false) × (bits < 256 ^ n)
IsKind t (floating n bits) = (is_string t ≡ false) × (bits < 256 ^ n)
IsKind t (pointer bits) = (is_string t ≡ false) × (bits < 256 ^ pointer_size)

-- The specifiers of the format take the arguments one by one, none by a `*`, and none has 100
-- characters; no NUL is in the format.
abbrev pub AllKinds : List Piece → List Arg → Type 0
AllKinds [] [] = Unit
AllKinds [] (arg ∷ args) = ⊥
AllKinds (plain c ∷ ps) args = ((c == 0) ≡ false) × AllKinds ps args
AllKinds (percent ∷ ps) args = AllKinds ps args
AllKinds (directive d ∷ ps) [] = ⊥
AllKinds (directive d ∷ ps) (arg ∷ args) =
    (IsStaticAmount d.width × IsStaticAmount d.precision × (length (spec d) < 100))
    × IsKind (type_of d) arg
    × AllKinds ps args

-- The size that is stored for an argument.
get_arg_size-Matches :
    (t : ParamType) (prev s : ℕ) (arg : Arg)
    → IsKind t arg
    → Matches t (get_arg_size t prev s arg).string_size arg
unfolding get_arg_size scalar_size
get_arg_size-Matches t prev s (text address chars) (str, short, nz) =
    let le = string_size_of-le t prev (length chars) in rw str (refl, le, omega arith, nz)
get_arg_size-Matches t prev s (integer n signed bits) (other, small) = (other, refl, small)
get_arg_size-Matches t prev s (floating n bits) (other, small) = (other, refl, small)
get_arg_size-Matches t prev s (pointer bits) (other, small) = (other, refl, small)

kind-IsShort : (t : ParamType) (arg : Arg) → IsKind t arg → IsShort arg
kind-IsShort t (text address chars) h = h.1
kind-IsShort t (integer n signed bits) h = tt
kind-IsShort t (floating n bits) h = tt
kind-IsShort t (pointer bits) h = tt

pub kinds-AllShort : (ps : List Piece) (args : List Arg) → AllKinds ps args → AllShort args
kinds-AllShort [] [] h = tt
kinds-AllShort [] (arg ∷ args) h = absurd h
kinds-AllShort (plain c ∷ ps) args h = kinds-AllShort ps args h.1
kinds-AllShort (percent ∷ ps) args h = kinds-AllShort ps args h
kinds-AllShort (directive d ∷ ps) [] h = absurd h
kinds-AllShort (directive d ∷ ps) (arg ∷ args) (st, kind, rest) =
    (kind-IsShort (type_of d) arg kind, kinds-AllShort ps args rest)

-- What `getArgSizes` has left in the array.
pub sizes-AllMatch :
    (ps : List Piece) (prev : ℕ) (slots : List ℕ) (args : List Arg) (n : ℕ) (sizes : List ℕ)
    → AllKinds ps args
    → get_arg_sizes (types ps) prev slots args ≡ some (n, sizes)
    → IsStatic ps sizes × AllMatch ps sizes args
unfolding get_arg_sizes types
sizes-AllMatch [] prev slots [] n sizes h e = (tt, tt)
sizes-AllMatch [] prev slots (arg ∷ args) n sizes h e = absurd h
sizes-AllMatch (plain c ∷ ps) prev slots args n sizes h e =
    let (static, match) = sizes-AllMatch ps prev slots args n sizes h.1 e in ((h.0, static), match)
sizes-AllMatch (percent ∷ ps) prev slots args n sizes h e =
    sizes-AllMatch ps prev slots args n sizes h e
sizes-AllMatch (directive d ∷ ps) prev slots [] n sizes h e = absurd h
sizes-AllMatch (directive d ∷ ps) prev [] (arg ∷ args) n sizes (st, kind, rest) e =
    let stuck = rw (directive_types-static d (types ps) st.0 st.1) at e in cc
sizes-AllMatch (directive d ∷ ps) prev (s ∷ slots) (arg ∷ args) n sizes (st, kind, rest) e =
    let sized = get_arg_size (type_of d) prev s arg in
    let (m, ss, later, sum, split) =
      add_size-eq-some sized (get_arg_sizes (types ps) sized.previous_precision slots args)
        (rw (directive_types-static d (types ps) st.0 st.1) at e) in
    let (static, match) = sizes-AllMatch ps sized.previous_precision slots args m ss rest later in
    rw split ((st, static), (get_arg_size-Matches (type_of d) prev s arg kind, match))

-- The bytes that `store_arguments` has written are read back.
read-put : (bs : List ℕ) (c : Cursor) → read_bytes (put bs c).memory c.position (length bs) ≡ bs
unfolding put
read-put bs c = read_bytes-write_bytes c.memory c.position bs

-- A log statement whose arguments match its format, which has no `*`, no NUL and no specifier of 100
-- characters: `storeArguments` stores the arguments, with the sizes that `getArgSizes` has computed,
-- and from these bytes and sizes `process_fmt` prints the text of the statement into a log buffer
-- that has the space for it: each plain character; each string, up to its stored size, in its own
-- format; each number, in its own format, as its conversion shows one of its size, where an integer
-- conversion takes 1, 2, 4 or 8 bytes, `%e`, `%f`, `%g` and `%a` take 4 or 8, and `%c` takes 1; and
-- nothing for any other pair of conversion and size, such as that of `%p`. It returns the end of the
-- text and leaves what was in front of it. The build has no assertions, and each copy of a string
-- finds its space.
pub store_arguments-process_fmt :
    (os : Platform) (ps : List Piece) (args : List Arg) (prev : ℕ) (slots sizes : List ℕ) (n : ℕ)
    (c : Cursor) (b : LogBuffer) (start_pos : ℕ)
    → IsFormat ps
    → AllKinds ps args
    → get_arg_sizes (types ps) prev slots args ≡ some (n, sizes)
    → os.ndebug ≡ true
    → ((k : ℕ) → has_param_buffer os k ≡ true)
    → b.len < 2 ^ 64
    → start_pos + length (logged_text os ps sizes args) < b.len
    → (c' : Cursor) × (store_arguments (types ps) sizes args c ≡ stored c')
      × Prints b start_pos
          (logged_text os ps sizes args)
          (process_fmt os c'.memory (print ps) (types ps) sizes c.position b start_pos)
store_arguments-process_fmt os ps args prev slots sizes n c b start_pos f kinds e release copies
      small fits =
    let bytes = payloads (types ps) sizes args in
    let (static, match) = sizes-AllMatch ps prev slots args n sizes kinds e in
    let (stores, count) =
      store_arguments-payloads args (types ps) prev slots sizes n c (kinds-AllShort ps args kinds)
        e in
    let storage = (put bytes c).memory in
    let same =
      rendered-logged_text os storage ps sizes args c.position static match (read-put bytes c) in
    let prints =
      process_fmt-rendered os storage ps sizes c.position b start_pos f static release copies small
        (rw same fits) in
    (put bytes c, stores, rw same at prints)
