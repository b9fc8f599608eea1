-- ===== src/Args/Layout.antt =====
-- What `storeArguments` writes, and that `getArgSizes` has reserved as much.
use static_logger.Prelude.{
  ℕ, ◌+◌, ◌%◌, ◌^◌, ◌<◌, not, Option, none, some, List, [], ◌∷◌, ◌++◌, if◌then◌else◌, length, take,
  length-append, length-take, ◌≡◌, refl, sym, ap, ◌∙◌, arith, Bool-cases, inl, inr,
}
use static_logger.Prelude.Memory.{write_bytes, write_bytes-append}
use static_logger.Prelude.Bytes.{le_bytes, length-le_bytes}
use static_logger.Format.Types.{ParamType, is_string}
use static_logger.Args.{
  Arg, integer, floating, pointer, text, pointer_size, string_size_of, Sized, add_size,
  get_arg_size, get_arg_sizes, Cursor, put, stored, store_argument, store_arguments,
}
use static_logger.Args.Sizes.{string_size_of-le}

-- The bytes of one argument: a string is its size in four bytes and its characters.
abbrev pub payload : ParamType → ℕ → Arg → List ℕ
payload t s (text address chars) =
    if not (is_string t)
    then le_bytes pointer_size address
    else le_bytes 4 s ++ take s (chars ++ 0 ∷ [])
payload t s (integer size signed bits) = le_bytes size bits
payload t s (floating size bits) = le_bytes size bits
payload t s (pointer bits) = le_bytes pointer_size bits

abbrev pub payloads : List ParamType → List ℕ → List Arg → List ℕ
payloads types sizes [] = []
payloads (t ∷ types) (s ∷ sizes) (arg ∷ args) = payload t s arg ++ payloads types sizes args
payloads _ _ (arg ∷ args) = []

-- Strings of less than 4 GiB.
abbrev pub IsShort : Arg → Type 0
IsShort (text address chars) = length chars < 2 ^ 32
IsShort _ = Unit

abbrev pub AllShort : List Arg → Type 0
AllShort [] = Unit
AllShort (arg ∷ args) = IsShort arg × AllShort args

put-append : (xs ys : List ℕ) (c : Cursor) → put (xs ++ ys) c ≡ put ys (put xs c)
unfolding put
put-append xs ys c =
    λ i. record { memory = write_bytes-append c.memory c.position xs ys i; position = sum i }
  where
    sum : c.position + length (xs ++ ys) ≡ c.position + length xs + length ys
    sum = omega (arith, length-append xs ys)

-- An argument takes the space that `getArgSize` has computed, and is stored without an error.
get_arg_size-payload :
    (t : ParamType) (prev s : ℕ) (arg : Arg) (c : Cursor)
    → IsShort arg
    → let sized = get_arg_size t prev s arg in
      (sized.size ≡ length (payload t sized.string_size arg))
      × (store_argument arg t sized.string_size c
          ≡ stored (put (payload t sized.string_size arg) c))
unfolding get_arg_size store_argument
get_arg_size-payload t prev s (text address chars) c h = elim (Bool-cases (is_string t)) [
  | inl str ↦
      let n = string_size_of t prev (length chars) in
      let le = string_size_of-le t prev (length chars) in
      rw str (
        omega (
          arith,
          length-append (le_bytes 4 n) (take n (chars ++ 0 ∷ [])),
          length-le_bytes 4 n,
          length-take n (chars ++ 0 ∷ []),
          length-append chars (0 ∷ []),
        ),
        ground (arith, put-append (le_bytes 4 n) (take n (chars ++ 0 ∷ [])) c),
      )
  | inr other ↦ rw other (sym (length-le_bytes pointer_size address), refl)
]
get_arg_size-payload t prev s (integer size signed bits) c h =
    (sym (length-le_bytes size bits), refl)
get_arg_size-payload t prev s (floating size bits) c h = (sym (length-le_bytes size bits), refl)
get_arg_size-payload t prev s (pointer bits) c h = (sym (length-le_bytes pointer_size bits), refl)

put-nil : (c : Cursor) → put [] c ≡ c
unfolding put write_bytes
put-nil c = λ i. record { memory = c.memory; position = still i }
  where
    still : c.position + 0 ≡ c.position
    still = omega arith

-- The sum that one argument adds, taken apart.
pub add_size-eq-some :
    (sized : Sized) (r : Option (ℕ × List ℕ)) {n : ℕ} {sizes : List ℕ}
    → add_size sized r ≡ some (n, sizes)
    → (m : ℕ) × (ss : List ℕ) × (r ≡ some (m, ss))
      × (n ≡ (sized.size + m) % 2 ^ 64)
      × (sizes ≡ sized.string_size ∷ ss)
add_size-eq-some sized (some (m, ss)) e = (m, ss, refl, ground arith, ground arith)
add_size-eq-some sized none e = cc

-- For strings of less than 4 GiB: what `getArgSizes` returns is the number of bytes that
-- `storeArguments` then writes, modulo 2^64, and with the sizes that it has left in the array
-- nothing is thrown or read out of range; the bytes written are the arguments' in order, from the
-- buffer pointer on, and the pointer ends behind them.
pub store_arguments-payloads :
    (args : List Arg) (types : List ParamType) (prev : ℕ) (slots sizes : List ℕ) (n : ℕ)
    (c : Cursor)
    → AllShort args
    → get_arg_sizes types prev slots args ≡ some (n, sizes)
    → (store_arguments types sizes args c ≡ stored (put (payloads types sizes args) c))
      × (n ≡ length (payloads types sizes args) % 2 ^ 64)
unfolding get_arg_sizes store_arguments
store_arguments-payloads [] types prev slots sizes n c h e =
    (ap stored (sym (put-nil c)), ground arith)
store_arguments-payloads (arg ∷ args) [] prev slots sizes n c h e = cc
store_arguments-payloads (arg ∷ args) (t ∷ types) prev [] sizes n c h e = cc
store_arguments-payloads (arg ∷ args) (t ∷ types) prev (s ∷ slots) sizes n c h e =
    let sized = get_arg_size t prev s arg in
    let (m, ss, rest, sum, split) =
      add_size-eq-some sized (get_arg_sizes types sized.previous_precision slots args) e in
    let (fits, now) = get_arg_size-payload t prev s arg c h.0 in
    let first = payload t sized.string_size arg in
    let (later, left) =
      store_arguments-payloads args types sized.previous_precision slots ss m (put first c) h.1
        rest in
    rw split (
      rw (now, store_arguments)
          (later ∙ ap stored (sym (put-append first (payloads types ss args) c))),
      omega (arith, length-append first (payloads types ss args)),
    )
