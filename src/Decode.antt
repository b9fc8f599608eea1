-- ===== src/Decode.antt =====
-- The formatting of one parameter of a log entry: `resize_log_buffer`, `decodeNonStringFmt` and
-- `decodeStringFmt` of src/static_log_backend.cc.
-- `malloc`, the text of a single conversion of `snprintf` and the build's `NDEBUG` are parameters;
-- what `snprintf` does with its buffer is written out. A pointer into the log buffer is an offset, a
-- parameter of the entry a list of bytes.
pub mod Snprintf
pub mod NonString
pub mod Character
pub mod Shown
pub mod String
pub mod StringGrows
mod Tests
use static_logger.Prelude.{
  ℕ, zero, suc, ◌+◌, ◌-◌, ◌*◌, Bool, true, false, not, ◌&&◌, ◌||◌, Option, none, some, List, [],
  ◌∷◌, ◌++◌, ◌==◌, ltb, leb, if◌then◌else◌, length, take,
}
use static_logger.Prelude.Memory.{Memory, read_bytes, write_bytes}
use static_logger.Prelude.Bytes.{le_value}

-- The argument of a conversion, as the code casts it: its size and its bytes as a number. A string
-- is what stands before its NUL.
pub data Value : Type 0 where
  character : ℕ → Value
  signed_int : ℕ → ℕ → Value
  unsigned_int : ℕ → ℕ → Value
  floating : ℕ → ℕ → Value
  c_string : List ℕ → Value

-- What the code uses and does not define: `malloc` returns an address and what stands there.
pub record Platform : Type 0 where
  pub malloc : ℕ → Option (ℕ × Memory)
  pub convert : List ℕ → Value → List ℕ
  pub ndebug : Bool

pub record LogBuffer : Type 0 where
  pub address : ℕ
  pub memory : Memory
  pub len : ℕ

-- What `snprintf` with this size writes for a text.
abbrev pub written : ℕ → List ℕ → List ℕ
written zero text = []
written (suc n) text = take n text ++ 0 ∷ []

-- `snprintf` to offset `p`; `none` is a write behind the end of the buffer.
unfoldable pub snprintf : ℕ → ℕ → List ℕ → LogBuffer → Option LogBuffer
snprintf p size text b =
    if leb (p + length (written size text)) b.len
    then some (record b { memory = write_bytes b.memory p (written size text) })
    else none

-- The old content in a new allocation.
abbrev pub moved_to : ℕ → ℕ → LogBuffer → Option (ℕ × Memory) → Option LogBuffer
moved_to count new_size b none = none
moved_to count new_size b (some (address, fresh)) = some (record {
  address = address;
  memory = write_bytes fresh 0 (read_bytes b.memory 0 count);
  len = new_size;
})

-- `resize_log_buffer`; `none` is -1.
unfoldable pub resize_log_buffer : Platform → ℕ → LogBuffer → Option LogBuffer
resize_log_buffer os new_size b = moved_to b.len new_size b (os.malloc new_size)

-- How a parameter is formatted: the length that is returned, with the buffer, the reserved space,
-- and whether the buffer is a new one; -1; a failed assertion; a write behind the end of the
-- buffer; a loop that has not ended.
pub data Decoded : Type 0 where
  decoded : ℕ → LogBuffer → ℕ → Bool → Decoded
  failed : LogBuffer → ℕ → Decoded
  aborts overflows spins : Decoded

abbrev is_signed_flag : ℕ → Bool
is_signed_flag c = c == b'd' || c == b'i'

abbrev is_unsigned_flag : ℕ → Bool
is_unsigned_flag c = c == b'u' || c == b'o' || c == b'x' || c == b'X'

abbrev is_float_flag : ℕ → Bool
is_float_flag c =
    c == b'f'
    || c == b'F'
    || c == b'e'
    || c == b'E'
    || c == b'g'
    || c == b'G'
    || c == b'a'
    || c == b'A'

abbrev integer_value : ℕ → ℕ → ℕ → Option Value
integer_value size flag bits =
    if is_signed_flag flag
    then some (signed_int size bits)
    else if is_unsigned_flag flag
    then some (unsigned_int size bits)
    else none

abbrev number_value : ℕ → ℕ → ℕ → Option Value
number_value size flag bits =
    if is_signed_flag flag
    then some (signed_int size bits)
    else if is_unsigned_flag flag
    then some (unsigned_int size bits)
    else if is_float_flag flag
    then some (floating size bits)
    else none

-- The `switch`: what is printed for a parameter of this size; `none` is an error message.
unfoldable pub value_of : ℕ → ℕ → ℕ → Option Value
value_of size flag bits =
    if size == 1
    then (if flag == b'c' then some (character bits) else integer_value 1 flag bits)
    else if size == 2
    then integer_value 2 flag bits
    else if size == 4
    then number_value 4 flag bits
    else if size == 8
    then number_value 8 flag bits
    else none

-- The size that `snprintf` is given: the reserved space for a character, and otherwise the length
-- of the whole buffer.
unfoldable pub size_given : Value → ℕ → LogBuffer → ℕ
size_given (character bits) reserved b = reserved
size_given _ reserved b = b.len

-- `goto retry` behind `resize_log_buffer`.
abbrev pub retry_in :
    (LogBuffer → ℕ → Bool → Decoded) → ℕ → LogBuffer → ℕ → Option LogBuffer → Decoded
retry_in retry start_pos b reserved none = failed b reserved
retry_in retry start_pos b reserved (some b') = retry b' (b'.len - start_pos) true

-- `CHECK_LOG_BUFFER_REALLOC`, behind the `snprintf`.
unfoldable pub check_log_buffer_realloc :
    Platform → (LogBuffer → ℕ → Bool → Decoded) → ℕ → ℕ → ℕ → Bool → Option LogBuffer → Decoded
unfolding resize_log_buffer
check_log_buffer_realloc os retry start_pos fmt_len reserved moved none = overflows
check_log_buffer_realloc os retry start_pos fmt_len reserved moved (some b) =
    if leb reserved fmt_len
    then retry_in retry start_pos b reserved
        (resize_log_buffer os (fmt_len * 2 + b.len - reserved) b)
    else decoded fmt_len b reserved moved

-- From `retry:` on, for the value `v` with the text `text`; `moved` says whether the buffer is a new
-- one. The fuel is the number of rounds.
unfoldable pub retry_from : ℕ → Platform → ℕ → Value → List ℕ → LogBuffer → ℕ → Bool → Decoded
unfolding snprintf size_given check_log_buffer_realloc
retry_from zero os start_pos v text b reserved moved = spins
retry_from (suc rounds) os start_pos v text b reserved moved =
    check_log_buffer_realloc os (retry_from rounds os start_pos v text) start_pos (length text)
      reserved moved (snprintf start_pos (size_given v reserved b) text b)

-- The text of a format's last character, and of the parameter.
abbrev pub decode_value : ℕ → Platform → ℕ → List ℕ → LogBuffer → ℕ → Option Value → Decoded
decode_value rounds os start_pos fmt b reserved none = decoded 0 b reserved false
decode_value rounds os start_pos fmt b reserved (some v) =
    retry_from rounds os start_pos v (os.convert fmt v) b reserved false

-- `fmt[strlen(fmt) - 1]`
abbrev pub last : List ℕ → ℕ
last [] = 0
last (c ∷ []) = c
last (c ∷ d ∷ s) = last (d ∷ s)

-- `decodeNonStringFmt` for a parameter with these bytes.
unfoldable pub decode_non_string_fmt : ℕ → Platform → LogBuffer → ℕ → ℕ → List ℕ → List ℕ → Decoded
unfolding value_of
decode_non_string_fmt rounds os b reserved start_pos fmt param =
    decode_value rounds os start_pos fmt b reserved
      (value_of (length param) (last fmt) (le_value param))

abbrev pub param_cache_size : ℕ
param_cache_size = 1024

-- The bytes before the first NUL.
abbrev pub until_nul : List ℕ → List ℕ
until_nul [] = []
until_nul (c ∷ s) = let rest = until_nul s in if c == 0 then [] else c ∷ rest

-- The second `snprintf`, to the new buffer.
abbrev pub rewritten : ℕ → ℕ → List ℕ → Option LogBuffer → Decoded
rewritten start_pos reserved text none = overflows
rewritten start_pos reserved text (some b) = decoded (length text) b reserved true

-- A new buffer for a text that is longer than the reserved space.
abbrev pub regrown : ℕ → ℕ → List ℕ → LogBuffer → Option LogBuffer → Decoded
regrown start_pos reserved text b none = failed b reserved
regrown start_pos reserved text b (some b') =
    rewritten start_pos (b'.len - b.len + reserved) text
      (snprintf start_pos (length text + 1) text b')

-- Behind the first `snprintf` of `decodeStringFmt`.
unfoldable pub string_written : Platform → ℕ → ℕ → List ℕ → Option LogBuffer → Decoded
unfolding snprintf
string_written os reserved start_pos text none = overflows
string_written os reserved start_pos text (some b) =
    if ltb reserved (length text)
    then (let new_len = length text + 1 + b.len - reserved in
        regrown start_pos reserved text b (moved_to start_pos new_len b (os.malloc new_len)))
    else decoded (length text) b reserved false

-- The copy of the parameter is on the stack, or in an allocation that can fail.
abbrev pub has_param_buffer : Platform → ℕ → Bool
has_param_buffer os param_size =
    if leb param_cache_size param_size
    then elim (os.malloc (param_size + 1)) [ none ↦ false | some _ ↦ true ]
    else true

-- The assertion compares a pointer with a number.
abbrev pub assertion_holds : LogBuffer → ℕ → ℕ → Bool
assertion_holds b reserved start_pos = b.address == b.len - reserved + start_pos

-- `decodeStringFmt` for a parameter with these bytes.
unfoldable pub decode_string_fmt : Platform → LogBuffer → ℕ → ℕ → List ℕ → List ℕ → Decoded
unfolding snprintf string_written
decode_string_fmt os b reserved start_pos param fmt =
    if not os.ndebug && not (assertion_holds b reserved start_pos)
    then aborts
    else if not (has_param_buffer os (length param))
    then failed b reserved
    else (let text = os.convert fmt (c_string (until_nul param)) in
        string_written os reserved start_pos text (snprintf start_pos reserved text b))
