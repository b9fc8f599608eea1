-- ===== src/Decode/NonString.antt =====
-- `decodeNonStringFmt` for numbers.
use static_logger.Prelude.{
  ℕ, suc, ◌+◌, ◌≤◌, ◌<◌, Bool, false, Option, none, some, List, [], leb, length, ◌≡◌, refl, arith,
}
use static_logger.Prelude.Memory.{read_bytes}
use static_logger.Prelude.Bytes.{le_value}
use static_logger.Decode.{
  Value, character, signed_int, unsigned_int, floating, c_string, Platform, LogBuffer, decoded,
  value_of, size_given, check_log_buffer_realloc, decode_value, retry_from, last,
  decode_non_string_fmt,
}
use static_logger.Decode.Snprintf.{IsPrinted, with_text, snprintf-fits, with_text-IsPrinted}

size_given-reserved :
    (v : Value) (reserved : ℕ) (b : LogBuffer)
    → reserved ≤ b.len
    → reserved ≤ size_given v reserved b
unfolding size_given
size_given-reserved (character bits) reserved b h = omega arith
size_given-reserved (signed_int n bits) reserved b h = h
size_given-reserved (unsigned_int n bits) reserved b h = h
size_given-reserved (floating n bits) reserved b h = h
size_given-reserved (c_string s) reserved b h = h

pub retry_from-fits :
    (rounds : ℕ) (os : Platform) (start_pos : ℕ) (v : Value) (text : List ℕ) (b : LogBuffer)
    (reserved : ℕ) (moved : Bool)
    → start_pos + reserved ≡ b.len
    → length text < reserved
    → retry_from (suc rounds) os start_pos v text b reserved moved
      ≡ decoded (length text) (with_text start_pos text b) reserved moved
unfolding retry_from check_log_buffer_realloc
retry_from-fits rounds os start_pos v text b reserved moved whole fits =
    let given = size_given-reserved v reserved b (omega arith) in
    let small : leb reserved (length text) ≡ false = ground arith in
    rw (snprintf-fits start_pos (size_given v reserved b) text b (omega arith) (omega arith), small)
      refl

-- What is printed by any conversion but `%c`.
abbrev pub IsNumber : Value → Type 0
IsNumber (character bits) = ⊥
IsNumber (c_string s) = ⊥
IsNumber _ = Unit

-- The text that stands for a parameter, which is empty where the code prints an error message.
abbrev pub value_text : Platform → List ℕ → Option Value → List ℕ
value_text os fmt none = []
value_text os fmt (some v) = os.convert fmt v

abbrev pub with_value : Platform → List ℕ → ℕ → Option Value → LogBuffer → LogBuffer
with_value os fmt p none b = b
with_value os fmt p (some v) b = with_text p (os.convert fmt v) b

decode_value-fits :
    (rounds : ℕ) (os : Platform) (b : LogBuffer) (reserved start_pos : ℕ) (fmt : List ℕ)
    (v : Option Value)
    → start_pos + reserved ≡ b.len
    → length (value_text os fmt v) < reserved
    → decode_value (suc rounds) os start_pos fmt b reserved v
      ≡ decoded (length (value_text os fmt v)) (with_value os fmt start_pos v b) reserved false
decode_value-fits rounds os b reserved start_pos fmt none whole fits = refl
decode_value-fits rounds os b reserved start_pos fmt (some v) whole fits =
    retry_from-fits rounds os start_pos v (os.convert fmt v) b reserved false whole fits

pub decode_non_string_fmt-fits :
    (rounds : ℕ) (os : Platform) (b : LogBuffer) (reserved start_pos : ℕ) (fmt param : List ℕ)
    (v : Option Value)
    → value_of (length param) (last fmt) (le_value param) ≡ v
    → start_pos + reserved ≡ b.len
    → length (value_text os fmt v) < reserved
    → decode_non_string_fmt (suc rounds) os b reserved start_pos fmt param
      ≡ decoded (length (value_text os fmt v)) (with_value os fmt start_pos v b) reserved false
unfolding decode_non_string_fmt
decode_non_string_fmt-fits rounds os b reserved start_pos fmt param v known whole fits =
    rw known (decode_value-fits rounds os b reserved start_pos fmt v whole fits)

pub with_value-IsPrinted :
    (os : Platform) (b : LogBuffer) (p : ℕ) (fmt : List ℕ) (v : Option Value)
    → p + length (value_text os fmt v) < b.len
    → IsPrinted b p (value_text os fmt v) (with_value os fmt p v b)
unfolding read_bytes
with_value-IsPrinted os b p fmt none room = record { before = refl; printed = refl; room = room }
with_value-IsPrinted os b p fmt (some v) room = with_text-IsPrinted p (os.convert fmt v) b room
