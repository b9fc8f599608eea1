-- ===== src/Prefix.antt =====
-- The text in front of a formatted entry: `convertInt2Str`, `generateTimePrefix` and
-- `generateCallInfoPrefix` of src/static_log_backend.cc, with `struct StaticInfo` of
-- src/static_log_internal.h. A pointer into the log buffer is a cursor. `localtime` is a parameter;
-- the times that it breaks down are not negative, and so its fields are natural numbers.
pub mod Puts
pub mod Time
pub mod CallInfo
mod Tests
use static_logger.Prelude.{
  ℕ, zero, suc, ◌+◌, ◌-◌, ◌*◌, ◌/◌, ◌%◌, ◌^◌, Bool, true, false, Option, none, some, List, [], ◌∷◌,
  ◌++◌, ltb, if◌then◌else◌, length, take, get_elem?,
}
use static_logger.Prelude.Memory.{Memory, write_bytes}
use static_logger.Prelude.Decimal.{to_string}
use static_logger.Format.Types.{ParamType}
use static_logger.Args.{Cursor, put}

-- `struct tm`, the fields that the code reads.
pub record Tm : Type 0 where
  pub year : ℕ
  pub mon : ℕ
  pub mday : ℕ
  pub hour : ℕ
  pub min : ℕ
  pub sec : ℕ

-- `memcpy` of `n` bytes from `std::to_string(v).c_str()`
abbrev pub put_number : ℕ → ℕ → Cursor → Cursor
put_number n v c = put (take n (to_string v ++ 0 ∷ [])) c

abbrev pub put_char : ℕ → Cursor → Cursor
put_char ch c = put (ch ∷ []) c

-- `convertInt2Str`
unfoldable pub convert_int2_str : ℕ → Cursor → Cursor
unfolding put
convert_int2_str ts raw =
    if ltb ts 10 then put_number 1 ts (put_char b'0' raw) else put_number 2 ts raw

abbrev pub nano_bits : ℕ
nano_bits = 9

-- `for(int i = 0; i < bits; ++i) *raw_data++ = '0';`
unfoldable pub put_zeros : ℕ → Cursor → Cursor
put_zeros zero c = c
put_zeros (suc bits) c = put_zeros bits (put_char b'0' c)

-- The nanoseconds, with zeros in front of them.
unfoldable pub put_nano : ℕ → Cursor → Cursor
unfolding put_zeros
put_nano nano c =
    let text = to_string nano in
    let nanolen = length text in
    let c' = record c { memory = write_bytes c.memory (c.position + nano_bits - nanolen) text } in
    if ltb nanolen nano_bits
    then (let z = put_zeros (nano_bits - nanolen) c' in
        record z { position = z.position + nanolen })
    else record c' { position = c'.position + nano_bits }

-- The part of `generateTimePrefix` that writes the date.
unfoldable pub put_date : Tm → Cursor → Cursor
put_date tm c =
    let c₁ = put_char b'-' (put_number 4 (tm.year + 1900) c) in
    let c₂ = put_char b'-' (convert_int2_str (tm.mon + 1) c₁) in
    put_char b'-' (convert_int2_str tm.mday c₂)

unfoldable pub put_clock : Tm → Cursor → Cursor
put_clock tm c =
    let c₁ = put_char b':' (convert_int2_str tm.hour c) in
    let c₂ = put_char b':' (convert_int2_str tm.min c₁) in
    put_char b'.' (convert_int2_str tm.sec c₂)

-- `prefix_len` at the end, by the parts that the code counts.
abbrev pub time_prefix_len : ℕ
time_prefix_len = 1 + 4 + 1 + 2 + 1 + 2 + 1 + 2 + 1 + 2 + 1 + 2 + 1 + nano_bits + 1

-- `generateTimePrefix` at offset `p`: the length that it returns, and the buffer.
unfoldable pub generate_time_prefix : (ℕ → Tm) → ℕ → Memory → ℕ → ℕ × Memory
generate_time_prefix localtime timestamp m p =
    let nano = timestamp % 1000000000 in
    let tm = localtime (timestamp / 1000000000) in
    let c = put_clock tm (put_date tm (put_char b'[' (record { memory = m; position = p }))) in
    (time_prefix_len, (put_char b']' (put_nano nano c)).memory)

pub record StaticInfo : Type 0 where
  pub num_params : ℕ
  pub param_types : List ParamType
  pub format : List ℕ
  pub log_level : ℕ
  pub function_name : List ℕ
  pub line : ℕ

abbrev pub log_level_str : List (List ℕ)
log_level_str =
    (b'n' ∷ b'o' ∷ b'n' ∷ [])
    ∷ (b'e' ∷ b'r' ∷ b'r' ∷ b'o' ∷ b'r' ∷ [])
    ∷ (b'w' ∷ b'a' ∷ b'r' ∷ b'n' ∷ [])
    ∷ (b'n' ∷ b'o' ∷ b't' ∷ b'i' ∷ b'c' ∷ b'e' ∷ [])
    ∷ (b'd' ∷ b'e' ∷ b'b' ∷ b'u' ∷ b'g' ∷ [])
    ∷ []

-- `[text]`, with the bytes that it adds to `prefix_len`.
unfoldable pub put_bracketed : List ℕ → ℕ × Cursor → ℕ × Cursor
put_bracketed text (prefix_len, c) =
    (prefix_len + 1 + length text + 1, put_char b']' (put text (put_char b'[' c)))

abbrev pub call_info : StaticInfo → ℕ → Memory → Option (List ℕ) → Option (ℕ × Memory)
call_info info p m none = none
call_info info p m (some level) =
    let start : ℕ × Cursor = (0, record { memory = m; position = p }) in
    let (prefix_len, c) =
      put_bracketed (to_string info.line)
        (put_bracketed info.function_name (put_bracketed level start)) in
    some (prefix_len, c.memory)

-- `generateCallInfoPrefix` at offset `p`; `none` is a level without a name.
unfoldable pub generate_call_info_prefix : StaticInfo → Memory → ℕ → Option (ℕ × Memory)
generate_call_info_prefix info m p = call_info info p m (get_elem? log_level_str info.log_level)
