-- ===== src/Process.antt =====
-- `process_fmt` of src/static_log_backend.cc: the text of a whole entry. The parameter list is an
-- offset in the storage that the entry stands in. `log_pos` is an offset too, or nothing once the
-- buffer that it points into has been freed.
pub mod Split
pub mod Render
pub mod Print
pub mod Leads
pub mod Grown
pub mod Overrun
pub mod Assertion
pub mod Stored
pub mod RoundTrip
mod Tests
use static_logger.Prelude.{
  ℕ, zero, suc, ◌+◌, ◌-◌, ◌%◌, ◌^◌, Bool, true, false, not, Option, none, some, List, [], ◌∷◌, ◌==◌,
  ltb, if◌then◌else◌, length,
}
use static_logger.Prelude.Memory.{Memory, read_bytes, update}
use static_logger.Prelude.Bytes.{le_value}
use static_logger.Format.Chars.{is_terminal}
use static_logger.Format.Types.{ParamType, is_string}
use static_logger.Format.Scan.{Chars, at, advance}
use static_logger.Decode.{
  Platform, LogBuffer, Decoded, decoded, failed, until_nul, decode_non_string_fmt,
  decode_string_fmt,
}

-- The variables of the loop. `param_types` and `param_sizes` are what the arrays hold from
-- `param_idx` on.
pub record Formatting : Type 0 where
  pub buffer : LogBuffer
  pub log_pos : Option ℕ
  pub reserved : ℕ
  pub param_types : List ParamType
  pub param_sizes : List ℕ
  pub param_list : ℕ

-- How `process_fmt` ends: with the length that it returns; with -1; with a failed assertion; with a
-- write behind the end of the log buffer; with a use of a freed buffer; with a read behind the end
-- of an array; in a loop that has not ended.
pub data Processed : Type 0 where
  formatted : ℕ → LogBuffer → Processed
  error : LogBuffer → Processed
  aborts overflows dangles faults spins : Processed

-- The end of a round: the rest of the format and the variables, or the end of the function.
pub data Flow : Type 0 where
  goes : Chars → Formatting → Flow
  stops : Processed → Flow

-- `reserved -= n`, a `size_t`.
abbrev pub less : ℕ → ℕ → ℕ
less reserved n = (reserved + 2 ^ 64 - n) % 2 ^ 64

-- `*log_pos++ = c; reserved--;`
unfoldable pub put_literal : ℕ → Chars → Formatting → Flow
put_literal c s f = elim f.log_pos [
  | none ↦ stops dangles
  | some p ↦
      if ltb p f.buffer.len
      then goes s (record f {
        buffer = record f.buffer { memory = update f.buffer.memory p c };
        log_pos = some (p + 1);
        reserved = less f.reserved 1;
      })
      else stops overflows
]

-- The specifier up to its terminal, and what is behind it; `none` is a read behind the NUL.
unfoldable pub split_terminal : Chars → Option (Chars × Chars)
split_terminal [] = none
split_terminal (c ∷ s) =
    let rest = split_terminal s in
    if is_terminal c
    then some (c ∷ [], s)
    else elim rest [ none ↦ none | some r ↦ some (c ∷ r.0, r.1) ]

-- Behind a call that has printed a parameter: `size` is what it takes in the list.
abbrev pub printed : ℕ → Chars → ℕ → Formatting → Decoded → Flow
printed p s size f (decoded n b reserved moved) = goes s (record f {
  buffer = b;
  log_pos = if moved then none else some (p + n);
  reserved = less reserved n;
  param_list = f.param_list + size;
})
printed p s size f (failed b reserved) = stops (error b)
printed p s size f Decoded.aborts = stops aborts
printed p s size f Decoded.overflows = stops overflows
printed p s size f Decoded.spins = stops spins

-- A string: the -1 of `decodeStringFmt` is added to `log_pos` as if it were a length.
abbrev pub printed_string : ℕ → Chars → ℕ → Formatting → Decoded → Flow
printed_string p s size f (failed b reserved) = goes s (record f {
  buffer = b;
  log_pos = some (p - 1);
  reserved = (reserved + 1) % 2 ^ 64;
  param_list = f.param_list + size;
})
printed_string p s size f d = printed p s size f d

-- `param_idx++`, in front of which the two arrays are read.
abbrev pub next_param : List ParamType → List ℕ → Formatting → Formatting
next_param types sizes f = record f { param_types = types; param_sizes = sizes }

-- The specifier `fmt_single` for a parameter of type `t`, at `log_pos`. A specifier of 100
-- characters is copied without a NUL.
unfoldable pub print_param :
    Platform → Memory → Chars → Chars → ℕ → ParamType → ℕ → Formatting → Flow
print_param os storage fmt_single s p t size f =
    if not (ltb (length fmt_single) 100)
    then stops faults
    else if is_string t
    then (let string_size = le_value (read_bytes storage f.param_list 4) in
        printed_string p s (4 + string_size) f (
          decode_string_fmt os f.buffer f.reserved p
            (read_bytes storage (f.param_list + 4) string_size) fmt_single))
    else printed p s size f (
        decode_non_string_fmt 2 os f.buffer f.reserved p fmt_single
          (read_bytes storage f.param_list size))

-- Where the next parameter comes from.
abbrev pub take_param :
    Platform → Memory → Chars → Chars → Option ℕ → List ParamType → List ℕ → Formatting → Flow
take_param os storage fmt_single s (some p) (t ∷ types) (size ∷ sizes) f =
    print_param os storage fmt_single s p t size (next_param types sizes f)
take_param os storage fmt_single s none (t ∷ types) sizes f = stops dangles
take_param os storage fmt_single s p [] sizes f = stops (error f.buffer)
take_param os storage fmt_single s (some p) (t ∷ types) [] f = stops faults

abbrev pub specifier_at : Platform → Memory → Option (Chars × Chars) → Formatting → Flow
specifier_at os storage none f = stops faults
specifier_at os storage (some (rest, s)) f =
    take_param os storage (b'%' ∷ rest) s f.log_pos f.param_types f.param_sizes f

-- A round of the loop, at `fmt[pos] == c` with `s` behind it.
unfoldable pub process_round : Platform → Memory → ℕ → Chars → Formatting → Flow
process_round os storage c s f =
    if not (c == b'%')
    then put_literal c s f
    else if at s == b'%'
    then put_literal b'%' (advance s) f
    else specifier_at os storage (split_terminal s) f

abbrev pub follow : (Chars → Formatting → Processed) → Flow → Processed
follow loop (goes s f) = loop s f
follow loop (stops r) = r

-- The loop `while (pos < fmt_list_len)`. Each round reads a character, so fuel that is the length
-- of the format does not run out before it.
unfoldable pub process_from : ℕ → Platform → Memory → Chars → Formatting → Processed
process_from fuel os storage [] f = formatted (less f.buffer.len f.reserved) f.buffer
process_from zero os storage (c ∷ s) f = spins
process_from (suc fuel) os storage (c ∷ s) f =
    follow (process_from fuel os storage) (process_round os storage c s f)

-- `process_fmt`; the format ends at its first NUL.
unfoldable pub process_fmt :
    Platform → Memory → Chars → List ParamType → List ℕ → ℕ → LogBuffer → ℕ → Processed
process_fmt os storage fmt param_types param_sizes param_list log_buffer start_pos =
    let s = until_nul fmt in
    process_from (length s) os storage s (record {
      buffer = log_buffer;
      log_pos = some start_pos;
      reserved = less log_buffer.len start_pos;
      param_types = param_types;
      param_sizes = param_sizes;
      param_list = param_list;
    })
