-- ===== src/Decode/String.antt =====
-- What `decodeStringFmt` leaves in the log buffer.
use static_logger.Prelude.{
  ℕ, ◌+◌, ◌≤◌, ◌<◌, true, false, some, List, length, ◌≡◌, ◌⊎◌, refl, ap, ◌∙◌, inl, inr, arith,
}
use native.Mathlib.Decide.{dec_lt}
use static_logger.Prelude.Memory.{Memory, read_bytes, write_bytes, read_bytes-write_bytes}
use static_logger.Decode.{c_string, Platform, LogBuffer, written, snprintf, decoded, aborts}
use static_logger.Decode.Snprintf.{
  truncated, length-written, IsPrinted, with_text, snprintf-fits, with_text-IsPrinted,
  snprintf-truncates,
}
use static_logger.Decode.{
  string_written, until_nul, has_param_buffer, assertion_holds, decode_string_fmt,
}

-- The text of a string parameter.
abbrev pub string_text : Platform → List ℕ → List ℕ → List ℕ
string_text os fmt param = os.convert fmt (c_string (until_nul param))

-- The end of a call that finds space for its copy of the parameter.
pub decode_string_fmt-written :
    (os : Platform) (b : LogBuffer) (reserved start_pos : ℕ) (param fmt : List ℕ)
    → os.ndebug ≡ true
    → has_param_buffer os (length param) ≡ true
    → let text = string_text os fmt param in
      decode_string_fmt os b reserved start_pos param fmt
      ≡ string_written os reserved start_pos text (snprintf start_pos reserved text b)
unfolding decode_string_fmt
decode_string_fmt-written os b reserved start_pos param fmt release copy = rw (release, copy) refl

string_written-short :
    (os : Platform) (reserved start_pos : ℕ) (text : List ℕ) (b : LogBuffer)
    → length text ≤ reserved
    → string_written os reserved start_pos text (some b) ≡ decoded (length text) b reserved false
unfolding string_written
string_written-short os reserved start_pos text b h = ground arith

written-read :
    (m : Memory) (p n : ℕ) (text : List ℕ)
    → length text ≡ n
    → read_bytes (write_bytes m p (written n text)) p (length text) ≡ written n text
written-read m p n text h =
    let count : length text ≡ length (written n text) =
      omega (arith, length-written n text (omega arith)) in
    ap (read_bytes (write_bytes m p (written n text)) p) count
    ∙ read_bytes-write_bytes m p (written n text)

pub decode_string_fmt-fits :
    (os : Platform) (b : LogBuffer) (reserved start_pos : ℕ) (param fmt : List ℕ)
    → os.ndebug ≡ true
    → has_param_buffer os (length param) ≡ true
    → start_pos + reserved ≡ b.len
    → length (string_text os fmt param) < reserved
    → let text = string_text os fmt param in
      decode_string_fmt os b reserved start_pos param fmt
      ≡ decoded (length text) (with_text start_pos text b) reserved false
decode_string_fmt-fits os b reserved start_pos param fmt release copy whole fits =
    let text = string_text os fmt param in
    decode_string_fmt-written os b reserved start_pos param fmt release copy
    ∙ rw (snprintf-fits start_pos reserved text b fits (omega arith))
        (string_written-short os reserved start_pos text (with_text start_pos text b) (omega arith))

-- A string whose text is no longer than the reserved space, in a build without assertions: its
-- length is returned, and if it is shorter it stands whole in the buffer, behind what was there; if
-- it is as long, its last character is replaced by a NUL.
pub decode_string_fmt-short :
    (os : Platform) (b : LogBuffer) (reserved start_pos : ℕ) (param fmt : List ℕ)
    → os.ndebug ≡ true
    → has_param_buffer os (length param) ≡ true
    → start_pos + reserved ≡ b.len
    → length (string_text os fmt param) ≤ reserved
    → let text = string_text os fmt param in
      (c : LogBuffer) × (decode_string_fmt os b reserved start_pos param fmt
        ≡ decoded (length text) c reserved false)
      × (((length text < reserved) × IsPrinted b start_pos text c)
          ⊎ ((length text ≡ reserved)
              × (read_bytes c.memory start_pos (length text) ≡ written reserved text)))
decode_string_fmt-short os b reserved start_pos param fmt release copy whole short =
    let text = string_text os fmt param in
    elim (dec_lt (length text) reserved) [
      | yes fits ↦ (
        with_text start_pos text b,
        decode_string_fmt-written os b reserved start_pos param fmt release copy
            ∙ rw (snprintf-fits start_pos reserved text b fits (omega arith)) (
                string_written-short os reserved start_pos text (with_text start_pos text b) short),
        inl (fits, with_text-IsPrinted start_pos text b (omega arith)),
      )
      | no full ↦ (
        truncated start_pos reserved text b,
        decode_string_fmt-written os b reserved start_pos param fmt release copy
            ∙ rw (snprintf-truncates start_pos reserved text b (omega arith) (omega arith)) (
                string_written-short os reserved start_pos text
                  (truncated start_pos reserved text b) short),
        inr (omega arith, written-read b.memory start_pos reserved text (omega arith)),
      )
    ]

-- In a build with assertions `decodeStringFmt` aborts for every string, unless the buffer has an
-- address of at most the length of the buffer and the position added together.
pub decode_string_fmt-aborts :
    (os : Platform) (b : LogBuffer) (reserved start_pos : ℕ) (param fmt : List ℕ)
    → os.ndebug ≡ false
    → b.len + start_pos < b.address
    → decode_string_fmt os b reserved start_pos param fmt ≡ aborts
unfolding decode_string_fmt
decode_string_fmt-aborts os b reserved start_pos param fmt debug far =
    let fails : assertion_holds b reserved start_pos ≡ false = ground arith in
    rw (debug, fails) refl
