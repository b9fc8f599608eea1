-- ===== src/Decode/StringGrows.antt =====
-- `decodeStringFmt` when it needs a larger log buffer.
use static_logger.Prelude.{
  ℕ, ◌+◌, ◌-◌, ◌<◌, true, some, List, length, ◌≡◌, refl, sym, ap, ◌∙◌, inl, arith, lt→ltb,
}
use static_logger.Prelude.Memory.{Memory, read_bytes, write_bytes, read_bytes-write_bytes_apart}
use static_logger.Decode.{Platform, LogBuffer, written, decoded}
use static_logger.Decode.Snprintf.{
  truncated, IsPrinted, with_text, snprintf-fits, with_text-IsPrinted, snprintf-truncates,
  read-copied,
}
use static_logger.Decode.{string_written, has_param_buffer, decode_string_fmt}
use static_logger.Decode.String.{string_text, decode_string_fmt-written}

-- A new buffer with what was printed before.
abbrev copied : ℕ → ℕ → ℕ → Memory → LogBuffer → LogBuffer
copied address start_pos new_len fresh b = record {
  address = address;
  memory = write_bytes fresh 0 (read_bytes b.memory 0 start_pos);
  len = new_len;
}

string_written-long :
    (os : Platform) (reserved start_pos : ℕ) (text : List ℕ) (b : LogBuffer) (address : ℕ)
    (fresh : Memory) (new_len : ℕ)
    → start_pos + reserved ≡ b.len
    → reserved < length text
    → new_len ≡ length text + 1 + b.len - reserved
    → os.malloc new_len ≡ some (address, fresh)
    → string_written os reserved start_pos text (some b)
      ≡ decoded
          (length text)
          (with_text start_pos text (copied address start_pos new_len fresh b))
          (new_len - b.len + reserved)
          true
unfolding string_written
string_written-long os reserved start_pos text b address fresh new_len whole long size granted =
    rw
      (
        lt→ltb reserved (length text) long,
        sym size,
        granted,
        snprintf-fits start_pos (length text + 1) text (copied address start_pos new_len fresh b)
            (omega arith) (omega arith),
      )
      refl

copied-IsPrinted :
    (b : LogBuffer) (reserved start_pos : ℕ) (text : List ℕ) (address : ℕ) (fresh : Memory)
    (new_len : ℕ)
    → start_pos + length text < new_len
    → IsPrinted b start_pos text (
        with_text start_pos text
          (copied address start_pos new_len fresh (truncated start_pos reserved text b)))
copied-IsPrinted b reserved start_pos text address fresh new_len room =
    let b₁ = truncated start_pos reserved text b in
    let there =
      with_text-IsPrinted start_pos text (copied address start_pos new_len fresh b₁) room in
    record {
      before =
          there.before
          ∙ read-copied fresh b₁.memory start_pos start_pos (omega arith)
          ∙ read_bytes-write_bytes_apart b.memory start_pos (written reserved text) 0 start_pos
              (inl (omega arith));
      printed = there.printed;
      room = room;
    }

-- A string whose text is longer than the reserved space, in a build without assertions: if the
-- allocation is granted, the text stands whole in the new buffer, behind what was in the old one,
-- and there is exactly the space for the text and a NUL.
pub decode_string_fmt-grows :
    (os : Platform) (b : LogBuffer) (reserved start_pos : ℕ) (param fmt : List ℕ) (address : ℕ)
    (fresh : Memory)
    → os.ndebug ≡ true
    → has_param_buffer os (length param) ≡ true
    → start_pos + reserved ≡ b.len
    → reserved < length (string_text os fmt param)
    → os.malloc (length (string_text os fmt param) + 1 + b.len - reserved) ≡ some (address, fresh)
    → let text = string_text os fmt param in
      (c : LogBuffer) × (decode_string_fmt os b reserved start_pos param fmt
        ≡ decoded (length text) c (length text + 1) true)
      × (c.len ≡ start_pos + length text + 1)
      × IsPrinted b start_pos text c
decode_string_fmt-grows os b reserved start_pos param fmt address fresh release copy whole long
      granted =
    let text = string_text os fmt param in
    let new_len = length text + 1 + b.len - reserved in
    let b₁ = truncated start_pos reserved text b in
    let c = with_text start_pos text (copied address start_pos new_len fresh b₁) in
    let left : new_len - b.len + reserved ≡ length text + 1 = omega arith in
    (
      c,
      decode_string_fmt-written os b reserved start_pos param fmt release copy
          ∙ rw (snprintf-truncates start_pos reserved text b (omega arith) (omega arith)) (
              string_written-long os reserved start_pos text b₁ address fresh new_len whole long
                refl granted)
          ∙ ap (λ r. decoded (length text) c r true) left,
      omega arith,
      copied-IsPrinted b reserved start_pos text address fresh new_len (omega arith),
    )
