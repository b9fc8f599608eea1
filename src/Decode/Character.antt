-- ===== src/Decode/Character.antt =====
-- `decodeNonStringFmt` for `%c`, which is given the reserved space.
use static_logger.Prelude.{
  ℕ, suc, ◌+◌, ◌-◌, ◌*◌, ◌≤◌, ◌<◌, true, false, some, List, leb, length, ◌≡◌, refl, sym, ap, ◌∙◌,
  inl, arith,
}
use static_logger.Prelude.Memory.{Memory, read_bytes, write_bytes, read_bytes-write_bytes_apart}
use static_logger.Prelude.Bytes.{le_value}
use static_logger.Decode.{
  character, Platform, LogBuffer, written, resize_log_buffer, decoded, value_of, size_given,
  check_log_buffer_realloc, retry_from, last, decode_non_string_fmt,
}
use static_logger.Decode.Snprintf.{
  truncated, IsPrinted, with_text, with_text-IsPrinted, snprintf-truncates, read-copied,
}
use static_logger.Decode.NonString.{retry_from-fits}

-- A new buffer with the old content.
abbrev copied : ℕ → ℕ → Memory → LogBuffer → LogBuffer
copied address new_len fresh b = record {
  address = address;
  memory = write_bytes fresh 0 (read_bytes b.memory 0 b.len);
  len = new_len;
}

retry_from-grows :
    (rounds : ℕ) (os : Platform) (b : LogBuffer) (reserved start_pos bits : ℕ) (text : List ℕ)
    (address : ℕ) (fresh : Memory) (new_len : ℕ)
    → start_pos + reserved ≡ b.len
    → reserved ≤ length text
    → 0 < length text
    → new_len ≡ length text * 2 + b.len - reserved
    → os.malloc new_len ≡ some (address, fresh)
    → retry_from (suc (suc rounds)) os start_pos (character bits) text b reserved false
      ≡ decoded
          (length text)
          (with_text start_pos text
            (copied address new_len fresh (truncated start_pos reserved text b)))
          (new_len - start_pos)
          true
unfolding retry_from check_log_buffer_realloc resize_log_buffer size_given
retry_from-grows rounds os b reserved start_pos bits text address fresh new_len whole long some_text
      size granted =
    let over : leb reserved (length text) ≡ true = ground arith in
    let c = copied address new_len fresh (truncated start_pos reserved text b) in
    rw
      (
        snprintf-truncates start_pos reserved text b long (omega arith),
        over,
        sym size,
        granted,
        retry_from-fits rounds os start_pos (character bits) text c (new_len - start_pos) true
            (omega arith) (omega arith),
      )
      refl

grown-IsPrinted :
    (b : LogBuffer) (reserved start_pos : ℕ) (text : List ℕ) (address : ℕ) (fresh : Memory)
    (new_len : ℕ)
    → start_pos + reserved ≡ b.len
    → start_pos + length text < new_len
    → IsPrinted b start_pos text (
        with_text start_pos text
          (copied address new_len fresh (truncated start_pos reserved text b)))
grown-IsPrinted b reserved start_pos text address fresh new_len whole room =
    let b₁ = truncated start_pos reserved text b in
    let there = with_text-IsPrinted start_pos text (copied address new_len fresh b₁) room in
    record {
      before =
          there.before
          ∙ read-copied fresh b₁.memory start_pos b.len (omega arith)
          ∙ read_bytes-write_bytes_apart b.memory start_pos (written reserved text) 0 start_pos
              (inl (omega arith));
      printed = there.printed;
      room = room;
    }

-- A text of `%c` that does not fit in the reserved space: if the allocation is granted, the second
-- round of the loop prints it whole in the new buffer, behind what was in the old one, and twice
-- its length is reserved then.
pub decode_non_string_fmt-character :
    (rounds : ℕ) (os : Platform) (b : LogBuffer) (reserved start_pos : ℕ) (fmt param : List ℕ)
    (bits address : ℕ) (fresh : Memory)
    → value_of (length param) (last fmt) (le_value param) ≡ some (character bits)
    → start_pos + reserved ≡ b.len
    → reserved ≤ length (os.convert fmt (character bits))
    → 0 < length (os.convert fmt (character bits))
    → os.malloc (length (os.convert fmt (character bits)) * 2 + b.len - reserved)
      ≡ some (address, fresh)
    → let text = os.convert fmt (character bits) in
      (c : LogBuffer) × (decode_non_string_fmt (suc (suc rounds)) os b reserved start_pos fmt param
        ≡ decoded (length text) c (length text * 2) true)
      × (c.len ≡ start_pos + length text * 2)
      × IsPrinted b start_pos text c
unfolding decode_non_string_fmt
decode_non_string_fmt-character rounds os b reserved start_pos fmt param bits address fresh known
      whole long some_text granted =
    let text = os.convert fmt (character bits) in
    let new_len = length text * 2 + b.len - reserved in
    let left : new_len - start_pos ≡ length text * 2 = omega arith in
    let c =
      with_text start_pos text
        (copied address new_len fresh (truncated start_pos reserved text b)) in
    (
      c,
      rw known (
            retry_from-grows rounds os b reserved start_pos bits text address fresh new_len whole
              long some_text refl granted)
          ∙ ap (λ r. decoded (length text) c r true) left,
      omega arith,
      grown-IsPrinted b reserved start_pos text address fresh new_len whole (omega arith),
    )
