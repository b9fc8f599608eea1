-- ===== src/Decode/Snprintf.antt =====
-- What `snprintf` leaves in the log buffer.
use static_logger.Prelude.{
  subst, append-injective, ap₂, ℕ, zero, suc, ◌+◌, ◌-◌, ◌≤◌, ◌<◌, none, some, List, [], ◌∷◌, ◌++◌,
  length, length-append, length-take, take, take-all, ◌≡◌, refl, sym, ap, ◌∙◌, inl, arith,
}
use native.Mathlib.Decide.{dec_lt}
use static_logger.Prelude.Memory.{
  update, Memory, read_bytes, write_bytes, read_bytes-write_bytes, read_bytes-write_bytes_apart,
  read_bytes-append, length-read_bytes, write_bytes-append,
}
use static_logger.Decode.{LogBuffer, written, snprintf}

-- The text stands whole at `start_pos`, with what was in front of it untouched, and there is space
-- behind it for a NUL.
pub record IsPrinted (b : LogBuffer) (start_pos : ℕ) (text : List ℕ) (c : LogBuffer) : Type 0 where
  pub before : read_bytes c.memory 0 start_pos ≡ read_bytes b.memory 0 start_pos
  pub printed : read_bytes c.memory start_pos (length text) ≡ text
  pub room : start_pos + length text < c.len

-- The buffer in which the text and a NUL have been written.
abbrev pub with_text : ℕ → List ℕ → LogBuffer → LogBuffer
with_text p text b = record b { memory = write_bytes b.memory p (text ++ 0 ∷ []) }

pub written-all :
    (size : ℕ) (text : List ℕ) → length text < size → written size text ≡ text ++ 0 ∷ []
written-all zero text h = absurd (omega arith)
written-all (suc n) text h = ap (λ s. s ++ 0 ∷ []) (take-all n text (omega arith))

pub length-written :
    (size : ℕ) (text : List ℕ) → size ≤ length text → length (written size text) ≡ size
length-written zero text h = refl
length-written (suc n) text h =
    omega (arith, length-append (take n text) (0 ∷ []), length-take n text)

pub snprintf-fits :
    (p size : ℕ) (text : List ℕ) (b : LogBuffer)
    → length text < size
    → p + length text < b.len
    → snprintf p size text b ≡ some (with_text p text b)
unfolding snprintf
snprintf-fits p size text b short room =
    let end = length-append text (0 ∷ []) in rw (written-all size text short) (ground (arith, end))

pub with_text-IsPrinted :
    (p : ℕ) (text : List ℕ) (b : LogBuffer)
    → p + length text < b.len
    → IsPrinted b p text (with_text p text b)
with_text-IsPrinted p text b room = record {
  before = read_bytes-write_bytes_apart b.memory p (text ++ 0 ∷ []) 0 p (inl (omega arith));
  printed =
      ap (λ m. read_bytes m p (length text)) (write_bytes-append b.memory p text (0 ∷ []))
      ∙ read_bytes-write_bytes_apart (write_bytes b.memory p text) (p + length text) (0 ∷ []) p
          (length text) (inl (omega arith))
      ∙ read_bytes-write_bytes b.memory p text;
  room = room;
}

-- The buffer behind a `snprintf` that has cut the text.
abbrev pub truncated : ℕ → ℕ → List ℕ → LogBuffer → LogBuffer
truncated p size text b = record b { memory = write_bytes b.memory p (written size text) }

-- `snprintf` writes as many bytes as its size says when the text does not fit.
pub snprintf-truncates :
    (p size : ℕ) (text : List ℕ) (b : LogBuffer)
    → size ≤ length text
    → p + size ≤ b.len
    → snprintf p size text b
      ≡ some (record b { memory = write_bytes b.memory p (written size text) })
unfolding snprintf
snprintf-truncates p size text b long room = ground (arith, length-written size text long)

-- With the length of the whole buffer as its size, `snprintf` writes behind the end as soon as the
-- text does not fit behind `p`.
pub snprintf-overflows :
    (p : ℕ) (text : List ℕ) (b : LogBuffer)
    → 0 < p
    → b.len ≤ p + length text
    → snprintf p b.len text b ≡ none
unfolding snprintf
snprintf-overflows p text b pos long = elim (dec_lt (length text) b.len) [
  | yes short ↦ rw (written-all b.len text short) (ground (arith, length-append text (0 ∷ [])))
  | no over ↦ ground (arith, length-written b.len text (omega arith))
]

-- The first bytes of a buffer that has been copied.
pub read-copied :
    (fresh m : Memory) (k n : ℕ)
    → k ≤ n
    → read_bytes (write_bytes fresh 0 (read_bytes m 0 n)) 0 k ≡ read_bytes m 0 k
read-copied fresh m k n h =
    let front = read_bytes m 0 k in
    let back = read_bytes m (0 + k) (n - k) in
    let count : n ≡ k + (n - k) = omega arith in
    let len = length-read_bytes m 0 k in
    ap (λ j. read_bytes (write_bytes fresh 0 (read_bytes m 0 j)) 0 k) count
    ∙ ap (λ bs. read_bytes (write_bytes fresh 0 bs) 0 k) (read_bytes-append m 0 k (n - k))
    ∙ ap (λ w. read_bytes w 0 k) (write_bytes-append fresh 0 front back)
    ∙ read_bytes-write_bytes_apart (write_bytes fresh 0 front) (0 + length front) back 0 k
        (inl (omega arith))
    ∙ ap (read_bytes (write_bytes fresh 0 front) 0) (sym len)
    ∙ read_bytes-write_bytes fresh 0 front

-- Two texts behind one another.
pub IsPrinted-append :
    (b c d : LogBuffer) (p : ℕ) (xs ys : List ℕ)
    → IsPrinted b p xs c
    → IsPrinted c (p + length xs) ys d
    → IsPrinted b p (xs ++ ys) d
IsPrinted-append b c d p xs ys h k =
    let both =
      sym (read_bytes-append d.memory 0 p (length xs))
      ∙ k.before
      ∙ read_bytes-append c.memory 0 p (length xs) in
    let here : 0 + p ≡ p = omega arith in
    let same = length-read_bytes d.memory 0 p ∙ sym (length-read_bytes c.memory 0 p) in
    let (old, first) =
      append-injective (read_bytes d.memory 0 p) (read_bytes c.memory 0 p) _ _ same both in
    record {
      before = old ∙ h.before;
      printed =
          ap (read_bytes d.memory p) (length-append xs ys)
          ∙ read_bytes-append d.memory p (length xs) (length ys)
          ∙ ap₂ ◌++◌
              (subst (λ q. read_bytes d.memory q (length xs) ≡ read_bytes c.memory q (length xs))
                  here first
                ∙ h.printed)
              k.printed;
      room = omega (arith, length-append xs ys, k.room);
    }

-- One character, without a NUL behind it.
pub update-IsPrinted :
    (b : LogBuffer) (p ch : ℕ)
    → p + 1 < b.len
    → IsPrinted b p (ch ∷ []) (record b { memory = update b.memory p ch })
unfolding write_bytes
update-IsPrinted b p ch room = record {
  before = read_bytes-write_bytes_apart b.memory p (ch ∷ []) 0 p (inl (omega arith));
  printed = read_bytes-write_bytes b.memory p (ch ∷ []);
  room = room;
}
