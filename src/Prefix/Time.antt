-- ===== src/Prefix/Time.antt =====
-- The text of `generateTimePrefix` of src/static_log_backend.cc.
use static_logger.Prelude.{
  subst, false, ℕ, zero, suc, ◌+◌, ◌-◌, ◌/◌, ◌%◌, ◌^◌, ◌≤◌, ◌<◌, List, [], ◌∷◌, ◌++◌, ◌≡◌, refl, ap,
  ap₂, ◌∙◌, ltb, length, length-append, take, take-append, lt→ltb, arith,
}
use static_logger.Prelude.Memory.{Memory, write_bytes, write_bytes-before}
use static_logger.Prelude.Decimal.{
  to_string, padded, zeros, digit, length-padded, length-zeros, length-to_string_from,
  zeros-to_string_from, to_string_from-padded, one_digit,
}
use mathlib.Core.List.{append_assoc}
use native.Mathlib.Decide.{dec_lt}
use static_logger.Args.{Cursor, put}
use static_logger.Prefix.{
  Tm, put_char, put_number, convert_int2_str, put_zeros, put_nano, put_date, put_clock, nano_bits,
  time_prefix_len, generate_time_prefix,
}
use static_logger.Prefix.Puts.{put-put, memory-put}

-- A number of one digit behind its zero.
short-padded : (ts : ℕ) → ts < 10 → padded 2 ts ≡ b'0' ∷ digit ts ∷ []
unfolding padded
short-padded ts h = let tenth : ts / 10 ≡ 0 = omega arith in rw tenth refl

number_short :
    (ts : ℕ) (c : Cursor) → ts < 10 → put_number 1 ts (put_char b'0' c) ≡ put (padded 2 ts) c
number_short ts c h =
    rw (short-padded ts h, one_digit 19 ts h) (put-put (b'0' ∷ []) (digit ts ∷ []) c)

take-padded : (w n : ℕ) (rest : List ℕ) → take w (padded w n ++ rest) ≡ padded w n
take-padded w n rest = take-append w (padded w n) rest (length-padded w n)

-- A number of `w + 1` digits, cut behind them.
number_full :
    (w n : ℕ) (c : Cursor)
    → w < 20
    → 10 ^ w ≤ n
    → n < 10 ^ suc w
    → put_number (suc w) n c ≡ put (padded (suc w) n) c
number_full w n c enough lo hi =
    rw (to_string_from-padded w 20 n enough lo hi, take-padded (suc w) n (0 ∷ [])) refl

convert_int2_str-padded :
    (ts : ℕ) (c : Cursor) → ts < 100 → convert_int2_str ts c ≡ put (padded 2 ts) c
unfolding convert_int2_str
convert_int2_str-padded ts c h = ground (arith, number_short ts c, number_full 1 ts c (omega arith))

put_zeros-zeros : (n : ℕ) (c : Cursor) → put_zeros n c ≡ put (zeros n) c
unfolding put_zeros zeros put write_bytes
put_zeros-zeros zero c = ap (λ q. record { memory = c.memory; position = q }) (omega arith)
put_zeros-zeros (suc n) c = put_zeros-zeros n (put_char b'0' c) ∙ put-put (b'0' ∷ []) (zeros n) c

-- The text at the end of its field of nine, with `k` zeros in front of it, is one write.
filled :
    (n k : ℕ) (text : List ℕ) (c : Cursor)
    → k + length text ≡ nano_bits
    → zeros k ++ text ≡ padded nano_bits n
    → let c' : Cursor = record c {
      memory = write_bytes c.memory (c.position + nano_bits - length text) text;
    } in
      let z = put_zeros k c' in
      record z { position = z.position + length text } ≡ put (padded nano_bits n) c
unfolding put
filled n k text c count same =
    let start : c.position + length (zeros k) ≡ c.position + nano_bits - length text =
      omega (arith, length-zeros k) in
    let end : c.position + length (zeros k) + length text
        ≡ c.position + length (padded nano_bits n) =
      omega (arith, length-zeros k, length-padded nano_bits n) in
    rw
      (put_zeros-zeros k
        (record c { memory = write_bytes c.memory (c.position + nano_bits - length text) text }))
      (ap₂ (λ m q. record { memory = m; position = q })
        (write_bytes-before c.memory c.position (c.position + nano_bits - length text) (zeros k)
            text start
          ∙ ap (write_bytes c.memory c.position) same)
        end)

number_of_nine :
    (n : ℕ) (text : List ℕ) (c : Cursor)
    → length text ≡ nano_bits
    → text ≡ padded nano_bits n
    → record {
      memory = write_bytes c.memory (c.position + nano_bits - length text) text;
      position = c.position + nano_bits;
    }
      ≡ put (padded nano_bits n) c
unfolding put
number_of_nine n text c count same =
    let here : c.position + nano_bits - length text ≡ c.position = omega arith in
    let end : c.position + nano_bits ≡ c.position + length (padded nano_bits n) =
      omega (arith, length-padded nano_bits n) in
    ap₂ (λ m q. record { memory = m; position = q }) (ap₂ (write_bytes c.memory) here same) end

put_nano-padded : (n : ℕ) (c : Cursor) → n < 10 ^ 9 → put_nano n c ≡ put (padded 9 n) c
unfolding put_nano zeros
put_nano-padded n c h =
    let len = length (to_string n) in
    let fits : len ≤ 9 = length-to_string_from 20 9 n (omega arith) h in
    let same = zeros-to_string_from 20 9 n (omega arith) (omega arith) h in
    let done = filled n (9 - len) (to_string n) c (omega arith) same in
    elim (dec_lt len 9) [
      | yes short ↦ rw (lt→ltb len 9 short) done
      | no full ↦
          let over : ltb len 9 ≡ false = ground arith in
          let none_in_front : 9 - len ≡ 0 = omega arith in
          rw over (
            number_of_nine n (to_string n) c (omega arith)
              (subst (λ k. zeros k ++ to_string n ≡ padded 9 n) none_in_front same))
    ]

-- A broken-down time with fields of the widths that the prefix has.
pub record IsTm (tm : Tm) : Type 0 where
  pub year_low : 1000 ≤ tm.year + 1900
  pub year_high : tm.year + 1900 < 10000
  pub mon_small : tm.mon < 12
  pub mday_small : tm.mday < 32
  pub hour_small : tm.hour < 24
  pub min_small : tm.min < 60
  pub sec_small : tm.sec < 61

abbrev date_text : Tm → List ℕ
date_text tm =
    padded 4 (tm.year + 1900)
    ++ b'-' ∷ padded 2 (tm.mon + 1)
    ++ b'-' ∷ padded 2 tm.mday
    ++ b'-' ∷ []

abbrev clock_text : Tm → List ℕ
clock_text tm = padded 2 tm.hour ++ b':' ∷ padded 2 tm.min ++ b':' ∷ padded 2 tm.sec ++ b'.' ∷ []

-- `[xxxx-xx-xx-hh:mm:ss.xxxxxxxxx]`
abbrev pub time_text : Tm → ℕ → List ℕ
time_text tm nano = b'[' ∷ date_text tm ++ clock_text tm ++ padded 9 nano ++ b']' ∷ []

-- One field of two digits and the character behind it.
field :
    (ts ch : ℕ) (xs : List ℕ) (c : Cursor)
    → ts < 100
    → put_char ch (convert_int2_str ts (put xs c)) ≡ put (xs ++ padded 2 ts ++ ch ∷ []) c
field ts ch xs c h =
    rw
      (
        convert_int2_str-padded ts (put xs c) h,
        put-put xs (padded 2 ts) c,
        put-put (xs ++ padded 2 ts) (ch ∷ []) c,
        append_assoc xs (padded 2 ts) (ch ∷ []),
      )
      refl

put_date-text : (tm : Tm) (c : Cursor) → IsTm tm → put_date tm c ≡ put (date_text tm) c
unfolding put_date
put_date-text tm c h =
    let mon : tm.mon + 1 < 100 = omega (arith, h.mon_small) in
    let mday : tm.mday < 100 = omega (arith, h.mday_small) in
    let year = padded 4 (tm.year + 1900) in
    rw
      (
        number_full 3 (tm.year + 1900) c (omega arith) h.year_low h.year_high,
        put-put year (b'-' ∷ []) c,
        field (tm.mon + 1) b'-' (year ++ b'-' ∷ []) c mon,
        field tm.mday b'-' ((year ++ b'-' ∷ []) ++ padded 2 (tm.mon + 1) ++ b'-' ∷ []) c mday,
      )
      (ap (λ text. put text c) (simp append_assoc))

put_clock-text :
    (tm : Tm) (xs : List ℕ) (c : Cursor)
    → IsTm tm
    → put_clock tm (put xs c) ≡ put (xs ++ clock_text tm) c
unfolding put_clock
put_clock-text tm xs c h =
    let hour : tm.hour < 100 = omega (arith, h.hour_small) in
    let min : tm.min < 100 = omega (arith, h.min_small) in
    let sec : tm.sec < 100 = omega (arith, h.sec_small) in
    let xs₁ = xs ++ padded 2 tm.hour ++ b':' ∷ [] in
    rw
      (
        field tm.hour b':' xs c hour,
        field tm.min b':' xs₁ c min,
        field tm.sec b'.' (xs₁ ++ padded 2 tm.min ++ b':' ∷ []) c sec,
      )
      (ap (λ text. put text c) (simp append_assoc))

-- What stands in front of the nanoseconds.
abbrev before : Tm → List ℕ
before tm = b'[' ∷ date_text tm ++ clock_text tm

length-time_text : (tm : Tm) (nano : ℕ) → length (time_text tm nano) ≡ time_prefix_len
length-time_text tm nano = simp (length-append, length-padded)

-- In front of an entry stands `[YYYY-MM-DD-hh:mm:ss.nnnnnnnnn]`: for a broken-down time with four
-- digits in its year, `generateTimePrefix` returns 31, which is the length of this text, and changes
-- the buffer by exactly this text.
pub generate_time_prefix-text :
    (localtime : ℕ → Tm) (timestamp : ℕ) (m : Memory) (p : ℕ)
    → IsTm (localtime (timestamp / 1000000000))
    → let text = time_text (localtime (timestamp / 1000000000)) (timestamp % 1000000000) in
      (generate_time_prefix localtime timestamp m p ≡ (31, write_bytes m p text))
      × (length text ≡ 31)
unfolding generate_time_prefix
generate_time_prefix-text localtime timestamp m p h =
    let tm = localtime (timestamp / 1000000000) in
    let nano = timestamp % 1000000000 in
    let c : Cursor = record { memory = m; position = p } in
    let small : nano < 10 ^ 9 = omega arith in
    rw
      (
        put_date-text tm (put_char b'[' c) h,
        put-put (b'[' ∷ []) (date_text tm) c,
        put_clock-text tm (b'[' ∷ date_text tm) c h,
        put_nano-padded nano (put (before tm) c) small,
        put-put (before tm) (padded 9 nano) c,
        put-put (before tm ++ padded 9 nano) (b']' ∷ []) c,
        memory-put ((before tm ++ padded 9 nano) ++ b']' ∷ []) c,
      )
      (ap (λ text. (31, write_bytes m p text)) (simp append_assoc), length-time_text tm nano)
