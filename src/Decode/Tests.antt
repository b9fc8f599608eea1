-- ===== src/Decode/Tests.antt =====
-- Witnesses and tests of the formatting of parameters.
use static_logger.Prelude.{ℕ, ◌<◌, true, false, some, List, [], ◌∷◌, ◌≡◌, ◌⊎◌, refl, arith}
use static_logger.Prelude.Memory.{read_bytes}
use static_logger.Prelude.Bytes.{le_value}
use static_logger.Prelude.Decimal.{to_string}
use static_logger.Decode.{
  Value, character, signed_int, unsigned_int, floating, c_string, Platform, LogBuffer, written,
  decoded, value_of, decode_non_string_fmt, decode_string_fmt,
}
use static_logger.Decode.Snprintf.{IsPrinted}
use static_logger.Decode.Character.{decode_non_string_fmt-character}
use static_logger.Decode.String.{decode_string_fmt-short}
use static_logger.Decode.StringGrows.{decode_string_fmt-grows}

-- Plain conversions, in a build without assertions.
abbrev plain_text : List ℕ → Value → List ℕ
plain_text fmt (character bits) = bits ∷ []
plain_text fmt (signed_int n bits) = to_string bits
plain_text fmt (unsigned_int n bits) = to_string bits
plain_text fmt (floating n bits) = to_string bits
plain_text fmt (c_string s) = s

abbrev release : Platform
release = record { malloc = λ n. some (4096, λ _. 0); convert = plain_text; ndebug = true }

abbrev debug : Platform
debug = record release { ndebug = false }

abbrev ten_bytes : LogBuffer
ten_bytes = record { address = 1024; memory = λ _. b'x'; len = 10 }

abbrev percent_d : List ℕ
percent_d = b'%' ∷ b'd' ∷ []

abbrev percent_c : List ℕ
percent_c = b'%' ∷ b'c' ∷ []

abbrev percent_s : List ℕ
percent_s = b'%' ∷ b's' ∷ []

abbrev hello : List ℕ
hello = b'h' ∷ b'e' ∷ b'l' ∷ b'l' ∷ b'o' ∷ []

decode_non_string_fmt-character_example :
    (c : LogBuffer) × (decode_non_string_fmt 2 release ten_bytes 1 9 percent_c (b'A' ∷ [])
      ≡ decoded 1 c 2 true)
    × (c.len ≡ 11)
    × IsPrinted ten_bytes 9 (b'A' ∷ []) c
unfolding value_of le_value
decode_non_string_fmt-character_example =
    decode_non_string_fmt-character 0 release ten_bytes 1 9 percent_c (b'A' ∷ []) b'A' 4096 (λ _. 0)
      refl refl (omega arith) (omega arith) refl

decode_string_fmt-short_example :
    (c : LogBuffer) × (decode_string_fmt release ten_bytes 5 5 hello percent_s
      ≡ decoded 5 c 5 false)
    × (((5 < 5) × IsPrinted ten_bytes 5 hello c)
        ⊎ ((◌≡◌ {A = ℕ} 5 5) × (read_bytes c.memory 5 5 ≡ written 5 hello)))
decode_string_fmt-short_example =
    decode_string_fmt-short release ten_bytes 5 5 hello percent_s refl refl refl (omega arith)

decode_string_fmt-grows_example :
    (c : LogBuffer) × (decode_string_fmt release ten_bytes 4 6 hello percent_s ≡ decoded 5 c 6 true)
    × (c.len ≡ 12)
    × IsPrinted ten_bytes 6 hello c
decode_string_fmt-grows_example =
    decode_string_fmt-grows release ten_bytes 4 6 hello percent_s 4096 (λ _. 0) refl refl refl
      (omega arith) refl
