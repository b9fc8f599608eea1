-- ===== src/Prelude/Decimal.antt =====
-- `std::to_string` of an unsigned number, and numbers printed in a field of zeros.
use Prim.Native.Nat.{ℕ, zero, suc, ◌+◌, ◌-◌, ◌/◌, ◌%◌, ◌^◌, ◌≤◌, ◌<◌}
use mathlib.Core.Path.{◌≡◌, refl, sym, ap, ◌∙◌}
use mathlib.Core.Bool.{true, false}
use mathlib.Core.List.{List, [], ◌∷◌, ◌++◌, append_assoc}
use native.Mathlib.Nat.{pow-suc, one-le-pow}
use native.Mathlib.Decide.{dec_lt}
use native.Mathlib.Omega.{arith}
use static_logger.Prelude.Tests.{ltb}
use static_logger.Prelude.Lists.{length, length-append}

abbrev pub digit : ℕ → ℕ
digit n = b'0' + n % 10

-- The fuel bounds the number of digits.
unfoldable pub to_string_from : ℕ → ℕ → List ℕ
to_string_from zero n = []
to_string_from (suc fuel) n = elim (ltb n 10) [
  | true ↦ digit n ∷ []
  | false ↦ to_string_from fuel (n / 10) ++ digit n ∷ []
]

-- A `uint64_t` has at most 20 digits.
abbrev pub to_string : ℕ → List ℕ
to_string n = to_string_from 20 n

unfoldable pub zeros : ℕ → List ℕ
zeros zero = []
zeros (suc n) = b'0' ∷ zeros n

-- The last `w` digits of `n`.
unfoldable pub padded : ℕ → ℕ → List ℕ
padded zero n = []
padded (suc w) n = padded w (n / 10) ++ digit n ∷ []

pub length-padded : (w n : ℕ) → length (padded w n) ≡ w
unfolding padded
length-padded zero n = refl
length-padded (suc w) n =
    omega (arith, length-append (padded w (n / 10)) (digit n ∷ []), length-padded w (n / 10))

pub length-zeros : (n : ℕ) → length (zeros n) ≡ n
unfolding zeros
length-zeros zero = refl
length-zeros (suc n) = ap suc (length-zeros n)

zeros-snoc : (n : ℕ) → zeros n ++ b'0' ∷ [] ≡ zeros (suc n)
unfolding zeros
zeros-snoc zero = refl
zeros-snoc (suc n) = ap (◌∷◌ b'0') (zeros-snoc n)

padded_zero : (w : ℕ) → padded w 0 ≡ zeros w
unfolding padded zeros
padded_zero zero = refl
padded_zero (suc w) = ap (λ s. s ++ b'0' ∷ []) (padded_zero w) ∙ zeros-snoc w

-- A number that fits in the field is printed in no more characters.
pub length-to_string_from : (fuel w n : ℕ) → 0 < w → n < 10 ^ w → length (to_string_from fuel n) ≤ w
unfolding to_string_from
length-to_string_from zero w n pos h = omega arith
length-to_string_from (suc fuel) zero n pos h = absurd (omega arith)
length-to_string_from (suc fuel) (suc zero) n pos h = ground (arith, pow-suc 10 0)
length-to_string_from (suc fuel) (suc (suc w)) n pos h =
    let rest =
      length-to_string_from fuel (suc w) (n / 10) (omega arith)
        (omega (arith, pow-suc 10 (suc w))) in
    ground (arith, rest, length-append (to_string_from fuel (n / 10)) (digit n ∷ []))

pub one_digit : (fuel n : ℕ) → n < 10 → to_string_from (suc fuel) n ≡ digit n ∷ []
unfolding to_string_from
one_digit fuel n h = ground arith

more_digits :
    (fuel n : ℕ)
    → 10 ≤ n
    → to_string_from (suc fuel) n ≡ to_string_from fuel (n / 10) ++ digit n ∷ []
unfolding to_string_from
more_digits fuel n h = ground arith

-- A number without leading zeros.
pub to_string_from-padded :
    (w fuel n : ℕ)
    → w < fuel
    → 10 ^ w ≤ n
    → n < 10 ^ suc w
    → to_string_from fuel n ≡ padded (suc w) n
unfolding padded
to_string_from-padded w zero n enough lo hi = absurd (omega arith)
to_string_from-padded zero (suc fuel) n enough lo hi =
    one_digit fuel n (omega (arith, pow-suc 10 0))
to_string_from-padded (suc w) (suc fuel) n enough lo hi =
    more_digits fuel n (omega (arith, pow-suc 10 w, one-le-pow w 10 (omega arith)))
    ∙ ap (λ s. s ++ digit n ∷ [])
        (to_string_from-padded w fuel (n / 10) (omega arith) (omega (arith, pow-suc 10 w))
          (omega (arith, pow-suc 10 (suc w))))

second_digit : (w n : ℕ) → n < 10 ^ suc w → 10 ≤ n → 0 < w
second_digit zero n h large = absurd (omega (arith, pow-suc 10 0))
second_digit (suc w) n h large = omega arith

-- The zeros in front of a number fill the field.
pub zeros-to_string_from :
    (fuel w n : ℕ)
    → 0 < w
    → w ≤ fuel
    → n < 10 ^ w
    → zeros (w - length (to_string_from fuel n)) ++ to_string_from fuel n ≡ padded w n
unfolding padded
zeros-to_string_from zero w n pos enough h = absurd (omega arith)
zeros-to_string_from (suc fuel) zero n pos enough h = absurd (omega arith)
zeros-to_string_from (suc fuel) (suc w) n pos enough h = elim (dec_lt n 10) [
  | yes small ↦
      let tenth : n / 10 ≡ 0 = omega arith in
      let last : suc w - 1 ≡ w = omega arith in
      rw (one_digit fuel n small, tenth, padded_zero w) (ap (λ k. zeros k ++ digit n ∷ []) last)
  | no large ↦
      let more = second_digit w n h (omega arith) in
      let fewer = length-append (to_string_from fuel (n / 10)) (digit n ∷ []) in
      let count : suc w - length (to_string_from fuel (n / 10) ++ digit n ∷ [])
          ≡ w - length (to_string_from fuel (n / 10)) =
        omega (arith, fewer) in
      let rest =
        zeros-to_string_from fuel w (n / 10) more (omega arith) (omega (arith, pow-suc 10 w)) in
      rw (more_digits fuel n (omega arith), count)
        (sym (
            append_assoc (zeros (w - length (to_string_from fuel (n / 10))))
              (to_string_from fuel (n / 10)) (digit n ∷ []))
          ∙ ap (λ s. s ++ digit n ∷ []) rest)
]
