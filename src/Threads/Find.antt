-- ===== src/Threads/Find.antt =====
-- The objects that the pointers to staging buffers lead to.
use static_logger.Prelude.{
  ℕ, false, Bool-cases, none, some, List, [], ◌∷◌, ◌++◌, ◌==◌, ◌≡◌, ◌≢◌, refl, ap, inl, inr, arith,
}
use static_logger.Staging.{StagingBuffer, peek, check_can_delete}
use static_logger.Backend.{ThreadBuffer}
use static_logger.Backend.Sweep.{swept}
use static_logger.Poll.{find, replace}

pub find-replace :
    (a : ℕ) (d : StagingBuffer) (ts : List ThreadBuffer) {b : StagingBuffer}
    → find a ts ≡ some b
    → find a (replace a d ts) ≡ some d
find-replace a d [] e = cc
find-replace a d (t ∷ ts) e = elim (Bool-cases (t.address == a)) [
  | inl same ↦ rw (same, same) refl
  | inr other ↦ let e' = rw other at e in rw (other, other) (find-replace a d ts e')
]

pub find-replace_other :
    (a c : ℕ) (d : StagingBuffer) (ts : List ThreadBuffer)
    → c ≢ a
    → find c (replace a d ts) ≡ find c ts
find-replace_other a c d [] h = refl
find-replace_other a c d (t ∷ ts) h = elim (Bool-cases (t.address == a)) [
  | inl same ↦ let other : (t.address == c) ≡ false = ground arith in rw (same, other) refl
  | inr away ↦ elim (Bool-cases (t.address == c)) [
    | inl here ↦ rw (away, here) refl
    | inr there ↦ rw (away, there) (find-replace_other a c d ts h)
  ]
]

pub find-append :
    (a : ℕ) (ts : List ThreadBuffer) (t : ThreadBuffer) {b : StagingBuffer}
    → find a ts ≡ some b
    → find a (ts ++ (t ∷ [])) ≡ some b
find-append a [] t e = cc
find-append a (u ∷ ts) t e = elim (Bool-cases (u.address == a)) [
  | inl same ↦ rw same (rw same at e)
  | inr other ↦ rw other (find-append a ts t (rw other at e))
]

pub find-append_last :
    (a : ℕ) (ts : List ThreadBuffer) (t : ThreadBuffer)
    → find a ts ≡ none
    → find a (ts ++ (t ∷ [])) ≡ find a (t ∷ [])
find-append_last a [] t e = refl
find-append_last a (u ∷ ts) t e = elim (Bool-cases (u.address == a)) [
  | inl same ↦ let wrong = rw same at e in cc
  | inr other ↦ rw other (find-append_last a ts t (rw other at e))
]

pub find-swept :
    (a : ℕ) (ts : List ThreadBuffer) {b : StagingBuffer}
    → find a ts ≡ some b
    → b.should_deallocate ≡ false
    → find a (swept ts) ≡ some (peek b).2
unfolding check_can_delete
find-swept a [] e live = cc
find-swept a (t ∷ ts) {b} e live = elim (Bool-cases (t.address == a)) [
  | inl same ↦
      let here : some t.buffer ≡ some b = rw same at e in
      let it : t.buffer ≡ b = cc in
      let stays : check_can_delete t.buffer ≡ false = rw it (ground (arith, live)) in
      rw (stays, same) (ap (λ c. some (peek c).2) it)
  | inr other ↦
      let later = find-swept a ts (rw other at e) live in
      elim (Bool-cases (check_can_delete t.buffer)) [
        | inl gone ↦ rw gone later
        | inr stays ↦ rw (stays, other) later
      ]
]

pub find-swept-none : (a : ℕ) (ts : List ThreadBuffer) → find a ts ≡ none → find a (swept ts) ≡ none
find-swept-none a [] e = refl
find-swept-none a (t ∷ ts) e = elim (Bool-cases (t.address == a)) [
  | inl same ↦ let wrong = rw same at e in cc
  | inr other ↦
      let later = find-swept-none a ts (rw other at e) in
      elim (Bool-cases (check_can_delete t.buffer)) [
        | inl gone ↦ rw gone later
        | inr stays ↦ rw (stays, other) later
      ]
]
