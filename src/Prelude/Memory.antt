-- ===== src/Prelude/Memory.antt =====
-- Byte-addressed storage as a function from offsets, with `memcpy` in both directions.
use Prim.Native.Nat.{ℕ, zero, suc, ◌+◌, ◌≤◌, ◌<◌}
use mathlib.Core.Path.{◌≡◌, refl, sym, ap, ap₂, fun_ext, ◌∙◌}
use mathlib.Core.Logic.{◌⊎◌, inl}
use mathlib.Core.List.{List, [], ◌∷◌, ◌++◌}
use native.Mathlib.Omega.{arith}
use static_logger.Prelude.Tests.{◌==◌, if◌then◌else◌}
use static_logger.Prelude.Lists.{length, length-append, append-injective}

abbrev pub Memory : Type 0
Memory = ℕ → ℕ

abbrev pub update : Memory → ℕ → ℕ → Memory
update m p v = λ i. if i == p then v else m i

-- The `n` bytes from offset `p` on.
unfoldable pub read_bytes : Memory → ℕ → ℕ → List ℕ
read_bytes m p zero = []
read_bytes m p (suc n) = m p ∷ read_bytes m (p + 1) n

-- `memcpy` of `bs` to offset `p`.
unfoldable pub write_bytes : Memory → ℕ → List ℕ → Memory
write_bytes m p [] = m
write_bytes m p (b ∷ bs) = write_bytes (update m p b) (p + 1) bs

pub length-read_bytes : (m : Memory) (p n : ℕ) → length (read_bytes m p n) ≡ n
unfolding read_bytes
length-read_bytes m p zero = refl
length-read_bytes m p (suc n) = ap suc (length-read_bytes m (p + 1) n)

-- A write leaves the bytes outside its range alone.
pub write_bytes-outside :
    (m : Memory) (p : ℕ) (bs : List ℕ) (i : ℕ)
    → (i < p) ⊎ (p + length bs ≤ i)
    → write_bytes m p bs i ≡ m i
unfolding write_bytes
write_bytes-outside m p [] i h = refl
write_bytes-outside m p (b ∷ bs) i h =
    ground (arith, write_bytes-outside (update m p b) (p + 1) bs i)

pub read_bytes-cong :
    (m k : Memory) (p n : ℕ)
    → ((i : ℕ) → p ≤ i → i < p + n → m i ≡ k i)
    → read_bytes m p n ≡ read_bytes k p n
unfolding read_bytes
read_bytes-cong m k p zero h = refl
read_bytes-cong m k p (suc n) h =
    ap₂ ◌∷◌ (h p (omega arith) (omega arith))
      (read_bytes-cong m k (p + 1) n (λ i lo hi. h i (omega arith) (omega arith)))

-- A read of a range that a write does not meet.
pub read_bytes-write_bytes_apart :
    (m : Memory) (p : ℕ) (bs : List ℕ) (q n : ℕ)
    → (q + n ≤ p) ⊎ (p + length bs ≤ q)
    → read_bytes (write_bytes m p bs) q n ≡ read_bytes m q n
read_bytes-write_bytes_apart m p bs q n h =
    read_bytes-cong (write_bytes m p bs) m q n
      (λ i lo hi. write_bytes-outside m p bs i (omega arith))

-- What was written is read back.
pub read_bytes-write_bytes :
    (m : Memory) (p : ℕ) (bs : List ℕ) → read_bytes (write_bytes m p bs) p (length bs) ≡ bs
unfolding read_bytes write_bytes
read_bytes-write_bytes m p [] = refl
read_bytes-write_bytes m p (b ∷ bs) =
    ap₂ ◌∷◌ (write_bytes-outside (update m p b) (p + 1) bs p (inl (omega arith)) ∙ ground arith)
      (read_bytes-write_bytes (update m p b) (p + 1) bs)

pub read_bytes-append :
    (m : Memory) (p a b : ℕ) → read_bytes m p (a + b) ≡ read_bytes m p a ++ read_bytes m (p + a) b
unfolding read_bytes
read_bytes-append m p zero b = ap₂ (read_bytes m) (omega arith) (omega arith)
read_bytes-append m p (suc a) b =
    let count : suc a + b ≡ suc (a + b) = omega arith in
    let start : p + 1 + a ≡ p + suc a = omega arith in
    ap (read_bytes m p) count
    ∙ ap (◌∷◌ (m p)) (
        read_bytes-append m (p + 1) a b
        ∙ ap (λ q. read_bytes m (p + 1) a ++ read_bytes m q b) start)

pub write_bytes-append :
    (m : Memory) (p : ℕ) (xs bs : List ℕ)
    → write_bytes m p (xs ++ bs) ≡ write_bytes (write_bytes m p xs) (p + length xs) bs
unfolding write_bytes
write_bytes-append m p [] bs =
    let start : p ≡ p + 0 = omega arith in ap (λ q. write_bytes m q bs) start
write_bytes-append m p (x ∷ xs) bs =
    let start : p + 1 + length xs ≡ p + suc (length xs) = omega arith in
    write_bytes-append (update m p x) (p + 1) xs bs
    ∙ ap (λ q. write_bytes (write_bytes (update m p x) (p + 1) xs) q bs) start

update-write_bytes :
    (m : Memory) (p v q : ℕ) (ys : List ℕ)
    → p < q
    → update (write_bytes m q ys) p v ≡ write_bytes (update m p v) q ys
unfolding write_bytes
update-write_bytes m p v q [] h = refl
update-write_bytes m p v q (y ∷ ys) h =
    update-write_bytes (update m q y) p v (q + 1) ys (omega arith)
    ∙ ap (λ k. write_bytes k (q + 1) ys) (fun_ext λ i. ground arith)

-- A write in front of an earlier one: the two are one write.
pub write_bytes-before :
    (m : Memory) (p q : ℕ) (xs ys : List ℕ)
    → p + length xs ≡ q
    → write_bytes (write_bytes m q ys) p xs ≡ write_bytes m p (xs ++ ys)
unfolding write_bytes
write_bytes-before m p q [] ys h =
    let here : q ≡ p = omega arith in ap (λ k. write_bytes m k ys) here
write_bytes-before m p q (x ∷ xs) ys h =
    ap (λ k. write_bytes k (p + 1) xs) (update-write_bytes m p x q ys (omega arith))
    ∙ write_bytes-before (update m p x) (p + 1) q xs ys (omega arith)

-- Two texts that are read as one.
pub read-split :
    (m : Memory) (p : ℕ) (xs ys : List ℕ)
    → read_bytes m p (length (xs ++ ys)) ≡ xs ++ ys
    → (read_bytes m p (length xs) ≡ xs) × (read_bytes m (p + length xs) (length ys) ≡ ys)
read-split m p xs ys h =
    append-injective (read_bytes m p (length xs)) xs _ ys (length-read_bytes m p (length xs)) (
      sym (read_bytes-append m p (length xs) (length ys))
      ∙ ap (read_bytes m p) (sym (length-append xs ys))
      ∙ h)
