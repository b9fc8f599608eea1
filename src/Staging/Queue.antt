-- ===== src/Staging/Queue.antt =====
-- A staging buffer as a queue of records, each in one piece: the refinement of the operations of
-- `StagingBuffer`.
use mathlib.Core.List.{append-nil, append_assoc}
use static_logger.Prelude.{
  ℕ, ◌+◌, ◌-◌, ◌≤◌, ◌<◌, some, List, [], ◌∷◌, ◌++◌, length, ◌≡◌, refl, sym, ap, ap₂, ◌∙◌, ◌⊎◌, inl,
  inr, arith,
}
use static_logger.Prelude.Memory.{
  Memory, read_bytes, write_bytes, read_bytes-write_bytes, read_bytes-write_bytes_apart,
  read_bytes-append,
}
use static_logger.Staging.{StagingBuffer, new, reserve_round, finish_reservation, store}
use static_logger.Staging.Invariant.{IsValid}

abbrev pub Bytes : Type 0
Bytes = List ℕ

-- The records' bytes.
abbrev pub concat : List Bytes → Bytes
concat [] = []
concat (r ∷ rs) = r ++ concat rs

pub concat-append : (rs ss : List Bytes) → concat (rs ++ ss) ≡ concat rs ++ concat ss
concat-append [] ss = refl
concat-append (r ∷ rs) ss =
    ap (◌++◌ r) (concat-append rs ss) ∙ sym (append_assoc r (concat rs) (concat ss))

abbrev pub AllNonempty : List Bytes → Type 0
AllNonempty [] = Unit
AllNonempty (r ∷ rs) = (0 < length r) × AllNonempty rs

-- The bytes from offset `p` up to offset `q` are the records `rs`.
abbrev pub Between : StagingBuffer → ℕ → ℕ → List Bytes → Type 0
Between b p q rs = (p ≤ q) × (read_bytes b.storage p (q - p) ≡ concat rs)

-- The records in order: those behind the consumer, and, if the producer has rolled over, those at
-- the start of the storage.
abbrev pub Holds : StagingBuffer → List Bytes → Type 0
Holds b rs =
    Between b b.consumer_pos b.producer_pos rs
    ⊎ ((front back : List Bytes) × (rs ≡ front ++ back)
        × (b.producer_pos < b.consumer_pos)
        × Between b b.consumer_pos b.end_of_recorded_space front
        × Between b 0 b.producer_pos back)

pub new-Holds : (id : ℕ) → Holds (new id) []
unfolding new read_bytes
new-Holds id = inl (omega arith, refl)

-- The same bytes between the same offsets, in a buffer that differs elsewhere.
Between-same :
    (b c : StagingBuffer) {p q p' q' : ℕ} (rs : List Bytes)
    → c.storage ≡ b.storage
    → p' ≡ p
    → q' ≡ q
    → Between b p q rs
    → Between c p' q' rs
Between-same b c rs s ep eq h = (omega arith, cc)

Between-nil : (b : StagingBuffer) (q : ℕ) → q ≡ 0 → Between b 0 q []
unfolding read_bytes
Between-nil b q e = (omega arith, ap (read_bytes b.storage 0) none_left)
  where
    none_left : q - 0 ≡ 0
    none_left = omega arith

-- A round of the producer's loop leaves the producer where it is, or takes it to the start and
-- marks the end of the data.
abbrev Moves : StagingBuffer → StagingBuffer → Type 0
Moves b c =
    (c.storage ≡ b.storage)
    × (c.consumer_pos ≡ b.consumer_pos)
    × (((c.producer_pos ≡ b.producer_pos)
          × ((b.consumer_pos ≤ b.producer_pos)
              ⊎ (c.end_of_recorded_space ≡ b.end_of_recorded_space)))
        ⊎ ((c.producer_pos ≡ 0)
            × (c.end_of_recorded_space ≡ b.producer_pos)
            × (0 < b.consumer_pos)
            × (b.consumer_pos ≤ b.producer_pos)))

reserve_round-Moves : (n : ℕ) (b : StagingBuffer) → Moves b (reserve_round n b.consumer_pos b).1
unfolding reserve_round
reserve_round-Moves n b = (ground arith, ground arith, ground arith)

Moves-Holds : (b c : StagingBuffer) (rs : List Bytes) → Moves b c → Holds b rs → Holds c rs
Moves-Holds b c rs (s, at, inl (stays, _)) (inl k) = inl (Between-same b c rs s at stays k)
Moves-Holds b c rs (s, at, inr (start, mark, pos, _)) (inl k) = inr (
  rs,
  [],
  sym (append-nil rs),
  omega arith,
  Between-same b c rs s at mark k,
  Between-nil c c.producer_pos start,
)
Moves-Holds b c rs (s, at, inl (stays, inl le)) (inr (front, back, e, lt, f, g)) =
    absurd (omega arith)
Moves-Holds b c rs (s, at, inl (stays, inr mark)) (inr (front, back, e, lt, f, g)) = inr (
  front,
  back,
  e,
  omega arith,
  Between-same b c front s at mark f,
  Between-same b c back s refl stays g,
)
Moves-Holds b c rs (s, at, inr (start, mark, pos, le)) (inr (front, back, e, lt, f, g)) =
    absurd (omega arith)

-- A round of the producer's loop keeps the records.
pub reserve_round-Holds :
    (n : ℕ) (b : StagingBuffer) (rs : List Bytes)
    → Holds b rs
    → Holds (reserve_round n b.consumer_pos b).1 rs
reserve_round-Holds n b rs =
    Moves-Holds b (reserve_round n b.consumer_pos b).1 rs (reserve_round-Moves n b)

-- A record that is written behind records in one piece.
Between-append :
    (b : StagingBuffer) (p q : ℕ) (rs : List Bytes) (r : Bytes)
    → Between b p q rs
    → let c = store q r b in Between c p (q + length r) (rs ++ r ∷ [])
unfolding store
Between-append b p q rs r (le, h) = (
  omega arith,
  ap (read_bytes m p) sum
      ∙ read_bytes-append m p (q - p) (length r)
      ∙ ap₂ ◌++◌ (read_bytes-write_bytes_apart b.storage q r p (q - p) (inl (omega arith)) ∙ h)
          (ap (λ k. read_bytes m k (length r)) end ∙ read_bytes-write_bytes b.storage q r)
      ∙ sym (concat-append rs (r ∷ []) ∙ ap (◌++◌ (concat rs)) (append-nil r)),
)
  where
    m : Memory
    m = write_bytes b.storage q r

    sum : q + length r - p ≡ q - p + length r
    sum = omega arith

    end : p + (q - p) ≡ q
    end = omega arith

-- The buffer after the producer has filled the space at `producer_pos` with a record and has made
-- it visible.
abbrev pub appended : Bytes → StagingBuffer → StagingBuffer
appended r b = record b {
  storage = write_bytes b.storage b.producer_pos r;
  min_free_space = b.min_free_space - length r;
  producer_pos = b.producer_pos + length r;
}

appended-Holds :
    (b : StagingBuffer) (r : Bytes) (rs : List Bytes)
    → IsValid b
    → Holds b rs
    → length r < b.min_free_space
    → Holds (appended r b) (rs ++ r ∷ [])
unfolding store
appended-Holds b r rs v (inl k) room = inl (
    Between-same (store b.producer_pos r b) (appended r b) (rs ++ r ∷ []) refl refl refl
      (Between-append b b.consumer_pos b.producer_pos rs r k))
appended-Holds b r rs v (inr (front, back, e, lt, f, g)) room = inr (
  front,
  back ++ r ∷ [],
  ap (λ xs. xs ++ r ∷ []) e ∙ append_assoc front back (r ∷ []),
  omega arith,
  (
    f.0,
    read_bytes-write_bytes_apart b.storage b.producer_pos r b.consumer_pos
          (b.end_of_recorded_space - b.consumer_pos) (inr (omega arith))
        ∙ f.1,
  ),
  Between-same (store b.producer_pos r b) (appended r b) (back ++ r ∷ []) refl refl refl
      (Between-append b 0 b.producer_pos back r g),
)

-- If a record is smaller than the space that the producer knows to be free, the assertions of
-- `finishReservation` hold, the record becomes the last of the queue with all others untouched,
-- and the buffer is still valid.
pub finish_reservation-store :
    (b : StagingBuffer) (r : Bytes) (rs : List Bytes)
    → IsValid b
    → Holds b rs
    → length r < b.min_free_space
    → (finish_reservation (length r) (store b.producer_pos r b) ≡ some (appended r b))
      × IsValid (appended r b)
      × Holds (appended r b) (rs ++ r ∷ [])
unfolding finish_reservation store
finish_reservation-store b r rs v h room =
    (ground arith, ground arith, appended-Holds b r rs v h room)
