-- ===== src/Staging/Consumer.antt =====
-- The consumer's side of a staging buffer: `peek` and `consume` against the queue of records.
use static_logger.Prelude.{
  ℕ, ◌+◌, ◌-◌, ◌≤◌, ◌<◌, List, [], ◌∷◌, length, length-append, append-injective, ◌≡◌, refl, sym, ap,
  ◌∙◌, inl, inr, arith,
}
use static_logger.Prelude.Memory.{read_bytes, read_bytes-append, length-read_bytes}
use static_logger.Staging.{StagingBuffer, peek, consume}
use static_logger.Staging.Invariant.{IsValid, available}
use static_logger.Staging.Queue.{Bytes, concat, AllNonempty, Between, Holds}

-- Records that lie between two offsets fill the space between them.
pub length-Between :
    (b : StagingBuffer) (p q : ℕ) (rs : List Bytes) → Between b p q rs → length (concat rs) ≡ q - p
length-Between b p q rs h = ap length (sym h.1) ∙ length-read_bytes b.storage p (q - p)

-- The first of several records, and those behind it.
Between-split :
    (b : StagingBuffer) (p q : ℕ) (r : Bytes) (rs : List Bytes)
    → Between b p q (r ∷ rs)
    → (read_bytes b.storage p (length r) ≡ r) × Between b (p + length r) q rs
Between-split b p q r rs h =
    let total = length-Between b p q (r ∷ rs) h in
    let fits : p + length r ≤ q = omega (arith, length-append r (concat rs)) in
    let sum : length r + (q - (p + length r)) ≡ q - p = omega arith in
    let whole =
      sym (read_bytes-append b.storage p (length r) (q - (p + length r)))
      ∙ ap (read_bytes b.storage p) sum
      ∙ h.1 in
    let (first, rest) =
      append-injective (read_bytes b.storage p (length r)) r _ (concat rs)
        (length-read_bytes b.storage p (length r)) whole in
    (first, (fits, rest))

-- What a peek answers when the records in the queue are `rs`: nothing for the empty queue, and
-- otherwise a piece that starts with the whole first record.
abbrev pub Answers : ℕ × ℕ × StagingBuffer → List Bytes → Type 0
Answers (p, n, c) [] = n ≡ 0
Answers (p, n, c) (r ∷ rs) =
    (p ≡ c.consumer_pos)
    × (n ≡ available c)
    × (length r ≤ n)
    × (read_bytes c.storage p (length r) ≡ r)

peek_straight :
    (b : StagingBuffer)
    → IsValid b
    → b.consumer_pos ≤ b.producer_pos
    → peek b ≡ (b.consumer_pos, b.producer_pos - b.consumer_pos, b)
unfolding peek
peek_straight b v le = ground arith

peek_front :
    (b : StagingBuffer)
    → IsValid b
    → b.producer_pos < b.consumer_pos
    → b.consumer_pos < b.end_of_recorded_space
    → peek b ≡ (b.consumer_pos, b.end_of_recorded_space - b.consumer_pos, b)
unfolding peek
peek_front b v lt left = ground arith

peek_roll_over :
    (b : StagingBuffer)
    → IsValid b
    → b.producer_pos < b.consumer_pos
    → b.end_of_recorded_space ≡ b.consumer_pos
    → peek b ≡ (0, b.producer_pos - 0, record b { consumer_pos = 0 })
unfolding peek
peek_roll_over b v lt e = ground arith

first-Answers :
    (b : StagingBuffer) (q : ℕ) (rs : List Bytes)
    → Between b b.consumer_pos q rs
    → available b ≡ q - b.consumer_pos
    → Answers (b.consumer_pos, q - b.consumer_pos, b) rs
first-Answers b q [] h e = omega (arith, length-Between b b.consumer_pos q [] h)
first-Answers b q (r ∷ rs) h e =
    let (read, fits) = Between-split b b.consumer_pos q r rs h in (refl, sym e, omega arith, read)

-- A peek changes no record, and finds the first one whole; it finds nothing only if the queue is
-- empty.
pub peek-Answers :
    (b : StagingBuffer) (rs : List Bytes)
    → IsValid b
    → AllNonempty rs
    → Holds b rs
    → Holds (peek b).2 rs × Answers (peek b) rs
peek-Answers b rs v ne (inl k) =
    rw (peek_straight b v k.0) (inl k, first-Answers b b.producer_pos rs k (ground arith))
peek-Answers b rs v ne (inr ([], back, e, lt, f, g)) =
    let spent = length-Between b b.consumer_pos b.end_of_recorded_space [] f in
    rw (e, peek_roll_over b v lt (omega arith))
      (inl g, first-Answers (record b { consumer_pos = 0 }) b.producer_pos back g (ground arith))
peek-Answers b rs v ne (inr (r ∷ front, back, e, lt, f, g)) =
    let (read, fits) = Between-split b b.consumer_pos b.end_of_recorded_space r front f in
    let some_left : 0 < length r = (rw e at ne).0 in
    rw (e, peek_front b v lt (omega arith))
      (
        inr (r ∷ front, back, refl, lt, f, g),
        first-Answers b b.end_of_recorded_space (r ∷ front) f (ground arith),
      )

-- Consuming the first record after a peek leaves the records behind it.
pub consume-Holds :
    (b : StagingBuffer) (r : Bytes) (rs : List Bytes)
    → IsValid b
    → Holds b (r ∷ rs)
    → length r ≤ available b
    → 0 < length r
    → Holds (consume (length r) b) rs
unfolding consume
consume-Holds b r rs v (inl k) room pos =
    inl (Between-split b b.consumer_pos b.producer_pos r rs k).1
consume-Holds b r rs v (inr ([], back, e, lt, f, g)) room pos =
    absurd (ground (arith, length-Between b b.consumer_pos b.end_of_recorded_space [] f))
consume-Holds b r rs v (inr (x ∷ front, back, e, lt, f, g)) room pos =
    let same : length x ≡ length r = ground arith in
    let rest = Between-split b b.consumer_pos b.end_of_recorded_space x front f in
    inr (front, back, ground arith, omega arith, rw same at rest.1, g)

-- The first record stands where the consumer looks, when it is in one piece with what can be
-- consumed.
pub consumer-first :
    (b : StagingBuffer) (r : Bytes) (rs : List Bytes)
    → Holds b (r ∷ rs)
    → length r ≤ available b
    → 0 < length r
    → read_bytes b.storage b.consumer_pos (length r) ≡ r
consumer-first b r rs (inl k) room pos = (Between-split b b.consumer_pos b.producer_pos r rs k).0
consumer-first b r rs (inr ([], back, e, lt, f, g)) room pos =
    absurd (ground (arith, length-Between b b.consumer_pos b.end_of_recorded_space [] f))
consumer-first b r rs (inr (x ∷ front, back, e, lt, f, g)) room pos =
    let same : x ≡ r = ground arith in
    rw same at (Between-split b b.consumer_pos b.end_of_recorded_space x front f).0
