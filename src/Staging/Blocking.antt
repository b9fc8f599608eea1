-- ===== src/Staging/Blocking.antt =====
-- The producer's blocking loop, `reserveProducerSpace` and `reserveSpaceInternal`, beside a consumer
-- that takes whole records whenever it likes.
use mathlib.Core.List.{append_assoc}
use static_logger.Prelude.{
  ℕ, ◌+◌, ◌≤◌, ◌<◌, Bool, true, false, some, List, [], ◌∷◌, ◌++◌, ltb, leb, length, ◌≡◌, refl, sym,
  ap, subst, ◌∙◌, inl, inr, Bool-cases, arith,
}
use static_logger.Staging.{
  staging_buffer_size, StagingBuffer, peek, consume, ConsumerStep, peeks, consumes, consumer_run,
  reserve_round, Reserved, space, null, waiting, after_round, counted, reserve_space_internal,
  reserve_producer_space, finish_reservation, store,
}
use static_logger.Staging.Invariant.{
  IsValid, available, peek-IsValid, consume-IsValid, reserve_round-IsValid,
}
use static_logger.Staging.Queue.{
  Bytes, AllNonempty, Holds, reserve_round-Holds, appended, finish_reservation-store,
}
use static_logger.Staging.Consumer.{peek-Answers, consume-Holds}

-- The records that the consumer leaves.
abbrev pub left : List ConsumerStep → List Bytes → List Bytes
left [] rs = rs
left (peeks ∷ steps) rs = left steps rs
left (consumes n ∷ steps) [] = []
left (consumes n ∷ steps) (r ∷ rs) = left steps rs

-- The consumer takes the first record, whole, and only if a peek has shown it.
abbrev pub IsPolite : List ConsumerStep → StagingBuffer → List Bytes → Type 0
IsPolite [] b rs = Unit
IsPolite (peeks ∷ steps) b rs = IsPolite steps (peek b).2 rs
IsPolite (consumes n ∷ steps) b [] = ⊥
IsPolite (consumes n ∷ steps) b (r ∷ rs) =
    (n ≡ length r) × (n ≤ available b) × IsPolite steps (consume n b) rs

-- The consumer is polite before each read of `consumer_pos_` that the loop comes to.
abbrev pub PoliteSchedule : ℕ → List (List ConsumerStep) → StagingBuffer → List Bytes → Type 0
PoliteSchedule n [] b rs = Unit
PoliteSchedule n (steps ∷ schedule) b rs =
    b.min_free_space ≤ n
    → IsPolite steps b rs
      × PoliteSchedule n schedule
          (reserve_round n (consumer_run steps b).consumer_pos (consumer_run steps b)).1
          (left steps rs)

abbrev Good : StagingBuffer → List Bytes → Type 0
Good b rs = IsValid b × AllNonempty rs × Holds b rs

-- A polite consumer keeps the buffer valid, and takes records from the front of the queue alone.
pub consumer_run-Holds :
    (steps : List ConsumerStep) (b : StagingBuffer) (rs : List Bytes)
    → IsPolite steps b rs
    → IsValid b
    → AllNonempty rs
    → Holds b rs
    → Good (consumer_run steps b) (left steps rs)
      × ((taken : List Bytes) × (rs ≡ taken ++ left steps rs))
unfolding consumer_run
consumer_run-Holds [] b rs p v ne h = ((v, ne, h), ([], refl))
consumer_run-Holds (peeks ∷ steps) b rs p v ne h =
    consumer_run-Holds steps (peek b).2 rs p (peek-IsValid v) ne (peek-Answers b rs v ne h).0
consumer_run-Holds (consumes n ∷ steps) b [] p v ne h = absurd p
consumer_run-Holds (consumes n ∷ steps) b (r ∷ rs) (size, room, p) v ne h =
    let shown : length r ≤ available b = rw size at room in
    let (good, (taken, e)) =
      consumer_run-Holds steps (consume n b) rs p (consume-IsValid n v room) ne.1
        (rw size (consume-Holds b r rs v h shown ne.0)) in
    (good, (r ∷ taken, ap (◌∷◌ r) e))

-- What the answer of the loop says of the buffer.
abbrev pub Granted : ℕ → Bool → Reserved × StagingBuffer → Type 0
Granted n blocking (space p, c) = (p ≡ c.producer_pos) × (n < c.min_free_space)
Granted n blocking (waiting, c) = c.min_free_space ≤ n
Granted n blocking (null, c) = (blocking ≡ false) × (c.min_free_space ≤ n)

abbrev pub Reserves : ℕ → Bool → List Bytes → Reserved × StagingBuffer → Type 0
Reserves n blocking rs out =
    (taken kept : List Bytes) × (rs ≡ taken ++ kept)
    × IsValid out.1
    × AllNonempty kept
    × Holds out.1 kept
    × Granted n blocking out

reserve_round-broke :
    (n : ℕ) (b : StagingBuffer)
    → (reserve_round n b.consumer_pos b).0 ≡ true
    → n < (reserve_round n b.consumer_pos b).1.min_free_space
unfolding reserve_round
reserve_round-broke n b h = ground arith

Reserves-behind :
    (n : ℕ) (blocking : Bool) (taken rs : List Bytes) (out : Reserved × StagingBuffer)
    → Reserves n blocking rs out
    → Reserves n blocking (taken ++ rs) out
Reserves-behind n blocking taken rs out (more, kept, e, v, ne, h, g) =
    (taken ++ more, kept, ap (◌++◌ taken) e ∙ sym (append_assoc taken more kept), v, ne, h, g)

after_round-Reserves :
    (n : ℕ) (blocking : Bool) (rest : Reserved × StagingBuffer) (broke : Bool) (c : StagingBuffer)
    (rs : List Bytes)
    → (broke ≡ true → n < c.min_free_space)
    → Good c rs
    → Reserves n blocking rs rest
    → Reserves n blocking rs (after_round n blocking rest broke c)
after_round-Reserves n blocking rest true c rs enough (v, ne, h) r =
    ([], rs, refl, v, ne, h, (refl, enough refl))
after_round-Reserves n true rest false c rs enough good r = r
after_round-Reserves n false rest false c rs enough (v, ne, h) r =
    elim (Bool-cases (leb c.min_free_space n)) [
      | inl full ↦ rw full ([], rs, refl, v, ne, h, (refl, ground arith))
      | inr free ↦ rw free r
    ]

reserve_space_internal-Reserves :
    (schedule : List (List ConsumerStep)) (n : ℕ) (blocking : Bool) (b : StagingBuffer)
    (rs : List Bytes)
    → PoliteSchedule n schedule b rs
    → Good b rs
    → Reserves n blocking rs (reserve_space_internal n blocking schedule b)
unfolding reserve_space_internal
reserve_space_internal-Reserves [] n blocking b rs p (v, ne, h) =
    elim (Bool-cases (leb b.min_free_space n)) [
      | inl full ↦ rw full ([], rs, refl, v, ne, h, ground arith)
      | inr free ↦ rw free ([], rs, refl, v, ne, h, (refl, ground arith))
    ]
reserve_space_internal-Reserves (steps ∷ schedule) n blocking b rs p (v, ne, h) =
    elim (Bool-cases (leb b.min_free_space n)) [
      | inl full ↦
          let (polite, later) = p (ground arith) in
          let ((v', ne', h'), (taken, e)) = consumer_run-Holds steps b rs polite v ne h in
          let seen = consumer_run steps b in
          let good : Good (reserve_round n seen.consumer_pos seen).1 (left steps rs) =
            (reserve_round-IsValid n v', ne', reserve_round-Holds n seen (left steps rs) h') in
          rw full (
            subst
              (λ xs. Reserves n blocking xs (
                after_round n blocking
                  (reserve_space_internal n blocking schedule
                    (reserve_round n seen.consumer_pos seen).1)
                  (reserve_round n seen.consumer_pos seen).0
                  (reserve_round n seen.consumer_pos seen).1))
              (sym e)
              (Reserves-behind n blocking taken (left steps rs) _ (
                after_round-Reserves n blocking _ _ _ (left steps rs) (reserve_round-broke n seen)
                  good
                  (reserve_space_internal-Reserves schedule n blocking _ (left steps rs) later
                    good))))
      | inr free ↦ rw free ([], rs, refl, v, ne, h, (refl, ground arith))
    ]

-- `reserveProducerSpace` beside a consumer that takes whole records: the buffer stays valid, the
-- consumer has taken records from the front of the queue and the others are untouched. If the call
-- returns, it returns `producer_pos`, with more than `n` bytes free there; it never returns a null
-- pointer; and while it waits there is not enough space.
pub reserve_producer_space-Reserves :
    (n : ℕ) (schedule : List (List ConsumerStep)) (b : StagingBuffer) (rs : List Bytes)
    → PoliteSchedule n schedule (counted b) rs
    → IsValid b
    → AllNonempty rs
    → Holds b rs
    → Reserves n true rs (reserve_producer_space n schedule b)
unfolding reserve_producer_space
reserve_producer_space-Reserves n schedule b rs p v ne h =
    let v' : IsValid (counted b) = record { producer_in = v.producer_in; free = v.free } in
    elim (Bool-cases (ltb n b.min_free_space)) [
      | inl fast ↦ rw fast ([], rs, refl, v', ne, h, (refl, ground arith))
      | inr slow ↦
          rw slow (reserve_space_internal-Reserves schedule n true (counted b) rs p (v', ne, h))
    ]

-- A whole record through the buffer: reserve, fill, finish. If the reservation returns, the space
-- lies inside the storage, no assertion fails, and the queue is what the consumer has left of it
-- with the record behind.
pub reserve-finish :
    (r : Bytes) (schedule : List (List ConsumerStep)) (b c : StagingBuffer) (p : ℕ)
    (rs : List Bytes)
    → PoliteSchedule (length r) schedule (counted b) rs
    → IsValid b
    → AllNonempty rs
    → Holds b rs
    → reserve_producer_space (length r) schedule b ≡ (space p, c)
    → (taken kept : List Bytes) × (d : StagingBuffer) × (p + length r < staging_buffer_size)
      × (finish_reservation (length r) (store p r c) ≡ some d)
      × (rs ≡ taken ++ kept)
      × IsValid d
      × Holds d (kept ++ r ∷ [])
reserve-finish r schedule b c p rs polite v ne h e =
    let (taken, kept, split, v', _, h', (at, room)) =
      rw e at (reserve_producer_space-Reserves (length r) schedule b rs polite v ne h) in
    let (finished, valid, holds) = finish_reservation-store c r kept v' h' room in
    (taken, kept, appended r c, ground arith, rw at finished, split, valid, holds)
