-- ===== src/Staging/Progress.antt =====
-- The producer is not blocked for ever: once the consumer has taken all records, two more rounds of
-- the loop give the space. A record that is as large as the storage is never accepted.
use static_logger.Prelude.{
  ℕ, ◌≤◌, ◌<◌, Bool, true, false, List, [], ◌∷◌, ◌++◌, ltb, leb, length, ◌≡◌, refl, ◌⊎◌, inl, inr,
  Bool-cases, arith,
}
use static_logger.Staging.{
  staging_buffer_size, StagingBuffer, peek, consume, ConsumerStep, peeks, consumes, consumer_run,
  reserve_round, Reserved, space, null, waiting, after_round, counted, reserve_space_internal,
  reserve_producer_space,
}
use static_logger.Staging.Invariant.{IsValid, available, peek-IsValid, consume-IsValid}
use static_logger.Staging.Queue.{Bytes, AllNonempty, Holds}
use static_logger.Staging.Consumer.{peek-Answers, consume-Holds, length-Between}
use static_logger.Staging.Blocking.{
  left, IsPolite, PoliteSchedule, Reserves, consumer_run-Holds, reserve_producer_space-Reserves,
}

-- The consumer takes every record.
abbrev pub drain : List Bytes → List ConsumerStep
drain [] = []
drain (r ∷ rs) = peeks ∷ consumes (length r) ∷ drain rs

left-drain : (rs : List Bytes) → left (drain rs) rs ≡ []
left-drain [] = refl
left-drain (r ∷ rs) = left-drain rs

drain-IsPolite :
    (rs : List Bytes) (b : StagingBuffer)
    → IsValid b
    → AllNonempty rs
    → Holds b rs
    → IsPolite (drain rs) b rs
drain-IsPolite [] b v ne h = tt
drain-IsPolite (r ∷ rs) b v ne h =
    let (h', (_, n, fits, _)) = peek-Answers b (r ∷ rs) v ne h in
    let room : length r ≤ available (peek b).2 = omega arith in
    let v' = peek-IsValid v in
    (
      refl,
      room,
      drain-IsPolite rs (consume (length r) (peek b).2) (consume-IsValid (length r) v' room) ne.1
          (consume-Holds (peek b).2 r rs v' h' room ne.0),
    )

-- No record is left, so the consumer stands where the data ends.
Drained : StagingBuffer → Type 0
Drained b =
    (b.consumer_pos ≡ b.producer_pos)
    ⊎ ((b.producer_pos ≡ 0) × (0 < b.consumer_pos) × (b.consumer_pos ≡ b.end_of_recorded_space))

Holds-Drained : (b : StagingBuffer) → Holds b [] → Drained b
unfolding Drained
Holds-Drained b (inl k) =
    inl (omega (arith, length-Between b b.consumer_pos b.producer_pos [] k, k.0))
Holds-Drained b (inr ([], [], e, lt, f, g)) = inr (
  omega (arith, length-Between b 0 b.producer_pos [] g),
  omega arith,
  omega (arith, length-Between b b.consumer_pos b.end_of_recorded_space [] f, f.0),
)
Holds-Drained b (inr ([], y ∷ back, e, lt, f, g)) = cc
Holds-Drained b (inr (x ∷ front, back, e, lt, f, g)) = cc

-- The first round gives the space, or takes the producer to the start of the storage.
first_round :
    (n : ℕ) (b : StagingBuffer)
    → IsValid b
    → Drained b
    → let seen = (peek b).2 in
      let c = (reserve_round n seen.consumer_pos seen).1 in
      (n < c.min_free_space)
      ⊎ ((c.consumer_pos ≡ 0) × (c.producer_pos ≡ 0) × (staging_buffer_size ≤ n))
      ⊎ ((c.producer_pos ≡ 0)
          × (0 < c.consumer_pos)
          × (c.consumer_pos ≡ c.end_of_recorded_space)
          × (c.consumer_pos < staging_buffer_size))
unfolding Drained peek reserve_round
first_round n b v d = ground arith

-- The second round then finds the storage empty.
second_round :
    (n : ℕ) (b : StagingBuffer)
    → n < staging_buffer_size
    → b.producer_pos ≡ 0
    → 0 < b.consumer_pos
    → b.consumer_pos ≡ b.end_of_recorded_space
    → b.consumer_pos < staging_buffer_size
    → let seen = (peek b).2 in n < (reserve_round n seen.consumer_pos seen).1.min_free_space
unfolding peek reserve_round
second_round n b h p c e lt = ground arith

-- The call has returned.
abbrev pub IsGranted : Reserved × StagingBuffer → Type 0
IsGranted out = (p : ℕ) × (out.0 ≡ space p)

IsGranted-free :
    (n : ℕ) (schedule : List (List ConsumerStep)) (b : StagingBuffer)
    → n < b.min_free_space
    → IsGranted (reserve_space_internal n true schedule b)
unfolding reserve_space_internal
IsGranted-free n [] b h = (b.producer_pos, ground arith)
IsGranted-free n (steps ∷ schedule) b h = (b.producer_pos, ground arith)

IsGranted-after_round :
    (n : ℕ) (rest : Reserved × StagingBuffer) (broke : Bool) (c : StagingBuffer)
    → IsGranted rest
    → IsGranted (after_round n true rest broke c)
IsGranted-after_round n rest true c h = (c.producer_pos, refl)
IsGranted-after_round n rest false c h = h

IsGranted-later :
    (n : ℕ) (steps : List ConsumerStep) (schedule : List (List ConsumerStep)) (b : StagingBuffer)
    → let seen = consumer_run steps b in
      IsGranted (reserve_space_internal n true schedule (reserve_round n seen.consumer_pos seen).1)
      → IsGranted (reserve_space_internal n true (steps ∷ schedule) b)
unfolding reserve_space_internal
IsGranted-later n steps schedule b h = elim (Bool-cases (leb b.min_free_space n)) [
  | inl full ↦ rw full (IsGranted-after_round n _ _ _ h)
  | inr free ↦ rw free (b.producer_pos, refl)
]

-- The consumer's steps up to a buffer that is drained, and a peek.
rounds_grant :
    (n : ℕ) (steps : List ConsumerStep) (b d : StagingBuffer)
    → consumer_run steps b ≡ (peek d).2
    → n < staging_buffer_size
    → IsValid d
    → Drained d
    → IsGranted (reserve_space_internal n true (steps ∷ (peeks ∷ []) ∷ []) b)
unfolding consumer_run
rounds_grant n steps b d e h v drained =
    IsGranted-later n steps _ b (rw e (granted (first_round n d v drained)))
  where
    c : StagingBuffer
    c = (reserve_round n (peek d).2.consumer_pos (peek d).2).1

    granted :
        (n < c.min_free_space)
          ⊎ ((c.consumer_pos ≡ 0) × (c.producer_pos ≡ 0) × (staging_buffer_size ≤ n))
          ⊎ ((c.producer_pos ≡ 0)
              × (0 < c.consumer_pos)
              × (c.consumer_pos ≡ c.end_of_recorded_space)
              × (c.consumer_pos < staging_buffer_size))
        → IsGranted (reserve_space_internal n true ((peeks ∷ []) ∷ []) c)
    granted (inl room) = IsGranted-free n _ c room
    granted (inr (inl (_, _, large))) = absurd (omega arith)
    granted (inr (inr (start, pos, at, lt))) =
        IsGranted-later n (peeks ∷ []) [] c
          (IsGranted-free n [] _ (second_round n c h start pos at lt))

consumer_run-append :
    (s t : List ConsumerStep) (b : StagingBuffer)
    → consumer_run (s ++ t) b ≡ consumer_run t (consumer_run s b)
unfolding consumer_run
consumer_run-append [] t b = refl
consumer_run-append (peeks ∷ s) t b = consumer_run-append s t (peek b).2
consumer_run-append (consumes n ∷ s) t b = consumer_run-append s t (consume n b)

-- A record below the size of the storage is not blocked for ever: whatever the queue holds, the
-- producer has its space when the consumer has taken all records and has looked twice.
pub reserve_producer_space-drain :
    (n : ℕ) (b : StagingBuffer) (rs : List Bytes)
    → n < staging_buffer_size
    → IsValid b
    → AllNonempty rs
    → Holds b rs
    → IsGranted (reserve_producer_space n ((drain rs ++ peeks ∷ []) ∷ (peeks ∷ []) ∷ []) b)
unfolding reserve_producer_space consumer_run
reserve_producer_space-drain n b rs h v ne k =
    let b' = counted b in
    let v' : IsValid b' = record { producer_in = v.producer_in; free = v.free } in
    let ((valid, _, empty), _) =
      consumer_run-Holds (drain rs) b' rs (drain-IsPolite rs b' v' ne k) v' ne k in
    elim (Bool-cases (ltb n b.min_free_space)) [
      | inl fast ↦ rw fast (b.producer_pos, refl)
      | inr slow ↦ rw slow (
          rounds_grant n (drain rs ++ peeks ∷ []) b' (consumer_run (drain rs) b')
            (consumer_run-append (drain rs) (peeks ∷ []) b') h valid
            (Holds-Drained _ (rw left-drain at empty)))
    ]

-- A record that is as large as the storage blocks its thread for ever: no polite consumer, however
-- long it runs, lets the call return.
pub reserve_producer_space-too_large :
    (n : ℕ) (schedule : List (List ConsumerStep)) (b : StagingBuffer) (rs : List Bytes)
    → staging_buffer_size ≤ n
    → PoliteSchedule n schedule (counted b) rs
    → IsValid b
    → AllNonempty rs
    → Holds b rs
    → (reserve_producer_space n schedule b).0 ≡ waiting
reserve_producer_space-too_large n schedule b rs h p v ne k =
    blocked (reserve_producer_space n schedule b)
      (reserve_producer_space-Reserves n schedule b rs p v ne k)
  where
    blocked : (out : Reserved × StagingBuffer) → Reserves n true rs out → out.0 ≡ waiting
    blocked (space q, c) (_, _, _, valid, _, _, (_, room)) = absurd (omega arith)
    blocked (null, c) (_, _, _, _, _, _, (wrong, _)) = cc
    blocked (waiting, c) r = refl
