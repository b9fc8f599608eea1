-- ===== src/Staging/Tests.antt =====
-- Runs of the staging buffer, and its theorems at concrete buffers.
use static_logger.Prelude.{
  ◌+◌, ◌<◌, true, false, List, [], ◌∷◌, ◌++◌, leb, if◌then◌else◌, ◌≡◌, ◌⊎◌, ◌↔◌, refl, some, inl,
  inr, arith,
}
use static_logger.Prelude.Memory.{read_bytes}
use static_logger.Staging.{
  staging_buffer_size, StagingBuffer, new, peek, consume, peeks, consumes, consumer_run,
  reserve_round, space, null, waiting, reserve_space_internal, reserve_producer_space,
  finish_reservation, check_can_delete, store,
}
use static_logger.Staging.Invariant.{IsValid, new-IsValid}
use static_logger.Staging.Queue.{Bytes, Holds, new-Holds}
use static_logger.Staging.Consumer.{Answers, peek-Answers, consume-Holds}
use static_logger.Staging.Blocking.{Reserves, reserve_producer_space-Reserves, reserve-finish}
use static_logger.Staging.Progress.{
  drain, IsGranted, reserve_producer_space-drain, reserve_producer_space-too_large,
}
use static_logger.Staging.Deletion.{check_can_delete-empty}

-- Empty, six bytes before the end of the storage.
abbrev late : StagingBuffer
late = record {
  producer_pos = 1048570;
  end_of_recorded_space = 1048576;
  min_free_space = 6;
  cycles_producer_blocked = 0;
  num_times_producer_blocked = 0;
  num_allocations = 3;
  consumer_pos = 1048570;
  should_deallocate = true;
  id = 7;
  storage = λ _. 0;
}

-- The producer has rolled over: 9 9 stands before the consumer's end, 7 8 at the start.
abbrev rolled : StagingBuffer
rolled = record {
  producer_pos = 2;
  end_of_recorded_space = 5;
  min_free_space = 1;
  cycles_producer_blocked = 0;
  num_times_producer_blocked = 0;
  num_allocations = 2;
  consumer_pos = 3;
  should_deallocate = true;
  id = 7;
  storage = λ i. if leb 3 i then 9 else i + 7;
}

abbrev two_records : List Bytes
two_records = (9 ∷ 9 ∷ []) ∷ (7 ∷ 8 ∷ []) ∷ []

abbrev ten_bytes : Bytes
ten_bytes = 0 ∷ 1 ∷ 2 ∷ 3 ∷ 4 ∷ 5 ∷ 6 ∷ 7 ∷ 8 ∷ 9 ∷ []

late-IsValid : IsValid late
late-IsValid = omega arith

late-Holds : Holds late []
unfolding read_bytes
late-Holds = inl (omega arith, refl)

rolled-IsValid : IsValid rolled
rolled-IsValid = omega arith

rolled-Holds : Holds rolled two_records
unfolding read_bytes
rolled-Holds = inr (
  (9 ∷ 9 ∷ []) ∷ [],
  (7 ∷ 8 ∷ []) ∷ [],
  refl,
  omega arith,
  (omega arith, refl),
  (omega arith, refl),
)

-- No room for ten bytes at the end: the producer rolls over.
late_rolls_over : (reserve_producer_space 10 ([] ∷ []) late).0 ≡ space 0
unfolding reserve_producer_space reserve_space_internal reserve_round consumer_run
late_rolls_over = refl

-- Two bytes do not fit beside what the consumer has not read; they do when it has read 9 9.
rolled_waits :
    ((reserve_producer_space 2 ([] ∷ []) rolled).0 ≡ waiting)
    × ((reserve_producer_space 2 ((peeks ∷ consumes 2 ∷ []) ∷ []) rolled).0 ≡ space 2)
    × ((reserve_space_internal 2 false ([] ∷ []) rolled).0 ≡ null)
unfolding reserve_producer_space reserve_space_internal reserve_round consumer_run peek consume
rolled_waits = (refl, refl, refl)

reserve-finish_example :
    (taken kept : List Bytes) × (d : StagingBuffer) × (0 + 10 < staging_buffer_size)
    × (finish_reservation 10 (store 0 ten_bytes (reserve_producer_space 10 ([] ∷ []) late).1)
        ≡ some d)
    × (◌≡◌ {A = List Bytes} [] (taken ++ kept))
    × IsValid d
    × Holds d (kept ++ ten_bytes ∷ [])
unfolding reserve_producer_space reserve_space_internal reserve_round consumer_run
reserve-finish_example =
    reserve-finish ten_bytes ([] ∷ []) late (reserve_producer_space 10 ([] ∷ []) late).1 0 []
      (λ _. (tt, tt)) late-IsValid tt late-Holds refl

reserve_producer_space-Reserves_example :
    Reserves 2 true two_records (reserve_producer_space 2 ((peeks ∷ consumes 2 ∷ []) ∷ []) rolled)
unfolding peek
reserve_producer_space-Reserves_example =
    reserve_producer_space-Reserves 2 ((peeks ∷ consumes 2 ∷ []) ∷ []) rolled two_records
      (λ _. ((refl, omega arith, tt), tt)) rolled-IsValid (omega arith) rolled-Holds

peek-Answers_example : Holds (peek rolled).2 two_records × Answers (peek rolled) two_records
peek-Answers_example = peek-Answers rolled two_records rolled-IsValid (omega arith) rolled-Holds

consume-Holds_example : Holds (consume 2 rolled) ((7 ∷ 8 ∷ []) ∷ [])
consume-Holds_example =
    consume-Holds rolled (9 ∷ 9 ∷ []) ((7 ∷ 8 ∷ []) ∷ []) rolled-IsValid rolled-Holds (omega arith)
      (omega arith)

reserve_producer_space-drain_example :
    IsGranted
      (reserve_producer_space 1000 ((drain two_records ++ peeks ∷ []) ∷ (peeks ∷ []) ∷ []) rolled)
reserve_producer_space-drain_example =
    reserve_producer_space-drain 1000 rolled two_records (omega arith) rolled-IsValid (omega arith)
      rolled-Holds

reserve_producer_space-too_large_example :
    (reserve_producer_space 1048576 ((peeks ∷ []) ∷ (peeks ∷ []) ∷ []) (new 7)).0 ≡ waiting
reserve_producer_space-too_large_example =
    reserve_producer_space-too_large 1048576 ((peeks ∷ []) ∷ (peeks ∷ []) ∷ []) (new 7) []
      (omega arith) (λ _. (tt, λ _. (tt, tt))) (new-IsValid 7) tt (new-Holds 7)

check_can_delete-empty_example :
    ((check_can_delete late ≡ true) ⊎ (check_can_delete (peek late).2 ≡ true))
    ↔ ((late.should_deallocate ≡ true) × (◌≡◌ {A = List Bytes} [] []))
check_can_delete-empty_example = check_can_delete-empty late [] late-IsValid tt late-Holds
