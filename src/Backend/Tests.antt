-- ===== src/Backend/Tests.antt =====
-- Witnesses and tests of the rounds of `ioPoll`.
use static_logger.Prelude.{ℕ, true, some, none, List, [], ◌∷◌, ◌≡◌, ◌⊎◌, inl, refl, arith}
use static_logger.Prelude.Memory.{read_bytes}
use static_logger.Prelude.Bytes.{le_value}
use static_logger.Staging.{StagingBuffer, peek, check_can_delete}
use static_logger.Staging.Invariant.{IsValid}
use static_logger.Staging.Queue.{Bytes, Holds}
use static_logger.Backend.{
  compare_earliest, visit, scan_from, scan, uint64_max, processes, waits, next,
}
use static_logger.Backend.Sweep.{swept, compared, scan-swept}
use static_logger.Backend.Queues.{
  Queued, threads, AllQueued, Head, heads, AllFrom, kept, all_entries, scan-kept,
}
use static_logger.Backend.Choice.{IsEarliest, scan-IsEarliest}

-- A buffer with `n` bytes, all of them `v`.
abbrev filled : ℕ → ℕ → StagingBuffer
filled n v = record {
  producer_pos = n;
  end_of_recorded_space = 1048576;
  min_free_space = 1000;
  cycles_producer_blocked = 0;
  num_times_producer_blocked = 0;
  num_allocations = 1;
  consumer_pos = 0;
  should_deallocate = true;
  id = v;
  storage = λ _. v;
}

abbrev eight : ℕ → Bytes
eight v = v ∷ v ∷ v ∷ v ∷ v ∷ v ∷ v ∷ v ∷ []

-- The buffer of an ended thread, with nothing in it, and two with an entry each.
abbrev three_threads : List Queued
three_threads =
    record { thread = record { address = 64; buffer = filled 0 7 }; entries = [] }
    ∷ record { thread = record { address = 128; buffer = filled 8 5 }; entries = eight 5 ∷ [] }
    ∷ record { thread = record { address = 192; buffer = filled 8 3 }; entries = eight 3 ∷ [] }
    ∷ []

filled-IsValid : (v : ℕ) → IsValid (filled 8 v)
filled-IsValid v = omega arith

filled-Holds : (v : ℕ) → Holds (filled 8 v) (eight v ∷ [])
unfolding read_bytes
filled-Holds v = inl (omega arith, refl)

empty-Holds : Holds (filled 0 7) []
unfolding read_bytes
empty-Holds = inl (omega arith, refl)

three_threads-AllQueued : AllQueued three_threads
three_threads-AllQueued = (
  record { valid = omega arith; stamped = tt; holds = empty-Holds },
  (
    record { valid = filled-IsValid 5; stamped = (omega arith, tt); holds = filled-Holds 5 },
    (record { valid = filled-IsValid 3; stamped = (omega arith, tt); holds = filled-Holds 3 }, tt),
  ),
)

-- The third buffer has the earliest entry.
third_first : next (scan (threads three_threads)).1 ≡ processes (some 192)
unfolding next scan scan_from visit compare_earliest peek check_can_delete read_bytes le_value
third_first = refl

scan-swept_example : scan (threads three_threads) ≡ (
  swept (threads three_threads),
  compared (threads three_threads) (record { first = uint64_max; second = none }),
)
scan-swept_example = scan-swept (threads three_threads)

scan-kept_example :
    ((scan (threads three_threads)).0 ≡ threads (kept three_threads))
    × AllQueued (kept three_threads)
    × (all_entries (kept three_threads) ≡ all_entries three_threads)
scan-kept_example = scan-kept three_threads three_threads-AllQueued

scan-IsEarliest_example :
    ((next (scan (threads three_threads)).1 ≡ waits) × AllFrom uint64_max (heads three_threads))
    ⊎ ((h : Head) × (next (scan (threads three_threads)).1 ≡ processes (some h.address))
        × IsEarliest h (heads three_threads))
scan-IsEarliest_example = scan-IsEarliest three_threads three_threads-AllQueued
