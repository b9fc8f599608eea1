-- ===== src/Staging.antt =====
-- `class StagingBuffer` of src/static_log_backend.h, with `reserveSpaceInternal` and `peek` of
-- src/static_log_backend.cc: the circular byte queue between a logging thread and the backend.
-- A pointer into `storage_` is its offset. `cacheline_spacer_` is left out.
-- An operation is one step here; the blocking loop of the producer says what the consumer does
-- between two reads of `consumer_pos_`.
pub mod Invariant
pub mod Queue
pub mod Consumer
pub mod Blocking
pub mod Progress
pub mod Deletion
mod Tests
use static_logger.Prelude.{
  ℕ, zero, suc, ◌+◌, ◌-◌, ◌*◌, ◌%◌, ◌^◌, Bool, true, false, not, ◌&&◌, Option, none, some, List, [],
  ◌∷◌, ◌==◌, ltb, leb, if◌then◌else◌,
}
use static_logger.Prelude.Memory.{Memory, write_bytes}

-- `kSTAGING_BUFFER_SIZE`
abbrev pub staging_buffer_size : ℕ
staging_buffer_size = 1048576

pub record StagingBuffer : Type 0 where
  pub producer_pos : ℕ
  pub end_of_recorded_space : ℕ
  pub min_free_space : ℕ
  pub cycles_producer_blocked : ℕ
  pub num_times_producer_blocked : ℕ
  pub num_allocations : ℕ
  pub consumer_pos : ℕ
  pub should_deallocate : Bool
  pub id : ℕ
  pub storage : Memory

-- The difference of two pointers, as the `uint64_t` that it is stored in.
abbrev pub pointer_diff : ℕ → ℕ → ℕ
pointer_diff p q = (p + 2 ^ 64 - q) % 2 ^ 64

-- The constructor.
unfoldable pub new : ℕ → StagingBuffer
new buffer_id = record {
  producer_pos = 0;
  end_of_recorded_space = staging_buffer_size;
  min_free_space = staging_buffer_size;
  cycles_producer_blocked = 0;
  num_times_producer_blocked = 0;
  num_allocations = 0;
  consumer_pos = 0;
  should_deallocate = false;
  id = buffer_id;
  storage = λ _. 0;
}

-- A peek at the data: the offset and the number of the bytes that can be consumed.
unfoldable pub peek : StagingBuffer → ℕ × ℕ × StagingBuffer
peek b =
    if ltb b.producer_pos b.consumer_pos
    then (let left = pointer_diff b.end_of_recorded_space b.consumer_pos in
        if ltb 0 left
        then (b.consumer_pos, left, b)
        else (0, pointer_diff b.producer_pos 0, record b { consumer_pos = 0 }))
    else (b.consumer_pos, pointer_diff b.producer_pos b.consumer_pos, b)

unfoldable pub consume : ℕ → StagingBuffer → StagingBuffer
consume nbytes b = record b { consumer_pos = b.consumer_pos + nbytes }

unfoldable pub check_can_delete : StagingBuffer → Bool
check_can_delete b = b.should_deallocate && b.consumer_pos == b.producer_pos

-- Not enough space at the end of the buffer; the producer goes to the start unless it would meet
-- the consumer there.
unfoldable pub wrap_around : ℕ → StagingBuffer → StagingBuffer
wrap_around cached_consumer_pos b =
    let marked = record b { end_of_recorded_space = b.producer_pos } in
    if not (cached_consumer_pos == 0)
    then record marked { producer_pos = 0; min_free_space = pointer_diff cached_consumer_pos 0 }
    else marked

-- The body of the loop of `reserveSpaceInternal` up to its last statement, with the flag of the
-- `break`.
unfoldable pub reserve_round : ℕ → ℕ → StagingBuffer → Bool × StagingBuffer
unfolding wrap_around
reserve_round nbytes cached_consumer_pos b =
    if leb cached_consumer_pos b.producer_pos
    then (let b' = record b { min_free_space = pointer_diff staging_buffer_size b.producer_pos } in
        if ltb nbytes b'.min_free_space
        then (true, b')
        else (false, wrap_around cached_consumer_pos b'))
    else (false, record b { min_free_space = pointer_diff cached_consumer_pos b.producer_pos })

-- What the backend thread does to a buffer while the producer waits.
pub data ConsumerStep : Type 0 where
  peeks : ConsumerStep
  consumes : ℕ → ConsumerStep

unfoldable pub consumer_run : List ConsumerStep → StagingBuffer → StagingBuffer
consumer_run [] b = b
consumer_run (peeks ∷ steps) b = consumer_run steps (peek b).2
consumer_run (consumes n ∷ steps) b = consumer_run steps (consume n b)

-- `waiting` is a producer that is still in its loop when the schedule of the consumer ends.
pub data Reserved : Type 0 where
  space : ℕ → Reserved
  null waiting : Reserved

-- The end of a round: `rest` is what the next rounds come to.
abbrev pub after_round :
    ℕ → Bool → Reserved × StagingBuffer → Bool → StagingBuffer → Reserved × StagingBuffer
after_round nbytes blocking rest true b = (space b.producer_pos, b)
after_round nbytes true rest false b = rest
after_round nbytes false rest false b = if leb b.min_free_space nbytes then (null, b) else rest

-- The loop `while (min_free_space_ <= nbytes)`. The schedule says what the consumer does before
-- each read of `consumer_pos_`.
unfoldable pub reserve_space_internal :
    ℕ → Bool → List (List ConsumerStep) → StagingBuffer → Reserved × StagingBuffer
reserve_space_internal nbytes blocking [] b =
    if leb b.min_free_space nbytes then (waiting, b) else (space b.producer_pos, b)
reserve_space_internal nbytes blocking (steps ∷ schedule) b =
    let seen = consumer_run steps b in
    let (broke, b') = reserve_round nbytes seen.consumer_pos seen in
    let rest = reserve_space_internal nbytes blocking schedule b' in
    if leb b.min_free_space nbytes
    then after_round nbytes blocking rest broke b'
    else (space b.producer_pos, b)

-- `++num_allocations_`
abbrev pub counted : StagingBuffer → StagingBuffer
counted b = record b { num_allocations = (b.num_allocations + 1) % 2 ^ 64 }

unfoldable pub reserve_producer_space :
    ℕ → List (List ConsumerStep) → StagingBuffer → Reserved × StagingBuffer
reserve_producer_space nbytes schedule b =
    if ltb nbytes b.min_free_space
    then (space b.producer_pos, counted b)
    else reserve_space_internal nbytes true schedule (counted b)

-- `none` is a failed assertion.
unfoldable pub finish_reservation : ℕ → StagingBuffer → Option StagingBuffer
finish_reservation nbytes b =
    if ltb nbytes b.min_free_space && ltb (b.producer_pos + nbytes) staging_buffer_size
    then some (record b {
      min_free_space = b.min_free_space - nbytes;
      producer_pos = b.producer_pos + nbytes;
    })
    else none

-- The producer fills the space that it has reserved.
unfoldable pub store : ℕ → List ℕ → StagingBuffer → StagingBuffer
store p bs b = record b { storage = write_bytes b.storage p bs }
