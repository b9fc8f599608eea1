-- ===== src/Staging/Invariant.antt =====
-- The positions of a staging buffer, and that every operation keeps them in order.
use static_logger.Prelude.{ℕ, ◌+◌, ◌-◌, ◌≤◌, ◌<◌, some, ◌≡◌, ◌⊎◌, arith, ltb, if◌then◌else◌}
use static_logger.Staging.{
  staging_buffer_size, StagingBuffer, new, peek, consume, reserve_round, finish_reservation,
}

-- The bytes from `consumer_pos` to the next point where the consumer must look at the producer.
abbrev pub available : StagingBuffer → ℕ
available b =
    if ltb b.producer_pos b.consumer_pos
    then b.end_of_recorded_space - b.consumer_pos
    else b.producer_pos - b.consumer_pos

-- Either the data is in one piece and the space behind it is free, or the producer has rolled over
-- and the space up to the consumer is free.
pub record IsValid (b : StagingBuffer) : Type 0 where
  pub producer_in : b.producer_pos < staging_buffer_size
  pub free :
      ((b.consumer_pos ≤ b.producer_pos)
        × (b.min_free_space + b.producer_pos ≤ staging_buffer_size))
      ⊎ ((b.producer_pos < b.consumer_pos)
          × (b.min_free_space + b.producer_pos ≤ b.consumer_pos)
          × (b.consumer_pos ≤ b.end_of_recorded_space)
          × (b.end_of_recorded_space < staging_buffer_size))

pub new-IsValid : (id : ℕ) → IsValid (new id)
unfolding new
new-IsValid id = ground arith

pub peek-IsValid : {b : StagingBuffer} → IsValid b → IsValid (peek b).2
unfolding peek
peek-IsValid v = ground arith

pub consume-IsValid :
    {b : StagingBuffer} (n : ℕ) → IsValid b → n ≤ available b → IsValid (consume n b)
unfolding consume
consume-IsValid n v h = ground arith

pub reserve_round-IsValid :
    {b : StagingBuffer} (n : ℕ) → IsValid b → IsValid (reserve_round n b.consumer_pos b).1
unfolding reserve_round
reserve_round-IsValid n v = ground arith

pub finish_reservation-IsValid :
    {b c : StagingBuffer} (n : ℕ) → IsValid b → finish_reservation n b ≡ some c → IsValid c
unfolding finish_reservation
finish_reservation-IsValid n v e = ground arith
