-- ===== src/Threads/Tests.antt =====
-- A thread that gets its staging buffer, and a round of the backend behind it.
use static_logger.Prelude.{ℕ, Bool-cases, inl, inr, false, some, [], ◌==◌, ◌≡◌, refl}
use static_logger.Staging.{StagingBuffer, Reserved, new}
use static_logger.Backend.{ThreadBuffer}
use static_logger.Poll.{find}
use static_logger.Logger.{Logger, started}
use static_logger.Threads.{
  fresh, numbered, allocated, ready, take_buffer_id, push_back, reserve_alloc,
  destroy_staging_buffer, System, assign, numbers, allocates, registers, Reaches, start, then_step,
}
use static_logger.Threads.Reachable.{reaches-ready}

abbrev before_all : System
before_all = record { logger = started (1024, λ _. 0); thread = λ _. fresh }

abbrev with_id : System
with_id = record {
  logger = (take_buffer_id before_all.logger).1;
  thread = assign 1 (numbered (take_buffer_id before_all.logger).0) before_all.thread;
}

abbrev first_buffer : ThreadBuffer
first_buffer = record { address = 4096; buffer = new 0 }

abbrev with_buffer : System
with_buffer = record with_id { thread = assign 1 (allocated first_buffer) with_id.thread }

abbrev registered : System
registered = record {
  logger = push_back first_buffer with_buffer.logger;
  thread = assign 1 (ready 4096) with_buffer.thread;
}

none_allocated : (t : ℕ) (b : ThreadBuffer) → assign 1 (numbered 0) (λ _. fresh) t ≡ allocated b → ⊥
none_allocated t b e = elim (Bool-cases (t == 1)) [
  | inl it ↦ let wrong = rw it at e in cc
  | inr other ↦ let wrong = rw other at e in cc
]

with_id-Reaches : Reaches before_all with_buffer
unfolding take_buffer_id
with_id-Reaches = then_step (then_step start (numbers 1 refl)) (
    allocates 1 0 4096 refl
      (record { not_in = refl; not_new = λ t b e. absurd (none_allocated t b e) }))

reaches-ready_example :
    (b : StagingBuffer) × (find 4096 registered.logger.poll.thread_buffers ≡ some b)
    × (b.should_deallocate ≡ false)
    × ((v : ℕ) → registered.thread v ≡ ready 4096 → v ≡ 1)
    × ((out : Reserved × Logger) × (reserve_alloc 40 [] 4096 registered.logger ≡ some out))
    × ((l : Logger) × (destroy_staging_buffer 4096 registered.logger ≡ some l))
reaches-ready_example =
    reaches-ready before_all registered 1 4096 40 [] (refl, λ t. refl)
      (then_step with_id-Reaches (registers 1 first_buffer refl)) refl
