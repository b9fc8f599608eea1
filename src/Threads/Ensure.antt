-- ===== src/Threads/Ensure.antt =====
-- `ensureStagingBufferAllocated` by the steps of a thread.
use static_logger.Prelude.{ℕ, true, Bool-cases, inl, inr, none, ◌==◌, ◌≡◌, refl, arith}
use static_logger.Staging.{new}
use static_logger.Backend.{ThreadBuffer}
use static_logger.Threads.{
  Progress, fresh, numbered, allocated, ready, take_buffer_id, push_back,
  ensure_staging_buffer_allocated, System, assign, IsFree, numbers, allocates, registers, Reaches,
  start, then_step,
}

assign-same : (t : ℕ) (p : Progress) (f : ℕ → Progress) → assign t p f t ≡ p
assign-same t p f = let test : (t == t) ≡ true = ground arith in rw test refl

-- The thread with its number.
abbrev with_number : System → ℕ → System
with_number s t = record {
  logger = (take_buffer_id s.logger).1;
  thread = assign t (numbered (take_buffer_id s.logger).0) s.thread;
}

still-IsFree : (s : System) (t address : ℕ) → IsFree address s → IsFree address (with_number s t)
unfolding take_buffer_id
still-IsFree s t address free = record {
  not_in = free.not_in;
  not_new = λ u b e. elim (Bool-cases (u == t)) [
    | inl it ↦ let wrong = rw it at e in cc
    | inr other ↦ free.not_new u b (rw other at e)
  ];
}

-- A thread without a buffer, at a moment when an address is free: if no other thread goes on
-- meanwhile, its three steps lead to what `ensureStagingBufferAllocated` does, and it is ready.
pub ensure_staging_buffer_allocated-Reaches :
    (s : System) (t address : ℕ)
    → s.thread t ≡ fresh
    → IsFree address s
    → (u : System) × Reaches s u
      × (ensure_staging_buffer_allocated address none s.logger ≡ (address, u.logger))
      × (u.thread t ≡ ready address)
unfolding ensure_staging_buffer_allocated
ensure_staging_buffer_allocated-Reaches s t address e free =
    let b : ThreadBuffer = record { address = address; buffer = new (take_buffer_id s.logger).0 } in
    let s1 = with_number s t in
    let s2 : System = record s1 { thread = assign t (allocated b) s1.thread } in
    let u : System = record {
      logger = push_back b s2.logger;
      thread = assign t (ready address) s2.thread;
    } in
    let made = assign-same t (numbered (take_buffer_id s.logger).0) s.thread in
    (
      u,
      then_step
          (then_step (then_step start (numbers t e))
            (allocates t (take_buffer_id s.logger).0 address made (still-IsFree s t address free)))
          (registers t b (assign-same t (allocated b) s1.thread)),
      refl,
      assign-same t (ready address) s2.thread,
    )
