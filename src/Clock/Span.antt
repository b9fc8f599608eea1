-- ===== src/Clock/Span.antt =====
-- How long the clock can run, and what of it stands in the log.
use static_logger.Prelude.{
  ℕ, ◌+◌, ◌*◌, ◌^◌, ◌%◌, ◌/◌, ◌<◌, true, some, ltb, ◌≡◌, refl, sym, ap₂, subst, ◌∙◌, arith,
}
use static_logger.Prelude.Memory.{Memory, write_bytes}
use static_logger.Prefix.{Tm, generate_time_prefix}
use static_logger.Prefix.Time.{IsTm, time_text, generate_time_prefix-text}
use static_logger.Clock.{Timespec, get_nanotime}

-- For a time before the second 9223372036, with less than 10^9 nanoseconds: `get_nanotime` does not
-- overflow, its result is below 2^63, and the time in front of an entry that has this result is
-- that of the local time of the second, with these nanoseconds.
pub get_nanotime-time_text :
    (localtime : ℕ → Tm) (clock : Timespec) (m : Memory) (p : ℕ)
    → clock.tv_sec < 9223372036
    → clock.tv_nsec < 1000000000
    → IsTm (localtime clock.tv_sec)
    → (n : ℕ) × (get_nanotime clock ≡ some n)
      × (n < 2 ^ 63)
      × (generate_time_prefix localtime n m p
          ≡ (31, write_bytes m p (time_text (localtime clock.tv_sec) clock.tv_nsec)))
unfolding get_nanotime
get_nanotime-time_text localtime clock m p early nsec tm =
    let s = clock.tv_sec in
    let n = s * 1000000000 + clock.tv_nsec in
    let small : ltb (s * 1000000000) (2 ^ 63) ≡ true = ground arith in
    let sum_small : ltb n (2 ^ 63) ≡ true = ground arith in
    let sec : n / 1000000000 ≡ s = omega arith in
    let nano : n % 1000000000 ≡ clock.tv_nsec = omega arith in
    let text =
      generate_time_prefix-text localtime n m p (subst (λ k. IsTm (localtime k)) (sym sec) tm) in
    (
      n,
      rw (small, sum_small) refl,
      omega arith,
      text.0 ∙ ap₂ (λ k j. (31, write_bytes m p (time_text (localtime k) j))) sec nano,
    )
