-- ===== src/Clock.antt =====
-- `get_nanotime` of src/static_log_cycles.c: the time that the backend gives a log entry.
-- `clock_gettime` is a parameter: the two members of the `struct timespec` that it fills.
pub mod Span
mod Tests
use static_logger.Prelude.{ℕ, ◌+◌, ◌*◌, ◌^◌, Option, none, some, ltb, if◌then◌else◌}

-- `struct timespec`, for a time that is not before 1970
pub record Timespec : Type 0 where
  pub tv_sec : ℕ
  pub tv_nsec : ℕ

-- A result of an operation on `int64_t`; `none` is an overflow.
abbrev pub as_int64 : ℕ → Option ℕ
as_int64 n = if ltb n (2 ^ 63) then some n else none

abbrev pub plus_nsec : ℕ → Option ℕ → Option ℕ
plus_nsec nsec none = none
plus_nsec nsec (some n) = as_int64 (n + nsec)

-- `get_nanotime`
unfoldable pub get_nanotime : Timespec → Option ℕ
get_nanotime clock = plus_nsec clock.tv_nsec (as_int64 (clock.tv_sec * 1000000000))
