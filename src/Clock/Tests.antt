-- ===== src/Clock/Tests.antt =====
-- A time of the year 2024.
use static_logger.Prelude.{ℕ, ◌^◌, ◌<◌, some, ◌≡◌, arith}
use static_logger.Prelude.Memory.{write_bytes}
use static_logger.Prefix.{generate_time_prefix}
use static_logger.Prefix.Time.{time_text}
use static_logger.Writer.Sample.{noon, noon-IsTm}
use static_logger.Clock.{Timespec, get_nanotime}
use static_logger.Clock.Span.{get_nanotime-time_text}

abbrev leap_day : Timespec
leap_day = record { tv_sec = 1709208359; tv_nsec = 42 }

get_nanotime-time_text_example :
    (n : ℕ) × (get_nanotime leap_day ≡ some n)
    × (n < 2 ^ 63)
    × (generate_time_prefix (λ _. noon) n (λ _. 0) 7
        ≡ (31, write_bytes (λ _. 0) 7 (time_text noon 42)))
get_nanotime-time_text_example =
    get_nanotime-time_text (λ _. noon) leap_day (λ _. 0) 7 (omega arith) (omega arith) noon-IsTm
