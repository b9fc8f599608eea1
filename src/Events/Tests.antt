-- ===== src/Events/Tests.antt =====
-- Two threads, one of which logs a statement before a round of the backend.
use static_logger.Prelude.{ℕ, none, some, List, [], ◌∷◌, ◌≡◌, refl, subst, arith}
use static_logger.Staging.{new}
use static_logger.Writer.{Surroundings}
use static_logger.Writer.Entry.{IsCalm}
use static_logger.Writer.Sample.{env, env-IsCalm}
use static_logger.Logger.{started, default_cache_size}
use static_logger.Threads.{
  fresh, ready, ensure_staging_buffer_allocated, take_buffer_id, push_back, System, assign,
}
use static_logger.Program.Sample.{count_call, count_call-IsCall, count_call-IsServed}
use static_logger.Program.Calls.{IsServed}
use static_logger.Events.{Event, joins, logs, polls, happen, run_events}
use static_logger.Events.Account.{Account}
use static_logger.Events.Runs.{AllFine, run_events-Account}

abbrev before_all : System
before_all = record { logger = started (1024, λ _. 0); thread = λ _. fresh }

abbrev two_threads : List Event
two_threads = joins 1 4096 ∷ joins 2 2097152 ∷ logs 1 (count_call 1000) ∷ polls env ∷ []

abbrev ServesCall : Surroundings → Type 0
ServesCall around = IsCalm around × IsServed around default_cache_size (count_call 1000)

abbrev joined : ℕ → ℕ → System → System
joined t address s = record {
  logger = (ensure_staging_buffer_allocated address none s.logger).1;
  thread = assign t (ready address) s.thread;
}

some_system : {s t : System} → some s ≡ some t → s ≡ t
some_system e = cc

two_threads-AllFine :
    AllFine ServesCall (λ around served. served.0) default_cache_size [] two_threads before_all
unfolding happen ensure_staging_buffer_allocated take_buffer_id push_back new
two_threads-AllFine = (
  (refl, refl),
  λ s e.
      subst
        (AllFine ServesCall (λ around served. served.0) default_cache_size []
          (joins 2 2097152 ∷ logs 1 (count_call 1000) ∷ polls env ∷ []))
        (some_system {s = joined 1 4096 before_all} {t = s} e)
        (
          (refl, refl),
          λ t e'.
              subst
                (AllFine ServesCall (λ around served. served.0) default_cache_size []
                  (logs 1 (count_call 1000) ∷ polls env ∷ []))
                (some_system {s = joined 2 2097152 (joined 1 4096 before_all)} {t = t} e')
                (
                  (
                    count_call-IsCall 1000 (omega arith),
                    (4096, new 0, refl, refl, omega arith),
                    λ around served. served.1,
                  ),
                  λ u e''. ((env-IsCalm, count_call-IsServed 1000), λ v e3. tt),
                ),
        ),
)

run_events-Account_example :
    (s : System) × (run_events two_threads before_all ≡ some s)
    × Account ServesCall default_cache_size [] two_threads s
run_events-Account_example =
    run_events-Account ServesCall (λ around served. served.0) default_cache_size [] two_threads
      before_all
      (record {
        no_buffers = refl;
        is_open = refl;
        same_len = refl;
        small = omega arith;
        all_fresh = λ t. refl;
      })
      refl two_threads-AllFine
