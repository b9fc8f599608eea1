-- ===== src/Program/Tests.antt =====
-- A program with two log statements, and a logger with one of them in its queue.
use static_logger.Prelude.{ℕ, true, false, some, List, [], ◌∷◌, ◌≡◌, refl, arith}
use static_logger.Writer.Sample.{env, env-IsCalm}
use static_logger.Poll.{Turn}
use static_logger.Poll.Drain.{Lines}
use static_logger.Logger.{
  Logger, default_cache_size, construct_logger, destroyed, with_flags, destroy_logger,
}
use static_logger.Program.Sample.{count_call, count_call-IsCall, count_call-IsServed}
use static_logger.Program.{Call, run_thread}
use static_logger.Program.Calls.{all_stamped}
use static_logger.Program.Run.{IsServing, AllServing, run_thread-Lines}

abbrev two_calls : List Call
two_calls = count_call 1000 ∷ count_call 1003 ∷ []

abbrev turn : Turn
turn = record {
  is_stop = false;
  is_exit = false;
  surroundings = env;
  before = λ ts. ts;
  meanwhile = λ ts. ts;
}

abbrev five_turns : List Turn
five_turns = turn ∷ turn ∷ turn ∷ turn ∷ turn ∷ []

turns-AllServing : AllServing default_cache_size two_calls five_turns
turns-AllServing = (serving, (serving, (serving, (serving, (serving, tt)))))
  where
    serving : IsServing default_cache_size two_calls turn
    serving = record {
      goes_on = refl;
      still = λ ts. refl;
      quiet = λ ts. refl;
      calm = env-IsCalm;
      served = (count_call-IsServed 1000, (count_call-IsServed 1003, tt));
    }

run_thread-Lines_example :
    (l l' : Logger) × (bytes : List ℕ) × (freed : ℕ) × (construct_logger true env.platform.malloc
      ≡ some l)
    × (run_thread 4096 two_calls l ≡ some l')
    × (destroy_logger five_turns l' ≡ destroyed (bytes ∷ []) freed)
    × Lines (with_flags true false five_turns) (all_stamped two_calls) bytes
run_thread-Lines_example =
    run_thread-Lines env.platform.malloc (4096, λ _. 0) 4096 two_calls five_turns refl
      (
        count_call-IsCall 1000 (omega arith),
        omega arith,
        (count_call-IsCall 1003 (omega arith), omega arith, tt),
      )
      turns-AllServing (omega arith)
