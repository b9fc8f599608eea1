-- ===== src/Logger/Tests.antt =====
-- A logger with one statement in the queue of an ended thread.
use static_logger.Prelude.{ℕ, true, false, List, [], ◌∷◌, ◌++◌, ◌≡◌, refl, arith}
use static_logger.Prelude.Bytes.{le_bytes}
use static_logger.Staging.{new}
use static_logger.Staging.Invariant.{new-IsValid}
use static_logger.Staging.Queue.{new-Holds, appended, finish_reservation-store}
use static_logger.Writer.Entry.{bytes_of}
use static_logger.Writer.Sample.{env, counted_seven, env-IsCalm, counted_seven-IsStatement}
use static_logger.Poll.{Turn, Poll, returned, io_poll}
use static_logger.Poll.Merge.{Stamped, Merges}
use static_logger.Poll.Pending.{Pending, IsHeld, queues}
use static_logger.Poll.Rounds.{IsBacklog}
use static_logger.Poll.Drain.{IsQuiet, Drained, Lines, io_poll-Drained}
use static_logger.Logger.{
  Logger, switched, no_thread, destroyed, with_flags, set_log_file, destroy_logger,
}
use static_logger.Logger.Close.{destroy_logger-Merges}
use static_logger.Logger.Switch.{set_log_file-Drained, set_log_file-ends, set_log_file-no_thread}

abbrev waiting : Stamped
waiting = record { statement = counted_seven; timestamp = 1000 }

abbrev last_thread : Pending
last_thread = record {
  owner = 1;
  thread = record {
    address = 4096;
    buffer = record (appended (bytes_of counted_seven 1000) (new 1)) { should_deallocate = true };
  };
  statements = waiting ∷ [];
}

last_thread-IsHeld : IsHeld last_thread
unfolding new le_bytes
last_thread-IsHeld =
    let (_, valid, holds) =
      finish_reservation-store (new 1) (bytes_of counted_seven 1000) [] (new-IsValid 1)
        (new-Holds 1) (omega arith) in
    record { valid = record { producer_in = valid.producer_in; free = valid.free }; holds = holds }

abbrev logger : Logger
logger = record {
  poll = record {
    thread_buffers = last_thread.thread ∷ [];
    log_buffer = record { address = 1024; memory = λ _. 0; len = 1000 };
    opened = true;
    file = b'o' ∷ b'l' ∷ b'd' ∷ [];
  };
  current_log_level = 4;
  next_buffer_id = 2;
  is_stop = false;
  is_exit = false;
  joinable = true;
  closed = [];
}

logger-IsBacklog : IsBacklog logger.poll (last_thread ∷ [])
logger-IsBacklog = record {
  same_buffers = refl;
  held = (last_thread-IsHeld, tt);
  apart = (tt, tt);
  single = (tt, tt);
  is_open = refl;
  small = omega arith;
}

abbrev turn : Turn
turn = record {
  is_stop = false;
  is_exit = false;
  surroundings = env;
  before = λ ts. ts;
  meanwhile = λ ts. ts;
}

turn-IsQuiet : IsQuiet 1000 (queues (last_thread ∷ [])) turn
turn-IsQuiet = record {
  goes_on = refl;
  still = λ ts. refl;
  quiet = λ ts. refl;
  calm = env-IsCalm;
  ready = ((counted_seven-IsStatement, omega arith, tt), tt);
}

io_poll-Drained_example : (after : Poll) × Drained (turn ∷ []) logger.poll (last_thread ∷ []) after
io_poll-Drained_example =
    io_poll-Drained (turn ∷ []) logger.poll (last_thread ∷ []) logger-IsBacklog (turn-IsQuiet, tt)
      (omega arith)

abbrev four_turns : List Turn
four_turns = turn ∷ turn ∷ turn ∷ turn ∷ []

destroy_logger-Merges_example :
    (address : ℕ) × (written : List Stamped) × (bytes : List ℕ) × (destroy_logger four_turns logger
      ≡ destroyed ([] ++ (((b'o' ∷ b'l' ∷ b'd' ∷ []) ++ bytes) ∷ [])) address)
    × Merges ((waiting ∷ []) ∷ []) written
    × Lines (with_flags true false four_turns) written bytes
destroy_logger-Merges_example =
    destroy_logger-Merges four_turns logger (last_thread ∷ []) refl refl logger-IsBacklog (refl, tt)
      (turn-IsQuiet, (turn-IsQuiet, (turn-IsQuiet, (turn-IsQuiet, tt)))) (omega arith)

set_log_file-Drained_example :
    (l' : Logger) × (after : Poll) × (set_log_file (turn ∷ []) true logger ≡ switched l')
    × (l'.closed ≡ [] ++ ((b'o' ∷ b'l' ∷ b'd' ∷ []) ∷ []))
    × (l'.poll.file ≡ [])
    × Drained (turn ∷ []) l'.poll (last_thread ∷ []) after
set_log_file-Drained_example =
    set_log_file-Drained turn [] (turn ∷ []) logger (last_thread ∷ []) refl (λ ts. refl)
      logger-IsBacklog (turn-IsQuiet, tt) (omega arith)

-- No thread has logged yet.
abbrev unused : Logger
unused = record logger { poll = record logger.poll { thread_buffers = [] } }

set_log_file-ends_example :
    (l' : Logger) × (set_log_file (turn ∷ []) true unused ≡ switched l')
    × (io_poll (with_flags l'.is_stop l'.is_exit (turn ∷ turn ∷ [])) l'.poll ≡ returned l'.poll)
set_log_file-ends_example = set_log_file-ends turn turn [] (turn ∷ []) unused refl refl refl

set_log_file-no_thread_example :
    (l' : Logger) × (set_log_file (turn ∷ []) false logger ≡ switched l')
    × (l'.poll.thread_buffers ≡ logger.poll.thread_buffers)
    × (set_log_file (turn ∷ []) true l' ≡ no_thread)
set_log_file-no_thread_example = set_log_file-no_thread turn [] (turn ∷ []) true logger refl
