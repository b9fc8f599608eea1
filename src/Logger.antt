-- ===== src/Logger.antt =====
-- `class StaticLogBackend` of src/static_log_backend.h and src/static_log_backend.cc around its
-- loop: the constructor, the destructor, `setLogFile` and the log level. The calls of the system
-- that they make are parameters: whether `open` succeeds, what `malloc` returns, and the turns that
-- the backend thread has until the caller stops waiting for it.
pub mod Switch
pub mod Close
mod Tests
use static_logger.Prelude.{
  ℕ, ◌*◌, Bool, true, false, Option, none, some, List, [], ◌∷◌, ◌++◌, if◌then◌else◌,
}
use static_logger.Prelude.Int.{ℤ}
use static_logger.Prelude.Memory.{Memory}
use static_logger.Log.{LogLevel, set_log_level}
use static_logger.Decode.{LogBuffer}
use static_logger.Poll.{Poll, Turn, Ended, polling, returned, aborted, io_poll}

-- `logger_`. `joinable` says whether `fdflush_` is a thread, and `closed` what has been written to
-- each file that is closed by now.
pub record Logger : Type 0 where
  pub poll : Poll
  pub current_log_level : LogLevel
  pub next_buffer_id : ℕ
  pub is_stop : Bool
  pub is_exit : Bool
  pub joinable : Bool
  pub closed : List (List ℕ)

-- `DEFALT_CACHE_SIZE`
abbrev pub default_cache_size : ℕ
default_cache_size = 1024 * 1024

-- The members behind the constructor, for the log buffer that `malloc` has returned.
abbrev pub started : ℕ × Memory → Logger
started (address, memory) = record {
  poll = record {
    thread_buffers = [];
    log_buffer = record { address = address; memory = memory; len = default_cache_size };
    opened = true;
    file = [];
  };
  current_log_level = 4;
  next_buffer_id = 0;
  is_stop = false;
  is_exit = false;
  joinable = true;
  closed = [];
}

abbrev pub with_log_buffer : Option (ℕ × Memory) → Option Logger
with_log_buffer none = none
with_log_buffer (some buffer) = some (started buffer)

-- The constructor; `none` is the end of the program by `exit(-1)`.
unfoldable pub construct_logger : Bool → (ℕ → Option (ℕ × Memory)) → Option Logger
construct_logger opens malloc = if opens then with_log_buffer (malloc default_cache_size) else none

-- What the backend thread reads of the flags while somebody waits for its end.
abbrev pub with_flags : Bool → Bool → List Turn → List Turn
with_flags is_stop is_exit [] = []
with_flags is_stop is_exit (turn ∷ turns) =
    record turn { is_stop = is_stop; is_exit = is_exit } ∷ with_flags is_stop is_exit turns

-- The files that are closed once the open one is.
abbrev pub close_file : Poll → List (List ℕ) → List (List ℕ)
close_file p files = if p.opened then files ++ (p.file ∷ []) else files

pub data Switched : Type 0 where
  switched : Logger → Switched
  -- still in `join`
  joining : Switched
  -- `join` has thrown, since there is no thread
  no_thread : Switched
  -- undefined behaviour of the backend thread
  crashed : Switched

-- `setLogFile` behind its `join`.
abbrev pub switch_file : Bool → Logger → Ended → Switched
switch_file opens l (polling p) = joining
switch_file opens l aborted = crashed
switch_file opens l (returned p) = switched (record l {
  poll = record p { opened = opens; file = [] };
  is_exit = false;
  joinable = opens;
  closed = close_file p l.closed;
})

-- `setLogFile`
unfoldable pub set_log_file : List Turn → Bool → Logger → Switched
set_log_file turns opens l =
    if l.joinable
    then switch_file opens (record l { is_stop = true; is_exit = true })
        (io_poll (with_flags true true turns) l.poll)
    else no_thread

-- `getLogLevel` and `setLogLevel`
unfoldable pub get_log_level : Logger → LogLevel
get_log_level l = l.current_log_level

unfoldable pub change_log_level : ℤ → Logger → Logger
change_log_level log_level l = record l { current_log_level = set_log_level log_level }

pub data Destroyed : Type 0 where
  -- the contents of the files, and the log buffer that has been freed
  destroyed : List (List ℕ) → ℕ → Destroyed
  -- still in `join`
  waits_for_thread : Destroyed
  -- undefined behaviour of the backend thread
  broken_thread : Destroyed

abbrev pub release : Logger → Ended → Destroyed
release l (polling p) = waits_for_thread
release l aborted = broken_thread
release l (returned p) = destroyed (close_file p l.closed) p.log_buffer.address

-- `~StaticLogBackend`
unfoldable pub destroy_logger : List Turn → Logger → Destroyed
destroy_logger turns l =
    release l
      (if l.joinable then io_poll (with_flags true l.is_exit turns) l.poll else returned l.poll)
