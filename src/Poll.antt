-- ===== src/Poll.antt =====
-- `StaticLogBackend::ioPoll` of src/static_log_backend.cc: the rounds of the backend thread. A round
-- is the loop of Backend, and then `processLogBuffer` on the buffer that it has chosen, or a wait.
-- A turn of the loop says what the other threads have set and done meanwhile: the two flags, the
-- clock, and the staging buffers at the test of the loop, which a wait may stand before, and when
-- the mutex has been taken again.
pub mod Merge
pub mod Pending
pub mod Remaining
pub mod Spot
pub mod Rounds
pub mod Drain
pub mod Finish
use static_logger.Prelude.{
  ℕ, Bool, true, false, ◌&&◌, Option, none, some, List, [], ◌∷◌, ◌==◌, if◌then◌else◌,
}
use static_logger.Staging.{StagingBuffer}
use static_logger.Backend.{ThreadBuffer, Scan, scan, Next, processes, waits, next}
use static_logger.Decode.{LogBuffer}
use static_logger.Writer.{Surroundings, Output, Round, done, broken, process_log_buffer}

-- What the backend thread works on. `opened` is `outfd_ != -1`.
pub record Poll : Type 0 where
  pub thread_buffers : List ThreadBuffer
  pub log_buffer : LogBuffer
  pub opened : Bool
  pub file : List ℕ

-- The object that a pointer to a staging buffer leads to.
abbrev pub find : ℕ → List ThreadBuffer → Option StagingBuffer
find address [] = none
find address (t ∷ ts) = if t.address == address then some t.buffer else find address ts

abbrev pub replace : ℕ → StagingBuffer → List ThreadBuffer → List ThreadBuffer
replace address b [] = []
replace address b (t ∷ ts) =
    if t.address == address
    then record { address = t.address; buffer = b } ∷ ts
    else t ∷ replace address b ts

-- `crashed` is undefined behaviour.
pub data Polled : Type 0 where
  running : Poll → Polled
  crashed : Polled

abbrev pub put_back : ℕ → Poll → Round → Polled
put_back address s broken = crashed
put_back address s (done o) = running (record {
  thread_buffers = replace address o.staging s.thread_buffers;
  log_buffer = o.log_buffer;
  opened = o.opened;
  file = o.file;
})

-- `processLogBuffer(earliest_thead_buffer.second)`
abbrev pub process_buffer : Surroundings → ℕ → Poll → Option StagingBuffer → Polled
process_buffer env address s none = crashed
process_buffer env address s (some b) = put_back address s (
    process_log_buffer env
      (record { staging = b; log_buffer = s.log_buffer; opened = s.opened; file = s.file }))

-- The end of the body of the `while`. What happens during a wait is seen in the next turn.
abbrev pub after_scan : Surroundings → Poll → Next → Polled
after_scan env s waits = running s
after_scan env s (processes none) = crashed
after_scan env s (processes (some address)) =
    process_buffer env address s (find address s.thread_buffers)

-- The body of the `while`, once the mutex has been taken again.
unfoldable pub poll_round : Surroundings → Poll → Polled
poll_round env s =
    let found = scan s.thread_buffers in
    after_scan env (record s { thread_buffers = found.0 }) (next found.1)

-- One turn of the `while`.
pub record Turn : Type 0 where
  pub is_stop : Bool
  pub is_exit : Bool
  pub surroundings : Surroundings
  pub before : List ThreadBuffer → List ThreadBuffer
  pub meanwhile : List ThreadBuffer → List ThreadBuffer

pub data Ended : Type 0 where
  -- still in the loop when the turns end
  polling : Poll → Ended
  returned : Poll → Ended
  aborted : Ended

abbrev pub is_empty : List ThreadBuffer → Bool
is_empty [] = true
is_empty (t ∷ ts) = false

-- The backend at the test of the loop.
abbrev pub at_test : Turn → Poll → Poll
at_test turn s = record s { thread_buffers = turn.before s.thread_buffers }

-- The backend when it has taken the mutex again.
abbrev pub locked_again : Turn → Poll → Poll
locked_again turn s = record s { thread_buffers = turn.meanwhile s.thread_buffers }

abbrev pub continue_with : (Poll → Ended) → Polled → Ended
continue_with rest crashed = aborted
continue_with rest (running s) = rest s

-- `ioPoll`, with the turns that it has time for.
unfoldable pub io_poll : List Turn → Poll → Ended
io_poll [] s = polling s
io_poll (turn ∷ turns) s =
    let now = at_test turn s in
    if turn.is_stop && is_empty now.thread_buffers
    then returned now
    else (if turn.is_exit
        then returned now
        else continue_with (io_poll turns) (poll_round turn.surroundings (locked_again turn now)))
