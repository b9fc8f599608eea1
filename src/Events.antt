-- ===== src/Events.antt =====
-- Threads that log while the backend writes: any order of their operations. A log statement that
-- finds room, a round of `ioPoll`, and the begin and the end of a thread are one event each; the
-- macro `STATIC_LOG` of src/static_log.h and `StaticLogBackend` of src/static_log_backend.h.
pub mod Middle
pub mod Last
pub mod Exchange
pub mod Account
pub mod Joins
pub mod Logs
pub mod Polls
pub mod Runs
mod Tests
use static_logger.Prelude.{ℕ, Option, none, some, List, [], ◌∷◌}
use static_logger.Staging.{StagingBuffer}
use static_logger.Log.{Logged, logged, static_log}
use static_logger.Writer.{Surroundings}
use static_logger.Poll.{Polled, running, crashed, find, poll_round}
use static_logger.Logger.{Logger}
use static_logger.Threads.{
  Progress, fresh, ready, ended, ensure_staging_buffer_allocated, put_buffer,
  destroy_staging_buffer, System, assign,
}
use static_logger.Program.{Call}

pub data Event : Type 0 where
  -- the thread gets its staging buffer, at this address
  joins : ℕ → ℕ → Event
  logs : ℕ → Call → Event
  ends : ℕ → Event
  polls : Surroundings → Event

abbrev pub join_as : ℕ → ℕ → System → Progress → Option System
join_as t address s fresh = some (record {
  logger = (ensure_staging_buffer_allocated address none s.logger).1;
  thread = assign t (ready address) s.thread;
})
join_as t address s _ = none

-- What the statement has come to; the model stops where it waits, throws or fails.
abbrev pub store_at : ℕ → System → Logged → Option System
store_at address s (logged sizes d) = some (record s { logger = put_buffer address s.logger d })
store_at address s _ = none

abbrev pub log_at : ℕ → Call → System → Option StagingBuffer → Option System
log_at address c s none = none
log_at address c s (some b) =
    store_at address s
      (static_log c.site s.logger.current_log_level c.slots c.args c.timestamp [] b)

abbrev pub log_as : Call → System → Progress → Option System
log_as c s (ready address) = log_at address c s (find address s.logger.poll.thread_buffers)
log_as c s _ = none

abbrev pub with_ended : ℕ → System → Option Logger → Option System
with_ended t s none = none
with_ended t s (some l) = some (record { logger = l; thread = assign t ended s.thread })

abbrev pub end_as : ℕ → System → Progress → Option System
end_as t s (ready address) = with_ended t s (destroy_staging_buffer address s.logger)
end_as t s _ = none

abbrev pub with_poll : System → Polled → Option System
with_poll s crashed = none
with_poll s (running p) = some (record s { logger = record s.logger { poll = p } })

unfoldable pub happen : Event → System → Option System
happen (joins t address) s = join_as t address s (s.thread t)
happen (logs t c) s = log_as c s (s.thread t)
happen (ends t) s = end_as t s (s.thread t)
happen (polls env) s = with_poll s (poll_round env s.logger.poll)

abbrev pub go_on : (System → Option System) → Option System → Option System
go_on rest none = none
go_on rest (some s) = rest s

unfoldable pub run_events : List Event → System → Option System
run_events [] s = some s
run_events (e ∷ es) s = go_on (run_events es) (happen e s)
