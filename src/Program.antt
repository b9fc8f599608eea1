-- ===== src/Program.antt =====
-- The front end and the back end together: from `STATIC_LOG` of src/static_log.h to the log file
-- that `StaticLogBackend` of src/static_log_backend.cc writes.
pub mod Calls
pub mod Run
pub mod Sample
mod Tests
use static_logger.Prelude.{ℕ, ◌+◌, ◌^◌, ◌<◌, Option, none, some, List, [], ◌∷◌}
use static_logger.Format.Grammar.{Piece}
use static_logger.Staging.{StagingBuffer, new}
use static_logger.Args.{Arg}
use static_logger.Log.{LogLevel, Site, Logged, logged, static_log}
use static_logger.Backend.{ThreadBuffer}
use static_logger.Logger.{Logger}
use static_logger.Poll.{find}
use static_logger.Threads.{ensure_staging_buffer_allocated, put_buffer, destroy_staging_buffer}

-- A log statement as a program makes it: `n` bytes and `sizes` are what `getArgSizes` computes from
-- the array `slots`; `format` and `level` are the text of its format and of its level.
pub record Call : Type 0 where
  pub site : Site
  pub format : List Piece
  pub level : List ℕ
  pub slots : List ℕ
  pub sizes : List ℕ
  pub args : List Arg
  pub n : ℕ
  pub timestamp : ℕ

abbrev pub go_on : (StagingBuffer → Option StagingBuffer) → Logged → Option StagingBuffer
go_on rest (logged sizes b) = rest b
go_on rest _ = none

-- Several log statements of one thread, each of which finds room at once.
unfoldable pub log_calls : LogLevel → List Call → StagingBuffer → Option StagingBuffer
log_calls current [] b = some b
log_calls current (c ∷ cs) b =
    go_on (log_calls current cs) (static_log c.site current c.slots c.args c.timestamp [] b)

abbrev pub end_thread : ℕ → Logger → Option StagingBuffer → Option Logger
end_thread address l none = none
end_thread address l (some b) = destroy_staging_buffer address (put_buffer address l b)

abbrev pub log_in :
    (StagingBuffer → Option StagingBuffer) → Option StagingBuffer → Option StagingBuffer
log_in f none = none
log_in f (some b) = f b

-- A thread from its first log statement to its end: `ensureStagingBufferAllocated`, the statements
-- and the destroyer. Its staging buffer stands at `address`.
unfoldable pub run_thread : ℕ → List Call → Logger → Option Logger
run_thread address cs l =
    let (p, l') = ensure_staging_buffer_allocated address none l in
    end_thread p l' (log_in (log_calls l.current_log_level cs) (find p l'.poll.thread_buffers))
