-- ===== src/Threads.antt =====
-- The threads that log and the staging buffers that they get: `preallocate`,
-- `ensureStagingBufferAllocated`, `reserveAlloc`, `finishAlloc` and `StagingBufferDestroyer` of
-- src/static_log_backend.h. `staging_buffer_` is a pointer of each thread: how far it is, is the
-- thread's progress. What stands between two points where the mutex is free is one step, and so is
-- each call of a staging buffer; the address of a new object is a premise of its step.
pub mod Find
pub mod Kept
pub mod Keeps
pub mod Safety
pub mod Reachable
pub mod Ensure
mod Tests
use static_logger.Prelude.{
  ℕ, ◌+◌, ◌%◌, ◌^◌, Bool, true, false, Option, none, some, List, [], ◌∷◌, ◌++◌, ◌==◌, if◌then◌else◌,
  ◌≡◌, ◌≢◌,
}
use static_logger.Staging.{
  StagingBuffer, ConsumerStep, new, Reserved, reserve_producer_space, finish_reservation, store,
}
use static_logger.Backend.{ThreadBuffer}
use static_logger.Writer.{Surroundings}
use static_logger.Poll.{Turn, Poll, running, find, replace, poll_round}
use static_logger.Logger.{Logger, switched, set_log_file}

-- How far a thread is with its `staging_buffer_`.
pub data Progress : Type 0 where
  -- nullptr
  fresh : Progress
  -- it has its `bufferId`
  numbered : ℕ → Progress
  -- its new buffer is not yet in the vector
  allocated : ThreadBuffer → Progress
  -- the pointer leads to a buffer in the vector
  ready : ℕ → Progress
  -- its destroyer has run
  ended : Progress

-- `next_buffer_id_++`
unfoldable pub take_buffer_id : Logger → ℕ × Logger
take_buffer_id l = (l.next_buffer_id, record l { next_buffer_id = (l.next_buffer_id + 1) % 2 ^ 32 })

abbrev pub with_buffers : Logger → List ThreadBuffer → Logger
with_buffers l ts = record l { poll = record l.poll { thread_buffers = ts } }

-- `thread_buffers_.push_back(staging_buffer_)`
unfoldable pub push_back : ThreadBuffer → Logger → Logger
push_back t l = with_buffers l (l.poll.thread_buffers ++ (t ∷ []))

-- `ensureStagingBufferAllocated`, and so `preallocate`, of a thread that no other one disturbs: the
-- pointer `staging_buffer_` and the logger behind it, for a new object at `address`.
unfoldable pub ensure_staging_buffer_allocated : ℕ → Option ℕ → Logger → ℕ × Logger
ensure_staging_buffer_allocated address (some p) l = (p, l)
ensure_staging_buffer_allocated address none l =
    let (buffer_id, l') = take_buffer_id l in
    (address, push_back (record { address = address; buffer = new buffer_id }) l')

-- The object at an address has changed.
abbrev pub put_buffer : ℕ → Logger → StagingBuffer → Logger
put_buffer address l b = with_buffers l (replace address b l.poll.thread_buffers)

abbrev pub reserve_in :
    ℕ → List (List ConsumerStep) → ℕ → Logger → Option StagingBuffer → Option (Reserved × Logger)
reserve_in nbytes schedule address l none = none
reserve_in nbytes schedule address l (some b) =
    let out = reserve_producer_space nbytes schedule b in some (out.0, put_buffer address l out.1)

-- `reserveAlloc` behind its test of the pointer; `none` is an access to an object that is gone.
unfoldable pub reserve_alloc :
    ℕ → List (List ConsumerStep) → ℕ → Logger → Option (Reserved × Logger)
reserve_alloc nbytes schedule address l =
    reserve_in nbytes schedule address l (find address l.poll.thread_buffers)

-- A new state of the object, if there is one.
abbrev pub put_some : ℕ → Logger → Option StagingBuffer → Option Logger
put_some address l none = none
put_some address l (some b) = some (put_buffer address l b)

abbrev pub finish_in : ℕ → ℕ → Logger → Option StagingBuffer → Option Logger
finish_in nbytes address l none = none
finish_in nbytes address l (some b) = put_some address l (finish_reservation nbytes b)

-- `finishAlloc`; `none` is a failed assertion too.
unfoldable pub finish_alloc : ℕ → ℕ → Logger → Option Logger
finish_alloc nbytes address l = finish_in nbytes address l (find address l.poll.thread_buffers)

-- The thread fills what it has reserved.
abbrev pub fill_in : ℕ → List ℕ → ℕ → Logger → Option StagingBuffer → Option Logger
fill_in p bs address l none = none
fill_in p bs address l (some b) = some (put_buffer address l (store p bs b))

abbrev pub mark_in : ℕ → Logger → Option StagingBuffer → Option Logger
mark_in address l none = none
mark_in address l (some b) = some (put_buffer address l (record b { should_deallocate = true }))

-- `~StagingBufferDestroyer`, for a pointer that is not null
unfoldable pub destroy_staging_buffer : ℕ → Logger → Option Logger
destroy_staging_buffer address l = mark_in address l (find address l.poll.thread_buffers)

-- The logger and all threads.
pub record System : Type 0 where
  pub logger : Logger
  pub thread : ℕ → Progress

abbrev pub assign : ℕ → Progress → (ℕ → Progress) → ℕ → Progress
assign t p f u = if u == t then p else f u

-- No object stands there.
pub record IsFree (address : ℕ) (s : System) : Type 0 where
  pub not_in : find address s.logger.poll.thread_buffers ≡ none
  pub not_new : (t : ℕ) (b : ThreadBuffer) → s.thread t ≡ allocated b → b.address ≢ address

-- What the other threads do to their buffers is a step of its own.
abbrev pub AllStill : List Turn → Type 0
AllStill [] = Unit
AllStill (turn ∷ turns) = ((ts : List ThreadBuffer) → turn.before ts ≡ ts) × AllStill turns

-- What the threads and the backend do.
pub data Step (s : System) : System → Type 0 where
  numbers :
      (t : ℕ)
      → s.thread t ≡ fresh
      → Step s (record {
        logger = (take_buffer_id s.logger).1;
        thread = assign t (numbered (take_buffer_id s.logger).0) s.thread;
      })
  allocates :
      (t id address : ℕ)
      → s.thread t ≡ numbered id
      → IsFree address s
      → Step s (record s {
        thread = assign t (allocated (record { address = address; buffer = new id })) s.thread;
      })
  registers :
      (t : ℕ) (b : ThreadBuffer)
      → s.thread t ≡ allocated b
      → Step s
          (record { logger = push_back b s.logger; thread = assign t (ready b.address) s.thread })
  reserves :
      (t address nbytes : ℕ) (schedule : List (List ConsumerStep)) (out : Reserved) (l : Logger)
      → s.thread t ≡ ready address
      → reserve_alloc nbytes schedule address s.logger ≡ some (out, l)
      → Step s (record s { logger = l })
  fills :
      (t address p : ℕ) (bs : List ℕ) (l : Logger)
      → s.thread t ≡ ready address
      → fill_in p bs address s.logger (find address s.logger.poll.thread_buffers) ≡ some l
      → Step s (record s { logger = l })
  finishes :
      (t address nbytes : ℕ) (l : Logger)
      → s.thread t ≡ ready address
      → finish_alloc nbytes address s.logger ≡ some l
      → Step s (record s { logger = l })
  ends :
      (t address : ℕ) (l : Logger)
      → s.thread t ≡ ready address
      → destroy_staging_buffer address s.logger ≡ some l
      → Step s (record { logger = l; thread = assign t ended s.thread })
  polls :
      (env : Surroundings) (p : Poll)
      → poll_round env s.logger.poll ≡ running p
      → Step s (record s { logger = record s.logger { poll = p } })
  switches :
      (turns : List Turn) (opens : Bool) (l : Logger)
      → AllStill turns
      → set_log_file turns opens s.logger ≡ switched l
      → Step s (record s { logger = l })

-- Several steps.
pub data Reaches (s : System) : System → Type 0 where
  start : Reaches s s
  then_step : {t u : System} → Reaches s t → Step t u → Reaches s u
