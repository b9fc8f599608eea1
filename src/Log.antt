-- ===== src/Log.antt =====
-- The front end: the macro `STATIC_LOG` of src/static_log.h with `struct LogEntry` and `downCast` of
-- src/static_log_internal.h, and `setLogLevel` of src/static_log_backend.h.
pub mod Entry
pub mod Level
pub mod Room
mod Tests
use static_logger.Prelude.{
  ℕ, ◌+◌, ◌-◌, ◌%◌, ◌^◌, Bool, true, false, not, Option, none, some, List, [], ◌∷◌, ◌++◌, ltb, leb,
  if◌then◌else◌,
}
use static_logger.Prelude.Int.{ℤ, pos, negsuc, leb_ℤ}
use static_logger.Prelude.Memory.{Memory, write_bytes}
use static_logger.Prelude.Bytes.{le_bytes}
use static_logger.Format.Types.{ParamType}
use static_logger.Staging.{
  StagingBuffer, ConsumerStep, Reserved, space, null, waiting, reserve_producer_space,
  finish_reservation,
}
use static_logger.Args.{Arg, get_arg_sizes, Cursor, Stored, stored, throws, faults, store_arguments}

-- `enum LogLevel`, by the values of the enumerators from `kSILENT_LOG_LEVEL` to `kDEBUG`.
abbrev pub LogLevel : Type 0
LogLevel = ℕ

abbrev pub num_log_levels : ℕ
num_log_levels = 5

-- An integer that is cast to `LogLevel`, which g++ keeps in 32 bits, as it is compared and converted:
-- the enumerators all fit in an `int`, to which it is promoted.
abbrev pub as_log_level : ℤ → ℤ
as_log_level (pos n) =
    let bits = n % 2 ^ 32 in if ltb bits (2 ^ 31) then pos bits else negsuc (2 ^ 32 - 1 - bits)
as_log_level (negsuc n) =
    let bits = 2 ^ 32 - 1 - n % 2 ^ 32 in
    if ltb bits (2 ^ 31) then pos bits else negsuc (2 ^ 32 - 1 - bits)

-- The body of `setLogLevel`, for the promoted value.
abbrev pub clamped : ℤ → LogLevel
clamped (pos n) = if leb num_log_levels n then num_log_levels - 1 else n
clamped (negsuc n) = 0

-- `setLogLevel`: the new `current_log_level_`. A caller can pass any integer that it casts.
unfoldable pub set_log_level : ℤ → LogLevel
set_log_level l = clamped (as_log_level l)

-- What the macro fixes for one place in the program: the `static` objects by their addresses.
pub record Site : Type 0 where
  pub severity : LogLevel
  pub param_types : List ParamType
  pub static_info : ℕ
  pub param_size : ℕ

-- `sizeof(LogEntry)`
abbrev pub log_entry_size : ℕ
log_entry_size = 32

-- The constructor of `LogEntry`, at offset `p`: the two pointers. `entry_size` and `timestamp`,
-- which stand in front of them, are set later.
unfoldable pub construct : Site → ℕ → Memory → Memory
construct site p m =
    write_bytes m (p + 16) (le_bytes 8 site.static_info ++ le_bytes 8 site.param_size)

-- `downCast<uint32_t>`; `none` is the failed assertion.
unfoldable pub down_cast : ℕ → Option ℕ
down_cast large = if ltb large (2 ^ 32) then some (large % 2 ^ 32) else none

pub data Logged : Type 0 where
  -- below the level, with nothing done
  dropped : Logged
  -- still waiting for space
  blocked : Logged
  -- the exception of `storeArgument`
  threw : Logged
  -- a failed assertion, or an access out of range
  failed : Logged
  -- the entry is visible to the backend; the static array holds the sizes
  logged : List ℕ → StagingBuffer → Logged

abbrev pub finished : List ℕ → Option StagingBuffer → Logged
finished sizes none = failed
finished sizes (some b) = logged sizes b

-- `log_entry->entry_size` and `timestamp`, and `finishAlloc`; the memory is what the arguments have
-- been stored in.
abbrev pub fill_header : List ℕ → ℕ → ℕ → ℕ → StagingBuffer → Memory → Option ℕ → Logged
fill_header sizes p alloc_size timestamp b m none = failed
fill_header sizes p alloc_size timestamp b m (some entry_size) =
    let sized = write_bytes m (p + 8) (le_bytes 8 entry_size) in
    finished sizes (
      finish_reservation alloc_size
        (record b { storage = write_bytes sized p (le_bytes 8 timestamp) }))

-- Behind `storeArguments`.
abbrev pub seal : List ℕ → ℕ → ℕ → ℕ → StagingBuffer → Stored → Logged
seal sizes p alloc_size timestamp b throws = threw
seal sizes p alloc_size timestamp b faults = failed
seal sizes p alloc_size timestamp b (stored c) =
    fill_header sizes p alloc_size timestamp b c.memory (down_cast alloc_size)

-- The space is there, at offset `p`.
abbrev pub write_entry : Site → List ℕ → List Arg → ℕ → ℕ → Reserved × StagingBuffer → Logged
write_entry site sizes args alloc_size timestamp (waiting, b) = blocked
write_entry site sizes args alloc_size timestamp (null, b) = failed
write_entry site sizes args alloc_size timestamp (space p, b) =
    seal sizes p alloc_size timestamp b (
      store_arguments site.param_types sizes args
        (record { memory = construct site p b.storage; position = p + log_entry_size }))

-- The sizes of the arguments are known.
abbrev pub allocate :
    Site → List Arg → ℕ → List (List ConsumerStep) → StagingBuffer → Option (ℕ × List ℕ) → Logged
allocate site args timestamp schedule b none = failed
allocate site args timestamp schedule b (some (n, sizes)) =
    let alloc_size = (n + log_entry_size) % 2 ^ 64 in
    write_entry site sizes args alloc_size timestamp (reserve_producer_space alloc_size schedule b)

-- The macro, behind its constant expressions. `slots` is what the static array `param_size` holds,
-- `timestamp` the cycle counter, and the schedule what the backend does while the thread waits.
unfoldable pub static_log :
    Site → LogLevel → List ℕ → List Arg → ℕ → List (List ConsumerStep) → StagingBuffer → Logged
static_log site level slots args timestamp schedule b =
    if ltb level site.severity
    then dropped
    else allocate site args timestamp schedule b
        (get_arg_sizes site.param_types (2 ^ 64 - 1) slots args)
