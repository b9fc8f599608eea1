-- ===== src/Backend.antt =====
-- The round of `StaticLogBackend::ioPoll` of src/static_log_backend.cc: it deletes the staging
-- buffers of ended threads and looks for the entry that is to be formatted next.
-- An element of `thread_buffers_` is the address of a staging buffer with the object there, which
-- nothing else owns. The index is a `size_t`, and `--i` before the `++i` of the loop gives the old
-- value back, wrapped or not. The timestamp is the first member of a `LogEntry`.
pub mod Sweep
pub mod Queues
pub mod Choice
mod Tests
use static_logger.Prelude.{
  ℕ, zero, suc, ◌+◌, ◌-◌, ◌^◌, Bool, true, false, not, Option, none, some, List, [], ◌∷◌, ◌==◌, ltb,
  if◌then◌else◌, length, get_elem?,
}
use static_logger.Prelude.Memory.{read_bytes}
use static_logger.Prelude.Bytes.{le_value}
use static_logger.Staging.{StagingBuffer, peek, check_can_delete}

-- An element of `thread_buffers_`.
pub record ThreadBuffer : Type 0 where
  pub address : ℕ
  pub buffer : StagingBuffer

abbrev pub uint64_max : ℕ
uint64_max = 2 ^ 64 - 1

-- `earliest_thead_buffer`
pub record Earliest : Type 0 where
  pub first : ℕ
  pub second : Option ℕ

-- `log_entry->timestamp`
abbrev pub timestamp_at : ℕ → StagingBuffer → ℕ
timestamp_at p b = le_value (read_bytes b.storage p 8)

-- What the loop does with the entry that a peek at a buffer shows.
unfoldable pub compare_earliest : ℕ → ℕ × ℕ × StagingBuffer → Earliest → Earliest
compare_earliest address (raw_data, bytes_available, b) e =
    if ltb 0 bytes_available
    then (if ltb (timestamp_at raw_data b) e.first
        then record { first = timestamp_at raw_data b; second = some address }
        else e)
    else e

-- `thread_buffers_.erase(thread_buffers_.begin() + i)`
abbrev pub erase : ℕ → List ThreadBuffer → List ThreadBuffer
erase i [] = []
erase zero (t ∷ ts) = ts
erase (suc i) (t ∷ ts) = t ∷ erase i ts

-- The object at index `i` has changed.
abbrev pub set : ℕ → ThreadBuffer → List ThreadBuffer → List ThreadBuffer
set i t [] = []
set zero t (u ∷ ts) = t ∷ ts
set (suc i) t (u ∷ ts) = u ∷ set i t ts

abbrev pub Scan : Type 0
Scan = List ThreadBuffer × Earliest

-- The body of the `for`, at index `i`: the index of the next round, and the new state.
unfoldable pub visit : ℕ → ThreadBuffer → Scan → ℕ × Scan
visit i t (ts, e) =
    if not (check_can_delete t.buffer)
    then (let seen = peek t.buffer in
        (
          i + 1,
          (
            set i (record { address = t.address; buffer = seen.2 }) ts,
            compare_earliest t.address seen e,
          ),
        ))
    else (i, (erase i ts, e))

-- `for(size_t i = 0; i < thread_buffers_.size(); ++i)`: a round either goes to the next index or
-- takes an element away, so the number of elements is fuel enough.
unfoldable pub scan_from : ℕ → ℕ → Scan → Scan
scan_from zero i s = s
scan_from (suc fuel) i s = elim (get_elem? s.0 i) [
  | none ↦ s
  | some t ↦ let (i', s') = visit i t s in scan_from fuel i' s'
]

-- The `for` of a round of `ioPoll`.
unfoldable pub scan : List ThreadBuffer → Scan
scan ts = scan_from (length ts) 0 (ts, record { first = uint64_max; second = none })

-- How the round ends: the backend formats the first entry of a buffer, or waits for new ones.
pub data Next : Type 0 where
  processes : Option ℕ → Next
  waits : Next

unfoldable pub next : Earliest → Next
next e = if not (e.first == uint64_max) then processes e.second else waits
