-- ===== src/Writer.antt =====
-- `StaticLogBackend::processLogBuffer` of src/static_log_backend.cc: one entry goes from a staging
-- buffer to the log file. The pointers of an entry to static objects are numbers, and a parameter
-- says what stands there; the log file is the bytes that have been written to it.
pub mod Line
pub mod Stamp
pub mod Entry
pub mod Statement
pub mod Outcome
pub mod Sample
mod Tests
use static_logger.Prelude.{
  ℕ, ◌+◌, ◌-◌, Bool, true, false, Option, none, some, List, ◌++◌, ltb, if◌then◌else◌,
}
use static_logger.Prelude.Memory.{Memory, read_bytes, write_bytes, update}
use static_logger.Prelude.Bytes.{le_bytes, le_value}
use static_logger.Staging.{StagingBuffer, peek, consume}
use static_logger.Log.{log_entry_size}
use static_logger.Prefix.{Tm, StaticInfo, generate_time_prefix, generate_call_info_prefix}
use static_logger.Decode.{Platform, LogBuffer}
use static_logger.Process.{Processed, formatted, error, process_fmt}

-- What the code finds outside itself: the clock, the calendar, and the objects at two addresses.
pub record Surroundings : Type 0 where
  pub platform : Platform
  pub nanotime : ℕ
  pub localtime : ℕ → Tm
  pub static_info : ℕ → StaticInfo
  pub param_size : ℕ → List ℕ

-- The state of the backend that the function changes. `opened` is `outfd_ != -1`.
pub record Output : Type 0 where
  pub staging : StagingBuffer
  pub log_buffer : LogBuffer
  pub opened : Bool
  pub file : List ℕ

-- `broken` is undefined behaviour, or a failed assertion, in the formatting or behind it.
pub data Round : Type 0 where
  done : Output → Round
  broken : Round

-- `write` and `consume`
abbrev pub write_out : ℕ → ℕ → Output → Output
write_out count entry_size o = record o {
  file = o.file ++ read_bytes o.log_buffer.memory 0 count;
  staging = consume entry_size o.staging;
}

-- `*log = '\n'`
abbrev pub put_newline : ℕ → LogBuffer → LogBuffer
put_newline p b = record b { memory = update b.memory p 10 }

-- Behind `process_fmt`, for the lengths of the two prefixes together.
abbrev pub finish_line : ℕ → ℕ → Output → Processed → Round
finish_line prefix_len entry_size o (formatted len b) =
    if ltb (prefix_len + len) b.len
    then (let o' = record o { log_buffer = put_newline (prefix_len + len) b } in
        if o.opened then done (write_out (prefix_len + len + 1) entry_size o') else done o')
    else broken
finish_line prefix_len entry_size o (error b) =
    done (record o { log_buffer = put_newline (prefix_len - 1) b })
finish_line prefix_len entry_size o _ = broken

-- The entry at offset `p`, behind both prefixes.
abbrev pub format_entry :
    Surroundings → StaticInfo → ℕ → ℕ → ℕ → Output → Option (ℕ × Memory) → Round
format_entry env info p entry_size ts_len o none = broken
format_entry env info p entry_size ts_len o (some (callinfo_len, m)) =
    finish_line (ts_len + callinfo_len) entry_size o (
      process_fmt env.platform o.staging.storage info.format info.param_types
        (env.param_size (le_value (read_bytes o.staging.storage (p + 24) 8))) (p + log_entry_size)
        (record o.log_buffer { memory = m }) (ts_len + callinfo_len))

-- An entry has been found at offset `p`: its time is that of its processing.
abbrev pub process_entry : Surroundings → ℕ → Output → Round
process_entry env p o =
    let s = record o.staging {
      storage = write_bytes o.staging.storage p (le_bytes 8 env.nanotime);
    } in
    let info = env.static_info (le_value (read_bytes s.storage (p + 16) 8)) in
    let entry_size = le_value (read_bytes s.storage (p + 8) 8) in
    let (ts_len, m) = generate_time_prefix env.localtime env.nanotime o.log_buffer.memory 0 in
    format_entry env info p entry_size ts_len (record o { staging = s })
      (generate_call_info_prefix info m ts_len)

abbrev pub process_peeked : Surroundings → Output → ℕ × ℕ × StagingBuffer → Round
process_peeked env o (p, bytes_available, s) =
    if ltb 0 bytes_available
    then process_entry env p (record o { staging = s })
    else done (record o { staging = s })

-- `processLogBuffer`
unfoldable pub process_log_buffer : Surroundings → Output → Round
process_log_buffer env o = process_peeked env o (peek o.staging)
