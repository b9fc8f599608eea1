-- ===== src/Writer/Line.antt =====
-- The line that `processLogBuffer` writes for an entry.
use static_logger.Prelude.{
  ℕ, ◌+◌, ◌*◌, ◌/◌, ◌%◌, ◌^◌, ◌≤◌, ◌<◌, true, some, List, [], ◌∷◌, ◌++◌, length, length-append,
  lt→ltb, get_elem?, if◌then◌else◌, ◌≡◌, refl, sym, ap, ap₂, ◌∙◌, inl, arith,
}
use static_logger.Prelude.Memory.{
  Memory, read_bytes, write_bytes, read_bytes-append, length-read_bytes, read_bytes-write_bytes,
  read_bytes-write_bytes_apart, write_bytes-append,
}
use static_logger.Prelude.Bytes.{le_bytes, le_value}
use static_logger.Staging.{StagingBuffer, peek, consume}
use static_logger.Log.{log_entry_size}
use static_logger.Prefix.{
  StaticInfo, log_level_str, generate_time_prefix, generate_call_info_prefix,
}
use static_logger.Prefix.Time.{IsTm, time_text, generate_time_prefix-text}
use static_logger.Prefix.CallInfo.{call_info_text, generate_call_info_prefix-named}
use static_logger.Format.Grammar.{Piece, print, types, IsFormat}
use static_logger.Decode.{LogBuffer, has_param_buffer}
use static_logger.Process.{Processed, process_fmt}
use static_logger.Process.Render.{rendered, IsStatic}
use static_logger.Process.Print.{Prints, process_fmt-rendered}
use static_logger.Writer.{
  Surroundings, Output, done, write_out, put_newline, finish_line, format_entry, process_log_buffer,
}

-- The file and the staging buffer behind a line.
abbrev pub with_line : ℕ → List ℕ → LogBuffer → Output → Output
with_line entry_size line b o = record o {
  staging = consume entry_size o.staging;
  log_buffer = b;
  file = o.file ++ line;
}

newline-apart :
    (b : LogBuffer) (p q n : ℕ)
    → q + n ≤ p
    → read_bytes (put_newline p b).memory q n ≡ read_bytes b.memory q n
unfolding write_bytes
newline-apart b p q n h = read_bytes-write_bytes_apart b.memory p (10 ∷ []) q n (inl h)

-- What stands from the start of a buffer on.
read-line :
    (m : Memory) (head text : List ℕ) (k : ℕ)
    → read_bytes m 0 (length head) ≡ head
    → read_bytes m (length head) (length text) ≡ text
    → read_bytes m 0 (length head + (length text + k))
      ≡ head ++ (text ++ read_bytes m (length head + length text) k)
read-line m head text k h t =
    let here : 0 + length head ≡ length head = omega arith in
    read_bytes-append m 0 (length head) (length text + k)
    ∙ ap₂ ◌++◌ h (
        ap (λ q. read_bytes m q (length text + k)) here
        ∙ read_bytes-append m (length head) (length text) k
        ∙ ap (λ s. s ++ read_bytes m (length head + length text) k) t)

finish_line-Prints :
    (o : Output) (b : LogBuffer) (head text : List ℕ) (entry_size : ℕ) (result : Processed)
    → o.opened ≡ true
    → read_bytes b.memory 0 (length head) ≡ head
    → Prints b (length head) text result
    → 2 * length head + length text < b.len
    → (c : LogBuffer) × (extra : List ℕ) × (finish_line (length head) entry_size o result
        ≡ done (with_line entry_size (head ++ (text ++ extra)) c o))
      × (length extra ≡ length head + 1)
      × (c.len ≡ b.len)
finish_line-Prints o b head text entry_size result opened start (c, e, len, printed) room =
    let n = length head in
    let p = n + (n + length text) in
    let d = put_newline p c in
    let extra = read_bytes d.memory (n + length text) (n + 1) in
    let o' : Output = record o { log_buffer = d } in
    let count : p + 1 ≡ n + (length text + (n + 1)) = omega arith in
    let front = newline-apart c p 0 n (omega arith) ∙ printed.before ∙ start in
    let middle = newline-apart c p n (length text) (omega arith) ∙ printed.printed in
    let line =
      ap (read_bytes d.memory 0) count ∙ read-line d.memory head text (n + 1) front middle in
    let inside = lt→ltb p c.len (omega arith) in
    (
      d,
      extra,
      rw (e, inside)
          (ap (λ t. if t then done (write_out (p + 1) entry_size o') else done o') opened
            ∙ ap (λ s. done (with_line entry_size s d o)) line),
      length-read_bytes d.memory (n + length text) (n + 1),
      len,
    )

-- What stands in front of a message.
abbrev pub line_head : Surroundings → StaticInfo → List ℕ → List ℕ
line_head env info level =
    time_text (env.localtime (env.nanotime / 1000000000)) (env.nanotime % 1000000000)
    ++ call_info_text level info

-- The staging buffer with the time in the entry at offset `p`.
abbrev pub stamped : Surroundings → ℕ → StagingBuffer → StagingBuffer
stamped env p s = record s { storage = write_bytes s.storage p (le_bytes 8 env.nanotime) }

-- The log buffer with both prefixes.
abbrev pub prefixed : Surroundings → StaticInfo → List ℕ → LogBuffer → LogBuffer
prefixed env info level b = record b { memory = write_bytes b.memory 0 (line_head env info level) }

format_entry-prefixed :
    (env : Surroundings) (o : Output) (info : StaticInfo) (level : List ℕ) (p entry_size : ℕ)
    → IsTm (env.localtime (env.nanotime / 1000000000))
    → get_elem? log_level_str info.log_level ≡ some level
    → let (ts_len, m) = generate_time_prefix env.localtime env.nanotime o.log_buffer.memory 0 in
      let n = length (line_head env info level) in
      format_entry env info p entry_size ts_len o (generate_call_info_prefix info m ts_len)
      ≡ finish_line n entry_size o (
          process_fmt env.platform o.staging.storage info.format info.param_types
            (env.param_size (le_value (read_bytes o.staging.storage (p + 24) 8)))
            (p + log_entry_size)
            (prefixed env info level o.log_buffer)
            n)
format_entry-prefixed env o info level p entry_size tm named =
    let m = o.log_buffer.memory in
    let time = time_text (env.localtime (env.nanotime / 1000000000)) (env.nanotime % 1000000000) in
    let call = call_info_text level info in
    let (written, len) = generate_time_prefix-text env.localtime env.nanotime m 0 tm in
    let start : 0 + length time ≡ 31 = omega arith in
    let both : write_bytes (write_bytes m 0 time) 31 call ≡ write_bytes m 0 (time ++ call) =
      ap (λ q. write_bytes (write_bytes m 0 time) q call) (sym start)
      ∙ sym (write_bytes-append m 0 time call) in
    let total : 31 + length call ≡ length (time ++ call) = omega (arith, length-append time call) in
    rw
      (
        written,
        generate_call_info_prefix-named info (write_bytes m 0 time) 31 level named,
        both,
        total,
      )
      refl

-- What the entry at offset `p` of a stamped staging buffer points to, and its size.
abbrev pub pointer_in : Surroundings → ℕ → StagingBuffer → ℕ → ℕ
pointer_in env p s offset = le_value (read_bytes (stamped env p s).storage (p + offset) 8)

abbrev pub info_of : Surroundings → ℕ → StagingBuffer → StaticInfo
info_of env p s = env.static_info (pointer_in env p s 16)

abbrev pub sizes_of : Surroundings → ℕ → StagingBuffer → List ℕ
sizes_of env p s = env.param_size (pointer_in env p s 24)

abbrev pub message_of : Surroundings → List Piece → ℕ → StagingBuffer → List ℕ
message_of env ps p s =
    rendered env.platform (stamped env p s).storage ps (sizes_of env p s) (p + log_entry_size)

-- An entry with a format without `*` and a level that has a name, which fits in the log buffer
-- together with twice its prefixes, in a build without assertions where each copy of a string finds
-- its space: `processLogBuffer` consumes the entry by its own size, and appends to the file both
-- prefixes with the time of the processing, the whole message, and as many more bytes as the prefixes
-- have, and one. The log buffer keeps its length.
pub process_log_buffer-line :
    (env : Surroundings) (o : Output) (ps : List Piece) (p n : ℕ) (s : StagingBuffer)
    (level : List ℕ)
    → peek o.staging ≡ (p, n, s)
    → 0 < n
    → (info_of env p s).format ≡ print ps
    → (info_of env p s).param_types ≡ types ps
    → get_elem? log_level_str (info_of env p s).log_level ≡ some level
    → IsFormat ps
    → IsStatic ps (sizes_of env p s)
    → IsTm (env.localtime (env.nanotime / 1000000000))
    → env.platform.ndebug ≡ true
    → ((k : ℕ) → has_param_buffer env.platform k ≡ true)
    → o.opened ≡ true
    → o.log_buffer.len < 2 ^ 64
    → 2 * length (line_head env (info_of env p s) level) + length (message_of env ps p s)
      < o.log_buffer.len
    → let head = line_head env (info_of env p s) level in
      (c : LogBuffer) × (extra : List ℕ) × (process_log_buffer env o
        ≡ done (
            with_line
              (pointer_in env p s 8)
              (head ++ (message_of env ps p s ++ extra))
              c
              (record o { staging = stamped env p s })))
      × (length extra ≡ length head + 1)
      × (c.len ≡ o.log_buffer.len)
unfolding process_log_buffer
process_log_buffer-line env o ps p n s level found pos fmt params named f static tm release copies
      opened small room =
    let info = info_of env p s in
    let head = line_head env info level in
    let text = message_of env ps p s in
    let o' : Output = record o { staging = stamped env p s } in
    let b = prefixed env info level o.log_buffer in
    let prints =
      process_fmt-rendered env.platform (stamped env p s).storage ps (sizes_of env p s)
        (p + log_entry_size) b (length head) f static release copies small (omega arith) in
    rw
      (
        found,
        lt→ltb 0 n pos,
        format_entry-prefixed env o' info level p (pointer_in env p s 8) tm named,
        fmt,
        params,
      )
      (finish_line-Prints o' b head text (pointer_in env p s 8) _ opened
        (read_bytes-write_bytes o.log_buffer.memory 0 head) prints room)
