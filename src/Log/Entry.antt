-- ===== src/Log/Entry.antt =====
-- What `STATIC_LOG` puts into the staging buffer.
use static_logger.Prelude.{
  ℕ, ◌+◌, ◌-◌, ◌%◌, ◌^◌, ◌≤◌, ◌<◌, true, false, some, List, [], ◌∷◌, ◌++◌, ltb, length,
  length-append, ◌≡◌, refl, sym, ap, ◌∙◌, ◌⊎◌, inl, inr, arith,
}
use static_logger.Prelude.Memory.{Memory, write_bytes, write_bytes-append, write_bytes-before}
use static_logger.Prelude.Bytes.{le_bytes, length-le_bytes}
use static_logger.Staging.{
  StagingBuffer, ConsumerStep, Reserved, space, null, waiting, counted, finish_reservation, store,
}
use static_logger.Staging.Invariant.{IsValid}
use static_logger.Staging.Queue.{Bytes, AllNonempty, Holds, appended, finish_reservation-store}
use static_logger.Staging.Blocking.{PoliteSchedule, Reserves, reserve_producer_space-Reserves}
use static_logger.Args.{Arg, get_arg_sizes, Cursor, put, stored, store_arguments}
use static_logger.Args.Layout.{payloads, AllShort, store_arguments-payloads}
use static_logger.Log.{
  LogLevel, Site, log_entry_size, construct, down_cast, blocked, Logged, logged, finished,
  fill_header, seal, write_entry, static_log,
}

-- The pointers to the static objects.
abbrev pub pointers : Site → Bytes
pointers site = le_bytes 8 site.static_info ++ le_bytes 8 site.param_size

-- A log entry: the time, its own size, the pointers and the arguments.
abbrev pub entry_bytes : Site → List ℕ → List Arg → ℕ → ℕ → Bytes
entry_bytes site sizes args timestamp size =
    le_bytes 8 timestamp
    ++ (le_bytes 8 size ++ (pointers site ++ payloads site.param_types sizes args))

pub length-entry_bytes :
    (site : Site) (sizes : List ℕ) (args : List Arg) (timestamp size : ℕ)
    → length (entry_bytes site sizes args timestamp size)
      ≡ length (payloads site.param_types sizes args) + 32
length-entry_bytes site sizes args timestamp size =
    let body = payloads site.param_types sizes args in
    omega (
      arith,
      length-append (le_bytes 8 timestamp) (le_bytes 8 size ++ (pointers site ++ body)),
      length-append (le_bytes 8 size) (pointers site ++ body),
      length-append (pointers site) body,
      length-append (le_bytes 8 site.static_info) (le_bytes 8 site.param_size),
      length-le_bytes 8 timestamp,
      length-le_bytes 8 size,
      length-le_bytes 8 site.static_info,
      length-le_bytes 8 site.param_size,
    )

-- The header is written around the arguments, back to front; the result is one write.
entry_memory :
    (m : Memory) (p : ℕ) (ts es hdr body : Bytes)
    → length ts ≡ 8
    → length es ≡ 8
    → length hdr ≡ 16
    → write_bytes
        (write_bytes (write_bytes (write_bytes m (p + 16) hdr) (p + 32) body) (p + 8) es)
        p
        ts
      ≡ write_bytes m p (ts ++ (es ++ (hdr ++ body)))
entry_memory m p ts es hdr body t e h =
    let behind : p + 32 ≡ p + 16 + length hdr = omega arith in
    let inner =
      ap (λ q. write_bytes (write_bytes m (p + 16) hdr) q body) behind
      ∙ sym (write_bytes-append m (p + 16) hdr body) in
    ap (λ k. write_bytes (write_bytes k (p + 8) es) p ts) inner
    ∙ ap (λ k. write_bytes k p ts)
        (write_bytes-before m (p + 8) (p + 16) es (hdr ++ body) (omega arith))
    ∙ write_bytes-before m p (p + 8) ts (es ++ (hdr ++ body)) (omega arith)

down_cast-lt : (size : ℕ) → size < 2 ^ 32 → down_cast size ≡ some size
unfolding down_cast
down_cast-lt size h = ground arith

seal-entry :
    (site : Site) (sizes : List ℕ) (args : List Arg) (size timestamp : ℕ) (b : StagingBuffer)
    → size < 2 ^ 32
    → let body = payloads site.param_types sizes args in
      let start : Cursor = record {
        memory = construct site b.producer_pos b.storage;
        position = b.producer_pos + log_entry_size;
      } in
      seal sizes b.producer_pos size timestamp b (stored (put body start))
      ≡ finished sizes (
          finish_reservation size
            (store b.producer_pos (entry_bytes site sizes args timestamp size) b))
unfolding construct put store
seal-entry site sizes args size timestamp b h =
    ap (fill_header sizes b.producer_pos size timestamp b _) (down_cast-lt size h)
    ∙ ap (λ m. finished sizes (finish_reservation size (record b { storage = m })))
        (entry_memory b.storage b.producer_pos (le_bytes 8 timestamp) (le_bytes 8 size)
          (pointers site) (payloads site.param_types sizes args) (length-le_bytes 8 timestamp)
          (length-le_bytes 8 size)
          (omega (
            arith,
            length-append (le_bytes 8 site.static_info) (le_bytes 8 site.param_size),
            length-le_bytes 8 site.static_info,
            length-le_bytes 8 site.param_size,
          )))

-- What a log statement has done to a queue of records, when it is not below the level.
abbrev pub Logs : Site → List Arg → List ℕ → ℕ → ℕ → List Bytes → Logged → Type 0
Logs site args sizes size timestamp rs out =
    (out ≡ blocked)
    ⊎ ((taken kept : List Bytes) × (d : StagingBuffer) × (out ≡ logged sizes d)
        × (rs ≡ taken ++ kept)
        × IsValid d
        × Holds d (kept ++ entry_bytes site sizes args timestamp size ∷ []))

-- The space is there: the entry becomes the last record.
pub write_entry-space :
    (site : Site) (sizes : List ℕ) (args : List Arg) (size timestamp : ℕ) (rs : List Bytes)
    (b : StagingBuffer)
    → size < 2 ^ 32
    → length (entry_bytes site sizes args timestamp size) ≡ size
    → ((c : Cursor)
        → store_arguments site.param_types sizes args c
          ≡ stored (put (payloads site.param_types sizes args) c))
    → IsValid b
    → Holds b rs
    → size < b.min_free_space
    → let d = appended (entry_bytes site sizes args timestamp size) b in
      (write_entry site sizes args size timestamp (space b.producer_pos, b) ≡ logged sizes d)
      × IsValid d
      × Holds d (rs ++ entry_bytes site sizes args timestamp size ∷ [])
write_entry-space site sizes args size timestamp rs b small len stores v h room =
    let entry = entry_bytes site sizes args timestamp size in
    let (done, valid, holds) = finish_reservation-store b entry rs v h (rw len room) in
    (
      ap (seal sizes b.producer_pos size timestamp b) (stores _)
          ∙ seal-entry site sizes args size timestamp b small
          ∙ ap (finished sizes)
              (ap (λ k. finish_reservation k (store b.producer_pos entry b)) (sym len) ∙ done),
      valid,
      holds,
    )

write_entry-Logs :
    (site : Site) (sizes : List ℕ) (args : List Arg) (size timestamp : ℕ) (rs : List Bytes)
    (out : Reserved × StagingBuffer)
    → size < 2 ^ 32
    → length (entry_bytes site sizes args timestamp size) ≡ size
    → ((c : Cursor)
        → store_arguments site.param_types sizes args c
          ≡ stored (put (payloads site.param_types sizes args) c))
    → Reserves size true rs out
    → Logs site args sizes size timestamp rs (write_entry site sizes args size timestamp out)
write_entry-Logs site sizes args size timestamp rs (waiting, b) small len stores r = inl refl
write_entry-Logs site sizes args size timestamp rs (null, b) small len stores
      (_, _, _, _, _, _, (wrong, _)) =
    cc
write_entry-Logs site sizes args size timestamp rs (space p, b) small len stores
      (taken, kept, e, v, ne, h, (at, room)) =
    let (done, valid, holds) =
      write_entry-space site sizes args size timestamp kept b small len stores v h room in
    inr (
      taken,
      kept,
      appended (entry_bytes site sizes args timestamp size) b,
      ap (λ q. write_entry site sizes args size timestamp (space q, b)) at ∙ done,
      e,
      valid,
      holds,
    )

-- A statement at or above the level, with strings of less than 4 GiB and an entry of less than
-- 4 GiB, beside a backend that takes whole records: it waits for space, or it puts one record
-- behind the queue, which is its entry: the time, the entry's size, the pointers to the static
-- objects and the arguments. It throws nothing, fails no assertion, and the static array holds the
-- sizes of the arguments.
pub static_log-Logs :
    (site : Site) (level : LogLevel) (slots sizes : List ℕ) (args : List Arg) (n timestamp : ℕ)
    (schedule : List (List ConsumerStep)) (b : StagingBuffer) (rs : List Bytes)
    → site.severity ≤ level
    → AllShort args
    → get_arg_sizes site.param_types (2 ^ 64 - 1) slots args ≡ some (n, sizes)
    → length (payloads site.param_types sizes args) + log_entry_size < 2 ^ 32
    → PoliteSchedule (n + log_entry_size) schedule (counted b) rs
    → IsValid b
    → AllNonempty rs
    → Holds b rs
    → Logs site args sizes
        (n + log_entry_size)
        timestamp
        rs
        (static_log site level slots args timestamp schedule b)
unfolding static_log
static_log-Logs site level slots sizes args n timestamp schedule b rs above short sized small polite
      v ne h =
    let stores = λ (c : Cursor).
      store_arguments-payloads args site.param_types (2 ^ 64 - 1) slots sizes n c short sized in
    let count : n ≡ length (payloads site.param_types sizes args) =
      omega (arith, (stores (record { memory = b.storage; position = 0 })).1) in
    let whole : (n + log_entry_size) % 2 ^ 64 ≡ n + log_entry_size = omega arith in
    let level_test : ltb level site.severity ≡ false = ground arith in
    rw (level_test, sized, whole)
      (write_entry-Logs site sizes args (n + log_entry_size) timestamp rs _ (omega arith)
        (length-entry_bytes site sizes args timestamp (n + log_entry_size) ∙ omega arith)
        (λ c. (stores c).0)
        (reserve_producer_space-Reserves (n + log_entry_size) schedule b rs polite v ne h))
