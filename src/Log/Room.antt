-- ===== src/Log/Room.antt =====
-- A log statement that finds room in the staging buffer at once.
use static_logger.Prelude.{
  ℕ, ◌+◌, ◌-◌, ◌%◌, ◌^◌, ◌≤◌, ◌<◌, true, false, some, List, [], ◌∷◌, ◌++◌, ltb, lt→ltb, length, ◌≡◌,
  ◌∙◌, arith,
}
use static_logger.Staging.{StagingBuffer, counted, reserve_producer_space}
use static_logger.Staging.Invariant.{IsValid}
use static_logger.Staging.Queue.{Bytes, Holds, appended}
use static_logger.Args.{Arg, get_arg_sizes, Cursor}
use static_logger.Args.Layout.{payloads, AllShort, store_arguments-payloads}
use static_logger.Log.{LogLevel, Site, log_entry_size, logged, static_log}
use static_logger.Log.Entry.{entry_bytes, length-entry_bytes, write_entry-space}

counted-IsValid : {b : StagingBuffer} → IsValid b → IsValid (counted b)
counted-IsValid v = record { producer_in = v.producer_in; free = v.free }

-- A statement at or above the level, with strings of less than 4 GiB and an entry of less than
-- 4 GiB, which is shorter than the space that the thread knows to be free: it does not wait, and its
-- entry becomes the last record of the queue, with all others untouched. The static array holds the
-- sizes of the arguments.
pub static_log-room :
    (site : Site) (level : LogLevel) (slots sizes : List ℕ) (args : List Arg) (n timestamp : ℕ)
    (b : StagingBuffer) (rs : List Bytes)
    → site.severity ≤ level
    → AllShort args
    → get_arg_sizes site.param_types (2 ^ 64 - 1) slots args ≡ some (n, sizes)
    → length (payloads site.param_types sizes args) + log_entry_size < 2 ^ 32
    → n + log_entry_size < b.min_free_space
    → IsValid b
    → Holds b rs
    → let entry = entry_bytes site sizes args timestamp (n + log_entry_size) in
      let d = appended entry (counted b) in
      (static_log site level slots args timestamp [] b ≡ logged sizes d)
      × (n ≡ length (payloads site.param_types sizes args))
      × IsValid d
      × Holds d (rs ++ entry ∷ [])
unfolding static_log reserve_producer_space
static_log-room site level slots sizes args n timestamp b rs above short sized small room v h =
    let stores = λ (c : Cursor).
      store_arguments-payloads args site.param_types (2 ^ 64 - 1) slots sizes n c short sized in
    let count : n ≡ length (payloads site.param_types sizes args) =
      omega (arith, (stores (record { memory = b.storage; position = 0 })).1) in
    let whole : (n + log_entry_size) % 2 ^ 64 ≡ n + log_entry_size = omega arith in
    let level_test : ltb level site.severity ≡ false = ground arith in
    let free : ltb (n + log_entry_size) b.min_free_space ≡ true =
      lt→ltb (n + log_entry_size) b.min_free_space room in
    let (e, valid, holds) =
      write_entry-space site sizes args (n + log_entry_size) timestamp rs (counted b) (omega arith)
        (length-entry_bytes site sizes args timestamp (n + log_entry_size) ∙ omega arith)
        (λ c. (stores c).0) (counted-IsValid v) h room in
    (rw (level_test, sized, whole, free) e, count, valid, holds)
