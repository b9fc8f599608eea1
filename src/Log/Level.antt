-- ===== src/Log/Level.antt =====
-- Which log statements `setLogLevel` lets through.
use static_logger.Prelude.{
  ℕ, ◌<◌, true, false, Option, none, some, List, ltb, ◌≡◌, ◌≢◌, ◌↔◌, refl, inl, inr, Bool-cases,
  arith,
}
use static_logger.Prelude.Int.{ℤ, pos, negsuc, leb_ℤ}
use static_logger.Prelude.Memory.{Memory}
use static_logger.Staging.{StagingBuffer, ConsumerStep, Reserved, space, null, waiting}
use static_logger.Args.{Arg, Stored, stored, throws, faults}
use static_logger.Log.{
  num_log_levels, as_log_level, clamped, set_log_level, Site, dropped, finished, fill_header,
  down_cast, seal, write_entry, allocate, static_log,
}

finished-ne-dropped : (sizes : List ℕ) (b : Option StagingBuffer) → finished sizes b ≢ dropped
finished-ne-dropped sizes none e = cc
finished-ne-dropped sizes (some b) e = cc

module _ (sizes : List ℕ) (p alloc_size timestamp : ℕ) (b : StagingBuffer) where
  fill_header-ne-dropped :
      (m : Memory) (size : Option ℕ) → fill_header sizes p alloc_size timestamp b m size ≢ dropped
  fill_header-ne-dropped m none e = cc
  fill_header-ne-dropped m (some size) e = finished-ne-dropped sizes _ e

  seal-ne-dropped : (s : Stored) → seal sizes p alloc_size timestamp b s ≢ dropped
  seal-ne-dropped throws e = cc
  seal-ne-dropped faults e = cc
  seal-ne-dropped (stored c) e = fill_header-ne-dropped c.memory (down_cast alloc_size) e

module _ (site : Site) (args : List Arg) (timestamp : ℕ) where
  write_entry-ne-dropped :
      (sizes : List ℕ) (alloc_size : ℕ) (out : Reserved × StagingBuffer)
      → write_entry site sizes args alloc_size timestamp out ≢ dropped
  write_entry-ne-dropped sizes alloc_size (waiting, b) e = cc
  write_entry-ne-dropped sizes alloc_size (null, b) e = cc
  write_entry-ne-dropped sizes alloc_size (space p, b) e =
      seal-ne-dropped sizes p alloc_size timestamp b _ e

  allocate-ne-dropped :
      (schedule : List (List ConsumerStep)) (b : StagingBuffer) (sized : Option (ℕ × List ℕ))
      → allocate site args timestamp schedule b sized ≢ dropped
  allocate-ne-dropped schedule b none e = cc
  allocate-ne-dropped schedule b (some (n, sizes)) e = write_entry-ne-dropped sizes _ _ e

clamped_lem :
    (v : ℤ) (s : ℕ)
    → s < num_log_levels
    → (ltb (clamped v) s ≡ true) ↔ ((leb_ℤ (pos s) v ≡ false) × (0 < s))
clamped_lem (pos n) s h = (λ e. (ground arith, ground arith), λ above. ground arith)
clamped_lem (negsuc n) s h = (λ e. (ground arith, ground arith), λ above. ground arith)

-- After `setLogLevel(l)`, for any integer that is cast to the 32 bits of a `LogLevel`, a statement
-- whose severity is an enumerator is dropped exactly if its severity is above the value that the cast
-- leaves, read with its sign, and is not `kSILENT_LOG_LEVEL`.
pub static_log-dropped :
    (l : ℤ) (site : Site) (slots : List ℕ) (args : List Arg) (timestamp : ℕ)
    (schedule : List (List ConsumerStep)) (b : StagingBuffer)
    → site.severity < num_log_levels
    → (static_log site (set_log_level l) slots args timestamp schedule b ≡ dropped)
      ↔ ((leb_ℤ (pos site.severity) (as_log_level l) ≡ false) × (0 < site.severity))
unfolding static_log set_log_level
static_log-dropped l site slots args timestamp schedule b h =
    let test = clamped_lem (as_log_level l) site.severity h in
    elim (Bool-cases (ltb (clamped (as_log_level l)) site.severity)) [
      | inl below ↦ rw below ((λ _. test.0 below), λ _. refl)
      | inr kept ↦ rw kept (
        (λ e. absurd (allocate-ne-dropped site args timestamp schedule b _ e)),
        λ above. absurd (cc (kept, test.1 above)),
      )
    ]
