-- ===== src/Program/Run.antt =====
-- A whole run of a program: every statement is a line of the log file, in order.
use static_logger.Prelude.{
  ℕ, suc, ◌+◌, ◌-◌, ◌≤◌, ◌<◌, true, false, Option, some, List, [], ◌∷◌, ◌++◌, length, ◌==◌, ◌≡◌,
  refl, sym, ap, subst, ◌∙◌, arith,
}
use mathlib.Core.List.{append-nil, append_assoc}
use static_logger.Prelude.Memory.{Memory}
use static_logger.Staging.{StagingBuffer, staging_buffer_size, new}
use static_logger.Staging.Invariant.{new-IsValid}
use static_logger.Staging.Queue.{new-Holds}
use static_logger.Log.{LogLevel, log_entry_size}
use static_logger.Backend.{ThreadBuffer}
use static_logger.Writer.{Surroundings}
use static_logger.Writer.Entry.{IsCalm}
use static_logger.Poll.{Turn}
use static_logger.Poll.Merge.{Stamped, Merges, ends, takes, here, there}
use static_logger.Poll.Pending.{Pending, IsHeld, AllStatements}
use static_logger.Poll.Rounds.{IsBacklog}
use static_logger.Poll.Drain.{AllQuiet, Lines}
use static_logger.Logger.{
  Logger, started, with_log_buffer, default_cache_size, construct_logger, destroyed, with_flags,
  destroy_logger,
}
use static_logger.Logger.Close.{destroy_logger-Merges}
use static_logger.Threads.{
  ensure_staging_buffer_allocated, take_buffer_id, push_back, destroy_staging_buffer,
}
use static_logger.Program.{Call, go_on, log_calls, run_thread}
use static_logger.Program.Calls.{
  all_stamped, stamped_of, IsCall, IsServed, call-IsStatement, static_log-IsHeld,
}

-- The calls fit one by one in the space that is free.
abbrev pub AllCalls : LogLevel → ℕ → List Call → Type 0
AllCalls current free [] = Unit
AllCalls current free (c ∷ cs) =
    IsCall current c
    × (c.n + log_entry_size < free)
    × AllCalls current (free - (c.n + log_entry_size)) cs

abbrev pub AllServed : Surroundings → ℕ → List Call → Type 0
AllServed env len [] = Unit
AllServed env len (c ∷ cs) = IsServed env len c × AllServed env len cs

-- A turn for the backend thread, which finds the static objects of all calls.
pub record IsServing (len : ℕ) (cs : List Call) (turn : Turn) : Type 0 where
  pub goes_on : turn.is_exit ≡ false
  pub still : (ts : List ThreadBuffer) → turn.before ts ≡ ts
  pub quiet : (ts : List ThreadBuffer) → turn.meanwhile ts ≡ ts
  pub calm : IsCalm turn.surroundings
  pub served : AllServed turn.surroundings len cs

abbrev pub AllServing : ℕ → List Call → List Turn → Type 0
AllServing len cs [] = Unit
AllServing len cs (turn ∷ turns) = IsServing len cs turn × AllServing len cs turns

served-AllStatements :
    (env : Surroundings) (len free : ℕ) (current : LogLevel) (cs : List Call)
    → AllCalls current free cs
    → AllServed env len cs
    → AllStatements env len (all_stamped cs)
served-AllStatements env len free current [] h s = tt
served-AllStatements env len free current (c ∷ cs) (call, room, h) (s, ss) = (
  call-IsStatement env len current c call s,
  call.early,
  served-AllStatements env len (free - (c.n + log_entry_size)) current cs h ss,
)

serving-AllQuiet :
    (len free : ℕ) (current : LogLevel) (cs : List Call) (turns : List Turn)
    → AllCalls current free cs
    → AllServing len cs turns
    → AllQuiet len (all_stamped cs ∷ []) turns
serving-AllQuiet len free current cs [] h s = tt
serving-AllQuiet len free current cs (turn ∷ turns) h (s, ss) = (
  record {
    goes_on = s.goes_on;
    still = s.still;
    quiet = s.quiet;
    calm = s.calm;
    ready = (served-AllStatements turn.surroundings len free current cs h s.served, tt);
  },
  serving-AllQuiet len free current cs turns h ss,
)

-- One queue has one merge.
Merges-single : (ws : List Stamped) {xs : List Stamped} → Merges (xs ∷ []) ws → ws ≡ xs
Merges-single [] (ends h) = sym h.0
Merges-single (w ∷ ws) (takes (here from) m) = ap (◌∷◌ w) (Merges-single ws m)
Merges-single (w ∷ ws) (takes (there from tk) m) = elim tk [ ]

log_calls-IsHeld :
    (current : LogLevel) (p : Pending) (cs : List Call)
    → IsHeld p
    → AllCalls current p.thread.buffer.min_free_space cs
    → (d : StagingBuffer) × (log_calls current cs p.thread.buffer ≡ some d)
      × IsHeld (record {
        owner = p.owner;
        thread = record { address = p.thread.address; buffer = d };
        statements = p.statements ++ all_stamped cs;
      })
unfolding log_calls
log_calls-IsHeld current p [] h calls = (
  p.thread.buffer,
  refl,
  subst (λ xs. IsHeld (record { owner = p.owner; thread = p.thread; statements = xs }))
      (sym (append-nil p.statements)) h,
)
log_calls-IsHeld current p (c ∷ cs) h (call, room, calls) =
    let (d, e, held, flag, free) = static_log-IsHeld current p c h call room in
    let p' : Pending = record {
      owner = p.owner;
      thread = record { address = p.thread.address; buffer = d };
      statements = p.statements ++ (stamped_of c ∷ []);
    } in
    let (d', e', held') =
      log_calls-IsHeld current p' cs held (subst (λ k. AllCalls current k cs) (sym free) calls) in
    (
      d',
      ap (go_on (log_calls current cs)) e ∙ e',
      subst
          (λ xs. IsHeld (record {
            owner = p.owner;
            thread = record { address = p.thread.address; buffer = d' };
            statements = xs;
          }))
          (append_assoc p.statements (stamped_of c ∷ []) (all_stamped cs)) held',
    )

length-all_stamped : (cs : List Call) → length (all_stamped cs) ≡ length cs
length-all_stamped [] = refl
length-all_stamped (c ∷ cs) = ap suc (length-all_stamped cs)

-- The logger behind the whole run of the thread.
abbrev thread_ended : ℕ → StagingBuffer → Logger → Logger
thread_ended address d l = record (take_buffer_id l).1 {
  poll = record l.poll {
    thread_buffers =
        record { address = address; buffer = record d { should_deallocate = true } } ∷ [];
  };
}

run_thread-ended :
    (address : ℕ) (cs : List Call) (l : Logger) (d : StagingBuffer)
    → l.poll.thread_buffers ≡ []
    → log_calls l.current_log_level cs (new l.next_buffer_id) ≡ some d
    → run_thread address cs l ≡ some (thread_ended address d l)
unfolding run_thread ensure_staging_buffer_allocated take_buffer_id push_back destroy_staging_buffer
run_thread-ended address cs l d none_yet e =
    let test : (address == address) ≡ true = ground arith in
    rw (none_yet, test, e, test, test, test) refl

-- A whole run, in a build without assertions: the logger is constructed, one thread gets its
-- staging buffer, executes log statements that fit into it together, at or above the level, with
-- arguments that match their formats, and ends; then the logger is destroyed, while the backend
-- thread has a quiet turn for each statement and three more. The formats have no `*`, no NUL and no
-- specifier of 100 characters; strings and entries have less than 4 GiB, and each copy of a string
-- finds its space; timestamps are below the largest `uint64_t`; the log file can be opened, the log
-- buffer is granted, and the broken-down time of each turn is in its ranges, with four digits in
-- its year. In each turn the backend finds the static objects of each statement, with the sizes
-- that `getArgSizes` has computed, and each message fits in the log buffer beside twice its
-- prefixes. Then the one log file holds exactly a line for each statement, in the order of the
-- program; a line is both prefixes with the time of its turn, the text of the statement, and one
-- byte more than the prefixes have. The text has each plain character, each string in its own
-- format, up to its stored size, and each number in its own format, or nothing where the logger has
-- no such conversion for a number of its size.
pub run_thread-Lines :
    (malloc : ℕ → Option (ℕ × Memory)) (buffer : ℕ × Memory) (address : ℕ) (cs : List Call)
    (turns : List Turn)
    → malloc default_cache_size ≡ some buffer
    → AllCalls 4 staging_buffer_size cs
    → AllServing default_cache_size cs turns
    → length cs + 3 ≤ length turns
    → (l l' : Logger) × (bytes : List ℕ) × (freed : ℕ) × (construct_logger true malloc ≡ some l)
      × (run_thread address cs l ≡ some l')
      × (destroy_logger turns l' ≡ destroyed (bytes ∷ []) freed)
      × Lines (with_flags true false turns) (all_stamped cs) bytes
unfolding construct_logger new take_buffer_id
run_thread-Lines malloc (at_buffer, m) address cs turns has calls serving enough =
    let l = started (at_buffer, m) in
    let p : Pending = record {
      owner = 0;
      thread = record { address = address; buffer = new 0 };
      statements = [];
    } in
    let (d, e, held) =
      log_calls-IsHeld 4 p cs (record { valid = new-IsValid 0; holds = new-Holds 0 }) calls in
    let marked : StagingBuffer = record d { should_deallocate = true } in
    let ps : List Pending =
      record {
        owner = 0;
        thread = record { address = address; buffer = marked };
        statements = all_stamped cs;
      }
      ∷ [] in
    let l' = thread_ended address d l in
    let backlog : IsBacklog l'.poll ps = record {
      same_buffers = refl;
      held = (
        record {
          valid = record { producer_in = held.valid.producer_in; free = held.valid.free };
          holds = held.holds;
        },
        tt,
      );
      apart = (tt, tt);
      single = (tt, tt);
      is_open = refl;
      small = omega arith;
    } in
    let (freed, written, bytes, done, merges, lines) =
      destroy_logger-Merges turns l' ps refl refl backlog (refl, tt)
        (serving-AllQuiet default_cache_size staging_buffer_size 4 cs turns calls serving)
        (omega (arith, length-all_stamped cs)) in
    (
      l,
      l',
      bytes,
      freed,
      ap with_log_buffer has,
      run_thread-ended address cs l d refl e,
      done,
      subst (λ ws. Lines (with_flags true false turns) ws bytes) (Merges-single written merges)
          lines,
    )
