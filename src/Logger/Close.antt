-- ===== src/Logger/Close.antt =====
-- `~StaticLogBackend`: the end of the program.
use static_logger.Prelude.{
  ℕ, suc, ◌+◌, ◌≤◌, true, false, List, [], ◌∷◌, ◌++◌, if◌then◌else◌, length, ◌≡◌, refl, ap, ◌∙◌,
  arith,
}
use static_logger.Poll.{Turn}
use static_logger.Poll.Merge.{Stamped, Queues, Merges, total}
use static_logger.Poll.Pending.{Pending, queues, marks, AllEnded}
use static_logger.Poll.Rounds.{IsBacklog}
use static_logger.Poll.Drain.{AllQuiet, Lines}
use static_logger.Poll.Finish.{AllStopped, io_poll-Finishes}
use static_logger.Logger.{Logger, destroyed, release, with_flags, destroy_logger}

stopped-AllQuiet :
    (len : ℕ) (qs : Queues) (turns : List Turn)
    → AllQuiet len qs turns
    → AllQuiet len qs (with_flags true false turns)
stopped-AllQuiet len qs [] h = tt
stopped-AllQuiet len qs (turn ∷ turns) (q, h) = (
  record { goes_on = refl; still = q.still; quiet = q.quiet; calm = q.calm; ready = q.ready },
  stopped-AllQuiet len qs turns h,
)

stopped-AllStopped : (turns : List Turn) → AllStopped (with_flags true false turns)
stopped-AllStopped [] = tt
stopped-AllStopped (turn ∷ turns) = (refl, stopped-AllStopped turns)

length-with_flags : (turns : List Turn) → length (with_flags true false turns) ≡ length turns
length-with_flags [] = refl
length-with_flags (turn ∷ turns) = ap suc (length-with_flags turns)

-- The destructor of the logger, when the backend thread runs and has not been asked to come back,
-- the log file is open, the staging buffers are valid and of different threads, all these threads
-- have ended and others are quiet: if the thread has a turn for each statement in the queues, all
-- of which it can write in each turn, and three more, the destructor returns; the file then holds
-- what it held and behind it a line for every statement, in the order of a merge of the queues by
-- timestamps; a line is both prefixes with the time of its turn, the text of the statement, and one
-- byte more than the prefixes have.
pub destroy_logger-Merges :
    (turns : List Turn) (l : Logger) (ps : List Pending)
    → l.joinable ≡ true
    → l.is_exit ≡ false
    → IsBacklog l.poll ps
    → AllEnded (marks ps)
    → AllQuiet l.poll.log_buffer.len (queues ps) turns
    → total (queues ps) + 3 ≤ length turns
    → (address : ℕ) × (written : List Stamped) × (bytes : List ℕ) × (destroy_logger turns l
        ≡ destroyed (l.closed ++ ((l.poll.file ++ bytes) ∷ [])) address)
      × Merges (queues ps) written
      × Lines (with_flags true false turns) written bytes
unfolding destroy_logger
destroy_logger-Merges turns l ps thread stays b ended q h =
    let (after, d, e, gone) =
      io_poll-Finishes (with_flags true false turns) l.poll ps b ended
        (stopped-AllQuiet l.poll.log_buffer.len (queues ps) turns q) (stopped-AllStopped turns)
        (omega (arith, length-with_flags turns)) in
    (
      after.log_buffer.address,
      d.written,
      d.bytes,
      rw (thread, stays)
          (ap (release l) e
            ∙ ap
                (λ t.
                  destroyed (if t then l.closed ++ (after.file ∷ []) else l.closed)
                    after.log_buffer.address)
                d.backlog.is_open
            ∙ ap (λ f. destroyed (l.closed ++ (f ∷ [])) after.log_buffer.address) d.appended),
      d.merges,
      d.lines,
    )
