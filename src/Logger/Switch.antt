-- ===== src/Logger/Switch.antt =====
-- `setLogFile`: what it does to the statements that wait, and to the backend thread.
use static_logger.Prelude.{
  Bool, true, false, Bool-cases, List, [], ◌∷◌, ◌++◌, if◌then◌else◌, length, ◌≤◌, ◌≡◌, refl, sym,
  ap, ◌∙◌, inl, inr,
}
use static_logger.Backend.{ThreadBuffer}
use static_logger.Poll.{Poll, Turn, at_test, returned, is_empty, io_poll}
use static_logger.Poll.Merge.{total}
use static_logger.Poll.Pending.{Pending, queues}
use static_logger.Poll.Rounds.{IsBacklog}
use static_logger.Poll.Drain.{AllQuiet, Drained, io_poll-Drained}
use static_logger.Logger.{
  Logger, switched, no_thread, switch_file, close_file, with_flags, set_log_file,
}

-- A thread that is asked to come back does nothing more: what others have done until it looks stays.
exit-returned :
    (turn : Turn) (turns : List Turn) (p : Poll)
    → io_poll (with_flags true true (turn ∷ turns)) p ≡ returned (at_test turn p)
unfolding io_poll
exit-returned turn turns p = elim (Bool-cases (is_empty (turn.before p.thread_buffers))) [
  | inl none_there ↦ rw none_there refl
  | inr some_there ↦ rw some_there refl
]

-- The backend after a switch to a file, which can be opened or not.
abbrev pub switched_to : Turn → Bool → Logger → Logger
switched_to turn opens l = record l {
  poll = record (at_test turn l.poll) { opened = opens; file = [] };
  is_stop = true;
  is_exit = false;
  joinable = opens;
  closed = close_file l.poll l.closed;
}

pub set_log_file-switched :
    (turn : Turn) (turns : List Turn) (opens : Bool) (l : Logger)
    → l.joinable ≡ true
    → set_log_file (turn ∷ turns) opens l ≡ switched (switched_to turn opens l)
unfolding set_log_file
set_log_file-switched turn turns opens l thread = rw thread (
    ap (switch_file opens (record l { is_stop = true; is_exit = true }))
      (exit-returned turn turns l.poll))

-- `setLogFile` for a file that can be opened, while the backend thread runs with a file that is
-- open, and the staging buffers are valid, of different threads, and left alone: it closes the old
-- file with what has been written to it, and loses no statement that is still in a queue. If the
-- new thread then has a quiet turn for each of them, in which it can write them, it writes them all
-- to the new file, which starts empty, in the order of a merge by timestamps.
pub set_log_file-Drained :
    (turn : Turn) (first turns : List Turn) (l : Logger) (ps : List Pending)
    → l.joinable ≡ true
    → ((ts : List ThreadBuffer) → turn.before ts ≡ ts)
    → IsBacklog l.poll ps
    → AllQuiet l.poll.log_buffer.len (queues ps) turns
    → total (queues ps) ≤ length turns
    → (l' : Logger) × (after : Poll) × (set_log_file (turn ∷ first) true l ≡ switched l')
      × (l'.closed ≡ l.closed ++ (l.poll.file ∷ []))
      × (l'.poll.file ≡ [])
      × Drained turns l'.poll ps after
set_log_file-Drained turn first turns l ps thread still b q h =
    let l' = switched_to turn true l in
    let b' : IsBacklog l'.poll ps = record {
      same_buffers = still l.poll.thread_buffers ∙ b.same_buffers;
      held = b.held;
      apart = b.apart;
      single = b.single;
      is_open = refl;
      small = b.small;
    } in
    let (after, d) = io_poll-Drained turns l'.poll ps b' q h in
    (
      l',
      after,
      set_log_file-switched turn first true l thread,
      ap (λ t. if t then l.closed ++ (l.poll.file ∷ []) else l.closed) b.is_open,
      refl,
      d,
    )

-- While the backend thread runs, no staging buffer is there when it comes back for `setLogFile`,
-- nor when the thread that `setLogFile` then starts for a new file first looks at the flags: this
-- thread returns at once, since `is_stop_` stays set, and whatever the other threads do in later
-- turns, nothing is written any more.
pub set_log_file-ends :
    (turn next : Turn) (first turns : List Turn) (l : Logger)
    → l.joinable ≡ true
    → turn.before l.poll.thread_buffers ≡ []
    → next.before [] ≡ []
    → (l' : Logger) × (set_log_file (turn ∷ first) true l ≡ switched l')
      × (io_poll (with_flags l'.is_stop l'.is_exit (next ∷ turns)) l'.poll ≡ returned l'.poll)
unfolding io_poll
set_log_file-ends turn next first turns l thread nothing still =
    let l' = switched_to turn true l in
    let none_yet : next.before (turn.before l.poll.thread_buffers) ≡ [] =
      ap next.before nothing ∙ still in
    let stops : is_empty (next.before (turn.before l.poll.thread_buffers)) ≡ true =
      ap is_empty none_yet in
    (
      l',
      set_log_file-switched turn first true l thread,
      rw stops
          (ap (λ ts. returned (record l'.poll { thread_buffers = ts })) (none_yet ∙ sym nothing)),
    )

-- If `setLogFile`, while the backend thread runs, cannot open the file, it returns, keeps the
-- staging buffers, and leaves no backend thread: the next call of `setLogFile`, for any file,
-- throws out of `join`.
pub set_log_file-no_thread :
    (turn : Turn) (first again : List Turn) (opens : Bool) (l : Logger)
    → l.joinable ≡ true
    → (l' : Logger) × (set_log_file (turn ∷ first) false l ≡ switched l')
      × (l'.poll.thread_buffers ≡ turn.before l.poll.thread_buffers)
      × (set_log_file again opens l' ≡ no_thread)
unfolding set_log_file
set_log_file-no_thread turn first again opens l thread =
    (switched_to turn false l, set_log_file-switched turn first false l thread, refl, refl)
