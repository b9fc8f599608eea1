-- ===== src/Poll/Drain.antt =====
-- The rounds of `ioPoll` together: every statement goes to the log file, in the order of a merge by
-- timestamps, and the thread comes to its end.
use static_logger.Prelude.{
  ℕ, ◌+◌, ◌≤◌, true, false, ◌&&◌, Bool-cases, List, [], ◌∷◌, ◌++◌, length, ◌≡◌, ◌⊎◌, refl, sym, ap,
  subst, ◌∙◌, inl, inr, arith,
}
use mathlib.Core.List.{append-nil, append_assoc}
use static_logger.Backend.{ThreadBuffer}
use static_logger.Backend.Queues.{threads}
use static_logger.Writer.{Surroundings}
use static_logger.Writer.Entry.{IsCalm, head_text}
use static_logger.Poll.{
  Poll, Turn, at_test, locked_again, Ended, polling, returned, is_empty, continue_with, poll_round,
  io_poll,
}
use static_logger.Poll.Merge.{
  Stamped, Queues, AllEmpty, Takes, Thins, Thins-Merges, Merges, ends, takes, total, total-Takes,
  total-Thins,
}
use static_logger.Poll.Pending.{
  Pending, all_queued, queues, AllReady, Takes-AllReady, Thins-AllReady,
}
use static_logger.Poll.Remaining.{remaining-Thins}
use static_logger.Poll.Rounds.{IsBacklog, line_of, Wrote, Serves, poll_round-Rounds}

-- A turn in which the other threads leave the staging buffers as they are, and nobody asks the
-- backend thread to come back.
pub record IsQuiet (len : ℕ) (qs : Queues) (turn : Turn) : Type 0 where
  pub goes_on : turn.is_exit ≡ false
  pub still : (ts : List ThreadBuffer) → turn.before ts ≡ ts
  pub quiet : (ts : List ThreadBuffer) → turn.meanwhile ts ≡ ts
  pub calm : IsCalm turn.surroundings
  pub ready : AllReady turn.surroundings len qs

abbrev pub AllQuiet : ℕ → Queues → List Turn → Type 0
AllQuiet len qs [] = Unit
AllQuiet len qs (turn ∷ turns) = IsQuiet len qs turn × AllQuiet len qs turns

-- The bytes that the turns write for the statements: a line for each one, with the time of its turn.
pub data Lines : List Turn → List Stamped → List ℕ → Type 0 where
  none_left : {turns : List Turn} → Lines turns [] []
  later :
      {turn : Turn} {turns : List Turn} {xs : List Stamped} {bs : List ℕ}
      → Lines turns xs bs
      → Lines (turn ∷ turns) xs bs
  line :
      {turn : Turn} {turns : List Turn} {x : Stamped} {xs : List Stamped} {bs : List ℕ}
      (extra : List ℕ)
      → length extra ≡ length (head_text turn.surroundings x.statement) + 1
      → Lines turns xs bs
      → Lines (turn ∷ turns) (x ∷ xs) (line_of turn.surroundings x extra ++ bs)

-- A turn, with the rest of the loop.
abbrev pub Turns : Turn → List Turn → Poll → List Pending → Type 0
Turns turn turns s ps =
    ((io_poll (turn ∷ turns) s ≡ returned s) × (turn.is_stop ≡ true) × (ps ≡ []))
    ⊎ ((s' : Poll) × (ps' : List Pending) × (io_poll (turn ∷ turns) s ≡ io_poll turns s')
        × Serves turn.surroundings s ps s' ps')

none_there : (ps : List Pending) → is_empty (threads (all_queued ps)) ≡ true → ps ≡ []
none_there [] e = refl
none_there (p ∷ ps) e = cc

pub io_poll-turn :
    (turn : Turn) (turns : List Turn) (s : Poll) (ps : List Pending)
    → IsBacklog s ps
    → IsQuiet s.log_buffer.len (queues ps) turn
    → Turns turn turns s ps
unfolding io_poll
io_poll-turn turn turns s ps b q =
    let now : at_test turn s ≡ s =
      ap (λ ts. record s { thread_buffers = ts }) (q.still s.thread_buffers) in
    let again : locked_again turn (at_test turn s) ≡ s =
      ap (locked_again turn) now
      ∙ ap (λ ts. record s { thread_buffers = ts }) (q.quiet s.thread_buffers) in
    elim (Bool-cases (turn.is_stop && is_empty (turn.before s.thread_buffers))) [
      | inl stops ↦
          let nothing : is_empty (turn.before s.thread_buffers) ≡ true = ground arith in
          inl (
            rw stops (ap returned now),
            ground arith,
            none_there ps (ap is_empty (sym (q.still s.thread_buffers ∙ b.same_buffers)) ∙ nothing),
          )
      | inr goes ↦
          let (s', ps', e, serves) = poll_round-Rounds turn.surroundings s ps b q.calm q.ready in
          inr (
            s',
            ps',
            rw (goes, q.goes_on)
                (ap (λ k. continue_with (io_poll turns) (poll_round turn.surroundings k)) again
                  ∙ ap (continue_with (io_poll turns)) e),
            serves,
          )
    ]

empty_total : (qs : Queues) → total qs ≤ 0 → AllEmpty qs
empty_total [] h = tt
empty_total ([] ∷ qs) h = (refl, empty_total qs (omega arith))
empty_total ((x ∷ xs) ∷ qs) h = absurd (omega arith)

pub total_empty : (qs : Queues) → AllEmpty qs → total qs ≡ 0
total_empty [] h = refl
total_empty (q ∷ qs) h = omega (arith, ap length h.0, total_empty qs h.1)

-- The turns stay quiet for fewer statements.
fewer-AllQuiet :
    (turns : List Turn) (len len' : ℕ) (qs rs : Queues)
    → len' ≡ len
    → ((env : Surroundings) → AllReady env len qs → AllReady env len rs)
    → AllQuiet len qs turns
    → AllQuiet len' rs turns
fewer-AllQuiet [] len len' qs rs e f h = tt
fewer-AllQuiet (turn ∷ turns) len len' qs rs e f (q, h) = (
  record {
    goes_on = q.goes_on;
    still = q.still;
    quiet = q.quiet;
    calm = q.calm;
    ready = subst (λ k. AllReady turn.surroundings k rs) (sym e) (f turn.surroundings q.ready);
  },
  fewer-AllQuiet turns len len' qs rs e f h,
)

pub thin-AllQuiet :
    (turns : List Turn) (len len' : ℕ) {qs rs : Queues}
    → len' ≡ len
    → Thins qs rs
    → AllQuiet len qs turns
    → AllQuiet len' rs turns
thin-AllQuiet turns len len' {qs} {rs} e thin q =
    fewer-AllQuiet turns len len' qs rs e (λ env. Thins-AllReady env len thin) q

pub taken-AllQuiet :
    (turns : List Turn) (len len' : ℕ) {x : Stamped} {qs rs ss : Queues}
    → len' ≡ len
    → Takes x qs rs
    → Thins rs ss
    → AllQuiet len qs turns
    → AllQuiet len' ss turns
taken-AllQuiet turns len len' {x} {qs} {rs} {ss} e tk thin q =
    fewer-AllQuiet turns len len' qs ss e
      (λ env r. Thins-AllReady env len thin (Takes-AllReady env len tk r)) q

-- The loop has written the backlog, and no statement is left.
pub record Drained (turns : List Turn) (s : Poll) (ps : List Pending) (after : Poll) : Type 0 where
  pub left : List Pending
  pub written : List Stamped
  pub bytes : List ℕ
  pub ended : (io_poll turns s ≡ polling after) ⊎ (io_poll turns s ≡ returned after)
  pub merges : Merges (queues ps) written
  pub lines : Lines turns written bytes
  pub appended : after.file ≡ s.file ++ bytes
  pub backlog : IsBacklog after left
  pub empty : AllEmpty (queues left)

-- The end of a loop that goes on in another one.
ended_too :
    {r q : Ended} {t : Poll}
    → r ≡ q
    → (q ≡ polling t) ⊎ (q ≡ returned t)
    → (r ≡ polling t) ⊎ (r ≡ returned t)
ended_too e (inl k) = inl (e ∙ k)
ended_too e (inr k) = inr (e ∙ k)

pub nothing-Drained :
    (turns : List Turn) (s : Poll) (ps : List Pending)
    → IsBacklog s ps
    → AllEmpty (queues ps)
    → (io_poll turns s ≡ polling s) ⊎ (io_poll turns s ≡ returned s)
    → Drained turns s ps s
nothing-Drained turns s ps b none_queued e = record {
  left = ps;
  written = [];
  bytes = [];
  ended = e;
  merges = ends none_queued;
  lines = none_left;
  appended = sym (append-nil s.file);
  backlog = b;
  empty = none_queued;
}

pub later-Drained :
    (turn : Turn) (turns : List Turn) (s s' : Poll) (ps ps' : List Pending) {after : Poll}
    → io_poll (turn ∷ turns) s ≡ io_poll turns s'
    → Thins (queues ps) (queues ps')
    → s'.file ≡ s.file
    → Drained turns s' ps' after
    → Drained (turn ∷ turns) s ps after
later-Drained turn turns s s' ps ps' e thin same d = record {
  left = d.left;
  written = d.written;
  bytes = d.bytes;
  ended = ended_too e d.ended;
  merges = Thins-Merges d.written thin d.merges;
  lines = later d.lines;
  appended = d.appended ∙ ap (λ f. f ++ d.bytes) same;
  backlog = d.backlog;
  empty = d.empty;
}

pub line-Drained :
    (turn : Turn) (turns : List Turn) (s s' : Poll) (ps ps' : List Pending) (x : Stamped)
    {after : Poll}
    → io_poll (turn ∷ turns) s ≡ io_poll turns s'
    → Wrote turn.surroundings s (queues ps) s' (queues ps') x
    → Drained turns s' ps' after
    → Drained (turn ∷ turns) s ps after
line-Drained turn turns s s' ps ps' x e (rs, extra, tk, thin, file, count) d = record {
  left = d.left;
  written = x ∷ d.written;
  bytes = line_of turn.surroundings x extra ++ d.bytes;
  ended = ended_too e d.ended;
  merges = takes tk (Thins-Merges d.written thin d.merges);
  lines = line extra count d.lines;
  appended =
      d.appended
      ∙ ap (λ f. f ++ d.bytes) file
      ∙ append_assoc s.file (line_of turn.surroundings x extra) d.bytes;
  backlog = d.backlog;
  empty = d.empty;
}

-- Valid staging buffers of different threads at different addresses, an open log file, threads that
-- are quiet, and nobody who asks the backend thread to come back: if the loop of `ioPoll` has as
-- many turns as there are statements in the queues, all of which the backend can write in each
-- turn, it writes every statement, each as one line, in the order of a merge of the queues by
-- timestamps (the first buffer of the vector goes first among equals); a line is both prefixes with
-- the time of its turn, the text of the statement, and one byte more than the prefixes have. Then
-- all queues are empty, the buffers are valid, and the thread is still in its loop or has returned.
pub io_poll-Drained :
    (turns : List Turn) (s : Poll) (ps : List Pending)
    → IsBacklog s ps
    → AllQuiet s.log_buffer.len (queues ps) turns
    → total (queues ps) ≤ length turns
    → (after : Poll) × Drained turns s ps after
unfolding io_poll
io_poll-Drained [] s ps b q h =
    (s, nothing-Drained [] s ps b (empty_total (queues ps) h) (inl refl))
io_poll-Drained (turn ∷ turns) s ps b (q, qs) h = elim (io_poll-turn turn turns s ps b q) [
  | inl (e, stop, nothing) ↦ (s, nothing-Drained (turn ∷ turns) s ps b (rw nothing tt) (inr e))
  | inr (s', ps', e, (b', same_len, ended, inl (none_queued, left, same_file))) ↦
      let thin : Thins (queues ps) (queues ps') = rw left (remaining-Thins ps b.held) in
      let fewer = thin-AllQuiet turns s.log_buffer.len s'.log_buffer.len same_len thin qs in
      let count : total (queues ps') ≤ length turns =
        omega (arith, total_empty (queues ps) none_queued, total-Thins thin) in
      let (after, d) = io_poll-Drained turns s' ps' b' fewer count in
      (after, later-Drained turn turns s s' ps ps' e thin same_file d)
  | inr (s', ps', e, (b', same_len, ended, inr (x, (rs, extra, tk, thin, file, count), _))) ↦
      let fewer = taken-AllQuiet turns s.log_buffer.len s'.log_buffer.len same_len tk thin qs in
      let less : total (queues ps') ≤ length turns =
        omega (arith, total-Takes tk, total-Thins thin) in
      let (after, d) = io_poll-Drained turns s' ps' b' fewer less in
      (after, line-Drained turn turns s s' ps ps' x e (rs, extra, tk, thin, file, count) d)
]
