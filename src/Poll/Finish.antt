-- ===== src/Poll/Finish.antt =====
-- The end of `ioPoll`: what `~StaticLogBackend` waits for.
use static_logger.Prelude.{
  ℕ, zero, suc, ◌+◌, ◌≤◌, ◌<◌, true, ◌&&◌, List, [], ◌∷◌, length, ◌≡◌, refl, ap, ◌∙◌, inl, inr,
  arith,
}
use static_logger.Backend.Queues.{threads}
use static_logger.Poll.{Poll, Turn, returned, is_empty, io_poll}
use static_logger.Poll.Merge.{AllEmpty, Thins, Thins-empty, total, total-Takes, total-Thins}
use static_logger.Poll.Pending.{Pending, all_queued, queues, marks, AllEnded}
use static_logger.Poll.Remaining.{remaining, remaining-Thins, remaining-nil}
use static_logger.Poll.Rounds.{IsBacklog}
use static_logger.Poll.Drain.{
  AllQuiet, Drained, io_poll-turn, total_empty, thin-AllQuiet, taken-AllQuiet, nothing-Drained,
  later-Drained, line-Drained,
}

-- `is_stop_` is set.
abbrev pub AllStopped : List Turn → Type 0
AllStopped [] = Unit
AllStopped (turn ∷ turns) = (turn.is_stop ≡ true) × AllStopped turns

-- The thread has come to its end, with everything written and every buffer deleted.
abbrev pub Finishes : List Turn → Poll → List Pending → Type 0
Finishes turns s ps =
    (after : Poll) × Drained turns s ps after
    × (io_poll turns s ≡ returned after)
    × (after.thread_buffers ≡ [])

abbrev swept_times : ℕ → List Pending → List Pending
swept_times zero ps = ps
swept_times (suc k) ps = swept_times k (remaining ps)

none_threads : (s : Poll) (ps : List Pending) → IsBacklog s ps → ps ≡ [] → s.thread_buffers ≡ []
none_threads s ps b e = b.same_buffers ∙ ap (λ qs. threads (all_queued qs)) e

returned-Finishes :
    (turns : List Turn) (s : Poll) (ps : List Pending)
    → IsBacklog s ps
    → ps ≡ []
    → io_poll turns s ≡ returned s
    → Finishes turns s ps
returned-Finishes turns s ps b nothing e =
    (s, nothing-Drained turns s ps b (rw nothing tt) (inr e), e, none_threads s ps b nothing)

no_buffers-returned :
    (turn : Turn) (turns : List Turn) (s : Poll)
    → turn.is_stop ≡ true
    → turn.before s.thread_buffers ≡ s.thread_buffers
    → s.thread_buffers ≡ []
    → io_poll (turn ∷ turns) s ≡ returned s
unfolding io_poll
no_buffers-returned turn turns s stop still nothing =
    let both : (turn.is_stop && is_empty (turn.before s.thread_buffers)) ≡ true =
      rw (stop, ap is_empty (still ∙ nothing)) refl in
    rw both (ap (λ ts. returned (record s { thread_buffers = ts })) still)

-- The empty buffers go.
empty-Finishes :
    (k : ℕ) (turns : List Turn) (s : Poll) (ps : List Pending)
    → IsBacklog s ps
    → AllQuiet s.log_buffer.len (queues ps) turns
    → AllStopped turns
    → AllEmpty (queues ps)
    → swept_times k ps ≡ []
    → k < length turns
    → Finishes turns s ps
empty-Finishes k [] s ps b q st none_queued swept h = absurd (omega arith)
empty-Finishes zero (turn ∷ turns) s ps b (q, qs) st none_queued swept h =
    returned-Finishes (turn ∷ turns) s ps b swept
      (no_buffers-returned turn turns s st.0 (q.still s.thread_buffers) (none_threads s ps b swept))
empty-Finishes (suc k) (turn ∷ turns) s ps b (q, qs) st none_queued swept h =
    elim (io_poll-turn turn turns s ps b q) [
      | inl (e, stop, nothing) ↦ returned-Finishes (turn ∷ turns) s ps b nothing e
      | inr (s', ps', e, (b', same_len, ended, inl (_, left, same_file))) ↦
          let thin : Thins (queues ps) (queues ps') = rw left (remaining-Thins ps b.held) in
          let fewer = thin-AllQuiet turns s.log_buffer.len s'.log_buffer.len same_len thin qs in
          let none_left : AllEmpty (queues ps') = Thins-empty thin none_queued in
          let (after, d, e', gone) =
            empty-Finishes k turns s' ps' b' fewer st.1 none_left (ap (swept_times k) left ∙ swept)
              (omega arith) in
          (after, later-Drained turn turns s s' ps ps' e thin same_file d, e ∙ e', gone)
      | inr (s', ps', e, (b', same_len, ended, inr (x, (rs, extra, tk, thin, file, count), _))) ↦
          absurd (omega (arith, total_empty (queues ps) none_queued, total-Takes tk))
    ]

-- If moreover `is_stop_` is set, all threads have ended and there are three more turns, the loop
-- returns, with all statements written and all buffers deleted.
pub io_poll-Finishes :
    (turns : List Turn) (s : Poll) (ps : List Pending)
    → IsBacklog s ps
    → AllEnded (marks ps)
    → AllQuiet s.log_buffer.len (queues ps) turns
    → AllStopped turns
    → total (queues ps) + 3 ≤ length turns
    → Finishes turns s ps
io_poll-Finishes [] s ps b d q st h = absurd (omega arith)
io_poll-Finishes (turn ∷ turns) s ps b d (q, qs) st h = elim (io_poll-turn turn turns s ps b q) [
  | inl (e, stop, nothing) ↦ returned-Finishes (turn ∷ turns) s ps b nothing e
  | inr (s', ps', e, (b', same_len, ended, inl (none_queued, left, same_file))) ↦
      empty-Finishes 2 (turn ∷ turns) s ps b (q, qs) st none_queued
        (remaining-nil ps b.held d none_queued) (omega arith)
  | inr (s', ps', e, (b', same_len, ended, inr (x, (rs, extra, tk, thin, file, count), _))) ↦
      let fewer = taken-AllQuiet turns s.log_buffer.len s'.log_buffer.len same_len tk thin qs in
      let less : total (queues ps') + 3 ≤ length turns =
        omega (arith, total-Takes tk, total-Thins thin) in
      let (after, dr, e', gone) = io_poll-Finishes turns s' ps' b' (ended d) fewer st.1 less in
      (
        after,
        line-Drained turn turns s s' ps ps' x e (rs, extra, tk, thin, file, count) dr,
        e ∙ e',
        gone,
      )
]
