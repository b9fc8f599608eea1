-- ===== src/Poll/Rounds.antt =====
-- One round of `ioPoll`: the earliest statement of all staging buffers goes to the log file.
use static_logger.Prelude.{
  ℕ, ◌+◌, ◌^◌, ◌<◌, true, some, List, [], ◌∷◌, ◌++◌, length, ◌≡◌, ◌⊎◌, refl, sym, ap, subst, ◌∙◌,
  inl, inr, arith,
}
use static_logger.Backend.{uint64_max, scan, processes, next}
use static_logger.Backend.Queues.{threads, Head, scan-kept}
use static_logger.Backend.Choice.{scan-IsEarliest}
use static_logger.Writer.{Surroundings, Output}
use static_logger.Writer.Entry.{IsCalm, head_text, statement_text}
use static_logger.Writer.Statement.{process_log_buffer-statement}
use static_logger.Poll.{
  Poll, Polled, running, after_scan, process_buffer, put_back, poll_round, find, replace,
}
use static_logger.Poll.Merge.{
  Stamped, Queues, IsFrom, AllFirstFrom, AllEmpty, Takes, Thins, Thins-Takes,
}
use static_logger.Poll.Pending.{
  Pending, entries_of, entries_of-AllNonempty, all_queued, queues, AllHeld, marks, AllApart,
  AllSingle, waiting, ahead, AllEnded, AllStatements, AllReady, Thins-AllReady, held-AllQueued,
}
use static_logger.Poll.Remaining.{
  remaining, remaining-heads, remaining-kept, remaining-Thins, remaining-AllHeld,
  remaining-AllApart, remaining-AllSingle, waiting-remaining, remaining-AllEnded,
}
use static_logger.Poll.Spot.{first_from, spot, Taken, Spot-Taken}

-- The backend between two rounds: its buffers are those of `ps`, each valid and with the entries of
-- its statements as its queue, at different addresses and of different threads; the log file is
-- open, and the length of the log buffer is a `size_t`.
pub record IsBacklog (s : Poll) (ps : List Pending) : Type 0 where
  pub same_buffers : s.thread_buffers ≡ threads (all_queued ps)
  pub held : AllHeld ps
  pub apart : AllApart (marks ps)
  pub single : AllSingle (marks ps)
  pub is_open : s.opened ≡ true
  pub small : s.log_buffer.len < 2 ^ 64

-- The line of a statement, with the bytes that come behind its text.
abbrev pub line_of : Surroundings → Stamped → List ℕ → List ℕ
line_of env x extra = head_text env x.statement ++ (statement_text env x.statement ++ extra)

-- A round that writes the statement `x`, which leaves `ps'`.
abbrev pub Wrote : Surroundings → Poll → Queues → Poll → Queues → Stamped → Type 0
Wrote env s qs s' qs' x =
    (rs : Queues) × (extra : List ℕ) × Takes x qs rs
    × Thins rs qs'
    × (s'.file ≡ s.file ++ line_of env x extra)
    × (length extra ≡ length (head_text env x.statement) + 1)

-- The statement is one of the thread `owner`; those of each thread are `x`, if it is the thread's, and
-- then what waits in `ps'`, and the buffers are those that the loop has left.
abbrev pub TakesFrom : List Pending → List Pending → Stamped → Type 0
TakesFrom ps ps' x =
    (owner : ℕ) × (marks ps' ≡ marks (remaining ps))
    × ((t : ℕ) → waiting t ps ≡ ahead owner t x (waiting t ps'))

-- The backlog `ps` has become `ps'`: either all queues were empty, or a statement has been written.
abbrev pub Serves : Surroundings → Poll → List Pending → Poll → List Pending → Type 0
Serves env s ps s' ps' =
    IsBacklog s' ps'
    × (s'.log_buffer.len ≡ s.log_buffer.len)
    × (AllEnded (marks ps) → AllEnded (marks ps'))
    × ((AllEmpty (queues ps) × (ps' ≡ remaining ps) × (s'.file ≡ s.file))
        ⊎ ((x : Stamped) × Wrote env s (queues ps) s' (queues ps') x × TakesFrom ps ps' x))

-- What a round does to the backlog `ps`.
abbrev pub Rounds : Surroundings → Poll → List Pending → Polled → Type 0
Rounds env s ps polled =
    (s' : Poll) × (ps' : List Pending) × (polled ≡ running s') × Serves env s ps s' ps'

none_left :
    (env : Surroundings) (len : ℕ) (xs : List Stamped)
    → AllStatements env len xs
    → IsFrom uint64_max xs
    → xs ≡ []
none_left env len [] r h = refl
none_left env len (x ∷ xs) r h = absurd (omega (arith, h, r.1))

all_empty :
    (env : Surroundings) (len : ℕ) (qs : Queues)
    → AllReady env len qs
    → AllFirstFrom uint64_max qs
    → AllEmpty qs
all_empty env len [] r h = tt
all_empty env len (q ∷ qs) r h = (none_left env len q r.0 h.0, all_empty env len qs r.1 h.1)

-- The round behind its loop, when a buffer has been chosen.
process_buffer-Rounds :
    (env : Surroundings) (s : Poll) (h : Head) (ps : List Pending)
    → IsBacklog s ps
    → IsCalm env
    → Taken env s.log_buffer.len h ps
    → (s' : Poll) × (rs : List Pending) × (x : Stamped) × (extra : List ℕ) × (owner : ℕ)
      × (after_scan env s (processes (some h.address)) ≡ running s')
      × IsBacklog s' rs
      × (s'.log_buffer.len ≡ s.log_buffer.len)
      × (marks rs ≡ marks ps)
      × Takes x (queues ps) (queues rs)
      × ((t : ℕ) → waiting t ps ≡ ahead owner t x (waiting t rs))
      × (s'.file ≡ s.file ++ line_of env x extra)
      × (length extra ≡ length (head_text env x.statement) + 1)
process_buffer-Rounds env s h ps b calm t =
    let o : Output = record {
      staging = t.buffer;
      log_buffer = s.log_buffer;
      opened = s.opened;
      file = s.file;
    } in
    let x = t.first in
    let w =
      process_log_buffer-statement env o x.statement x.timestamp (entries_of t.others) calm
        t.statement t.valid (entries_of-AllNonempty (x ∷ t.others)) t.holds b.is_open b.small in
    let (rs, e, held, same, tk, waits) = t.replaced w.staging w.valid w.holds w.same_thread in
    (
      record {
        thread_buffers = threads (all_queued rs);
        log_buffer = w.log_buffer;
        opened = s.opened;
        file = s.file ++ line_of env x w.extra;
      },
      rs,
      x,
      w.extra,
      t.owner,
      ap (λ ts. process_buffer env h.address s (find h.address ts)) b.same_buffers
          ∙ ap (process_buffer env h.address s) t.found
          ∙ ap (put_back h.address s) w.is_done
          ∙ ap
              (λ ts. running (record {
                thread_buffers = ts;
                log_buffer = w.log_buffer;
                opened = s.opened;
                file = s.file ++ line_of env x w.extra;
              }))
              (ap (replace h.address w.staging) b.same_buffers ∙ e),
      record {
        same_buffers = refl;
        held = held;
        apart = subst AllApart (sym same) b.apart;
        single = subst AllSingle (sym same) b.single;
        is_open = b.is_open;
        small = omega (arith, w.same_len, b.small);
      },
      w.same_len,
      same,
      tk,
      waits,
      refl,
      w.length_extra,
    )

-- While the threads are quiet: a round of `ioPoll` on valid staging buffers at different addresses,
-- which hold statements that the backend can write, ends. If all queues are empty it writes nothing
-- and leaves what the loop over the buffers leaves; otherwise it appends the line of the earliest
-- statement to the file and takes it off its queue, and no more than empty queues go.
pub poll_round-Rounds :
    (env : Surroundings) (s : Poll) (ps : List Pending)
    → IsBacklog s ps
    → IsCalm env
    → AllReady env s.log_buffer.len (queues ps)
    → Rounds env s ps (poll_round env s)
unfolding poll_round
poll_round-Rounds env s ps b calm ready =
    let qs = all_queued ps in
    let found = scan s.thread_buffers in
    let queued = held-AllQueued ps b.held in
    let kept_all = scan-kept qs queued in
    let left : found.0 ≡ threads (all_queued (remaining ps)) =
      ap (λ ts. (scan ts).0) b.same_buffers ∙ kept_all.0 ∙ ap threads (remaining-kept ps) in
    let best : next (scan (threads qs)).1 ≡ next found.1 =
      ap (λ ts. next (scan ts).1) (sym b.same_buffers) in
    let thin = remaining-Thins ps b.held in
    let s1 : Poll = record s { thread_buffers = found.0 } in
    let b1 : IsBacklog s1 (remaining ps) = record {
      same_buffers = left;
      held = remaining-AllHeld ps b.held;
      apart = remaining-AllApart ps b.apart;
      single = remaining-AllSingle ps b.single;
      is_open = b.is_open;
      small = b.small;
    } in
    elim (scan-IsEarliest qs queued) [
      | inl (waiting, late) ↦ (
        s1,
        remaining ps,
        ap (after_scan env s1) (sym best ∙ waiting),
        (
          b1,
          refl,
          remaining-AllEnded ps,
          inl (
            all_empty env s.log_buffer.len (queues ps) ready
                (first_from env s.log_buffer.len uint64_max ps ready late),
            refl,
            refl,
          ),
        ),
      )
      | inr (h, chosen, (before, after, split, strict, all)) ↦
          let ready1 = Thins-AllReady env s.log_buffer.len thin ready in
          let place =
            spot env s.log_buffer.len h before after (remaining ps) ready1
              (remaining-heads ps b.held ∙ split) strict all in
          let taken =
            Spot-Taken env s.log_buffer.len h (remaining ps) place ready1 b1.held b1.apart
              b1.single in
          let (s', rs, x, extra, owner, e, b', same_len, same, tk, waits, line, count) =
            process_buffer-Rounds env s1 h (remaining ps) b1 calm taken in
          let (us, first, thinner) = Thins-Takes thin tk in
          (
            s',
            rs,
            ap (after_scan env s1) (sym best ∙ chosen) ∙ e,
            (
              b',
              same_len,
              λ ended. subst AllEnded (sym same) (remaining-AllEnded ps ended),
              inr (
                x,
                (us, extra, first, thinner, line, count),
                (owner, same, λ t. sym (waiting-remaining t ps b.held) ∙ waits t),
              ),
            ),
          )
    ]
