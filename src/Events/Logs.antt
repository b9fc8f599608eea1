-- ===== src/Events/Logs.antt =====
-- A thread logs a statement.
use static_logger.Prelude.{
  ℕ, ◌+◌, ◌<◌, Bool-cases, some, List, [], ◌∷◌, ◌++◌, ◌==◌, ◌≡◌, refl, sym, ap, ◌∙◌, subst, inl,
  inr,
}
use mathlib.Core.List.{append-nil, append_assoc}
use static_logger.Staging.{StagingBuffer}
use static_logger.Log.{log_entry_size}
use static_logger.Writer.{Surroundings}
use static_logger.Writer.Entry.{IsStatement}
use static_logger.Backend.{uint64_max}
use static_logger.Poll.Merge.{Stamped}
use static_logger.Poll.Pending.{Pending, queues, marks, AllOthers, waiting, AllStatements, AllReady}
use static_logger.Threads.{put_buffer, System}
use static_logger.Program.{Call}
use static_logger.Program.Calls.{stamped_of, call-IsStatement, static_log-IsHeld}
use static_logger.Events.{Event, logs, log_as, log_at, store_at, happen}
use static_logger.Events.Middle.{
  Sits, seat, middle-AllOthers, middle-Sits, behind, waiting-behind, middle-AllReady,
}
use static_logger.Events.Exchange.{split-AllSingle, seat-IsHeld, find-seat, exchanged-IsBacklog}
use static_logger.Events.Account.{logged_by, written_by, IsFine, Account, logged_by-append}
use static_logger.Events.Joins.{Continues}

last-AllStatements :
    (env : Surroundings) (len : ℕ) (xs : List Stamped) (x : Stamped)
    → IsStatement env len x.statement
    → x.timestamp < uint64_max
    → AllStatements env len xs
    → AllStatements env len (xs ++ (x ∷ []))
last-AllStatements env len [] x st early h = (st, early, tt)
last-AllStatements env len (y ∷ xs) x st early (h, k, hs) =
    (h, k, last-AllStatements env len xs x st early hs)

-- One statement more is logged, and waits.
one_more :
    (u t : ℕ) (es : List Event) (c : Call) (ws qs rs : List Stamped)
    → logged_by u es ≡ ws ++ qs
    → rs ≡ behind t u (stamped_of c) qs
    → logged_by u (es ++ (logs t c ∷ [])) ≡ ws ++ rs
one_more u t es c ws qs rs h e = elim (Bool-cases (t == u)) [
  | inl its ↦
      let now : rs ≡ qs ++ (stamped_of c ∷ []) = rw its at e in
      logged_by-append u es (logs t c ∷ [])
      ∙ (rw its (ap (λ ys. ys ++ (stamped_of c ∷ [])) h))
      ∙ append_assoc ws qs (stamped_of c ∷ [])
      ∙ ap (λ ys. ws ++ ys) (sym now)
  | inr other ↦
      let now : rs ≡ qs = rw other at e in
      logged_by-append u es (logs t c ∷ [])
      ∙ (rw other (append-nil (logged_by u es) ∙ h))
      ∙ ap (λ ys. ws ++ ys) (sym now)
]

some_buffer : {b c : StagingBuffer} → some b ≡ some c → b ≡ c
some_buffer e = cc

module _ (serves : Surroundings → Type 0) (len : ℕ) (start : List ℕ) (es : List Event) where
  pub logs-Account :
      (s : System) (t : ℕ) (c : Call)
      → Account serves len start es s
      → IsFine serves len (logs t c) s
      → Continues serves len start es (logs t c) s
  unfolding happen
  logs-Account s t c a (call, (address, b, e, found, room), served) =
      let ps = a.pending in
      let place = seat t address ps (a.seats t address e) in
      let p = place.at_seat in
      let there = find-seat s.logger.poll t address ps a.backlog place in
      let same : b ≡ p.thread.buffer = some_buffer (sym found ∙ there) in
      let fits = subst (λ k. c.n + log_entry_size < k.min_free_space) same room in
      let held = seat-IsHeld s.logger.poll t address ps a.backlog place in
      let (d, stored, held', flag, free) =
        static_log-IsHeld s.logger.current_log_level p c held call fits in
      let x = stamped_of c in
      let q : Pending = record {
        owner = p.owner;
        thread = record { address = p.thread.address; buffer = d };
        statements = p.statements ++ (x ∷ []);
      } in
      (
        record s { logger = put_buffer address s.logger d },
        ap (log_as c s) e ∙ ap (log_at address c s) there ∙ ap (store_at address s) stored,
        record {
          pending = place.before ++ (q ∷ place.after);
          lines = a.lines;
          backlog =
              exchanged-IsBacklog s.logger.poll t address ps a.backlog place q refl refl held';
          same_len = a.same_len;
          seats = λ u i e'.
              middle-Sits p q refl refl u i place.before place.after (λ _. flag ∙ place.lives)
                (subst (λ qs. Sits u i (marks qs)) place.split (a.seats u i e'));
          newcomers = λ u e'.
              middle-AllOthers p q refl refl u place.before place.after
                (subst (λ qs. AllOthers u (marks qs)) place.split (a.newcomers u e'));
          accounts = λ u.
              one_more u t es c (written_by u a.lines) (waiting u ps)
                (waiting u (place.before ++ (q ∷ place.after))) (a.accounts u)
                (waiting-behind u place.before p q place.after x refl refl
                    (split-AllSingle s.logger.poll t address ps a.backlog place)
                  ∙ ap (λ o. behind o u x (waiting u (place.before ++ (p ∷ place.after))))
                      place.same_owner
                  ∙ ap (λ qs. behind t u x (waiting u qs)) (sym place.split));
          file = a.file;
          all_lines = a.all_lines;
          ready_for = λ env k.
              middle-AllReady env len place.before p q place.after
                (λ h.
                  last-AllStatements env len p.statements x
                    (call-IsStatement env len s.logger.current_log_level c call (served env k))
                    call.early h)
                (subst (λ qs. AllReady env len (queues qs)) place.split (a.ready_for env k));
        },
      )
