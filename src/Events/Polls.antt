-- ===== src/Events/Polls.antt =====
-- A round of the backend thread between the events of the others.
use static_logger.Prelude.{
  ℕ, false, Bool-cases, List, [], ◌∷◌, ◌++◌, ◌==◌, if◌then◌else◌, ◌≡◌, refl, sym, ap, ◌∙◌, subst,
  inl, inr, arith,
}
use mathlib.Core.List.{append_assoc}
use static_logger.Staging.{check_can_delete}
use static_logger.Writer.{Surroundings}
use static_logger.Writer.Entry.{IsCalm}
use static_logger.Poll.{Poll}
use static_logger.Poll.Merge.{Stamped, Thins}
use static_logger.Poll.Pending.{
  Pending, queues, marks, AllOthers, waiting, ahead, AllReady, Takes-AllReady, Thins-AllReady,
}
use static_logger.Poll.Remaining.{
  remaining, remaining-Thins, remaining-AllOthers, waiting-remaining, mark-looked_at,
}
use static_logger.Poll.Rounds.{line_of, Serves, poll_round-Rounds}
use static_logger.Threads.{System}
use static_logger.Events.{Event, polls, with_poll, happen}
use static_logger.Events.Middle.{Sits}
use static_logger.Events.Account.{
  Line, written_by, text_of, IsFine, Account, written_by-last, text_of-last, last-AllLines,
}
use static_logger.Events.Joins.{Continues, unlogged}

-- The buffer of a thread that has not ended stays.
remaining-Sits :
    (t a : ℕ) (ps : List Pending) → Sits t a (marks ps) → Sits t a (marks (remaining ps))
unfolding check_can_delete
remaining-Sits t a [] h = absurd h
remaining-Sits t a (p ∷ ps) (inl (o, e, live)) =
    let stays : check_can_delete p.thread.buffer ≡ false = ground (arith, live) in
    rw stays (inl (o, e, ap (λ m. m.ended) (mark-looked_at p) ∙ live))
remaining-Sits t a (p ∷ ps) (inr h) = elim (Bool-cases (check_can_delete p.thread.buffer)) [
  | inl gone ↦ rw gone (remaining-Sits t a ps h)
  | inr stays ↦ rw stays (inr (remaining-Sits t a ps h))
]

-- What has been written and what waits, when a statement goes from one to the other.
moved_over :
    (u owner : ℕ) (x : Stamped) (ws qs rs : List Stamped)
    → qs ≡ ahead owner u x rs
    → ws ++ qs ≡ (ws ++ (if owner == u then x ∷ [] else [])) ++ rs
moved_over u owner x ws qs rs e = elim (Bool-cases (owner == u)) [
  | inl its ↦
      let now : qs ≡ x ∷ rs = rw its at e in
      rw its (ap (λ ys. ws ++ ys) now ∙ sym (append_assoc ws (x ∷ []) rs))
  | inr other ↦
      let now : qs ≡ rs = rw other at e in
      rw other (ap (λ ys. ws ++ ys) now ∙ sym (append_assoc ws [] rs))
]

module _ (serves : Surroundings → Type 0) (calm : (env : Surroundings) → serves env → IsCalm env)
    (len : ℕ) (start : List ℕ) (es : List Event) where
  round-Account :
      (s : System) (env : Surroundings) (a : Account serves len start es s) (p' : Poll)
      (ps' : List Pending)
      → Serves env s.logger.poll a.pending p' ps'
      → Account serves len start
          (es ++ (polls env ∷ []))
          (record s { logger = record s.logger { poll = p' } })
  round-Account s env a p' ps' (b', same_len, ended, inl (none_queued, left, same_file)) = record {
    pending = ps';
    lines = a.lines;
    backlog = b';
    same_len = same_len ∙ a.same_len;
    seats = λ u c e.
        subst (λ qs. Sits u c (marks qs)) (sym left) (remaining-Sits u c a.pending (a.seats u c e));
    newcomers = λ u e.
        subst (λ qs. AllOthers u (marks qs)) (sym left)
          (remaining-AllOthers u a.pending (a.newcomers u e));
    accounts = λ u. unlogged u es (polls env) (written_by u a.lines ++ waiting u ps') refl (
        a.accounts u
        ∙ ap (λ ys. written_by u a.lines ++ ys)
            (sym (ap (waiting u) left ∙ waiting-remaining u a.pending a.backlog.held)));
    file = same_file ∙ a.file;
    all_lines = a.all_lines;
    ready_for = λ env' k.
        let thin : Thins (queues a.pending) (queues ps') =
          subst (λ qs. Thins (queues a.pending) (queues qs)) (sym left)
            (remaining-Thins a.pending a.backlog.held) in
        Thins-AllReady env' len thin (a.ready_for env' k);
  }
  round-Account s env a p' ps'
        (b', same_len, ended, inr (x, (rs, extra, tk, thin, line, count), (owner, same, waits))) =
      let l : Line = record { owner = owner; statement = x; surroundings = env; extra = extra } in
      record {
        pending = ps';
        lines = a.lines ++ (l ∷ []);
        backlog = b';
        same_len = same_len ∙ a.same_len;
        seats = λ u c e. subst (Sits u c) (sym same) (remaining-Sits u c a.pending (a.seats u c e));
        newcomers = λ u e.
            subst (AllOthers u) (sym same) (remaining-AllOthers u a.pending (a.newcomers u e));
        accounts = λ u.
            unlogged u es (polls env) (written_by u (a.lines ++ (l ∷ [])) ++ waiting u ps') refl (
              a.accounts u
              ∙ moved_over u owner x (written_by u a.lines) (waiting u a.pending) (waiting u ps')
                  (waits u)
              ∙ ap (λ ys. ys ++ waiting u ps') (sym (written_by-last u a.lines l)));
        file =
            line
            ∙ ap (λ f. f ++ line_of env x extra) a.file
            ∙ append_assoc start (text_of a.lines) (line_of env x extra)
            ∙ ap (λ bs. start ++ bs) (sym (text_of-last a.lines l));
        all_lines = last-AllLines a.lines l a.all_lines count;
        ready_for = λ env' k.
            Thins-AllReady env' len thin (Takes-AllReady env' len tk (a.ready_for env' k));
      }

  pub polls-Account :
      (s : System) (env : Surroundings)
      → Account serves len start es s
      → IsFine serves len (polls env) s
      → Continues serves len start es (polls env) s
  unfolding happen
  polls-Account s env a fine =
      let ready =
        subst (λ k. AllReady env k (queues a.pending)) (sym a.same_len) (a.ready_for env fine) in
      let (p', ps', e, served) =
        poll_round-Rounds env s.logger.poll a.pending a.backlog (calm env fine) ready in
      (
        record s { logger = record s.logger { poll = p' } },
        ap (with_poll s) e,
        round-Account s env a p' ps' served,
      )
