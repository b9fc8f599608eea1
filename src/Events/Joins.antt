-- ===== src/Events/Joins.antt =====
-- A thread gets its staging buffer, and a thread ends.
use static_logger.Prelude.{
  ℕ, true, Bool-cases, none, some, List, [], ◌∷◌, ◌++◌, ◌==◌, ◌≡◌, refl, sym, ap, ◌∙◌, subst, inl,
  inr, arith,
}
use mathlib.Core.List.{append-nil}
use static_logger.Staging.{new}
use static_logger.Staging.Invariant.{new-IsValid}
use static_logger.Staging.Queue.{new-Holds}
use static_logger.Backend.Queues.{threads}
use static_logger.Writer.{Surroundings}
use static_logger.Poll.{find}
use static_logger.Poll.Pending.{Pending, all_queued, queues, marks, AllOthers, waiting, AllReady}
use static_logger.Threads.{
  ready, ended, take_buffer_id, push_back, ensure_staging_buffer_allocated, put_buffer, mark_in,
  destroy_staging_buffer, System, assign,
}
use static_logger.Events.{Event, joins, ends, join_as, end_as, with_ended, happen}
use static_logger.Events.Middle.{
  Sits, seat, middle-AllOthers, middle-Sits, waiting-same, middle-AllReady,
}
use static_logger.Events.Last.{
  last-AllHeld, last-AllApart, last-AllOthers, last-AllSingle, last-waiting, last-AllReady,
  last-threads, last-Sits, new-Sits, find-AllElsewhere,
}
use static_logger.Events.Exchange.{seat-IsHeld, find-seat, exchanged-IsBacklog}
use static_logger.Events.Account.{logged_by, written_by, IsFine, Account, logged_by-append}

-- The event happens, and the account goes on.
abbrev pub Continues : (Surroundings → Type 0) → ℕ → List ℕ → List Event → Event → System → Type 0
Continues serves len start es e s =
    (s' : System) × (happen e s ≡ some s') × Account serves len start (es ++ (e ∷ [])) s'

-- Nothing has been logged by the last event.
pub unlogged :
    (t : ℕ) (es : List Event) (e : Event) (xs : _)
    → logged_by t (e ∷ []) ≡ []
    → logged_by t es ≡ xs
    → logged_by t (es ++ (e ∷ [])) ≡ xs
unlogged t es e xs none_logged h =
    logged_by-append t es (e ∷ [])
    ∙ ap (λ ys. logged_by t es ++ ys) none_logged
    ∙ append-nil (logged_by t es)
    ∙ h

ready_only : {a c : ℕ} → ready a ≡ ready c → a ≡ c
ready_only e = cc

module _ (serves : Surroundings → Type 0) (len : ℕ) (start : List ℕ) (es : List Event) where
  pub joins-Account :
      (s : System) (t address : ℕ)
      → Account serves len start es s
      → IsFine serves len (joins t address) s
      → Continues serves len start es (joins t address) s
  unfolding happen ensure_staging_buffer_allocated take_buffer_id push_back new
  joins-Account s t address a (e, free) =
      let id = s.logger.next_buffer_id in
      let ps = a.pending in
      let p : Pending = record {
        owner = t;
        thread = record { address = address; buffer = new id };
        statements = [];
      } in
      let nowhere : find address (threads (all_queued ps)) ≡ none =
        ap (find address) (sym a.backlog.same_buffers) ∙ free in
      let s' : System = record {
        logger = (ensure_staging_buffer_allocated address none s.logger).1;
        thread = assign t (ready address) s.thread;
      } in
      (
        s',
        ap (join_as t address s) e,
        record {
          pending = ps ++ (p ∷ []);
          lines = a.lines;
          backlog = record {
            same_buffers =
                ap (λ ts. ts ++ (p.thread ∷ [])) a.backlog.same_buffers ∙ sym (last-threads ps p);
            held =
                last-AllHeld ps p a.backlog.held
                  (record { valid = new-IsValid id; holds = new-Holds id });
            apart = last-AllApart ps p a.backlog.apart (find-AllElsewhere address ps nowhere);
            single = last-AllSingle ps p a.backlog.single (a.newcomers t e);
            is_open = a.backlog.is_open;
            small = a.backlog.small;
          };
          same_len = a.same_len;
          seats = λ u c e'. elim (Bool-cases (u == t)) [
            | inl its ↦
                let it : u ≡ t = ground (arith, its) in
                let there : address ≡ c = ready_only (rw its at e') in
                subst (λ k. Sits k c (marks (ps ++ (p ∷ [])))) (sym it)
                  (subst (λ k. Sits t k (marks (ps ++ (p ∷ [])))) there (new-Sits ps p refl))
            | inr other ↦ last-Sits u c ps p (a.seats u c (rw other at e'))
          ];
          newcomers = λ u e'. elim (Bool-cases (u == t)) [
            | inl its ↦ let wrong = rw its at e' in cc
            | inr other ↦
                last-AllOthers u ps p (a.newcomers u (rw other at e')) (ground (arith, other))
          ];
          accounts = λ u.
              unlogged u es (joins t address) (written_by u a.lines ++ waiting u (ps ++ (p ∷ [])))
                refl
                (a.accounts u
                  ∙ ap (λ ys. written_by u a.lines ++ ys) (sym (last-waiting u ps p refl)));
          file = a.file;
          all_lines = a.all_lines;
          ready_for = λ env k. last-AllReady env len ps p refl (a.ready_for env k);
        },
      )

  pub ends-Account :
      (s : System) (t : ℕ)
      → Account serves len start es s
      → IsFine serves len (ends t) s
      → Continues serves len start es (ends t) s
  unfolding happen destroy_staging_buffer
  ends-Account s t a (address, e) =
      let ps = a.pending in
      let place = seat t address ps (a.seats t address e) in
      let p = place.at_seat in
      let q : Pending = record {
        owner = p.owner;
        thread = record {
          address = p.thread.address;
          buffer = record p.thread.buffer { should_deallocate = true };
        };
        statements = p.statements;
      } in
      let held = seat-IsHeld s.logger.poll t address ps a.backlog place in
      let whole = λ (u : ℕ). ap (waiting u) place.split in
      let l = put_buffer address s.logger q.thread.buffer in
      (
        record { logger = l; thread = assign t ended s.thread },
        ap (end_as t s) e
            ∙ ap (λ r. with_ended t s (mark_in address s.logger r))
                (find-seat s.logger.poll t address ps a.backlog place),
        record {
          pending = place.before ++ (q ∷ place.after);
          lines = a.lines;
          backlog =
              exchanged-IsBacklog s.logger.poll t address ps a.backlog place q refl refl (record {
                valid = record { producer_in = held.valid.producer_in; free = held.valid.free };
                holds = held.holds;
              });
          same_len = a.same_len;
          seats = λ u c e'. elim (Bool-cases (u == t)) [
            | inl its ↦ let wrong = rw its at e' in cc
            | inr other ↦
                middle-Sits p q refl refl u c place.before place.after
                  (λ it. absurd (ground (arith, other, it, place.same_owner)))
                  (subst (λ qs. Sits u c (marks qs)) place.split (a.seats u c (rw other at e')))
          ];
          newcomers = λ u e'. elim (Bool-cases (u == t)) [
            | inl its ↦ let wrong = rw its at e' in cc
            | inr other ↦
                middle-AllOthers p q refl refl u place.before place.after (
                  subst (λ qs. AllOthers u (marks qs)) place.split (a.newcomers u (rw other at e')))
          ];
          accounts = λ u.
              unlogged u es (ends t)
                (written_by u a.lines ++ waiting u (place.before ++ (q ∷ place.after))) refl
                (a.accounts u
                  ∙ ap (λ ys. written_by u a.lines ++ ys)
                      (whole u ∙ sym (waiting-same u place.before p q place.after refl refl)));
          file = a.file;
          all_lines = a.all_lines;
          ready_for = λ env k.
              middle-AllReady env len place.before p q place.after (λ h. h)
                (subst (λ qs. AllReady env len (queues qs)) place.split (a.ready_for env k));
        },
      )
