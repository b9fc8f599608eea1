-- ===== src/Events/Runs.antt =====
-- Any run of threads that log beside the backend.
use static_logger.Prelude.{
  ℕ, ◌^◌, ◌<◌, true, some, List, [], ◌∷◌, ◌++◌, ◌≡◌, refl, sym, ap, ◌∙◌, subst,
}
use mathlib.Core.List.{append-nil, append_assoc}
use static_logger.Writer.{Surroundings}
use static_logger.Writer.Entry.{IsCalm}
use static_logger.Threads.{fresh, ready, System}
use static_logger.Events.{Event, joins, logs, ends, polls, go_on, happen, run_events}
use static_logger.Events.Account.{IsFine, Account}
use static_logger.Events.Joins.{Continues, joins-Account, ends-Account}
use static_logger.Events.Logs.{logs-Account}
use static_logger.Events.Polls.{polls-Account}

-- A logger that has just been constructed, before any thread logs.
pub record IsNew (len : ℕ) (s : System) : Type 0 where
  pub no_buffers : s.logger.poll.thread_buffers ≡ []
  pub is_open : s.logger.poll.opened ≡ true
  pub same_len : s.logger.poll.log_buffer.len ≡ len
  pub small : s.logger.poll.log_buffer.len < 2 ^ 64
  pub all_fresh : (t : ℕ) → s.thread t ≡ fresh

ready_fresh : {a : ℕ} → ready a ≡ fresh → ⊥
ready_fresh e = cc

module _ (serves : Surroundings → Type 0) (calm : (env : Surroundings) → serves env → IsCalm env)
    (len : ℕ) (start : List ℕ) where
  happens-Account :
      (es : List Event) (e : Event) (s : System)
      → Account serves len start es s
      → IsFine serves len e s
      → Continues serves len start es e s
  happens-Account es (joins t address) s a fine =
      joins-Account serves len start es s t address a fine
  happens-Account es (logs t c) s a fine = logs-Account serves len start es s t c a fine
  happens-Account es (ends t) s a fine = ends-Account serves len start es s t a fine
  happens-Account es (polls env) s a fine = polls-Account serves calm len start es s env a fine

  -- Each event can happen when its turn comes.
  abbrev pub AllFine : List Event → System → Type 0
  AllFine [] s = Unit
  AllFine (e ∷ es) s =
      IsFine serves len e s × ((s' : System) → happen e s ≡ some s' → AllFine es s')

  runs_on :
      (past es : List Event) (s : System)
      → Account serves len start past s
      → AllFine es s
      → (s' : System) × (run_events es s ≡ some s') × Account serves len start (past ++ es) s'
  unfolding run_events
  runs_on past [] s a fine =
      (s, refl, subst (λ es. Account serves len start es s) (sym (append-nil past)) a)
  runs_on past (e ∷ es) s a (fine, later) =
      let (s1, happened, a1) = happens-Account past e s a fine in
      let (s2, ran, a2) = runs_on (past ++ (e ∷ [])) es s1 a1 (later s1 happened) in
      (
        s2,
        ap (go_on (run_events es)) happened ∙ ran,
        subst (λ fs. Account serves len start fs s2) (append_assoc past (e ∷ []) es) a2,
      )

  -- Threads that log beside the backend, from a new logger on whose file is `start`, in any order of
  -- their operations and the rounds of the backend, each of which can happen when its turn comes: a
  -- thread joins once, at an address where no buffer stands, then logs statements for which there is
  -- room and which the surroundings of the rounds serve, and ends. Then each event does happen, and
  -- the account is right after them: the file is `start` and a line for each statement that has been
  -- written, and what each thread has logged is, in this order, what stands in its lines and what
  -- waits in its staging buffer, with nothing lost, doubled or out of order; the buffers are valid,
  -- and each thread that has not ended has its own.
  pub run_events-Account :
      (es : List Event) (s : System)
      → IsNew len s
      → s.logger.poll.file ≡ start
      → AllFine es s
      → (s' : System) × (run_events es s ≡ some s') × Account serves len start es s'
  run_events-Account es s new empty fine =
      runs_on [] es s
        (record {
          pending = [];
          lines = [];
          backlog = record {
            same_buffers = new.no_buffers;
            held = tt;
            apart = tt;
            single = tt;
            is_open = new.is_open;
            small = new.small;
          };
          same_len = new.same_len;
          seats = λ t a e. ready_fresh (sym e ∙ new.all_fresh t);
          newcomers = λ t e. tt;
          accounts = λ t. refl;
          file = empty ∙ sym (append-nil start);
          all_lines = tt;
          ready_for = λ env k. tt;
        })
        fine
