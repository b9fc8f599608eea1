-- ===== src/Events/Account.antt =====
-- What a run of events has done to the statements of each thread.
use static_logger.Prelude.{
  ℕ, ◌+◌, ◌<◌, Bool-cases, none, some, List, [], ◌∷◌, ◌++◌, ◌==◌, if◌then◌else◌, length, ◌≡◌, refl,
  sym, ap, ◌∙◌, inl, inr,
}
use mathlib.Core.List.{append-nil, append_assoc}
use static_logger.Log.{log_entry_size}
use static_logger.Staging.{StagingBuffer}
use static_logger.Poll.{find}
use static_logger.Writer.{Surroundings}
use static_logger.Writer.Entry.{head_text}
use static_logger.Poll.Merge.{Stamped}
use static_logger.Poll.Pending.{Pending, queues, marks, AllOthers, waiting, AllReady}
use static_logger.Poll.Rounds.{IsBacklog, line_of}
use static_logger.Threads.{fresh, ready, System}
use static_logger.Program.Calls.{stamped_of, IsCall, IsServed}
use static_logger.Events.{Event, joins, logs, ends, polls}
use static_logger.Events.Middle.{Sits}

-- The statements that the thread `t` logs, in order.
abbrev pub logged_by : ℕ → List Event → List Stamped
logged_by t [] = []
logged_by t (logs u c ∷ es) = if u == t then stamped_of c ∷ logged_by t es else logged_by t es
logged_by t (joins u a ∷ es) = logged_by t es
logged_by t (ends u ∷ es) = logged_by t es
logged_by t (polls env ∷ es) = logged_by t es

-- A line in the log file.
pub record Line : Type 0 where
  pub owner : ℕ
  pub statement : Stamped
  pub surroundings : Surroundings
  pub extra : List ℕ

abbrev pub text_of : List Line → List ℕ
text_of [] = []
text_of (l ∷ ls) = line_of l.surroundings l.statement l.extra ++ text_of ls

-- The statements of the thread `t` in these lines.
abbrev pub written_by : ℕ → List Line → List Stamped
written_by t [] = []
written_by t (l ∷ ls) = if l.owner == t then l.statement ∷ written_by t ls else written_by t ls

abbrev pub IsLine : Line → Type 0
IsLine l = length l.extra ≡ length (head_text l.surroundings l.statement.statement) + 1

abbrev pub AllLines : List Line → Type 0
AllLines [] = Unit
AllLines (l ∷ ls) = IsLine l × AllLines ls

-- Surroundings for which `serves` holds are those of a round.
module _ (serves : Surroundings → Type 0) (len : ℕ) where
  -- When an event can happen: a thread joins once, at an address where no buffer stands; a thread
  -- that has joined and not ended logs a statement that finds room and that the rounds can write.
  abbrev pub IsFine : Event → System → Type 0
  IsFine (joins t address) s =
      (s.thread t ≡ fresh) × (find address s.logger.poll.thread_buffers ≡ none)
  IsFine (logs t c) s =
      IsCall s.logger.current_log_level c
      × ((address : ℕ) × (b : StagingBuffer) × (s.thread t ≡ ready address)
          × (find address s.logger.poll.thread_buffers ≡ some b)
          × (c.n + log_entry_size < b.min_free_space))
      × ((env : Surroundings) → serves env → IsServed env len c)
  IsFine (ends t) s = (address : ℕ) × (s.thread t ≡ ready address)
  IsFine (polls env) s = serves env

  -- After the events `es` the file holds `start` and the lines; what a thread has logged is what
  -- stands in its lines, and then what waits in its staging buffer.
  pub record Account (start : List ℕ) (es : List Event) (s : System) : Type 0 where
    pub pending : List Pending
    pub lines : List Line
    pub backlog : IsBacklog s.logger.poll pending
    pub same_len : s.logger.poll.log_buffer.len ≡ len
    pub seats : (t a : ℕ) → s.thread t ≡ ready a → Sits t a (marks pending)
    pub newcomers : (t : ℕ) → s.thread t ≡ fresh → AllOthers t (marks pending)
    pub accounts : (t : ℕ) → logged_by t es ≡ written_by t lines ++ waiting t pending
    pub file : s.logger.poll.file ≡ start ++ text_of lines
    pub all_lines : AllLines lines
    pub ready_for : (env : Surroundings) → serves env → AllReady env len (queues pending)

pub logged_by-append :
    (t : ℕ) (es fs : List Event) → logged_by t (es ++ fs) ≡ logged_by t es ++ logged_by t fs
logged_by-append t [] fs = refl
logged_by-append t (logs u c ∷ es) fs = elim (Bool-cases (u == t)) [
  | inl its ↦ rw its (ap (◌∷◌ (stamped_of c)) (logged_by-append t es fs))
  | inr other ↦ rw other (logged_by-append t es fs)
]
logged_by-append t (joins u a ∷ es) fs = logged_by-append t es fs
logged_by-append t (ends u ∷ es) fs = logged_by-append t es fs
logged_by-append t (polls env ∷ es) fs = logged_by-append t es fs

pub written_by-last :
    (t : ℕ) (ls : List Line) (l : Line)
    → written_by t (ls ++ (l ∷ []))
      ≡ written_by t ls ++ (if l.owner == t then l.statement ∷ [] else [])
written_by-last t [] l = refl
written_by-last t (k ∷ ls) l = elim (Bool-cases (k.owner == t)) [
  | inl its ↦ rw its (ap (◌∷◌ k.statement) (written_by-last t ls l))
  | inr other ↦ rw other (written_by-last t ls l)
]

pub text_of-last :
    (ls : List Line) (l : Line)
    → text_of (ls ++ (l ∷ [])) ≡ text_of ls ++ line_of l.surroundings l.statement l.extra
text_of-last [] l = append-nil (line_of l.surroundings l.statement l.extra)
text_of-last (k ∷ ls) l =
    ap (λ bs. line_of k.surroundings k.statement k.extra ++ bs) (text_of-last ls l)
    ∙ sym (append_assoc (line_of k.surroundings k.statement k.extra) (text_of ls) _)

pub last-AllLines : (ls : List Line) (l : Line) → AllLines ls → IsLine l → AllLines (ls ++ (l ∷ []))
last-AllLines [] l h k = (k, tt)
last-AllLines (m ∷ ls) l (h, hs) k = (h, last-AllLines ls l hs k)
