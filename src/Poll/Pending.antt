-- ===== src/Poll/Pending.antt =====
-- The staging buffers of the backend with the statements that wait in them.
use static_logger.Prelude.{
  if◌then◌else◌, ◌==◌, ◌++◌, ℕ, ◌≤◌, ◌<◌, Bool, true, List, [], ◌∷◌, length, take, take-append, ◌≡◌,
  ◌≢◌, ap, ◌∙◌, arith,
}
use static_logger.Prelude.Bytes.{le_bytes, le_value, length-le_bytes, le_value-le_bytes}
use static_logger.Staging.Invariant.{IsValid}
use static_logger.Staging.Queue.{Bytes, AllNonempty, Holds}
use static_logger.Log.Entry.{length-entry_bytes}
use static_logger.Backend.{ThreadBuffer, uint64_max}
use static_logger.Backend.Queues.{Queued, AllQueued, AllStamped}
use static_logger.Writer.{Surroundings}
use static_logger.Writer.Entry.{bytes_of, IsStatement}
use static_logger.Poll.Merge.{Stamped, Queues, Takes, here, there, Thins, nil, keeps, drops}

-- `owner` is a number of the thread, which the program does not have.
pub record Pending : Type 0 where
  pub owner : ℕ
  pub thread : ThreadBuffer
  pub statements : List Stamped

abbrev pub entry_of : Stamped → Bytes
entry_of x = bytes_of x.statement x.timestamp

abbrev pub entries_of : List Stamped → List Bytes
entries_of [] = []
entries_of (x ∷ xs) = entry_of x ∷ entries_of xs

abbrev pub queued : Pending → Queued
queued p = record { thread = p.thread; entries = entries_of p.statements }

abbrev pub all_queued : List Pending → List Queued
all_queued [] = []
all_queued (p ∷ ps) = queued p ∷ all_queued ps

abbrev pub queues : List Pending → Queues
queues [] = []
queues (p ∷ ps) = p.statements ∷ queues ps

-- The statements stand in the queue of the buffer.
pub record IsHeld (p : Pending) : Type 0 where
  pub valid : IsValid p.thread.buffer
  pub holds : Holds p.thread.buffer (entries_of p.statements)

abbrev pub AllHeld : List Pending → Type 0
AllHeld [] = Unit
AllHeld (p ∷ ps) = IsHeld p × AllHeld ps

-- Whose buffer it is, and whether its thread has ended.
pub record Mark : Type 0 where
  pub owner : ℕ
  pub address : ℕ
  pub ended : Bool

abbrev pub mark : Pending → Mark
mark p = record {
  owner = p.owner;
  address = p.thread.address;
  ended = p.thread.buffer.should_deallocate;
}

abbrev pub marks : List Pending → List Mark
marks [] = []
marks (p ∷ ps) = mark p ∷ marks ps

abbrev pub AllElsewhere : ℕ → List Mark → Type 0
AllElsewhere address [] = Unit
AllElsewhere address (m ∷ ms) = (m.address ≢ address) × AllElsewhere address ms

-- No two buffers have one address.
abbrev pub AllApart : List Mark → Type 0
AllApart [] = Unit
AllApart (m ∷ ms) = AllElsewhere m.address ms × AllApart ms

abbrev pub AllOthers : ℕ → List Mark → Type 0
AllOthers owner [] = Unit
AllOthers owner (m ∷ ms) = (m.owner ≢ owner) × AllOthers owner ms

-- No thread has two buffers.
abbrev pub AllSingle : List Mark → Type 0
AllSingle [] = Unit
AllSingle (m ∷ ms) = AllOthers m.owner ms × AllSingle ms

-- The statements of the thread `t` that wait.
abbrev pub waiting : ℕ → List Pending → List Stamped
waiting t [] = []
waiting t (p ∷ ps) = if p.owner == t then p.statements ++ waiting t ps else waiting t ps

-- A statement of the thread `owner` in front of those of the thread `t`, if it is the same.
abbrev pub ahead : ℕ → ℕ → Stamped → List Stamped → List Stamped
ahead owner t x xs = if owner == t then x ∷ xs else xs

abbrev pub AllEnded : List Mark → Type 0
AllEnded [] = Unit
AllEnded (m ∷ ms) = (m.ended ≡ true) × AllEnded ms

-- The backend can write each statement, and it has been logged before the end of the time.
abbrev pub AllStatements : Surroundings → ℕ → List Stamped → Type 0
AllStatements env len [] = Unit
AllStatements env len (x ∷ xs) =
    IsStatement env len x.statement × (x.timestamp < uint64_max) × AllStatements env len xs

abbrev pub AllReady : Surroundings → ℕ → Queues → Type 0
AllReady env len [] = Unit
AllReady env len (q ∷ qs) = AllStatements env len q × AllReady env len qs

pub Takes-AllReady :
    (env : Surroundings) (len : ℕ) {x : Stamped} {qs rs : Queues}
    → Takes x qs rs
    → AllReady env len qs
    → AllReady env len rs
Takes-AllReady env len (here from) h = (h.0.2, h.1)
Takes-AllReady env len (there from tk) h = (h.0, Takes-AllReady env len tk h.1)

pub Thins-AllReady :
    (env : Surroundings) (len : ℕ) {qs rs : Queues}
    → Thins qs rs
    → AllReady env len qs
    → AllReady env len rs
Thins-AllReady env len nil h = tt
Thins-AllReady env len (keeps th) h = (h.0, Thins-AllReady env len th h.1)
Thins-AllReady env len (drops th) h = Thins-AllReady env len th h.1

pub length-entry_of : (x : Stamped) → 32 ≤ length (entry_of x)
length-entry_of x =
    let st = x.statement in
    omega (arith, length-entry_bytes st.site st.sizes st.args x.timestamp st.size)

-- The timestamp is the first part of an entry.
pub timestamp-entry_of :
    (x : Stamped) → x.timestamp < uint64_max → le_value (take 8 (entry_of x)) ≡ x.timestamp
timestamp-entry_of x h =
    ap le_value (take-append 8 (le_bytes 8 x.timestamp) _ (length-le_bytes 8 x.timestamp))
    ∙ le_value-le_bytes 8 x.timestamp (omega arith)

pub entries_of-AllStamped : (xs : List Stamped) → AllStamped (entries_of xs)
entries_of-AllStamped [] = tt
entries_of-AllStamped (x ∷ xs) = (omega (arith, length-entry_of x), entries_of-AllStamped xs)

pub entries_of-AllNonempty : (xs : List Stamped) → AllNonempty (entries_of xs)
entries_of-AllNonempty [] = tt
entries_of-AllNonempty (x ∷ xs) = (omega (arith, length-entry_of x), entries_of-AllNonempty xs)

pub held-AllQueued : (ps : List Pending) → AllHeld ps → AllQueued (all_queued ps)
held-AllQueued [] h = tt
held-AllQueued (p ∷ ps) (h, hs) = (
  record { valid = h.valid; stamped = entries_of-AllStamped p.statements; holds = h.holds },
  held-AllQueued ps hs,
)
