-- ===== src/Backend/Queues.antt =====
-- The loop of a round of `ioPoll` by the queues of the staging buffers.
use static_logger.Prelude.{
  ℕ, ◌+◌, ◌-◌, ◌≤◌, Bool-cases, some, List, [], ◌∷◌, ◌++◌, length, take, take-append, ltb, lt→ltb,
  if◌then◌else◌, ◌≡◌, refl, sym, ap, ◌∙◌, inl, inr, arith,
}
use static_logger.Prelude.Memory.{read_bytes, read_bytes-append, length-read_bytes}
use static_logger.Prelude.Bytes.{le_value}
use static_logger.Staging.{StagingBuffer, peek, check_can_delete}
use static_logger.Staging.Invariant.{IsValid, peek-IsValid}
use static_logger.Staging.Queue.{Bytes, AllNonempty, Holds}
use static_logger.Staging.Consumer.{Answers, peek-Answers}
use static_logger.Staging.Deletion.{can_delete-empty}
use static_logger.Backend.{ThreadBuffer, Earliest, compare_earliest, scan}
use static_logger.Backend.Sweep.{swept, compared, scan-swept}

-- A staging buffer with the entries that are in its queue.
pub record Queued : Type 0 where
  pub thread : ThreadBuffer
  pub entries : List Bytes

abbrev pub threads : List Queued → List ThreadBuffer
threads [] = []
threads (q ∷ qs) = q.thread ∷ threads qs

-- Each entry is long enough for a timestamp.
abbrev pub AllStamped : List Bytes → Type 0
AllStamped [] = Unit
AllStamped (r ∷ rs) = (8 ≤ length r) × AllStamped rs

pub record IsQueued (q : Queued) : Type 0 where
  pub valid : IsValid q.thread.buffer
  pub stamped : AllStamped q.entries
  pub holds : Holds q.thread.buffer q.entries

abbrev pub AllQueued : List Queued → Type 0
AllQueued [] = Unit
AllQueued (q ∷ qs) = IsQueued q × AllQueued qs

-- The first entry of a queue: whose it is, and its timestamp.
pub record Head : Type 0 where
  pub address : ℕ
  pub timestamp : ℕ

abbrev pub head_of : ℕ → List Bytes → List Head → List Head
head_of address [] hs = hs
head_of address (r ∷ rs) hs = record { address = address; timestamp = le_value (take 8 r) } ∷ hs

abbrev pub heads : List Queued → List Head
heads [] = []
heads (q ∷ qs) = head_of q.thread.address q.entries (heads qs)

abbrev pub AllFrom : ℕ → List Head → Type 0
AllFrom time [] = Unit
AllFrom time (h ∷ hs) = (time ≤ h.timestamp) × AllFrom time hs

stamped-nonempty : (rs : List Bytes) → AllStamped rs → AllNonempty rs
stamped-nonempty [] h = tt
stamped-nonempty (r ∷ rs) h = (omega (arith, h.0), stamped-nonempty rs h.1)

-- The comparison with one head.
abbrev pub consider : Head → Earliest → Earliest
consider h e =
    if ltb h.timestamp e.first then record { first = h.timestamp; second = some h.address } else e

abbrev pub consider_all : List Head → Earliest → Earliest
consider_all [] e = e
consider_all (h ∷ hs) e = consider_all hs (consider h e)

take-read :
    (b : StagingBuffer) (p : ℕ) (r : Bytes)
    → 8 ≤ length r
    → read_bytes b.storage p (length r) ≡ r
    → read_bytes b.storage p 8 ≡ take 8 r
take-read b p r h e =
    let k = length r - 8 in
    let count : length r ≡ 8 + k = omega arith in
    let whole = sym e ∙ ap (read_bytes b.storage p) count ∙ read_bytes-append b.storage p 8 k in
    sym (
      ap (take 8) whole
      ∙ take-append 8 (read_bytes b.storage p 8) (read_bytes b.storage (p + 8) k)
          (length-read_bytes b.storage p 8))

compare_earliest-Answers :
    (address : ℕ) (seen : ℕ × ℕ × StagingBuffer) (rs : List Bytes) (hs : List Head) (e : Earliest)
    → AllStamped rs
    → Answers seen rs
    → consider_all hs (compare_earliest address seen e) ≡ consider_all (head_of address rs hs) e
unfolding compare_earliest
compare_earliest-Answers address (p, n, b) [] hs e st nothing = rw nothing refl
compare_earliest-Answers address (p, n, b) (r ∷ rs) hs e st (at_consumer, all, room, read) =
    rw (lt→ltb 0 n (omega (arith, st.0)), take-read b p r st.0 read) refl

-- A round of the loop and what it leaves, buffer by buffer.
abbrev pub kept : List Queued → List Queued
kept [] = []
kept (q ∷ qs) =
    if check_can_delete q.thread.buffer
    then kept qs
    else record {
      thread = record { address = q.thread.address; buffer = (peek q.thread.buffer).2 };
      entries = q.entries;
    }
      ∷ kept qs

swept-threads : (qs : List Queued) → swept (threads qs) ≡ threads (kept qs)
swept-threads [] = refl
swept-threads (q ∷ qs) = elim (Bool-cases (check_can_delete q.thread.buffer)) [
  | inl gone ↦ rw gone (swept-threads qs)
  | inr stays ↦ rw stays (
      ap (◌∷◌ (record { address = q.thread.address; buffer = (peek q.thread.buffer).2 }))
        (swept-threads qs))
]

pub compared-heads :
    (qs : List Queued) (e : Earliest)
    → AllQueued qs
    → compared (threads qs) e ≡ consider_all (heads qs) e
compared-heads [] e h = refl
compared-heads (q ∷ qs) e (h, hs) =
    let ne = stamped-nonempty q.entries h.stamped in
    elim (Bool-cases (check_can_delete q.thread.buffer)) [
      | inl gone ↦
          rw (gone, (can_delete-empty q.thread.buffer q.entries ne h.holds gone).1)
            (compared-heads qs e hs)
      | inr stays ↦ rw stays (
          compared-heads qs (compare_earliest q.thread.address (peek q.thread.buffer) e) hs
          ∙ compare_earliest-Answers q.thread.address (peek q.thread.buffer) q.entries (heads qs) e
              h.stamped (peek-Answers q.thread.buffer q.entries h.valid ne h.holds).1)
    ]

kept-AllQueued : (qs : List Queued) → AllQueued qs → AllQueued (kept qs)
kept-AllQueued [] h = tt
kept-AllQueued (q ∷ qs) (h, hs) =
    let ne = stamped-nonempty q.entries h.stamped in
    elim (Bool-cases (check_can_delete q.thread.buffer)) [
      | inl gone ↦ rw gone (kept-AllQueued qs hs)
      | inr stays ↦ rw stays (
        record {
          valid = peek-IsValid h.valid;
          stamped = h.stamped;
          holds = (peek-Answers q.thread.buffer q.entries h.valid ne h.holds).0;
        },
        kept-AllQueued qs hs,
      )
    ]

-- All entries that are in some queue.
abbrev pub all_entries : List Queued → List Bytes
all_entries [] = []
all_entries (q ∷ qs) = q.entries ++ all_entries qs

kept-all_entries : (qs : List Queued) → AllQueued qs → all_entries (kept qs) ≡ all_entries qs
kept-all_entries [] h = refl
kept-all_entries (q ∷ qs) (h, hs) =
    let ne = stamped-nonempty q.entries h.stamped in
    elim (Bool-cases (check_can_delete q.thread.buffer)) [
      | inl gone ↦
          rw (gone, (can_delete-empty q.thread.buffer q.entries ne h.holds gone).1)
            (kept-all_entries qs hs)
      | inr stays ↦ rw stays (ap (◌++◌ q.entries) (kept-all_entries qs hs))
    ]

-- While the threads are quiet, the loop of `ioPoll` loses no entry: it leaves the buffers `kept`,
-- all of them valid, and they hold all entries that were in some queue, in the same order.
pub scan-kept :
    (qs : List Queued)
    → AllQueued qs
    → ((scan (threads qs)).0 ≡ threads (kept qs))
      × AllQueued (kept qs)
      × (all_entries (kept qs) ≡ all_entries qs)
scan-kept qs h = (
  ap (λ s. s.0) (scan-swept (threads qs)) ∙ swept-threads qs,
  kept-AllQueued qs h,
  kept-all_entries qs h,
)
