-- ===== src/Poll/Spot.antt =====
-- Where the earliest statement stands, and the buffer that it is taken from.
use static_logger.Prelude.{
  if◌then◌else◌, ◌≢◌, true, Bool-cases, ℕ, suc, true, false, some, List, [], ◌∷◌, ◌++◌, ◌==◌, ◌≡◌,
  refl, sym, ap, ◌∙◌, arith, subst, ◌⊎◌, inl, inr, take,
}
use static_logger.Prelude.Bytes.{le_value}
use static_logger.Staging.{StagingBuffer}
use static_logger.Staging.Invariant.{IsValid}
use static_logger.Staging.Queue.{Holds}
use static_logger.Backend.Queues.{threads, Head, head_of, heads, AllFrom}
use static_logger.Writer.{Surroundings}
use static_logger.Writer.Entry.{IsStatement}
use static_logger.Poll.{find, replace}
use static_logger.Poll.Merge.{Stamped, IsFrom, AllFirstFrom, Takes, here, there}
use static_logger.Poll.Pending.{
  Pending, entry_of, entries_of, all_queued, queues, AllHeld, mark, marks, AllElsewhere, AllApart,
  AllOthers, AllSingle, waiting, ahead, AllStatements, AllReady, timestamp-entry_of,
}

-- The first statement of one of the queues, with the time and the address of `h`.
pub data Spot (h : Head) : List Pending → Type 0 where
  at_first :
      {p : Pending} {x : Stamped} {xs : List Stamped} {ps : List Pending}
      → p.statements ≡ x ∷ xs
      → p.thread.address ≡ h.address
      → x.timestamp ≡ h.timestamp
      → AllFirstFrom h.timestamp (queues ps)
      → Spot h (p ∷ ps)
  behind :
      {p : Pending} {ps : List Pending}
      → IsFrom (suc h.timestamp) p.statements
      → Spot h ps
      → Spot h (p ∷ ps)

split-IsFrom :
    (env : Surroundings) (len t address : ℕ) (xs : List Stamped) (hs : List Head)
    → AllStatements env len xs
    → AllFrom t (head_of address (entries_of xs) hs)
    → IsFrom t xs × AllFrom t hs
split-IsFrom env len t address [] hs r h = (tt, h)
split-IsFrom env len t address (x ∷ xs) hs r h =
    let time = timestamp-entry_of x r.1 in (omega (arith, h.0), h.1)

pub first_from :
    (env : Surroundings) (len t : ℕ) (ps : List Pending)
    → AllReady env len (queues ps)
    → AllFrom t (heads (all_queued ps))
    → AllFirstFrom t (queues ps)
first_from env len t [] r h = tt
first_from env len t (p ∷ ps) r h =
    let (now, later) =
      split-IsFrom env len t p.thread.address p.statements (heads (all_queued ps)) r.0 h in
    (now, first_from env len t ps r.1 later)

-- Either the head is the first of these statements, or it stands behind them.
abbrev Stands : Head → ℕ → List Stamped → List Head → List Head → Type 0
Stands h address xs hs after =
    ((x : Stamped) × (rest : List Stamped) × (xs ≡ x ∷ rest)
      × (address ≡ h.address)
      × (x.timestamp ≡ h.timestamp)
      × (hs ≡ after))
    ⊎ ((before : List Head) × IsFrom (suc h.timestamp) xs
        × (hs ≡ before ++ h ∷ after)
        × AllFrom (suc h.timestamp) before)

stands :
    (env : Surroundings) (len : ℕ) (h : Head) (address : ℕ) (xs : List Stamped)
    (hs before after : List Head)
    → AllStatements env len xs
    → head_of address (entries_of xs) hs ≡ before ++ h ∷ after
    → AllFrom (suc h.timestamp) before
    → Stands h address xs hs after
stands env len h address [] hs before after r e s = inr (before, tt, e, s)
stands env len h address (x ∷ xs) hs [] after r e s =
    let time = timestamp-entry_of x r.1 in
    let same : record { address = address; timestamp = le_value (take 8 (entry_of x)) } ≡ h = cc in
    inl (x, xs, refl, ap (λ k. k.address) same, sym time ∙ ap (λ k. k.timestamp) same, cc)
stands env len h address (x ∷ xs) hs (k ∷ before) after r e s =
    let time = timestamp-entry_of x r.1 in
    let same : record { address = address; timestamp = le_value (take 8 (entry_of x)) } ≡ k = cc in
    let stamp : x.timestamp ≡ k.timestamp = sym time ∙ ap (λ j. j.timestamp) same in
    inr (before, omega (arith, s.0), cc, s.1)

pub spot :
    (env : Surroundings) (len : ℕ) (h : Head) (before after : List Head) (ps : List Pending)
    → AllReady env len (queues ps)
    → heads (all_queued ps) ≡ before ++ h ∷ after
    → AllFrom (suc h.timestamp) before
    → AllFrom h.timestamp after
    → Spot h ps
spot env len h [] after [] r e s a = cc
spot env len h (k ∷ before) after [] r e s a = cc
spot env len h before after (p ∷ ps) r e s a =
    let hs = heads (all_queued ps) in
    elim (stands env len h p.thread.address p.statements hs before after r.0 e s) [
      | inl (x, rest, split, address, time, same) ↦
          at_first split address time
            (first_from env len h.timestamp ps r.1 (subst (AllFrom h.timestamp) (sym same) a))
      | inr (before', from, split, strict) ↦
          behind from (spot env len h before' after ps r.1 split strict a)
    ]

-- The buffer of the earliest statement, and what the list of buffers is with another one in its
-- place.
pub record Taken (env : Surroundings) (len : ℕ) (h : Head) (ps : List Pending) : Type 0 where
  pub owner : ℕ
  pub first : Stamped
  pub others : List Stamped
  pub buffer : StagingBuffer
  pub found : find h.address (threads (all_queued ps)) ≡ some buffer
  pub valid : IsValid buffer
  pub holds : Holds buffer (entry_of first ∷ entries_of others)
  pub statement : IsStatement env len first.statement
  pub time : first.timestamp ≡ h.timestamp
  pub among : (o : ℕ) → AllOthers o (marks ps) → o ≢ owner
  pub replaced :
      (d : StagingBuffer)
      → IsValid d
      → Holds d (entries_of others)
      → d.should_deallocate ≡ buffer.should_deallocate
      → (rs : List Pending) × (replace h.address d (threads (all_queued ps))
          ≡ threads (all_queued rs))
        × AllHeld rs
        × (marks rs ≡ marks ps)
        × Takes first (queues ps) (queues rs)
        × ((t : ℕ) → waiting t ps ≡ ahead owner t first (waiting t rs))

passed_by :
    (address : ℕ) {h : Head} {ps : List Pending}
    → Spot h ps
    → AllElsewhere address (marks ps)
    → (address == h.address) ≡ false
passed_by address (at_first split same time from) e = ground (arith, e.0)
passed_by address (behind from sp) e = passed_by address sp e.1

waiting-first :
    (t : ℕ) (p : Pending) (x : Stamped) (xs : List Stamped) (ps : List Pending)
    → p.statements ≡ x ∷ xs
    → waiting t (p ∷ ps)
      ≡ ahead p.owner t x (if p.owner == t then xs ++ waiting t ps else waiting t ps)
waiting-first t p x xs ps split = elim (Bool-cases (p.owner == t)) [
  | inl its ↦ rw its (ap (λ ys. ys ++ waiting t ps) split)
  | inr other ↦ rw other refl
]

waiting-behind :
    (t : ℕ) (p : Pending) (owner : ℕ) (x : Stamped) (ps rs : List Pending)
    → p.owner ≢ owner
    → waiting t ps ≡ ahead owner t x (waiting t rs)
    → waiting t (p ∷ ps) ≡ ahead owner t x (waiting t (p ∷ rs))
waiting-behind t p owner x ps rs other e = elim (Bool-cases (p.owner == t)) [
  | inl its ↦
      let not_its : (owner == t) ≡ false = ground (arith, other) in
      let same : waiting t ps ≡ waiting t rs = rw not_its at e in
      rw (its, not_its) (ap (λ ys. p.statements ++ ys) same)
  | inr not_p ↦ elim (Bool-cases (owner == t)) [
    | inl its ↦ rw (not_p, its) (rw its at e)
    | inr not_its ↦ rw (not_p, not_its) (rw not_its at e)
  ]
]

pub Spot-Taken :
    (env : Surroundings) (len : ℕ) (h : Head) (ps : List Pending)
    → Spot h ps
    → AllReady env len (queues ps)
    → AllHeld ps
    → AllApart (marks ps)
    → AllSingle (marks ps)
    → Taken env len h ps
Spot-Taken env len h [] sp r held apart single = elim sp [ ]
Spot-Taken env len h (p ∷ ps) (at_first {x} {xs} split same time from) r held apart single =
    let here_now : (p.thread.address == h.address) ≡ true = ground (arith, same) in
    record {
      owner = p.owner;
      first = x;
      others = xs;
      buffer = p.thread.buffer;
      found = rw here_now refl;
      valid = held.0.valid;
      holds = subst (λ ys. Holds p.thread.buffer (entries_of ys)) split held.0.holds;
      statement = (subst (AllStatements env len) split r.0).0;
      time = time;
      among = λ o other. λ e. other.0 (sym e);
      replaced = λ d v hd same_end. (
        record {
          owner = p.owner;
          thread = record { address = p.thread.address; buffer = d };
          statements = xs;
        }
            ∷ ps,
        rw here_now refl,
        (record { valid = v; holds = hd }, held.1),
        ap (λ e. record { owner = p.owner; address = p.thread.address; ended = e } ∷ marks ps)
            same_end,
        subst (λ ys. Takes x (ys ∷ queues ps) (xs ∷ queues ps)) (sym split)
            (here (subst (λ t. AllFirstFrom t (queues ps)) (sym time) from)),
        λ t. waiting-first t p x xs ps split,
      );
    }
Spot-Taken env len h (p ∷ ps) (behind from sp) r held apart single =
    let t = Spot-Taken env len h ps sp r.1 held.1 apart.1 single.1 in
    let passed = passed_by p.thread.address sp apart.0 in
    record {
      owner = t.owner;
      first = t.first;
      others = t.others;
      buffer = t.buffer;
      found = rw passed t.found;
      valid = t.valid;
      holds = t.holds;
      statement = t.statement;
      time = t.time;
      among = λ o other. t.among o other.1;
      replaced = λ d v hd same_end.
          let (rs, e, held', same_marks, tk, waits) = t.replaced d v hd same_end in
          (
            p ∷ rs,
            rw passed (ap (◌∷◌ p.thread) e),
            (held.0, held'),
            ap (◌∷◌ (mark p)) same_marks,
            there (subst (λ k. IsFrom (suc k) p.statements) (sym t.time) from) tk,
            λ o. waiting-behind o p t.owner t.first ps rs (t.among p.owner single.0) (waits o),
          );
    }
