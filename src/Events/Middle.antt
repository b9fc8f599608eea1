-- ===== src/Events/Middle.antt =====
-- One staging buffer among the others, and another one in its place.
use static_logger.Prelude.{
  ℕ, true, false, Bool-cases, some, List, [], ◌∷◌, ◌++◌, ◌==◌, if◌then◌else◌, ◌≡◌, ◌≢◌, ◌⊎◌, refl,
  sym, ap, ◌∙◌, subst, inl, inr, arith,
}
use mathlib.Core.List.{append-nil}
use static_logger.Backend.Queues.{threads}
use static_logger.Writer.{Surroundings}
use static_logger.Poll.{find, replace}
use static_logger.Poll.Merge.{Stamped}
use static_logger.Poll.Pending.{
  Pending, all_queued, queues, IsHeld, AllHeld, Mark, marks, AllElsewhere, AllApart, AllOthers,
  AllSingle, waiting, AllStatements, AllReady,
}

-- The thread `t` has not ended, and its buffer is the one at `address`.
abbrev pub Sits : ℕ → ℕ → List Mark → Type 0
Sits t address [] = ⊥
Sits t address (m ∷ ms) =
    ((m.owner ≡ t) × (m.address ≡ address) × (m.ended ≡ false)) ⊎ Sits t address ms

pub record Seat (t address : ℕ) (ps : List Pending) : Type 0 where
  pub before : List Pending
  pub at_seat : Pending
  pub after : List Pending
  pub split : ps ≡ before ++ (at_seat ∷ after)
  pub same_owner : at_seat.owner ≡ t
  pub same_address : at_seat.thread.address ≡ address
  pub lives : at_seat.thread.buffer.should_deallocate ≡ false

pub seat : (t address : ℕ) (ps : List Pending) → Sits t address (marks ps) → Seat t address ps
seat t address [] h = absurd h
seat t address (p ∷ ps) (inl (o, a, e)) = record {
  before = [];
  at_seat = p;
  after = ps;
  split = refl;
  same_owner = o;
  same_address = a;
  lives = e;
}
seat t address (p ∷ ps) (inr h) =
    let s = seat t address ps h in
    record {
      before = p ∷ s.before;
      at_seat = s.at_seat;
      after = s.after;
      split = ap (◌∷◌ p) s.split;
      same_owner = s.same_owner;
      same_address = s.same_address;
      lives = s.lives;
    }

pub middle-AllHeld :
    (before : List Pending) (p : Pending) (after : List Pending)
    → AllHeld (before ++ (p ∷ after))
    → IsHeld p × ((q : Pending) → IsHeld q → AllHeld (before ++ (q ∷ after)))
middle-AllHeld [] p after (h, hs) = (h, λ q k. (k, hs))
middle-AllHeld (b ∷ before) p after (h, hs) =
    let (here, others) = middle-AllHeld before p after hs in (here, λ q k. (h, others q k))

-- The rest is about a buffer that keeps its address and its thread.
module _ (p q : Pending) (owner : q.owner ≡ p.owner)
    (address : q.thread.address ≡ p.thread.address) where
  middle-AllElsewhere :
      (a : ℕ) (before after : List Pending)
      → AllElsewhere a (marks (before ++ (p ∷ after)))
      → AllElsewhere a (marks (before ++ (q ∷ after)))
  middle-AllElsewhere a [] after (h, hs) = (λ e. h (sym address ∙ e), hs)
  middle-AllElsewhere a (b ∷ before) after (h, hs) = (h, middle-AllElsewhere a before after hs)

  pub middle-AllApart :
      (before after : List Pending)
      → AllApart (marks (before ++ (p ∷ after)))
      → AllApart (marks (before ++ (q ∷ after)))
  middle-AllApart [] after (h, hs) = (subst (λ a. AllElsewhere a (marks after)) (sym address) h, hs)
  middle-AllApart (b ∷ before) after (h, hs) =
      (middle-AllElsewhere b.thread.address before after h, middle-AllApart before after hs)

  pub middle-AllOthers :
      (t : ℕ) (before after : List Pending)
      → AllOthers t (marks (before ++ (p ∷ after)))
      → AllOthers t (marks (before ++ (q ∷ after)))
  middle-AllOthers t [] after (h, hs) = (λ e. h (sym owner ∙ e), hs)
  middle-AllOthers t (b ∷ before) after (h, hs) = (h, middle-AllOthers t before after hs)

  pub middle-AllSingle :
      (before after : List Pending)
      → AllSingle (marks (before ++ (p ∷ after)))
      → AllSingle (marks (before ++ (q ∷ after)))
  middle-AllSingle [] after (h, hs) = (subst (λ o. AllOthers o (marks after)) (sym owner) h, hs)
  middle-AllSingle (b ∷ before) after (h, hs) =
      (middle-AllOthers b.owner before after h, middle-AllSingle before after hs)

  pub middle-Sits :
      (t a : ℕ) (before after : List Pending)
      → (p.owner ≡ t → q.thread.buffer.should_deallocate ≡ false)
      → Sits t a (marks (before ++ (p ∷ after)))
      → Sits t a (marks (before ++ (q ∷ after)))
  middle-Sits t a [] after live (inl (o, e, lives)) = inl (owner ∙ o, address ∙ e, live o)
  middle-Sits t a [] after live (inr h) = inr h
  middle-Sits t a (b ∷ before) after live (inl h) = inl h
  middle-Sits t a (b ∷ before) after live (inr h) = inr (middle-Sits t a before after live h)

apart-middle :
    (a : ℕ) (before : List Pending) (p : Pending) (after : List Pending)
    → AllElsewhere a (marks (before ++ (p ∷ after)))
    → p.thread.address ≢ a
apart-middle a [] p after (h, hs) = h
apart-middle a (b ∷ before) p after (h, hs) = apart-middle a before p after hs

pub find-middle :
    (before : List Pending) (p : Pending) (after : List Pending)
    → AllApart (marks (before ++ (p ∷ after)))
    → find p.thread.address (threads (all_queued (before ++ (p ∷ after)))) ≡ some p.thread.buffer
find-middle [] p after h =
    let same : (p.thread.address == p.thread.address) ≡ true = ground arith in rw same refl
find-middle (b ∷ before) p after (h, hs) =
    let away : (b.thread.address == p.thread.address) ≡ false =
      let other = apart-middle b.thread.address before p after h in ground (arith, other) in
    rw away (find-middle before p after hs)

pub replace-middle :
    (before : List Pending) (p : Pending) (after : List Pending) (q : Pending)
    → q.thread.address ≡ p.thread.address
    → AllApart (marks (before ++ (p ∷ after)))
    → replace p.thread.address q.thread.buffer (threads (all_queued (before ++ (p ∷ after))))
      ≡ threads (all_queued (before ++ (q ∷ after)))
replace-middle [] p after q e h =
    let same : (p.thread.address == p.thread.address) ≡ true = ground arith in
    rw same (
      ap (λ a. record { address = a; buffer = q.thread.buffer } ∷ threads (all_queued after))
        (sym e))
replace-middle (b ∷ before) p after q e (h, hs) =
    let other = apart-middle b.thread.address before p after h in
    let away : (b.thread.address == p.thread.address) ≡ false = ground (arith, other) in
    rw away (ap (◌∷◌ b.thread) (replace-middle before p after q e hs))

pub others-middle :
    (t : ℕ) (before : List Pending) (p : Pending) (after : List Pending)
    → AllOthers t (marks (before ++ (p ∷ after)))
    → p.owner ≢ t
others-middle t [] p after (h, hs) = h
others-middle t (b ∷ before) p after (h, hs) = others-middle t before p after hs

waiting-others : (t : ℕ) (ps : List Pending) → AllOthers t (marks ps) → waiting t ps ≡ []
waiting-others t [] h = refl
waiting-others t (p ∷ ps) (h, hs) =
    let other : (p.owner == t) ≡ false = ground (arith, h) in rw other (waiting-others t ps hs)

-- A statement of the thread `owner` behind those of the thread `t`, if it is the same.
abbrev pub behind : ℕ → ℕ → Stamped → List Stamped → List Stamped
behind owner t x xs = if owner == t then xs ++ (x ∷ []) else xs

pub waiting-behind :
    (t : ℕ) (before : List Pending) (p q : Pending) (after : List Pending) (x : Stamped)
    → q.owner ≡ p.owner
    → q.statements ≡ p.statements ++ (x ∷ [])
    → AllSingle (marks (before ++ (p ∷ after)))
    → waiting t (before ++ (q ∷ after)) ≡ behind p.owner t x (waiting t (before ++ (p ∷ after)))
waiting-behind t [] p q after x o e (h, hs) = elim (Bool-cases (p.owner == t)) [
  | inl its ↦
      let its_too : (q.owner == t) ≡ true = ap (λ k. k == t) o ∙ its in
      let same : p.owner ≡ t = ground (arith, its) in
      let none_behind = waiting-others t after (subst (λ k. AllOthers k (marks after)) same h) in
      rw (its_too, its)
        (ap (λ ys. ys ++ waiting t after) e
          ∙ ap (λ ys. (p.statements ++ (x ∷ [])) ++ ys) none_behind
          ∙ append-nil (p.statements ++ (x ∷ []))
          ∙ ap (λ ys. ys ++ (x ∷ []))
              (sym (append-nil p.statements) ∙ ap (λ ys. p.statements ++ ys) (sym none_behind)))
  | inr other ↦
      let other_too : (q.owner == t) ≡ false = ap (λ k. k == t) o ∙ other in
      rw (other_too, other) refl
]
waiting-behind t (b ∷ before) p q after x o e (h, hs) =
    let later = waiting-behind t before p q after x o e hs in
    let apart = others-middle b.owner before p after h in
    elim (Bool-cases (b.owner == t)) [
      | inl its ↦
          let not_p : (p.owner == t) ≡ false = ground (arith, its, apart) in
          rw (its, not_p) (ap (λ ys. b.statements ++ ys) (rw not_p at later))
      | inr other ↦ elim (Bool-cases (p.owner == t)) [
        | inl p_its ↦ rw (other, p_its) (rw p_its at later)
        | inr not_p ↦ rw (other, not_p) (rw not_p at later)
      ]
    ]

pub waiting-same :
    (t : ℕ) (before : List Pending) (p q : Pending) (after : List Pending)
    → q.owner ≡ p.owner
    → q.statements ≡ p.statements
    → waiting t (before ++ (q ∷ after)) ≡ waiting t (before ++ (p ∷ after))
waiting-same t [] p q after o e =
    ap (λ k. if k == t then q.statements ++ waiting t after else waiting t after) o
    ∙ ap (λ xs. if p.owner == t then xs ++ waiting t after else waiting t after) e
waiting-same t (b ∷ before) p q after o e =
    ap (λ ys. if b.owner == t then b.statements ++ ys else ys) (waiting-same t before p q after o e)

pub middle-AllReady :
    (env : Surroundings) (len : ℕ) (before : List Pending) (p q : Pending) (after : List Pending)
    → (AllStatements env len p.statements → AllStatements env len q.statements)
    → AllReady env len (queues (before ++ (p ∷ after)))
    → AllReady env len (queues (before ++ (q ∷ after)))
middle-AllReady env len [] p q after f (h, hs) = (f h, hs)
middle-AllReady env len (b ∷ before) p q after f (h, hs) =
    (h, middle-AllReady env len before p q after f hs)
