-- ===== src/Events/Last.antt =====
-- A new staging buffer behind the others.
use static_logger.Prelude.{
  ℕ, false, Bool-cases, none, List, [], ◌∷◌, ◌++◌, ◌==◌, if◌then◌else◌, ◌≡◌, ◌≢◌, refl, sym, ap,
  inl, inr, arith,
}
use static_logger.Backend.Queues.{threads}
use static_logger.Writer.{Surroundings}
use static_logger.Poll.{find}
use static_logger.Poll.Pending.{
  Pending, all_queued, queues, IsHeld, AllHeld, marks, AllElsewhere, AllApart, AllOthers, AllSingle,
  waiting, AllReady,
}
use static_logger.Events.Middle.{Sits}

pub last-AllHeld :
    (ps : List Pending) (p : Pending) → AllHeld ps → IsHeld p → AllHeld (ps ++ (p ∷ []))
last-AllHeld [] p h k = (k, tt)
last-AllHeld (q ∷ ps) p (h, hs) k = (h, last-AllHeld ps p hs k)

last-AllElsewhere :
    (a : ℕ) (ps : List Pending) (p : Pending)
    → AllElsewhere a (marks ps)
    → p.thread.address ≢ a
    → AllElsewhere a (marks (ps ++ (p ∷ [])))
last-AllElsewhere a [] p h k = (k, tt)
last-AllElsewhere a (q ∷ ps) p (h, hs) k = (h, last-AllElsewhere a ps p hs k)

pub last-AllApart :
    (ps : List Pending) (p : Pending)
    → AllApart (marks ps)
    → AllElsewhere p.thread.address (marks ps)
    → AllApart (marks (ps ++ (p ∷ [])))
last-AllApart [] p h k = (tt, tt)
last-AllApart (q ∷ ps) p (h, hs) (k, ks) =
    (last-AllElsewhere q.thread.address ps p h (λ e. k (sym e)), last-AllApart ps p hs ks)

pub last-AllOthers :
    (t : ℕ) (ps : List Pending) (p : Pending)
    → AllOthers t (marks ps)
    → p.owner ≢ t
    → AllOthers t (marks (ps ++ (p ∷ [])))
last-AllOthers t [] p h k = (k, tt)
last-AllOthers t (q ∷ ps) p (h, hs) k = (h, last-AllOthers t ps p hs k)

pub last-AllSingle :
    (ps : List Pending) (p : Pending)
    → AllSingle (marks ps)
    → AllOthers p.owner (marks ps)
    → AllSingle (marks (ps ++ (p ∷ [])))
last-AllSingle [] p h k = (tt, tt)
last-AllSingle (q ∷ ps) p (h, hs) (k, ks) =
    (last-AllOthers q.owner ps p h (λ e. k (sym e)), last-AllSingle ps p hs ks)

pub last-waiting :
    (t : ℕ) (ps : List Pending) (p : Pending)
    → p.statements ≡ []
    → waiting t (ps ++ (p ∷ [])) ≡ waiting t ps
last-waiting t [] p e = elim (Bool-cases (p.owner == t)) [
  | inl its ↦ rw its (ap (λ xs. xs ++ []) e)
  | inr other ↦ rw other refl
]
last-waiting t (q ∷ ps) p e =
    ap (λ ys. if q.owner == t then q.statements ++ ys else ys) (last-waiting t ps p e)

pub last-AllReady :
    (env : Surroundings) (len : ℕ) (ps : List Pending) (p : Pending)
    → p.statements ≡ []
    → AllReady env len (queues ps)
    → AllReady env len (queues (ps ++ (p ∷ [])))
last-AllReady env len [] p e h = (rw e tt, tt)
last-AllReady env len (q ∷ ps) p e (h, hs) = (h, last-AllReady env len ps p e hs)

pub last-threads :
    (ps : List Pending) (p : Pending)
    → threads (all_queued (ps ++ (p ∷ []))) ≡ threads (all_queued ps) ++ (p.thread ∷ [])
last-threads [] p = refl
last-threads (q ∷ ps) p = ap (◌∷◌ q.thread) (last-threads ps p)

pub last-Sits :
    (t a : ℕ) (ps : List Pending) (p : Pending)
    → Sits t a (marks ps)
    → Sits t a (marks (ps ++ (p ∷ [])))
last-Sits t a [] p h = absurd h
last-Sits t a (q ∷ ps) p (inl h) = inl h
last-Sits t a (q ∷ ps) p (inr h) = inr (last-Sits t a ps p h)

pub new-Sits :
    (ps : List Pending) (p : Pending)
    → p.thread.buffer.should_deallocate ≡ false
    → Sits p.owner p.thread.address (marks (ps ++ (p ∷ [])))
new-Sits [] p h = inl (refl, refl, h)
new-Sits (q ∷ ps) p h = inr (new-Sits ps p h)

pub find-AllElsewhere :
    (a : ℕ) (ps : List Pending)
    → find a (threads (all_queued ps)) ≡ none
    → AllElsewhere a (marks ps)
find-AllElsewhere a [] e = tt
find-AllElsewhere a (p ∷ ps) e = elim (Bool-cases (p.thread.address == a)) [
  | inl same ↦ let wrong = rw same at e in cc
  | inr other ↦ (ground (arith, other), find-AllElsewhere a ps (rw other at e))
]
