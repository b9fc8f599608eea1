-- ===== src/Threads/Safety.antt =====
-- The pointer that a thread keeps to its staging buffer.
use static_logger.Prelude.{
  ℕ, true, false, none, some, List, ◌==◌, ◌≡◌, ◌≢◌, refl, sym, subst, ◌∙◌, arith,
}
use native.Mathlib.Decide.{ℕ_discrete}
use static_logger.Staging.{StagingBuffer}
use static_logger.Backend.{ThreadBuffer}
use static_logger.Poll.{find}
use static_logger.Logger.{Logger}
use static_logger.Threads.{Progress, fresh, numbered, allocated, ready, ended, System, assign}
use static_logger.Threads.Keeps.{Keeps}

-- A buffer that is not in the vector yet stands nowhere in it; the pointer of a thread that is ready
-- leads to a buffer in the vector, which the backend may not delete.
abbrev pub Fits : List ThreadBuffer → Progress → Type 0
Fits ts (allocated t) = (find t.address ts ≡ none) × (t.buffer.should_deallocate ≡ false)
Fits ts (ready a) = (b : StagingBuffer) × (find a ts ≡ some b) × (b.should_deallocate ≡ false)
Fits ts _ = Unit

-- The pointer of the thread has this value.
abbrev pub Has : Progress → ℕ → Type 0
Has (allocated t) a = t.address ≡ a
Has (ready c) a = c ≡ a
Has _ a = ⊥

-- Every pointer is good, and no two threads have the same.
pub record IsSafe (s : System) : Type 0 where
  pub fits : (t : ℕ) → Fits s.logger.poll.thread_buffers (s.thread t)
  pub apart : (t u a : ℕ) → Has (s.thread t) a → Has (s.thread u) a → t ≡ u

Keeps-Fits : {ts ts' : List ThreadBuffer} → Keeps ts ts' → (p : Progress) → Fits ts p → Fits ts' p
Keeps-Fits k fresh h = tt
Keeps-Fits k (numbered id) h = tt
Keeps-Fits k (allocated t) (out, live) = (k.still_none t.address out, live)
Keeps-Fits k (ready a) (b, e, live) = k.still_there a b e live
Keeps-Fits k ended h = tt

pub Keeps-IsSafe :
    (s : System) (l : Logger)
    → Keeps s.logger.poll.thread_buffers l.poll.thread_buffers
    → IsSafe s
    → IsSafe (record s { logger = l })
Keeps-IsSafe s l k h = record { fits = λ t. Keeps-Fits k (s.thread t) (h.fits t); apart = h.apart }

-- A thread has gone on.
pub assign-IsSafe :
    (s : System) (l : Logger) (t : ℕ) (p : Progress)
    → IsSafe s
    → Fits l.poll.thread_buffers p
    → ((u : ℕ) → u ≢ t → Fits l.poll.thread_buffers (s.thread u))
    → ((u a : ℕ) → Has p a → Has (s.thread u) a → u ≡ t)
    → IsSafe (record { logger = l; thread = assign t p s.thread })
assign-IsSafe s l t p h now others alone = record { fits = fits; apart = apart }
  where
    is_t : (u : ℕ) → u ≡ t → assign t p s.thread u ≡ p
    is_t u e = let test : (u == t) ≡ true = ground (arith, e) in rw test refl

    not_t : (u : ℕ) → u ≢ t → assign t p s.thread u ≡ s.thread u
    not_t u e = let test : (u == t) ≡ false = ground (arith, e) in rw test refl

    fits : (u : ℕ) → Fits l.poll.thread_buffers (assign t p s.thread u)
    fits u = elim (ℕ_discrete u t) [
      | yes e ↦ subst (Fits l.poll.thread_buffers) (sym (is_t u e)) now
      | no e ↦ subst (Fits l.poll.thread_buffers) (sym (not_t u e)) (others u e)
    ]

    apart : (u v a : ℕ) → Has (assign t p s.thread u) a → Has (assign t p s.thread v) a → u ≡ v
    apart u v a hu hv = elim (ℕ_discrete u t) [
      | yes e ↦ elim (ℕ_discrete v t) [
        | yes e' ↦ e ∙ sym e'
        | no e' ↦
            e
            ∙ sym (
                alone v a (subst (λ k. Has k a) (is_t u e) hu)
                  (subst (λ k. Has k a) (not_t v e') hv))
      ]
      | no e ↦ elim (ℕ_discrete v t) [
        | yes e' ↦
            alone u a (subst (λ k. Has k a) (is_t v e') hv) (subst (λ k. Has k a) (not_t u e) hu)
            ∙ sym e'
        | no e' ↦
            h.apart u v a (subst (λ k. Has k a) (not_t u e) hu)
              (subst (λ k. Has k a) (not_t v e') hv)
      ]
    ]
