-- ===== src/Poll/Merge.antt =====
-- What the rounds of `ioPoll` do to the queues, without the staging buffers: a merge by timestamps.
use static_logger.Prelude.{ℕ, suc, ◌+◌, ◌≤◌, List, [], ◌∷◌, length, ◌≡◌, refl, arith}
use static_logger.Writer.Entry.{Statement}

-- A statement with the timestamp that its thread has taken.
pub record Stamped : Type 0 where
  pub statement : Statement
  pub timestamp : ℕ

abbrev pub Queues : Type 0
Queues = List (List Stamped)

-- The first of a queue, if there is one, is not earlier than `time`.
abbrev pub IsFrom : ℕ → List Stamped → Type 0
IsFrom time [] = Unit
IsFrom time (x ∷ xs) = time ≤ x.timestamp

abbrev pub AllFirstFrom : ℕ → Queues → Type 0
AllFirstFrom time [] = Unit
AllFirstFrom time (q ∷ qs) = IsFrom time q × AllFirstFrom time qs

-- The statement `x` is the first of a queue, no first of another queue is earlier, and none before it
-- is as early; it is taken off.
pub data Takes (x : Stamped) : Queues → Queues → Type 0 where
  here :
      {xs : List Stamped} {qs : Queues}
      → AllFirstFrom x.timestamp qs
      → Takes x ((x ∷ xs) ∷ qs) (xs ∷ qs)
  there :
      {q : List Stamped} {qs rs : Queues}
      → IsFrom (suc x.timestamp) q
      → Takes x qs rs
      → Takes x (q ∷ qs) (q ∷ rs)

-- Some empty queues have gone.
pub data Thins : Queues → Queues → Type 0 where
  nil : Thins [] []
  keeps : {q : List Stamped} {qs rs : Queues} → Thins qs rs → Thins (q ∷ qs) (q ∷ rs)
  drops : {qs rs : Queues} → Thins qs rs → Thins ([] ∷ qs) rs

abbrev pub AllEmpty : Queues → Type 0
AllEmpty [] = Unit
AllEmpty (q ∷ qs) = (q ≡ []) × AllEmpty qs

-- The statements of all queues in the order in which they are taken off.
pub data Merges : Queues → List Stamped → Type 0 where
  ends : {qs : Queues} → AllEmpty qs → Merges qs []
  takes :
      {qs rs : Queues} {x : Stamped} {xs : List Stamped}
      → Takes x qs rs
      → Merges rs xs
      → Merges qs (x ∷ xs)

abbrev pub total : Queues → ℕ
total [] = 0
total (q ∷ qs) = length q + total qs

Thins-from : (t : ℕ) {qs rs : Queues} → Thins qs rs → AllFirstFrom t rs → AllFirstFrom t qs
Thins-from t nil h = tt
Thins-from t (keeps th) h = (h.0, Thins-from t th h.1)
Thins-from t (drops th) h = (tt, Thins-from t th h)

-- What can be taken off with some empty queues gone can be taken off before.
pub Thins-Takes :
    {x : Stamped} {qs rs ss : Queues}
    → Thins qs rs
    → Takes x rs ss
    → (us : Queues) × Takes x qs us × Thins us ss
Thins-Takes nil tk = elim tk [ ]
Thins-Takes {x} (keeps th) (here from) = (_, here (Thins-from x.timestamp th from), keeps th)
Thins-Takes (keeps th) (there from tk) =
    let (us, now, thin) = Thins-Takes th tk in (_, there from now, keeps thin)
Thins-Takes (drops th) tk =
    let (us, now, thin) = Thins-Takes th tk in ([] ∷ us, there tt now, drops thin)

Thins-AllEmpty : {qs rs : Queues} → Thins qs rs → AllEmpty rs → AllEmpty qs
Thins-AllEmpty nil h = tt
Thins-AllEmpty (keeps th) h = (h.0, Thins-AllEmpty th h.1)
Thins-AllEmpty (drops th) h = (refl, Thins-AllEmpty th h)

pub Thins-empty : {qs rs : Queues} → Thins qs rs → AllEmpty qs → AllEmpty rs
Thins-empty nil h = tt
Thins-empty (keeps th) h = (h.0, Thins-empty th h.1)
Thins-empty (drops th) h = Thins-empty th h.1

pub Thins-Merges : (xs : List Stamped) {qs rs : Queues} → Thins qs rs → Merges rs xs → Merges qs xs
Thins-Merges [] th (ends h) = ends (Thins-AllEmpty th h)
Thins-Merges (x ∷ xs) th (takes tk m) =
    let (us, now, thin) = Thins-Takes th tk in takes now (Thins-Merges xs thin m)

pub total-Thins : {qs rs : Queues} → Thins qs rs → total qs ≡ total rs
total-Thins nil = refl
total-Thins (keeps th) = omega (arith, total-Thins th)
total-Thins (drops th) = omega (arith, total-Thins th)

pub total-Takes : {x : Stamped} {qs rs : Queues} → Takes x qs rs → total qs ≡ suc (total rs)
total-Takes (here from) = omega arith
total-Takes (there from tk) = omega (arith, total-Takes tk)
