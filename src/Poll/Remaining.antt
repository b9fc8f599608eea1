-- ===== src/Poll/Remaining.antt =====
-- What the loop over the staging buffers leaves of them.
use static_logger.Prelude.{
  ℕ, ◌==◌, ◌++◌, true, Bool-cases, List, [], ◌∷◌, if◌then◌else◌, ◌≡◌, refl, sym, ap, ◌∙◌, inl, inr,
  arith,
}
use static_logger.Staging.{peek, check_can_delete}
use static_logger.Staging.Invariant.{peek-IsValid}
use static_logger.Staging.Consumer.{peek-Answers}
use static_logger.Staging.Deletion.{can_delete-empty, check_can_delete-empty}
use static_logger.Backend.Queues.{head_of, heads, kept}
use static_logger.Poll.Merge.{Thins, nil, keeps, drops, AllEmpty}
use static_logger.Poll.Pending.{
  Pending, entries_of, queued, all_queued, queues, IsHeld, AllHeld, mark, marks, AllElsewhere,
  AllApart, AllOthers, AllSingle, waiting, AllEnded, entries_of-AllNonempty,
}

-- A peek at the buffer.
abbrev pub looked_at : Pending → Pending
looked_at p = record {
  owner = p.owner;
  thread = record { address = p.thread.address; buffer = (peek p.thread.buffer).2 };
  statements = p.statements;
}

abbrev pub remaining : List Pending → List Pending
remaining [] = []
remaining (p ∷ ps) =
    if check_can_delete p.thread.buffer then remaining ps else looked_at p ∷ remaining ps

pub remaining-kept : (ps : List Pending) → kept (all_queued ps) ≡ all_queued (remaining ps)
remaining-kept [] = refl
remaining-kept (p ∷ ps) = elim (Bool-cases (check_can_delete p.thread.buffer)) [
  | inl gone ↦ rw gone (remaining-kept ps)
  | inr stays ↦ rw stays (ap (◌∷◌ (queued (looked_at p))) (remaining-kept ps))
]

deletable-empty :
    (p : Pending) → IsHeld p → check_can_delete p.thread.buffer ≡ true → p.statements ≡ []
deletable-empty p h e = none_left p.statements gone
  where
    gone : entries_of p.statements ≡ []
    gone =
        (can_delete-empty p.thread.buffer (entries_of p.statements)
          (entries_of-AllNonempty p.statements) h.holds e).1

    none_left : (xs : _) → entries_of xs ≡ [] → xs ≡ []
    none_left [] e' = refl
    none_left (x ∷ xs) e' = cc

pub remaining-Thins : (ps : List Pending) → AllHeld ps → Thins (queues ps) (queues (remaining ps))
remaining-Thins [] h = nil
remaining-Thins (p ∷ ps) (h, hs) = elim (Bool-cases (check_can_delete p.thread.buffer)) [
  | inl gone ↦ rw (gone, deletable-empty p h gone) (drops (remaining-Thins ps hs))
  | inr stays ↦ rw stays (keeps (remaining-Thins ps hs))
]

-- The first entries stay the same.
pub remaining-heads :
    (ps : List Pending) → AllHeld ps → heads (all_queued (remaining ps)) ≡ heads (all_queued ps)
remaining-heads [] h = refl
remaining-heads (p ∷ ps) (h, hs) = elim (Bool-cases (check_can_delete p.thread.buffer)) [
  | inl gone ↦ rw gone (
      remaining-heads ps hs
      ∙ ap (λ xs. head_of p.thread.address (entries_of xs) (heads (all_queued ps)))
          (sym (deletable-empty p h gone)))
  | inr stays ↦
      rw stays (ap (head_of p.thread.address (entries_of p.statements)) (remaining-heads ps hs))
]

looked_at-IsHeld : (p : Pending) → IsHeld p → IsHeld (looked_at p)
looked_at-IsHeld p h = record {
  valid = peek-IsValid h.valid;
  holds =
      (peek-Answers p.thread.buffer (entries_of p.statements) h.valid
        (entries_of-AllNonempty p.statements) h.holds).0;
}

pub remaining-AllHeld : (ps : List Pending) → AllHeld ps → AllHeld (remaining ps)
remaining-AllHeld [] h = tt
remaining-AllHeld (p ∷ ps) (h, hs) = elim (Bool-cases (check_can_delete p.thread.buffer)) [
  | inl gone ↦ rw gone (remaining-AllHeld ps hs)
  | inr stays ↦ rw stays (looked_at-IsHeld p h, remaining-AllHeld ps hs)
]

pub mark-looked_at : (p : Pending) → mark (looked_at p) ≡ mark p
unfolding peek
mark-looked_at p = ground arith

remaining-AllElsewhere :
    (address : _) (ps : List Pending)
    → AllElsewhere address (marks ps)
    → AllElsewhere address (marks (remaining ps))
remaining-AllElsewhere address [] h = tt
remaining-AllElsewhere address (p ∷ ps) (h, hs) =
    elim (Bool-cases (check_can_delete p.thread.buffer)) [
      | inl gone ↦ rw gone (remaining-AllElsewhere address ps hs)
      | inr stays ↦ rw stays (h, remaining-AllElsewhere address ps hs)
    ]

pub remaining-AllApart : (ps : List Pending) → AllApart (marks ps) → AllApart (marks (remaining ps))
remaining-AllApart [] h = tt
remaining-AllApart (p ∷ ps) (h, hs) = elim (Bool-cases (check_can_delete p.thread.buffer)) [
  | inl gone ↦ rw gone (remaining-AllApart ps hs)
  | inr stays ↦ rw stays (remaining-AllElsewhere p.thread.address ps h, remaining-AllApart ps hs)
]

pub remaining-AllOthers :
    (owner : ℕ) (ps : List Pending)
    → AllOthers owner (marks ps)
    → AllOthers owner (marks (remaining ps))
remaining-AllOthers owner [] h = tt
remaining-AllOthers owner (p ∷ ps) (h, hs) = elim (Bool-cases (check_can_delete p.thread.buffer)) [
  | inl gone ↦ rw gone (remaining-AllOthers owner ps hs)
  | inr stays ↦ rw stays (h, remaining-AllOthers owner ps hs)
]

pub remaining-AllSingle :
    (ps : List Pending) → AllSingle (marks ps) → AllSingle (marks (remaining ps))
remaining-AllSingle [] h = tt
remaining-AllSingle (p ∷ ps) (h, hs) = elim (Bool-cases (check_can_delete p.thread.buffer)) [
  | inl gone ↦ rw gone (remaining-AllSingle ps hs)
  | inr stays ↦ rw stays (remaining-AllOthers p.owner ps h, remaining-AllSingle ps hs)
]

-- No statement goes with a buffer.
pub waiting-remaining :
    (t : ℕ) (ps : List Pending) → AllHeld ps → waiting t (remaining ps) ≡ waiting t ps
waiting-remaining t [] h = refl
waiting-remaining t (p ∷ ps) (h, hs) =
    let later = waiting-remaining t ps hs in
    elim (Bool-cases (check_can_delete p.thread.buffer)) [
      | inl gone ↦
          let none_left = deletable-empty p h gone in
          elim (Bool-cases (p.owner == t)) [
            | inl its ↦ rw (gone, its) (later ∙ sym (ap (λ xs. xs ++ waiting t ps) none_left))
            | inr other ↦ rw (gone, other) later
          ]
      | inr stays ↦ elim (Bool-cases (p.owner == t)) [
        | inl its ↦ rw (stays, its) (ap (λ xs. p.statements ++ xs) later)
        | inr other ↦ rw (stays, other) later
      ]
    ]

pub remaining-AllEnded : (ps : List Pending) → AllEnded (marks ps) → AllEnded (marks (remaining ps))
remaining-AllEnded [] h = tt
remaining-AllEnded (p ∷ ps) (h, hs) = elim (Bool-cases (check_can_delete p.thread.buffer)) [
  | inl gone ↦ rw gone (remaining-AllEnded ps hs)
  | inr stays ↦ rw stays (ap (λ m. m.ended) (mark-looked_at p) ∙ h, remaining-AllEnded ps hs)
]

-- Two rounds take all buffers of ended threads away, when nothing is left in them.
pub remaining-nil :
    (ps : List Pending)
    → AllHeld ps
    → AllEnded (marks ps)
    → AllEmpty (queues ps)
    → remaining (remaining ps) ≡ []
remaining-nil [] h d e = refl
remaining-nil (p ∷ ps) (h, hs) (d, ds) (e, es) =
    elim (Bool-cases (check_can_delete p.thread.buffer)) [
      | inl gone ↦ rw gone (remaining-nil ps hs ds es)
      | inr stays ↦
          let either =
            (check_can_delete-empty p.thread.buffer (entries_of p.statements) h.valid
                (entries_of-AllNonempty p.statements) h.holds).1
              (d, ap entries_of e) in
          let later : check_can_delete (peek p.thread.buffer).2 ≡ true = elim either [
            | inl now ↦ cc
            | inr then_gone ↦ then_gone
          ] in
          rw (stays, later) (remaining-nil ps hs ds es)
    ]
