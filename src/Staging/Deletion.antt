-- ===== src/Staging/Deletion.antt =====
-- When the backend may delete a staging buffer: `checkCanDelete`.
use static_logger.Prelude.{
  true, List, [], ◌∷◌, length, length-append, ◌≡◌, refl, ap, ◌⊎◌, ◌↔◌, inl, inr, arith,
}
use static_logger.Staging.{StagingBuffer, peek, check_can_delete}
use static_logger.Staging.Invariant.{IsValid}
use static_logger.Staging.Queue.{Bytes, concat, AllNonempty, Holds}
use static_logger.Staging.Consumer.{length-Between, peek-Answers}

concat-empty : (rs : List Bytes) → AllNonempty rs → length (concat rs) ≡ 0 → rs ≡ []
concat-empty [] ne h = refl
concat-empty (r ∷ rs) ne h = absurd (omega (arith, length-append r (concat rs), ne.0))

pub can_delete-empty :
    (b : StagingBuffer) (rs : List Bytes)
    → AllNonempty rs
    → Holds b rs
    → check_can_delete b ≡ true
    → (b.should_deallocate ≡ true) × (rs ≡ [])
unfolding check_can_delete
can_delete-empty b rs ne (inl k) e = (
  ground arith,
  concat-empty rs ne (ground (arith, length-Between b b.consumer_pos b.producer_pos rs k)),
)
can_delete-empty b rs ne (inr (front, back, s, lt, f, g)) e = absurd (ground arith)

-- A buffer can be deleted, at once or after one look of the consumer at it, exactly when its thread
-- has ended and its queue is empty.
pub check_can_delete-empty :
    (b : StagingBuffer) (rs : List Bytes)
    → IsValid b
    → AllNonempty rs
    → Holds b rs
    → ((check_can_delete b ≡ true) ⊎ (check_can_delete (peek b).2 ≡ true))
      ↔ ((b.should_deallocate ≡ true) × (rs ≡ []))
unfolding check_can_delete peek
check_can_delete-empty b rs v ne h = (deleted, λ k. inr (deletable h k.0 k.1))
  where
    deleted :
        (check_can_delete b ≡ true) ⊎ (check_can_delete (peek b).2 ≡ true)
        → (b.should_deallocate ≡ true) × (rs ≡ [])
    deleted (inl e) = can_delete-empty b rs ne h e
    deleted (inr e) =
        let (ended, none_left) = can_delete-empty (peek b).2 rs ne (peek-Answers b rs v ne h).0 e in
        (ground (arith, ended), none_left)

    deletable :
        Holds b rs → b.should_deallocate ≡ true → rs ≡ [] → check_can_delete (peek b).2 ≡ true
    deletable (inl k) d e = ground (
      arith,
      ap (λ xs. length (concat xs)) e,
      length-Between b b.consumer_pos b.producer_pos rs k,
    )
    deletable (inr ([], [], s, lt, f, g)) d e = ground (
      arith,
      length-Between b b.consumer_pos b.end_of_recorded_space [] f,
      length-Between b 0 b.producer_pos [] g,
    )
    deletable (inr ([], x ∷ back, s, lt, f, g)) d e = cc
    deletable (inr (x ∷ front, back, s, lt, f, g)) d e = cc
