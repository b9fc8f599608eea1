-- ===== src/Events/Exchange.antt =====
-- The buffer of a thread changes: the backlog with the new one in its place.
use static_logger.Prelude.{ℕ, some, List, ◌∷◌, ◌++◌, ◌≡◌, sym, ap, ◌∙◌, subst}
use static_logger.Backend.Queues.{threads}
use static_logger.Poll.{Poll, find, replace}
use static_logger.Poll.Pending.{Pending, all_queued, IsHeld, AllHeld, marks, AllApart, AllSingle}
use static_logger.Poll.Rounds.{IsBacklog}
use static_logger.Events.Middle.{
  Seat, middle-AllHeld, middle-AllApart, middle-AllSingle, find-middle, replace-middle,
}

module _ (s : Poll) (t address : ℕ) (ps : List Pending) (b : IsBacklog s ps)
    (place : Seat t address ps) where
  abbrev pub split_list : List Pending
  split_list = place.before ++ (place.at_seat ∷ place.after)

  pub split-AllApart : AllApart (marks split_list)
  split-AllApart = subst (λ qs. AllApart (marks qs)) place.split b.apart

  pub split-AllSingle : AllSingle (marks split_list)
  split-AllSingle = subst (λ qs. AllSingle (marks qs)) place.split b.single

  split_buffers : s.thread_buffers ≡ threads (all_queued split_list)
  split_buffers = b.same_buffers ∙ ap (λ qs. threads (all_queued qs)) place.split

  pub seat-IsHeld : IsHeld place.at_seat
  seat-IsHeld =
      (middle-AllHeld place.before place.at_seat place.after (subst AllHeld place.split b.held)).0

  pub find-seat : find address s.thread_buffers ≡ some place.at_seat.thread.buffer
  find-seat =
      ap (find address) split_buffers
      ∙ ap (λ a. find a (threads (all_queued split_list))) (sym place.same_address)
      ∙ find-middle place.before place.at_seat place.after split-AllApart

  pub exchanged-IsBacklog :
      (q : Pending)
      → q.owner ≡ place.at_seat.owner
      → q.thread.address ≡ place.at_seat.thread.address
      → IsHeld q
      → IsBacklog
          (record s { thread_buffers = replace address q.thread.buffer s.thread_buffers })
          (place.before ++ (q ∷ place.after))
  exchanged-IsBacklog q owner there h = record {
    same_buffers =
        ap (replace address q.thread.buffer) split_buffers
        ∙ ap (λ a. replace a q.thread.buffer (threads (all_queued split_list)))
            (sym place.same_address)
        ∙ replace-middle place.before place.at_seat place.after q there split-AllApart;
    held =
        (middle-AllHeld place.before place.at_seat place.after (subst AllHeld place.split b.held)).1
          q h;
    apart = middle-AllApart place.at_seat q owner there place.before place.after split-AllApart;
    single = middle-AllSingle place.at_seat q owner there place.before place.after split-AllSingle;
    is_open = b.is_open;
    small = b.small;
  }
