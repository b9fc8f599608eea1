-- ===== src/Backend/Choice.antt =====
-- Which entry a round of `ioPoll` goes on with.
use static_logger.Prelude.{
  suc, ◌≤◌, ◌<◌, false, none, some, List, [], ◌∷◌, ◌++◌, ltb, lt→ltb, ◌≡◌, ◌⊎◌, refl, ap, ◌∙◌, inl,
  inr, arith,
}
use native.Mathlib.Decide.{dec_lt}
use static_logger.Backend.{Earliest, scan, uint64_max, processes, waits, next}
use static_logger.Backend.Sweep.{scan-swept}
use static_logger.Backend.Queues.{
  Queued, threads, AllQueued, Head, heads, AllFrom, consider_all, compared-heads,
}

abbrev pub chosen : Head → Earliest
chosen h = record { first = h.timestamp; second = some h.address }

-- `h` has the earliest timestamp, and is the first such.
abbrev pub IsEarliest : Head → List Head → Type 0
IsEarliest h hs =
    (before : List Head) × (after : List Head) × (hs ≡ before ++ h ∷ after)
    × AllFrom (suc h.timestamp) before
    × AllFrom h.timestamp after

-- What comes out of the comparisons with `hs`, which start with `e`.
abbrev IsBest : Earliest → List Head → Earliest → Type 0
IsBest e hs best =
    ((best ≡ e) × AllFrom e.first hs)
    ⊎ ((h : Head) × (best ≡ chosen h) × (h.timestamp < e.first) × IsEarliest h hs)

better :
    (e : Earliest) (h : Head) (hs : List Head) (best : Earliest)
    → h.timestamp < e.first
    → IsBest (chosen h) hs best
    → IsBest e (h ∷ hs) best
better e h hs best lt (inl (same, all)) = inr (h, same, lt, ([], hs, refl, tt, all))
better e h hs best lt (inr (g, same, less, (before, after, split, strict, all))) =
    inr (g, same, omega arith, (h ∷ before, after, ap (◌∷◌ h) split, (omega arith, strict), all))

worse :
    (e : Earliest) (h : Head) (hs : List Head) (best : Earliest)
    → e.first ≤ h.timestamp
    → IsBest e hs best
    → IsBest e (h ∷ hs) best
worse e h hs best le (inl (same, all)) = inl (same, (le, all))
worse e h hs best le (inr (g, same, less, (before, after, split, strict, all))) =
    inr (g, same, less, (h ∷ before, after, ap (◌∷◌ h) split, (omega arith, strict), all))

consider_all-IsBest : (hs : List Head) (e : Earliest) → IsBest e hs (consider_all hs e)
consider_all-IsBest [] e = inl (refl, tt)
consider_all-IsBest (h ∷ hs) e = elim (dec_lt h.timestamp e.first) [
  | yes lt ↦
      rw (lt→ltb h.timestamp e.first lt)
        (better e h hs (consider_all hs (chosen h)) lt (consider_all-IsBest hs (chosen h)))
  | no ge ↦
      let kept_out : ltb h.timestamp e.first ≡ false = ground arith in
      rw kept_out (worse e h hs (consider_all hs e) (omega arith) (consider_all-IsBest hs e))
]

abbrev none_yet : Earliest
none_yet = record { first = uint64_max; second = none }

-- How a round ends that has found `best`.
abbrev Ends : List Head → Earliest → Type 0
Ends hs best =
    ((next best ≡ waits) × AllFrom uint64_max hs)
    ⊎ ((h : Head) × (next best ≡ processes (some h.address)) × IsEarliest h hs)

next-IsBest : (hs : List Head) (best : Earliest) → IsBest none_yet hs best → Ends hs best
unfolding next
next-IsBest hs best (inl (same, all)) = inl (ap next same, all)
next-IsBest hs best (inr (h, same, less, first)) = inr (h, ap next same ∙ ground arith, first)

-- While the threads are quiet, a round of `ioPoll` goes on with the entry that has the earliest
-- timestamp of all first entries of the queues, and with the first such buffer of the vector; or it
-- waits, and then no first entry has a timestamp below the largest one.
pub scan-IsEarliest :
    (qs : List Queued)
    → AllQueued qs
    → ((next (scan (threads qs)).1 ≡ waits) × AllFrom uint64_max (heads qs))
      ⊎ ((h : Head) × (next (scan (threads qs)).1 ≡ processes (some h.address))
          × IsEarliest h (heads qs))
scan-IsEarliest qs h =
    let found : (scan (threads qs)).1 ≡ consider_all (heads qs) none_yet =
      ap (λ s. s.1) (scan-swept (threads qs)) ∙ compared-heads qs none_yet h in
    rw found (
      next-IsBest (heads qs) (consider_all (heads qs) none_yet)
        (consider_all-IsBest (heads qs) none_yet))
