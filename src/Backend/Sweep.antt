-- ===== src/Backend/Sweep.antt =====
-- The loop of `ioPoll`, which takes elements out of the vector that it goes through, is one pass
-- over the buffers.
use static_logger.Prelude.{
  ℕ, suc, ◌+◌, true, false, Bool-cases, none, some, List, [], ◌∷◌, ◌++◌, length, length-append,
  get_elem?, if◌then◌else◌, ◌≡◌, refl, ap, inl, inr,
}
use mathlib.Core.List.{append_assoc}
use static_logger.Staging.{peek, check_can_delete}
use static_logger.Backend.{
  ThreadBuffer, Earliest, compare_earliest, erase, set, visit, scan_from, scan, uint64_max,
}

-- The buffers that stay, as a peek leaves them.
abbrev pub swept : List ThreadBuffer → List ThreadBuffer
swept [] = []
swept (t ∷ ts) =
    if check_can_delete t.buffer
    then swept ts
    else record { address = t.address; buffer = (peek t.buffer).2 } ∷ swept ts

-- The comparisons, in the order of the vector.
abbrev pub compared : List ThreadBuffer → Earliest → Earliest
compared [] e = e
compared (t ∷ ts) e =
    if check_can_delete t.buffer
    then compared ts e
    else compared ts (compare_earliest t.address (peek t.buffer) e)

get_elem?-middle :
    (us : List ThreadBuffer) (t : ThreadBuffer) (ts : List ThreadBuffer)
    → get_elem? (us ++ t ∷ ts) (length us) ≡ some t
get_elem?-middle [] t ts = refl
get_elem?-middle (u ∷ us) t ts = get_elem?-middle us t ts

erase-middle :
    (us : List ThreadBuffer) (t : ThreadBuffer) (ts : List ThreadBuffer)
    → erase (length us) (us ++ t ∷ ts) ≡ us ++ ts
erase-middle [] t ts = refl
erase-middle (u ∷ us) t ts = ap (◌∷◌ u) (erase-middle us t ts)

set-middle :
    (us : List ThreadBuffer) (t v : ThreadBuffer) (ts : List ThreadBuffer)
    → set (length us) v (us ++ t ∷ ts) ≡ us ++ v ∷ ts
set-middle [] t v ts = refl
set-middle (u ∷ us) t v ts = ap (◌∷◌ u) (set-middle us t v ts)

-- One round of the loop, by what it finds.
scan_from-suc :
    (us : List ThreadBuffer) (t : ThreadBuffer) (ts : List ThreadBuffer) (e : Earliest) (fuel : ℕ)
    → let (i', s') = visit (length us) t (us ++ t ∷ ts, e) in
      scan_from (suc fuel) (length us) (us ++ t ∷ ts, e) ≡ scan_from fuel i' s'
unfolding scan_from
scan_from-suc us t ts e fuel = rw (get_elem?-middle us t ts, scan_from) refl

visit-deleted :
    (us : List ThreadBuffer) (t : ThreadBuffer) (ts : List ThreadBuffer) (e : Earliest)
    → check_can_delete t.buffer ≡ true
    → visit (length us) t (us ++ t ∷ ts, e) ≡ (length us, (us ++ ts, e))
unfolding visit
visit-deleted us t ts e h = rw (h, erase-middle us t ts) refl

-- A buffer behind a peek.
abbrev peeked : ThreadBuffer → ThreadBuffer
peeked t = record { address = t.address; buffer = (peek t.buffer).2 }

visit-kept :
    (us : List ThreadBuffer) (t : ThreadBuffer) (ts : List ThreadBuffer) (e : Earliest)
    → check_can_delete t.buffer ≡ false
    → visit (length us) t (us ++ t ∷ ts, e)
      ≡ (length us + 1, (us ++ peeked t ∷ ts, compare_earliest t.address (peek t.buffer) e))
unfolding visit
visit-kept us t ts e h = rw (h, set-middle us t (peeked t) ts) refl

scan_from-swept :
    (us ts : List ThreadBuffer) (e : Earliest)
    → scan_from (length ts) (length us) (us ++ ts, e) ≡ (us ++ swept ts, compared ts e)
unfolding scan_from
scan_from-swept us [] e = refl
scan_from-swept us (t ∷ ts) e = elim (Bool-cases (check_can_delete t.buffer)) [
  | inl gone ↦
      rw (scan_from-suc us t ts e (length ts), visit-deleted us t ts e gone, gone)
        (scan_from-swept us ts e)
  | inr stays ↦
      let v = peeked t in
      let e' = compare_earliest t.address (peek t.buffer) e in
      let again = scan_from-swept (us ++ v ∷ []) ts e' in
      let rest =
        rw
          (
            length-append us (v ∷ []),
            append_assoc us (v ∷ []) ts,
            append_assoc us (v ∷ []) (swept ts),
          )
          at again in
      rw (scan_from-suc us t ts e (length ts), visit-kept us t ts e stays, stays) rest
]

-- The loop of `ioPoll` ends with every buffer visited once: it takes exactly the buffers away that
-- can be deleted, keeps the others in their order, each as a peek leaves it, and has compared their
-- first entries in this order.
pub scan-swept :
    (ts : List ThreadBuffer)
    → scan ts ≡ (swept ts, compared ts (record { first = uint64_max; second = none }))
unfolding scan
scan-swept ts = scan_from-swept [] ts (record { first = uint64_max; second = none })
