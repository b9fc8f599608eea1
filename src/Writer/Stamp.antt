-- ===== src/Writer/Stamp.antt =====
-- The backend writes its time into the entry that a staging buffer shows: the entry changes, and the
-- entries behind it do not.
use mathlib.Core.List.{append_assoc}
use static_logger.Prelude.{
  ℕ, ◌+◌, ◌-◌, ◌≤◌, ◌<◌, List, [], ◌∷◌, ◌++◌, length, length-append, length-take, take, drop,
  take-append-drop, append-injective, ◌≡◌, sym, ap, ap₂, ◌∙◌, inl, inr, arith,
}
use static_logger.Prelude.Memory.{
  Memory, read_bytes, write_bytes, read_bytes-append, length-read_bytes, read_bytes-write_bytes,
  read_bytes-write_bytes_apart,
}
use static_logger.Staging.{StagingBuffer, store}
use static_logger.Staging.Invariant.{available}
use static_logger.Staging.Queue.{Bytes, concat, Between, Holds}
use static_logger.Staging.Consumer.{length-Between}

-- The record `r` with `bs` in the place of its first bytes.
abbrev pub restarted : Bytes → Bytes → Bytes
restarted bs r = bs ++ drop (length bs) r

read-behind :
    (m : Memory) (p n k : ℕ) (r t : Bytes)
    → n ≤ length r
    → read_bytes m p (n + k) ≡ r ++ t
    → read_bytes m (p + n) k ≡ drop n r ++ t
read-behind m p n k r t h e =
    let whole =
      sym (read_bytes-append m p n k)
      ∙ e
      ∙ ap (λ xs. xs ++ t) (sym (take-append-drop n r))
      ∙ append_assoc (take n r) (drop n r) t in
    (append-injective (read_bytes m p n) (take n r) _ _
      (length-read_bytes m p n ∙ omega (arith, length-take n r)) whole).1

Between-restarted :
    (b : StagingBuffer) (p q : ℕ) (bs r : Bytes) (rs : List Bytes)
    → length bs ≤ length r
    → Between b p q (r ∷ rs)
    → Between (store p bs b) p q (restarted bs r ∷ rs)
unfolding store
Between-restarted b p q bs r rs h (le, e) =
    let n = length bs in
    let k = q - p - n in
    let total = length-Between b p q (r ∷ rs) (le, e) in
    let count : q - p ≡ n + k = omega (arith, length-append r (concat rs)) in
    (
      le,
      ap (read_bytes (write_bytes b.storage p bs) p) count
          ∙ read_bytes-append (write_bytes b.storage p bs) p n k
          ∙ ap₂ ◌++◌ (read_bytes-write_bytes b.storage p bs) (
              read_bytes-write_bytes_apart b.storage p bs (p + n) k (inr (omega arith))
              ∙ read-behind b.storage p n k r (concat rs) h
                  (ap (read_bytes b.storage p) (sym count) ∙ e))
          ∙ sym (append_assoc bs (drop n r) (concat rs)),
    )

-- New first bytes for the first entry, which stands where the consumer looks.
pub store-Holds :
    (b : StagingBuffer) (bs r : Bytes) (rs : List Bytes)
    → Holds b (r ∷ rs)
    → length bs ≤ length r
    → length r ≤ available b
    → 0 < length r
    → Holds (store b.consumer_pos bs b) (restarted bs r ∷ rs)
unfolding store
store-Holds b bs r rs (inl k) h room pos =
    inl (Between-restarted b b.consumer_pos b.producer_pos bs r rs h k)
store-Holds b bs r rs (inr ([], back, e, lt, f, g)) h room pos =
    absurd (ground (arith, length-Between b b.consumer_pos b.end_of_recorded_space [] f))
store-Holds b bs r rs (inr (x ∷ front, back, e, lt, f, g)) h room pos =
    let same : x ≡ r = ground arith in
    let rest : rs ≡ front ++ back = ground arith in
    inr (
      restarted bs r ∷ front,
      back,
      ap (◌∷◌ (restarted bs r)) rest,
      lt,
      Between-restarted b b.consumer_pos b.end_of_recorded_space bs r front h (rw same at f),
      (
        g.0,
        read_bytes-write_bytes_apart b.storage b.consumer_pos bs 0 (b.producer_pos - 0)
              (inl (omega arith))
            ∙ g.1,
      ),
    )
