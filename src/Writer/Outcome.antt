-- ===== src/Writer/Outcome.antt =====
-- What `processLogBuffer` does to the file and to the queue, however the formatting ends.
use static_logger.Prelude.{
  ℕ, ◌+◌, ◌^◌, ◌≤◌, ◌<◌, true, Bool-cases, Option, none, some, List, ◌∷◌, ◌++◌, length,
  length-append, drop, drop-append, ltb, lt→ltb, ◌≡◌, ◌⊎◌, refl, sym, ap, subst, ◌∙◌, inl, inr,
  arith,
}
use static_logger.Prelude.Memory.{Memory, read_bytes, length-read_bytes}
use static_logger.Prelude.Bytes.{le_bytes, le_value, length-le_bytes, le_value-le_bytes}
use static_logger.Staging.{peek, consume}
use static_logger.Staging.Invariant.{IsValid, available, peek-IsValid, consume-IsValid}
use static_logger.Staging.Queue.{Bytes, AllNonempty, Holds}
use static_logger.Staging.Consumer.{peek-Answers, consume-Holds, consumer-first}
use static_logger.Process.{Processed, formatted, error, aborts, overflows, dangles, faults, spins}
use static_logger.Prefix.{StaticInfo}
use static_logger.Writer.{
  Surroundings, Output, Round, done, broken, put_newline, write_out, finish_line, format_entry,
  process_log_buffer,
}
use static_logger.Writer.Line.{stamped, info_of}
use static_logger.Writer.Stamp.{restarted}
use static_logger.Writer.Entry.{read-eight, stamped-restarted, stamped-IsValid}

-- An entry: its time, its size, and what is behind them.
abbrev pub entry_of : ℕ → ℕ → Bytes → Bytes
entry_of timestamp size body = le_bytes 8 timestamp ++ (le_bytes 8 size ++ body)

-- The entry has gone from the queue to the file, which is open.
abbrev pub Moved : Output → List Bytes → Output → Type 0
Moved o rs o' =
    (bytes : List ℕ) × (o.opened ≡ true)
    × (o'.file ≡ o.file ++ bytes)
    × (0 < length bytes)
    × Holds o'.staging rs

-- The entry, as it is now, is still the first of the queue.
abbrev pub Stayed : Output → Bytes → List Bytes → Output → Type 0
Stayed o now rs o' = (o'.file ≡ o.file) × Holds o'.staging (now ∷ rs)

abbrev pub Outcome : Output → Bytes → List Bytes → Round → Type 0
Outcome o now rs round =
    (round ≡ broken)
    ⊎ ((o' : Output) × (round ≡ done o')
        × IsValid o'.staging
        × (Moved o rs o' ⊎ Stayed o now rs o'))

-- Behind the formatting.
finish_line-Outcome :
    (k size : ℕ) (o : Output) (r : Bytes) (rs : List Bytes) (result : Processed)
    → IsValid o.staging
    → Holds o.staging (r ∷ rs)
    → length r ≤ available o.staging
    → 0 < length r
    → size ≡ length r
    → Outcome o r rs (finish_line k size o result)
finish_line-Outcome k size o r rs (formatted len b) v h room pos e =
    let o₁ = record o { log_buffer = put_newline (k + len) b } in
    elim (Bool-cases (ltb (k + len) b.len)) [
      | inr over ↦ inl (rw over refl)
      | inl fits ↦ elim (Bool-cases o.opened) [
        | inr shut ↦ inr (o₁, rw (fits, shut) refl, v, inr (refl, h))
        | inl is_open ↦ inr (
          write_out (k + len + 1) size o₁,
          rw (fits, is_open) refl,
          consume-IsValid size v (omega arith),
          inl (
            _,
            is_open,
            refl,
            omega (arith, length-read_bytes (put_newline (k + len) b).memory 0 (k + len + 1)),
            subst (λ n. Holds (consume n o.staging) rs) (sym e)
                (consume-Holds o.staging r rs v h room pos),
          ),
        )
      ]
    ]
finish_line-Outcome k size o r rs (error b) v h room pos e = inr (_, refl, v, inr (refl, h))
finish_line-Outcome k size o r rs aborts v h room pos e = inl refl
finish_line-Outcome k size o r rs overflows v h room pos e = inl refl
finish_line-Outcome k size o r rs dangles v h room pos e = inl refl
finish_line-Outcome k size o r rs faults v h room pos e = inl refl
finish_line-Outcome k size o r rs spins v h room pos e = inl refl

format_entry-Outcome :
    (env : Surroundings) (info : StaticInfo) (p size ts_len : ℕ) (o : Output) (r : Bytes)
    (rs : List Bytes) (prefix : Option (ℕ × Memory))
    → IsValid o.staging
    → Holds o.staging (r ∷ rs)
    → length r ≤ available o.staging
    → 0 < length r
    → size ≡ length r
    → Outcome o r rs (format_entry env info p size ts_len o prefix)
format_entry-Outcome env info p size ts_len o r rs none v h room pos e = inl refl
format_entry-Outcome env info p size ts_len o r rs (some (n, m)) v h room pos e =
    finish_line-Outcome (ts_len + n) size o r rs _ v h room pos e

-- A new time in an entry.
restarted-entry_of :
    (t t' size : ℕ) (body : Bytes)
    → restarted (le_bytes 8 t') (entry_of t size body) ≡ entry_of t' size body
restarted-entry_of t t' size body =
    ap (λ xs. le_bytes 8 t' ++ xs)
      (ap (λ k. drop k (entry_of t size body)) (length-le_bytes 8 t')
        ∙ ap (λ k. drop k (entry_of t size body)) (sym (length-le_bytes 8 t))
        ∙ drop-append (length (le_bytes 8 t)) (le_bytes 8 t) _ refl)

-- The size that stands in the entry at offset `p`.
entry_size_at :
    (m : Memory) (p t size : ℕ) (body : Bytes)
    → size < 2 ^ 64
    → read_bytes m p (length (entry_of t size body)) ≡ entry_of t size body
    → le_value (read_bytes m (p + 8) 8) ≡ size
entry_size_at m p t size body small h =
    let (_, behind) = read-eight m p t (le_bytes 8 size ++ body) h in
    let (here, _) = read-eight m (p + 8) size body behind in
    ap le_value here ∙ le_value-le_bytes 8 size (omega arith)

-- `processLogBuffer` on a valid staging buffer whose first entry carries its own size, whatever the
-- formatting of the entry comes to: the behaviour is undefined or an assertion fails, or the function
-- returns with a valid staging buffer, and the entry has either gone from the queue, with bytes for it
-- at the end of the file, which is open, or is still there whole, with the new time and nothing
-- written. The entries behind it stay.
pub process_log_buffer-Outcome :
    (env : Surroundings) (o : Output) (t size : ℕ) (body : Bytes) (rs : List Bytes)
    → IsValid o.staging
    → AllNonempty (entry_of t size body ∷ rs)
    → Holds o.staging (entry_of t size body ∷ rs)
    → size ≡ length (entry_of t size body)
    → size < 2 ^ 64
    → Outcome o (entry_of env.nanotime size body) rs (process_log_buffer env o)
unfolding process_log_buffer
process_log_buffer-Outcome env o t size body rs v ne h same small =
    let r = entry_of t size body in
    let now = entry_of env.nanotime size body in
    let (p, n, s) = peek o.staging in
    let (seen, (at_consumer, count, room, read)) = peek-Answers o.staging (r ∷ rs) v ne h in
    let long : 16 ≤ length r = omega (
      arith,
      length-append (le_bytes 8 t) (le_bytes 8 size ++ body),
      length-le_bytes 8 t,
      length-append (le_bytes 8 size) body,
      length-le_bytes 8 size,
    ) in
    let size_now : length now ≡ length r =
      length-append (le_bytes 8 env.nanotime) (le_bytes 8 size ++ body)
      ∙ ap (λ k. k + length (le_bytes 8 size ++ body))
          (length-le_bytes 8 env.nanotime ∙ sym (length-le_bytes 8 t))
      ∙ sym (length-append (le_bytes 8 t) (le_bytes 8 size ++ body)) in
    let s' = stamped env p s in
    let held : Holds s' (now ∷ rs) =
      subst (λ x. Holds s' (x ∷ rs)) (restarted-entry_of t env.nanotime size body)
        (stamped-restarted env s p r rs at_consumer seen (omega arith) (omega arith)) in
    let room' : length now ≤ available s = omega arith in
    let first : read_bytes s'.storage p (length now) ≡ now =
      ap (λ q. read_bytes s'.storage q (length now)) at_consumer
      ∙ consumer-first s' now rs held room' (omega arith) in
    let size_is =
      entry_size_at s'.storage p env.nanotime size body small first ∙ same ∙ sym size_now in
    rw (lt→ltb 0 n (omega arith)) (
      format_entry-Outcome env (info_of env p s) p _ _ (record o { staging = s' }) now rs _
        (stamped-IsValid env s p (peek-IsValid v)) held room' (omega arith) size_is)
