-- ===== src/Threads/Kept.antt =====
-- `should_deallocate_` is set by the destroyer of a thread alone: nothing else changes it.
use static_logger.Prelude.{
  ℕ, ◌+◌, Bool, true, false, Bool-cases, Option, none, some, List, [], ◌∷◌, ltb, leb, ◌≡◌, refl,
  sym, ap, ◌∙◌, inl, inr, arith,
}
use static_logger.Prelude.Memory.{Memory, read_bytes, write_bytes}
use static_logger.Prelude.Bytes.{le_bytes, le_value}
use static_logger.Staging.{
  StagingBuffer, ConsumerStep, peeks, consumes, peek, consume, consumer_run, wrap_around,
  reserve_round, after_round, Reserved, counted, reserve_space_internal, reserve_producer_space,
  finish_reservation,
}
use static_logger.Prefix.{StaticInfo, generate_time_prefix, generate_call_info_prefix}
use static_logger.Process.{Processed, formatted, error}
use static_logger.Writer.{
  Surroundings, Output, Round, done, broken, finish_line, format_entry, process_entry,
  process_peeked, process_log_buffer,
}
use static_logger.Poll.{Turn, io_poll}
use static_logger.Logger.{Logger, switched, set_log_file}
use static_logger.Threads.{AllStill}
use static_logger.Logger.Switch.{switched_to, set_log_file-switched}

-- The flag of the staging buffer behind a round, if the round ends.
abbrev HasFlag : Bool → Round → Type 0
HasFlag f (done o) = o.staging.should_deallocate ≡ f
HasFlag f broken = Unit

finish_line-HasFlag :
    (prefix_len entry_size : ℕ) (o : Output) (r : Processed)
    → HasFlag o.staging.should_deallocate (finish_line prefix_len entry_size o r)
unfolding consume
finish_line-HasFlag prefix_len entry_size o (formatted len b) =
    elim (Bool-cases (ltb (prefix_len + len) b.len)) [
      | inl inside ↦ elim (Bool-cases o.opened) [
        | inl e ↦ rw (inside, e) refl
        | inr e ↦ rw (inside, e) refl
      ]
      | inr outside ↦ rw outside tt
    ]
finish_line-HasFlag prefix_len entry_size o (error b) = refl
finish_line-HasFlag prefix_len entry_size o _ = tt

format_entry-HasFlag :
    (env : Surroundings) (info : StaticInfo) (p entry_size ts_len : ℕ) (o : Output)
    (r : Option (ℕ × Memory))
    → HasFlag o.staging.should_deallocate (format_entry env info p entry_size ts_len o r)
format_entry-HasFlag env info p entry_size ts_len o none = tt
format_entry-HasFlag env info p entry_size ts_len o (some (callinfo_len, m)) =
    finish_line-HasFlag (ts_len + callinfo_len) entry_size o _

process_entry-HasFlag :
    (env : Surroundings) (p : ℕ) (o : Output)
    → HasFlag o.staging.should_deallocate (process_entry env p o)
process_entry-HasFlag env p o =
    let s = record o.staging {
      storage = write_bytes o.staging.storage p (le_bytes 8 env.nanotime);
    } in
    let info = env.static_info (le_value (read_bytes s.storage (p + 16) 8)) in
    let entry_size = le_value (read_bytes s.storage (p + 8) 8) in
    let (ts_len, m) = generate_time_prefix env.localtime env.nanotime o.log_buffer.memory 0 in
    format_entry-HasFlag env info p entry_size ts_len (record o { staging = s })
      (generate_call_info_prefix info m ts_len)

process_peeked-HasFlag :
    (env : Surroundings) (o : Output) (p n : ℕ) (s : StagingBuffer)
    → HasFlag s.should_deallocate (process_peeked env o (p, n, s))
process_peeked-HasFlag env o p n s = elim (Bool-cases (ltb 0 n)) [
  | inl e ↦ rw e (process_entry-HasFlag env p (record o { staging = s }))
  | inr e ↦ rw e refl
]

pub peek-flag : (b : StagingBuffer) → (peek b).2.should_deallocate ≡ b.should_deallocate
unfolding peek
peek-flag b = ground arith

flag_of :
    (f : Bool) (r : Round) {o' : Output}
    → HasFlag f r
    → r ≡ done o'
    → o'.staging.should_deallocate ≡ f
flag_of f (done o) {o'} h e =
    let same : o ≡ o' = cc in ap (λ k. k.staging.should_deallocate) (sym same) ∙ h
flag_of f broken h e = cc

pub process_log_buffer-flag :
    (env : Surroundings) (o : Output) {o' : Output}
    → process_log_buffer env o ≡ done o'
    → o'.staging.should_deallocate ≡ o.staging.should_deallocate
unfolding process_log_buffer
process_log_buffer-flag env o e =
    let (p, n, s) = peek o.staging in
    flag_of s.should_deallocate (process_log_buffer env o) (process_peeked-HasFlag env o p n s) e
    ∙ peek-flag o.staging

consumer_run-flag :
    (steps : List ConsumerStep) (b : StagingBuffer)
    → (consumer_run steps b).should_deallocate ≡ b.should_deallocate
unfolding consumer_run consume
consumer_run-flag [] b = refl
consumer_run-flag (peeks ∷ steps) b = consumer_run-flag steps (peek b).2 ∙ peek-flag b
consumer_run-flag (consumes n ∷ steps) b = consumer_run-flag steps (consume n b)

reserve_round-flag :
    (n c : ℕ) (b : StagingBuffer) → (reserve_round n c b).1.should_deallocate ≡ b.should_deallocate
unfolding reserve_round wrap_around
reserve_round-flag n c b = ground arith

after_round-flag :
    (n : ℕ) (blocking broke : Bool) (rest : Reserved × StagingBuffer) (b : StagingBuffer)
    → rest.1.should_deallocate ≡ b.should_deallocate
    → (after_round n blocking rest broke b).1.should_deallocate ≡ b.should_deallocate
after_round-flag n blocking true rest b h = refl
after_round-flag n true false rest b h = h
after_round-flag n false false rest b h = elim (Bool-cases (leb b.min_free_space n)) [
  | inl e ↦ rw e refl
  | inr e ↦ rw e h
]

reserve_space_internal-flag :
    (n : ℕ) (blocking : Bool) (schedule : List (List ConsumerStep)) (b : StagingBuffer)
    → (reserve_space_internal n blocking schedule b).1.should_deallocate ≡ b.should_deallocate
unfolding reserve_space_internal
reserve_space_internal-flag n blocking [] b = elim (Bool-cases (leb b.min_free_space n)) [
  | inl e ↦ rw e refl
  | inr e ↦ rw e refl
]
reserve_space_internal-flag n blocking (steps ∷ schedule) b =
    let seen = consumer_run steps b in
    let round = reserve_round n seen.consumer_pos seen in
    let here = reserve_round-flag n seen.consumer_pos seen ∙ consumer_run-flag steps b in
    let later = reserve_space_internal-flag n blocking schedule round.1 in
    elim (Bool-cases (leb b.min_free_space n)) [
      | inl e ↦ rw e (after_round-flag n blocking round.0 _ round.1 later ∙ here)
      | inr e ↦ rw e refl
    ]

pub reserve_producer_space-flag :
    (n : ℕ) (schedule : List (List ConsumerStep)) (b : StagingBuffer)
    → (reserve_producer_space n schedule b).1.should_deallocate ≡ b.should_deallocate
unfolding reserve_producer_space
reserve_producer_space-flag n schedule b = elim (Bool-cases (ltb n b.min_free_space)) [
  | inl e ↦ rw e refl
  | inr e ↦ rw e (reserve_space_internal-flag n true schedule (counted b))
]

pub finish_reservation-flag :
    (n : ℕ) (b : StagingBuffer) {d : StagingBuffer}
    → finish_reservation n b ≡ some d
    → d.should_deallocate ≡ b.should_deallocate
unfolding finish_reservation
finish_reservation-flag n b e = ground arith

switched_only : {k l : Logger} → switched k ≡ switched l → k ≡ l
switched_only e = cc

-- `setLogFile` leaves the staging buffers as they are.
pub set_log_file-buffers :
    (turns : List Turn) (opens : Bool) (l : Logger) {l' : Logger}
    → AllStill turns
    → set_log_file turns opens l ≡ switched l'
    → l'.poll.thread_buffers ≡ l.poll.thread_buffers
unfolding set_log_file io_poll
set_log_file-buffers [] opens l still e = elim (Bool-cases l.joinable) [
  | inl thread ↦ let wrong = rw thread at e in cc
  | inr none_there ↦ let wrong = rw none_there at e in cc
]
set_log_file-buffers (turn ∷ turns) opens l {l'} still e = elim (Bool-cases l.joinable) [
  | inl thread ↦
      let same : switched_to turn opens l ≡ l' =
        switched_only (sym (set_log_file-switched turn turns opens l thread) ∙ e) in
      ap (λ k. k.poll.thread_buffers) (sym same) ∙ still.0 l.poll.thread_buffers
  | inr none_there ↦ let wrong = rw none_there at e in cc
]
