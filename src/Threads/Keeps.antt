-- ===== src/Threads/Keeps.antt =====
-- No step of the backend takes a staging buffer away from a thread that has not ended.
use static_logger.Prelude.{ℕ, false, Option, none, some, List, ◌≡◌, refl, sym, ap, ◌∙◌}
use native.Mathlib.Decide.{ℕ_discrete}
use static_logger.Staging.{StagingBuffer, peek}
use static_logger.Backend.{ThreadBuffer, scan, Next, processes, waits, next}
use static_logger.Backend.Sweep.{swept, scan-swept}
use static_logger.Writer.{Surroundings, Output, Round, done, broken, process_log_buffer}
use static_logger.Poll.{
  Poll, running, find, replace, put_back, process_buffer, after_scan, poll_round,
}
use static_logger.Threads.Find.{find-replace, find-replace_other, find-swept, find-swept-none}
use static_logger.Threads.Kept.{peek-flag, process_log_buffer-flag}

-- An address at which no object stands stays so, and an object whose thread has not ended stays
-- where it is, and its thread has not ended.
pub record Keeps (ts ts' : List ThreadBuffer) : Type 0 where
  pub still_none : (a : ℕ) → find a ts ≡ none → find a ts' ≡ none
  pub still_there :
      (a : ℕ) (b : StagingBuffer)
      → find a ts ≡ some b
      → b.should_deallocate ≡ false
      → (b' : StagingBuffer) × (find a ts' ≡ some b') × (b'.should_deallocate ≡ false)

pub same-Keeps : {ts ts' : List ThreadBuffer} → ts' ≡ ts → Keeps ts ts'
same-Keeps e = record {
  still_none = λ a h. ap (find a) e ∙ h;
  still_there = λ a b h live. (b, ap (find a) e ∙ h, live);
}

then-Keeps : {ts us vs : List ThreadBuffer} → Keeps ts us → Keeps us vs → Keeps ts vs
then-Keeps k l = record {
  still_none = λ a h. l.still_none a (k.still_none a h);
  still_there =
      λ a b h live. let (c, h', live') = k.still_there a b h live in l.still_there a c h' live';
}

swept-Keeps : (ts : List ThreadBuffer) → Keeps ts (swept ts)
swept-Keeps ts = record {
  still_none = λ a h. find-swept-none a ts h;
  still_there = λ a b h live. ((peek b).2, find-swept a ts h live, peek-flag b ∙ live);
}

pub replace-Keeps :
    (a : ℕ) (ts : List ThreadBuffer) (b d : StagingBuffer)
    → find a ts ≡ some b
    → d.should_deallocate ≡ b.should_deallocate
    → Keeps ts (replace a d ts)
replace-Keeps a ts b d e same = record {
  still_none = λ c h. elim (ℕ_discrete c a) [
    | yes it ↦ let wrong : find a ts ≡ none = ap (λ k. find k ts) (sym it) ∙ h in cc
    | no away ↦ find-replace_other a c d ts away ∙ h
  ];
  still_there = λ c x h live. elim (ℕ_discrete c a) [
    | yes it ↦
        let found : some b ≡ some x = sym e ∙ ap (λ k. find k ts) (sym it) ∙ h in
        let it_is : b ≡ x = cc in
        (
          d,
          ap (λ k. find k (replace a d ts)) it ∙ find-replace a d ts e,
          same ∙ ap (λ k. k.should_deallocate) it_is ∙ live,
        )
    | no away ↦ (x, find-replace_other a c d ts away ∙ h, live)
  ];
}

running_only : {s p : Poll} → running s ≡ running p → s.thread_buffers ≡ p.thread_buffers
running_only {s} {p} e = let it : s ≡ p = cc in ap (λ k. k.thread_buffers) it

put_back-Keeps :
    (a : ℕ) (s : Poll) (b : StagingBuffer) (r : Round) {p : Poll}
    → find a s.thread_buffers ≡ some b
    → ((o : Output) → r ≡ done o → o.staging.should_deallocate ≡ b.should_deallocate)
    → put_back a s r ≡ running p
    → Keeps s.thread_buffers p.thread_buffers
put_back-Keeps a s b broken f flag e = cc
put_back-Keeps a s b (done o) f flag e =
    then-Keeps (replace-Keeps a s.thread_buffers b o.staging f (flag o refl))
      (same-Keeps (sym (running_only e)))

process_buffer-Keeps :
    (env : Surroundings) (a : ℕ) (s : Poll) (found : Option StagingBuffer) {p : Poll}
    → find a s.thread_buffers ≡ found
    → process_buffer env a s found ≡ running p
    → Keeps s.thread_buffers p.thread_buffers
process_buffer-Keeps env a s none f e = cc
process_buffer-Keeps env a s (some b) f e =
    let o : Output = record {
      staging = b;
      log_buffer = s.log_buffer;
      opened = s.opened;
      file = s.file;
    } in
    put_back-Keeps a s b (process_log_buffer env o) f (λ o' e'. process_log_buffer-flag env o e') e

after_scan-Keeps :
    (env : Surroundings) (s : Poll) (n : Next) {p : Poll}
    → after_scan env s n ≡ running p
    → Keeps s.thread_buffers p.thread_buffers
after_scan-Keeps env s waits e = same-Keeps (sym (running_only e))
after_scan-Keeps env s (processes none) e = cc
after_scan-Keeps env s (processes (some a)) e =
    process_buffer-Keeps env a s (find a s.thread_buffers) refl e

pub poll_round-Keeps :
    (env : Surroundings) (s : Poll) {p : Poll}
    → poll_round env s ≡ running p
    → Keeps s.thread_buffers p.thread_buffers
unfolding poll_round
poll_round-Keeps env s e =
    let found = scan s.thread_buffers in
    let left : found.0 ≡ swept s.thread_buffers = ap (λ k. k.0) (scan-swept s.thread_buffers) in
    then-Keeps (swept-Keeps s.thread_buffers) (
      then-Keeps (same-Keeps left)
        (after_scan-Keeps env (record s { thread_buffers = found.0 }) (next found.1) e))
