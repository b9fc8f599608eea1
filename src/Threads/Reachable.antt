-- ===== src/Threads/Reachable.antt =====
-- Every step of the threads and of the backend keeps the pointers good.
use static_logger.Prelude.{
  ℕ, true, false, Option, none, some, List, [], ◌∷◌, ◌++◌, ◌==◌, ◌≡◌, ◌≢◌, refl, sym, ap, subst,
  ◌∙◌, arith,
}
use static_logger.Staging.{StagingBuffer, ConsumerStep, new, Reserved, finish_reservation, store}
use static_logger.Backend.{ThreadBuffer}
use static_logger.Poll.{find, replace}
use static_logger.Logger.{Logger}
use static_logger.Threads.{
  Progress, fresh, numbered, allocated, ready, ended, take_buffer_id, push_back, put_buffer,
  reserve_in, reserve_alloc, put_some, finish_in, finish_alloc, fill_in, mark_in,
  destroy_staging_buffer, System, assign, IsFree, Step, numbers, allocates, registers, reserves,
  fills, finishes, ends, polls, switches, Reaches, start, then_step,
}
use static_logger.Threads.Find.{find-replace_other, find-append, find-append_last}
use static_logger.Threads.Kept.{
  reserve_producer_space-flag, finish_reservation-flag, set_log_file-buffers,
}
use static_logger.Threads.Keeps.{Keeps, same-Keeps, replace-Keeps, poll_round-Keeps}
use static_logger.Threads.Safety.{Fits, Has, IsSafe, Keeps-IsSafe, assign-IsSafe}

abbrev buffers : Logger → List ThreadBuffer
buffers l = l.poll.thread_buffers

-- The buffer of a thread changes, and is not marked.
put-Keeps :
    (a : ℕ) (l : Logger) (b d : StagingBuffer)
    → find a (buffers l) ≡ some b
    → d.should_deallocate ≡ b.should_deallocate
    → Keeps (buffers l) (buffers (put_buffer a l d))
put-Keeps a l b d e same = replace-Keeps a (buffers l) b d e same

some_only : {A : Type 0} {x y : A} → some x ≡ some y → x ≡ y
some_only e = cc

reserve_in-Keeps :
    (n : ℕ) (schedule : List (List ConsumerStep)) (a : ℕ) (l : Logger)
    (found : Option StagingBuffer) {out : Reserved} {l' : Logger}
    → find a (buffers l) ≡ found
    → reserve_in n schedule a l found ≡ some (out, l')
    → Keeps (buffers l) (buffers l')
reserve_in-Keeps n schedule a l none f e = cc
reserve_in-Keeps n schedule a l (some b) f e =
    subst (λ k. Keeps (buffers l) (buffers k)) (ap (λ k. k.1) (some_only e))
      (put-Keeps a l b _ f (reserve_producer_space-flag n schedule b))

put_some-Keeps :
    (a : ℕ) (l : Logger) (b : StagingBuffer) (r : Option StagingBuffer) {l' : Logger}
    → find a (buffers l) ≡ some b
    → ((d : StagingBuffer) → r ≡ some d → d.should_deallocate ≡ b.should_deallocate)
    → put_some a l r ≡ some l'
    → Keeps (buffers l) (buffers l')
put_some-Keeps a l b none f flag e = cc
put_some-Keeps a l b (some d) f flag e =
    subst (λ k. Keeps (buffers l) (buffers k)) (some_only e) (put-Keeps a l b d f (flag d refl))

finish_in-Keeps :
    (n a : ℕ) (l : Logger) (found : Option StagingBuffer) {l' : Logger}
    → find a (buffers l) ≡ found
    → finish_in n a l found ≡ some l'
    → Keeps (buffers l) (buffers l')
finish_in-Keeps n a l none f e = cc
finish_in-Keeps n a l (some b) f e =
    put_some-Keeps a l b (finish_reservation n b) f (λ d e'. finish_reservation-flag n b e') e

fill_in-Keeps :
    (p : ℕ) (bs : List ℕ) (a : ℕ) (l : Logger) (found : Option StagingBuffer) {l' : Logger}
    → find a (buffers l) ≡ found
    → fill_in p bs a l found ≡ some l'
    → Keeps (buffers l) (buffers l')
unfolding store
fill_in-Keeps p bs a l none f e = cc
fill_in-Keeps p bs a l (some b) f e =
    subst (λ k. Keeps (buffers l) (buffers k)) (some_only e) (put-Keeps a l b (store p bs b) f refl)

-- No thread that has its buffer stands at a free address.
free-alone :
    (s : System) (t address : ℕ) (p : Progress)
    → ((b : ThreadBuffer) → p ≡ allocated b → b.address ≢ address)
    → find address (buffers s.logger) ≡ none
    → Fits (buffers s.logger) p
    → Has p address
    → ⊥
free-alone s t address (allocated b) new_apart out fits has = new_apart b refl has
free-alone s t address (ready c) new_apart out (b, e, live) has =
    let wrong : find c (buffers s.logger) ≡ none = ap (λ k. find k (buffers s.logger)) has ∙ out in
    cc
free-alone s t address fresh new_apart out fits has = has
free-alone s t address (numbered id) new_apart out fits has = has
free-alone s t address ended new_apart out fits has = has

-- A new buffer in the vector, for a thread that points elsewhere.
pushed-Fits :
    (ts : List ThreadBuffer) (b : ThreadBuffer) (p : Progress)
    → (Has p b.address → ⊥)
    → Fits ts p
    → Fits (ts ++ (b ∷ [])) p
pushed-Fits ts b fresh other h = tt
pushed-Fits ts b (numbered id) other h = tt
pushed-Fits ts b ended other h = tt
pushed-Fits ts b (allocated c) other (out, live) =
    let away : (b.address == c.address) ≡ false =
      let ne : c.address ≢ b.address = other in ground (arith, ne) in
    (find-append_last c.address ts b out ∙ rw away refl, live)
pushed-Fits ts b (ready a) other (d, e, live) = (d, find-append a ts b e, live)

-- Another buffer has been marked.
marked-Fits :
    (ts : List ThreadBuffer) (a : ℕ) (d : StagingBuffer) (p : Progress)
    → (Has p a → ⊥)
    → Fits ts p
    → Fits (replace a d ts) p
marked-Fits ts a d fresh other h = tt
marked-Fits ts a d (numbered id) other h = tt
marked-Fits ts a d ended other h = tt
marked-Fits ts a d (allocated c) other (out, live) =
    (find-replace_other a c.address d ts other ∙ out, live)
marked-Fits ts a d (ready c) other (b, e, live) = (b, find-replace_other a c d ts other ∙ e, live)

numbers-IsSafe :
    (s : System) (t : ℕ)
    → IsSafe s
    → IsSafe (record {
      logger = (take_buffer_id s.logger).1;
      thread = assign t (numbered (take_buffer_id s.logger).0) s.thread;
    })
unfolding take_buffer_id
numbers-IsSafe s t h =
    assign-IsSafe s (take_buffer_id s.logger).1 t (numbered (take_buffer_id s.logger).0) h tt
      (λ u _. h.fits u) (λ u a no_address _. absurd no_address)

allocates-IsSafe :
    (s : System) (t id address : ℕ)
    → IsFree address s
    → IsSafe s
    → IsSafe (record s {
      thread = assign t (allocated (record { address = address; buffer = new id })) s.thread;
    })
unfolding new
allocates-IsSafe s t id address free h =
    assign-IsSafe s s.logger t (allocated (record { address = address; buffer = new id })) h
      (free.not_in, refl) (λ u _. h.fits u)
      (λ u a here has. absurd (
        free-alone s t address (s.thread u) (free.not_new u) free.not_in (h.fits u)
          (subst (Has (s.thread u)) (sym here) has)))

registers-IsSafe :
    (s : System) (t : ℕ) (b : ThreadBuffer)
    → s.thread t ≡ allocated b
    → IsSafe s
    → IsSafe
        (record { logger = push_back b s.logger; thread = assign t (ready b.address) s.thread })
unfolding push_back
registers-IsSafe s t b e h =
    let has_t : Has (s.thread t) b.address = rw e refl in
    let (out, live) = subst (Fits (buffers s.logger)) e (h.fits t) in
    let found : find b.address (b ∷ []) ≡ some b.buffer =
      let test : (b.address == b.address) ≡ true = ground arith in rw test refl in
    assign-IsSafe s (push_back b s.logger) t (ready b.address) h
      (b.buffer, find-append_last b.address (buffers s.logger) b out ∙ found, live)
      (λ u other.
        pushed-Fits (buffers s.logger) b (s.thread u)
          (λ has. other (h.apart u t b.address has has_t)) (h.fits u))
      (λ u a here has. h.apart u t a has (rw e here))

ends-IsSafe :
    (s : System) (t address : ℕ) (l : Logger)
    → s.thread t ≡ ready address
    → destroy_staging_buffer address s.logger ≡ some l
    → IsSafe s
    → IsSafe (record { logger = l; thread = assign t ended s.thread })
unfolding destroy_staging_buffer
ends-IsSafe s t address l e done h =
    let has_t : Has (s.thread t) address = rw e refl in
    let (b, found, live) = subst (Fits (buffers s.logger)) e (h.fits t) in
    let marked : StagingBuffer = record b { should_deallocate = true } in
    let it : put_buffer address s.logger marked ≡ l =
      some_only (sym (ap (mark_in address s.logger) found) ∙ done) in
    subst (λ k. IsSafe (record { logger = k; thread = assign t ended s.thread })) it
      (assign-IsSafe s (put_buffer address s.logger marked) t ended h tt
        (λ u other.
          marked-Fits (buffers s.logger) address marked (s.thread u)
            (λ has. other (h.apart u t address has has_t)) (h.fits u))
        (λ u a no_address _. absurd no_address))

Step-IsSafe : {s u : System} → Step s u → IsSafe s → IsSafe u
unfolding reserve_alloc finish_alloc
Step-IsSafe {s} (numbers t e) h = numbers-IsSafe s t h
Step-IsSafe {s} (allocates t id address e free) h = allocates-IsSafe s t id address free h
Step-IsSafe {s} (registers t b e) h = registers-IsSafe s t b e h
Step-IsSafe {s} (reserves t address n schedule out l e r) h =
    Keeps-IsSafe s l (reserve_in-Keeps n schedule address s.logger _ refl r) h
Step-IsSafe {s} (fills t address p bs l e r) h =
    Keeps-IsSafe s l (fill_in-Keeps p bs address s.logger _ refl r) h
Step-IsSafe {s} (finishes t address n l e r) h =
    Keeps-IsSafe s l (finish_in-Keeps n address s.logger _ refl r) h
Step-IsSafe {s} (ends t address l e r) h = ends-IsSafe s t address l e r h
Step-IsSafe {s} (polls env p e) h =
    Keeps-IsSafe s (record s.logger { poll = p }) (poll_round-Keeps env s.logger.poll e) h
Step-IsSafe {s} (switches turns opens l still e) h =
    Keeps-IsSafe s l (same-Keeps (set_log_file-buffers turns opens s.logger still e)) h

-- The logger behind its constructor, before any thread has logged.
abbrev pub IsStart : System → Type 0
IsStart s = (buffers s.logger ≡ []) × ((t : ℕ) → s.thread t ≡ fresh)

pub reaches-IsSafe : {s u : System} → IsStart s → Reaches s u → IsSafe u
reaches-IsSafe {s} h start = record {
  fits = λ t. subst (Fits (buffers s.logger)) (sym (h.1 t)) tt;
  apart = λ t u a has _. absurd (subst (λ p. Has p a) (h.1 t) has);
}
reaches-IsSafe h (then_step r st) = Step-IsSafe st (reaches-IsSafe h r)

-- In every state that threads, backend rounds and calls of `setLogFile` reach from the start of the
-- program, a thread whose staging buffer has been registered, and which has not ended, finds it in
-- the vector and not marked for deletion, and no other thread has the same: `reserveAlloc` and the
-- destroyer of the thread never touch an object that is gone.
pub reaches-ready :
    (s u : System) (t address nbytes : ℕ) (schedule : List (List ConsumerStep))
    → IsStart s
    → Reaches s u
    → u.thread t ≡ ready address
    → (b : StagingBuffer) × (find address u.logger.poll.thread_buffers ≡ some b)
      × (b.should_deallocate ≡ false)
      × ((v : ℕ) → u.thread v ≡ ready address → v ≡ t)
      × ((out : Reserved × Logger) × (reserve_alloc nbytes schedule address u.logger ≡ some out))
      × ((l : Logger) × (destroy_staging_buffer address u.logger ≡ some l))
unfolding reserve_alloc destroy_staging_buffer
reaches-ready s u t address nbytes schedule h r e =
    let safe = reaches-IsSafe h r in
    let (b, found, live) = subst (Fits (buffers u.logger)) e (safe.fits t) in
    (
      b,
      found,
      live,
      λ v e'.
          safe.apart v t address (subst (λ p. Has p address) (sym e') refl)
            (subst (λ p. Has p address) (sym e) refl),
      (_, ap (reserve_in nbytes schedule address u.logger) found),
      (_, ap (mark_in address u.logger) found),
    )
