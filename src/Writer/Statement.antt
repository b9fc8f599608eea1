-- ===== src/Writer/Statement.antt =====
-- From the queue of a staging buffer to the log file: `processLogBuffer` on the entry of a log
-- statement.
use static_logger.Prelude.{
  ℕ, ◌+◌, ◌*◌, ◌^◌, ◌≤◌, ◌<◌, true, List, ◌∷◌, ◌++◌, length, get_elem?, ◌≡◌, refl, sym, ap, ap₂,
  subst, ◌∙◌, arith,
}
use static_logger.Prelude.Memory.{read_bytes}
use static_logger.Staging.{StagingBuffer, peek, consume}
use static_logger.Staging.Invariant.{IsValid, available, peek-IsValid, consume-IsValid}
use static_logger.Staging.Queue.{Bytes, AllNonempty, Holds}
use static_logger.Staging.Consumer.{peek-Answers, consume-Holds, consumer-first}
use static_logger.Prefix.{log_level_str}
use static_logger.Decode.{LogBuffer}
use static_logger.Process.Render.{IsStatic}
use static_logger.Writer.{Surroundings, Output, Round, done, process_log_buffer}
use static_logger.Writer.Line.{
  with_line, line_head, stamped, pointer_in, info_of, process_log_buffer-line,
}
use static_logger.Writer.Entry.{
  Statement, bytes_of, head_text, statement_text, IsCalm, IsStatement, length-bytes_of, entry-Parts,
  stamped-Holds, stamped-IsValid, found_in_entry,
}

-- What is left of a round on the statement's entry.
pub record Written (env : Surroundings) (o : Output) (st : Statement) (rs : List Bytes)
    (round : Round) : Type 0 where
  pub staging : StagingBuffer
  pub log_buffer : LogBuffer
  pub extra : List ℕ
  pub is_done :
      round
      ≡ done (record o {
        staging = staging;
        log_buffer = log_buffer;
        file = o.file ++ (head_text env st ++ (statement_text env st ++ extra));
      })
  pub length_extra : length extra ≡ length (head_text env st) + 1
  pub same_len : log_buffer.len ≡ o.log_buffer.len
  pub valid : IsValid staging
  pub holds : Holds staging rs
  pub same_thread : staging.should_deallocate ≡ o.staging.should_deallocate

consumed-should_deallocate :
    (env : Surroundings) (n : ℕ) (b : StagingBuffer)
    → (consume n (stamped env (peek b).0 (peek b).2)).should_deallocate ≡ b.should_deallocate
unfolding peek consume
consumed-should_deallocate env n b = ground arith

-- The first entry of a valid staging buffer is that of a statement whose static objects the backend
-- finds, with a format that matches its arguments, without `*`, NUL or a specifier of 100
-- characters; the log file is open, the build has no assertions, each copy of a string finds its
-- space, the time has a year of four digits, and the message fits in the log buffer beside twice
-- its prefixes: `processLogBuffer` appends to the file both prefixes with the time of the
-- processing, the text of the statement, and one byte more than the prefixes have; it takes the
-- entry off the queue, leaves the entries behind it, the length of the log buffer and the flag of
-- the thread, and the staging buffer is still valid.
pub process_log_buffer-statement :
    (env : Surroundings) (o : Output) (st : Statement) (t : ℕ) (rs : List Bytes)
    → IsCalm env
    → IsStatement env o.log_buffer.len st
    → IsValid o.staging
    → AllNonempty (bytes_of st t ∷ rs)
    → Holds o.staging (bytes_of st t ∷ rs)
    → o.opened ≡ true
    → o.log_buffer.len < 2 ^ 64
    → Written env o st rs (process_log_buffer env o)
process_log_buffer-statement env o st t rs calm is v ne h opened small =
    let r = bytes_of st t in
    let now = bytes_of st env.nanotime in
    let (p, n, s) = peek o.staging in
    let (seen, (at_consumer, count, room, read)) = peek-Answers o.staging (r ∷ rs) v ne h in
    let size_t : length r ≡ st.size = length-bytes_of t is in
    let size_now : length now ≡ st.size = length-bytes_of env.nanotime is in
    let long : 32 ≤ st.size = omega (arith, is.size_is) in
    let room' : length now ≤ available s = omega arith in
    let s' = stamped env p s in
    let held = stamped-Holds env s p t st rs at_consumer seen (omega arith) (omega arith) in
    let first : read_bytes s'.storage p (length now) ≡ now =
      ap (λ q. read_bytes s'.storage q (length now)) at_consumer
      ∙ consumer-first s' now rs held room' (omega arith) in
    let (size, info, sizes, message) =
      found_in_entry env o.log_buffer.len p s st calm is
        (entry-Parts s'.storage p env.nanotime st first) in
    let valid = stamped-IsValid env s p (peek-IsValid v) in
    let head : line_head env (info_of env p s) st.level ≡ head_text env st =
      ap (λ x. line_head env x st.level) info in
    let taken : pointer_in env p s 8 ≡ length now = size ∙ sym size_now in
    let fits =
      subst (λ k. k < o.log_buffer.len)
        (sym (ap₂ (λ xs ys. 2 * length xs + length ys) head message)) is.room in
    let (c, extra, e, len, same) =
      process_log_buffer-line env o st.format p n s st.level refl (omega arith)
        (ap (λ x. x.format) info ∙ is.format_is) (ap (λ x. x.param_types) info ∙ is.types_are)
        (ap (λ x. get_elem? log_level_str x.log_level) info ∙ is.level_is) is.is_format
        (subst (IsStatic st.format) (sym sizes) is.is_static) calm.tm calm.release calm.copies
        opened small fits in
    record {
      staging = consume (length now) s';
      log_buffer = c;
      extra = extra;
      is_done = e ∙ (λ i.
          done
            (with_line (taken i) (head i ++ (message i ++ extra)) c (record o { staging = s' })));
      length_extra = len ∙ ap (λ xs. length xs + 1) head;
      same_len = same;
      valid = consume-IsValid (length now) valid room';
      holds = consume-Holds s' now rs valid held room' (omega arith);
      same_thread = consumed-should_deallocate env (length now) o.staging;
    }
