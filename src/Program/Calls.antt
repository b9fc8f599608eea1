-- ===== src/Program/Calls.antt =====
-- A log statement adds an entry that the backend can write.
use static_logger.Prelude.{
  ℕ, ◌+◌, ◌-◌, ◌*◌, ◌^◌, ◌≤◌, ◌<◌, some, List, [], ◌∷◌, ◌++◌, length, get_elem?, ◌≡◌, refl, sym, ap,
  subst, ◌∙◌, arith,
}
use static_logger.Staging.{StagingBuffer, counted}
use static_logger.Staging.Queue.{Holds, appended}
use static_logger.Format.Grammar.{Piece, print, types, IsFormat}
use static_logger.Args.{Arg, get_arg_sizes}
use static_logger.Args.Layout.{payloads, store_arguments-payloads}
use static_logger.Log.{LogLevel, Site, log_entry_size, logged, static_log}
use static_logger.Log.Room.{static_log-room}
use static_logger.Prefix.{log_level_str}
use static_logger.Process.RoundTrip.{AllKinds, kinds-AllShort, sizes-AllMatch}
use static_logger.Writer.{Surroundings}
use static_logger.Writer.Entry.{Statement, IsStatement, head_text, statement_text}
use static_logger.Backend.{uint64_max}
use static_logger.Log.Entry.{length-entry_bytes}
use static_logger.Program.{Call}
use static_logger.Poll.Merge.{Stamped}
use static_logger.Poll.Pending.{Pending, entry_of, entries_of, IsHeld}

-- What a log statement has computed: `n` bytes for its arguments, and their sizes.
abbrev pub logged_statement : Site → List Piece → List ℕ → ℕ → List ℕ → List Arg → Statement
logged_statement site ps level n sizes args = record {
  site = site;
  format = ps;
  args = args;
  sizes = sizes;
  size = n + log_entry_size;
  level = level;
}

-- The static objects of the place in the program, as the backend finds them: the format is that of
-- the statement, and the array still holds the sizes of its arguments.
pub record IsSite (env : Surroundings) (site : Site) (ps : List Piece) (level : List ℕ)
    (sizes : List ℕ) : Type 0 where
  pub format_is : (env.static_info site.static_info).format ≡ print ps
  pub types_are : (env.static_info site.static_info).param_types ≡ types ps
  pub sizes_are : env.param_size site.param_size ≡ sizes
  pub level_is : get_elem? log_level_str (env.static_info site.static_info).log_level ≡ some level
  pub is_format : IsFormat ps
  pub info_small : site.static_info < 2 ^ 64
  pub param_size_small : site.param_size < 2 ^ 64

abbrev pub statement_of : Call → Statement
statement_of c = logged_statement c.site c.format c.level c.n c.sizes c.args

abbrev pub stamped_of : Call → Stamped
stamped_of c = record { statement = statement_of c; timestamp = c.timestamp }

abbrev pub all_stamped : List Call → List Stamped
all_stamped [] = []
all_stamped (c ∷ cs) = stamped_of c ∷ all_stamped cs

-- The call is at or above the level, its arguments match its format, and its entry is smaller than
-- 4 GiB.
pub record IsCall (current : LogLevel) (c : Call) : Type 0 where
  pub above : c.site.severity ≤ current
  pub site_types : c.site.param_types ≡ types c.format
  pub kinds : AllKinds c.format c.args
  pub sized : get_arg_sizes c.site.param_types (2 ^ 64 - 1) c.slots c.args ≡ some (c.n, c.sizes)
  pub small : length (payloads c.site.param_types c.sizes c.args) + log_entry_size < 2 ^ 32
  pub early : c.timestamp < uint64_max

-- The backend finds the static objects of the call, and has room for its line.
pub record IsServed (env : Surroundings) (len : ℕ) (c : Call) : Type 0 where
  pub is_site : IsSite env c.site c.format c.level c.sizes
  pub room :
      2 * length (head_text env (statement_of c)) + length (statement_text env (statement_of c))
      < len

-- `getArgSizes` has computed the bytes of the arguments.
count_of :
    (current : LogLevel) (c : Call)
    → IsCall current c
    → c.n ≡ length (payloads c.site.param_types c.sizes c.args)
count_of current c call = omega (
  arith,
  call.small,
  (store_arguments-payloads c.args c.site.param_types (2 ^ 64 - 1) c.slots c.sizes c.n
      (record { memory = λ _. 0; position = 0 }) (kinds-AllShort c.format c.args call.kinds)
      call.sized).1,
)

pub call-IsStatement :
    (env : Surroundings) (len : ℕ) (current : LogLevel) (c : Call)
    → IsCall current c
    → IsServed env len c
    → IsStatement env len (statement_of c)
call-IsStatement env len current c call served =
    let count = count_of current c call in
    let site = served.is_site in
    let e =
      subst (λ ts. get_arg_sizes ts (2 ^ 64 - 1) c.slots c.args ≡ some (c.n, c.sizes))
        call.site_types call.sized in
    let (static, match) =
      sizes-AllMatch c.format (2 ^ 64 - 1) c.slots c.args c.n c.sizes call.kinds e in
    record {
      format_is = site.format_is;
      types_are = site.types_are;
      site_types = call.site_types;
      sizes_are = site.sizes_are;
      level_is = site.level_is;
      is_format = site.is_format;
      is_static = static;
      matches = match;
      size_is =
          ap (λ k. k + log_entry_size)
            (count ∙ ap (λ ts. length (payloads ts c.sizes c.args)) call.site_types);
      size_small = omega (arith, call.small);
      info_small = site.info_small;
      param_size_small = site.param_size_small;
      room = served.room;
    }

entries_of-append :
    (xs : List Stamped) (x : Stamped)
    → entries_of (xs ++ (x ∷ [])) ≡ entries_of xs ++ entries_of (x ∷ [])
entries_of-append [] x = refl
entries_of-append (y ∷ xs) x = ap (◌∷◌ (entry_of y)) (entries_of-append xs x)

-- A log statement whose arguments match its format, at or above the level, with strings and an
-- entry of less than 4 GiB, for which there is room in the staging buffer at once: it does not
-- wait, its entry becomes the last of the queue, in the form that the backend reads, and the free
-- space is less by its size.
pub static_log-IsHeld :
    (current : LogLevel) (p : Pending) (c : Call)
    → IsHeld p
    → IsCall current c
    → c.n + log_entry_size < p.thread.buffer.min_free_space
    → (d : StagingBuffer) × (static_log c.site current c.slots c.args c.timestamp [] p.thread.buffer
        ≡ logged c.sizes d)
      × IsHeld (record {
        owner = p.owner;
        thread = record { address = p.thread.address; buffer = d };
        statements = p.statements ++ (stamped_of c ∷ []);
      })
      × (d.should_deallocate ≡ p.thread.buffer.should_deallocate)
      × (d.min_free_space ≡ p.thread.buffer.min_free_space - (c.n + log_entry_size))
static_log-IsHeld current p c h call room =
    let b = p.thread.buffer in
    let (e, count, valid, holds) =
      static_log-room c.site current c.slots c.sizes c.args c.n c.timestamp b
        (entries_of p.statements) call.above (kinds-AllShort c.format c.args call.kinds) call.sized
        call.small room h.valid h.holds in
    let entry = entry_of (stamped_of c) in
    let len : length entry ≡ c.n + log_entry_size =
      length-entry_bytes c.site c.sizes c.args c.timestamp (c.n + log_entry_size) ∙ omega arith in
    (
      appended entry (counted b),
      e,
      record {
        valid = valid;
        holds =
            subst (Holds (appended entry (counted b)))
              (sym (entries_of-append p.statements (stamped_of c))) holds;
      },
      refl,
      ap (λ k. b.min_free_space - k) len,
    )
