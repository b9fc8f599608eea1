-- ===== src/Writer/Entry.antt =====
-- The entry of a log statement, as `processLogBuffer` finds it in a staging buffer.
use mathlib.Core.List.{append_assoc}
use static_logger.Prelude.{
  ℕ, ◌+◌, ◌*◌, ◌^◌, ◌/◌, ◌≤◌, ◌<◌, true, some, List, ◌∷◌, ◌++◌, length, drop, drop-append,
  get_elem?, ◌≡◌, sym, ap, subst, ◌∙◌, arith,
}
use static_logger.Prelude.Memory.{Memory, read_bytes, read-split}
use static_logger.Prelude.Bytes.{le_bytes, le_value, length-le_bytes, le_value-le_bytes}
use static_logger.Staging.{StagingBuffer, store}
use static_logger.Staging.Invariant.{IsValid, available}
use static_logger.Staging.Queue.{Bytes, Holds}
use static_logger.Format.Grammar.{Piece, print, types, IsFormat}
use static_logger.Args.{Arg}
use static_logger.Args.Layout.{payloads}
use static_logger.Log.{Site, log_entry_size}
use static_logger.Log.Entry.{entry_bytes, length-entry_bytes}
use static_logger.Prefix.{StaticInfo, log_level_str}
use static_logger.Prefix.Time.{IsTm}
use static_logger.Decode.{has_param_buffer}
use static_logger.Process.Render.{rendered, IsStatic}
use static_logger.Process.Stored.{AllMatch, logged_text, rendered-logged_text}
use static_logger.Writer.{Surroundings}
use static_logger.Writer.Line.{line_head, stamped, pointer_in, info_of, sizes_of, message_of}
use static_logger.Writer.Stamp.{restarted, store-Holds}

-- A log statement: where it stands, its format, its arguments, and what was stored for them.
pub record Statement : Type 0 where
  pub site : Site
  pub format : List Piece
  pub args : List Arg
  pub sizes : List ℕ
  pub size : ℕ
  pub level : List ℕ

-- The entry of a statement.
abbrev pub bytes_of : Statement → ℕ → Bytes
bytes_of st timestamp = entry_bytes st.site st.sizes st.args timestamp st.size

-- What the backend finds at the address that the entry carries.
abbrev pub info_at : Surroundings → Statement → StaticInfo
info_at env st = env.static_info st.site.static_info

abbrev pub head_text : Surroundings → Statement → List ℕ
head_text env st = line_head env (info_at env st) st.level

abbrev pub statement_text : Surroundings → Statement → List ℕ
statement_text env st = logged_text env.platform st.format st.sizes st.args

-- The backend runs in a build without assertions, each copy of a string finds its space, and the
-- time has four digits in its year.
pub record IsCalm (env : Surroundings) : Type 0 where
  pub release : env.platform.ndebug ≡ true
  pub copies : (k : ℕ) → has_param_buffer env.platform k ≡ true
  pub tm : IsTm (env.localtime (env.nanotime / 1000000000))

-- The pointers of the statement's entry lead to its format and its sizes, the format is without `*`
-- and matches the arguments, and the line fits in a log buffer of length `len` beside a second copy
-- of its prefixes.
pub record IsStatement (env : Surroundings) (len : ℕ) (st : Statement) : Type 0 where
  pub format_is : (info_at env st).format ≡ print st.format
  pub types_are : (info_at env st).param_types ≡ types st.format
  pub site_types : st.site.param_types ≡ types st.format
  pub sizes_are : env.param_size st.site.param_size ≡ st.sizes
  pub level_is : get_elem? log_level_str (info_at env st).log_level ≡ some st.level
  pub is_format : IsFormat st.format
  pub is_static : IsStatic st.format st.sizes
  pub matches : AllMatch st.format st.sizes st.args
  pub size_is : st.size ≡ length (payloads (types st.format) st.sizes st.args) + log_entry_size
  pub size_small : st.size < 2 ^ 32
  pub info_small : st.site.static_info < 2 ^ 64
  pub param_size_small : st.site.param_size < 2 ^ 64
  pub room : 2 * length (head_text env st) + length (statement_text env st) < len

pub length-bytes_of :
    {env : Surroundings} {len : ℕ} {st : Statement} (timestamp : ℕ)
    → IsStatement env len st
    → length (bytes_of st timestamp) ≡ st.size
length-bytes_of {st} timestamp h =
    length-entry_bytes st.site st.sizes st.args timestamp st.size
    ∙ ap (λ ts. length (payloads ts st.sizes st.args) + 32) h.site_types
    ∙ sym h.size_is

-- A new time in an entry.
restarted-bytes_of :
    (st : Statement) (t t' : ℕ) → restarted (le_bytes 8 t') (bytes_of st t) ≡ bytes_of st t'
restarted-bytes_of st t t' =
    ap (λ xs. le_bytes 8 t' ++ xs)
      (ap (λ k. drop k (bytes_of st t)) (length-le_bytes 8 t')
        ∙ drop-append 8 (le_bytes 8 t) _ (length-le_bytes 8 t))

-- The entry at offset `p`, part by part.
pub record Parts (m : Memory) (p : ℕ) (st : Statement) : Type 0 where
  size_part : read_bytes m (p + 8) 8 ≡ le_bytes 8 st.size
  info_part : read_bytes m (p + 16) 8 ≡ le_bytes 8 st.site.static_info
  param_part : read_bytes m (p + 24) 8 ≡ le_bytes 8 st.site.param_size
  payload_part :
      let body = payloads st.site.param_types st.sizes st.args in
      read_bytes m (p + 32) (length body) ≡ body

-- The rest of what is read, behind a part of eight bytes.
pub read-eight :
    (m : Memory) (p v : ℕ) (rest : Bytes)
    → read_bytes m p (length (le_bytes 8 v ++ rest)) ≡ le_bytes 8 v ++ rest
    → (read_bytes m p 8 ≡ le_bytes 8 v) × (read_bytes m (p + 8) (length rest) ≡ rest)
read-eight m p v rest h =
    let eight = length-le_bytes 8 v in
    let (a, b) = read-split m p (le_bytes 8 v) rest h in
    (
      ap (read_bytes m p) (sym eight) ∙ a,
      ap (λ k. read_bytes m (p + k) (length rest)) (sym eight) ∙ b,
    )

pub entry-Parts :
    (m : Memory) (p t : ℕ) (st : Statement)
    → read_bytes m p (length (bytes_of st t)) ≡ bytes_of st t
    → Parts m p st
entry-Parts m p t st h =
    let site = st.site in
    let body = payloads site.param_types st.sizes st.args in
    let info = le_bytes 8 site.static_info in
    let param = le_bytes 8 site.param_size in
    let behind = info ++ (param ++ body) in
    let flat : bytes_of st t ≡ le_bytes 8 t ++ (le_bytes 8 st.size ++ behind) =
      ap (λ xs. le_bytes 8 t ++ (le_bytes 8 st.size ++ xs)) (append_assoc info param body) in
    let all = subst (λ xs. read_bytes m p (length xs) ≡ xs) flat h in
    let (_, a) = read-eight m p t (le_bytes 8 st.size ++ behind) all in
    let (size, b) = read-eight m (p + 8) st.size behind a in
    let (at_info, c) = read-eight m (p + 8 + 8) site.static_info (param ++ body) b in
    let (at_param, d) = read-eight m (p + 8 + 8 + 8) site.param_size body c in
    let two : p + 8 + 8 ≡ p + 16 = omega arith in
    let three : p + 8 + 8 + 8 ≡ p + 24 = omega arith in
    let four : p + 8 + 8 + 8 + 8 ≡ p + 32 = omega arith in
    record {
      size_part = size;
      info_part = ap (λ q. read_bytes m q 8) (sym two) ∙ at_info;
      param_part = ap (λ q. read_bytes m q 8) (sym three) ∙ at_param;
      payload_part = ap (λ q. read_bytes m q (length body)) (sym four) ∙ d;
    }

-- The first entry of the staging buffer after the peek, with the new time.
pub stamped-restarted :
    (env : Surroundings) (s : StagingBuffer) (p : ℕ) (r : Bytes) (rs : List Bytes)
    → p ≡ s.consumer_pos
    → Holds s (r ∷ rs)
    → 8 ≤ length r
    → length r ≤ available s
    → Holds (stamped env p s) (restarted (le_bytes 8 env.nanotime) r ∷ rs)
unfolding store
stamped-restarted env s p r rs at_consumer h long room =
    let now = le_bytes 8 env.nanotime in
    subst (λ q. Holds (stamped env q s) (restarted now r ∷ rs)) (sym at_consumer)
      (store-Holds s now r rs h (omega (arith, length-le_bytes 8 env.nanotime)) room (omega arith))

pub stamped-Holds :
    (env : Surroundings) (s : StagingBuffer) (p t : ℕ) (st : Statement) (rs : List Bytes)
    → p ≡ s.consumer_pos
    → Holds s (bytes_of st t ∷ rs)
    → 8 ≤ length (bytes_of st t)
    → length (bytes_of st t) ≤ available s
    → Holds (stamped env p s) (bytes_of st env.nanotime ∷ rs)
stamped-Holds env s p t st rs at_consumer h long room =
    subst (λ r. Holds (stamped env p s) (r ∷ rs)) (restarted-bytes_of st t env.nanotime)
      (stamped-restarted env s p (bytes_of st t) rs at_consumer h long room)

pub stamped-IsValid :
    (env : Surroundings) (s : StagingBuffer) (p : ℕ) → IsValid s → IsValid (stamped env p s)
stamped-IsValid env s p v = record { producer_in = v.producer_in; free = v.free }

-- What the backend finds through the parts of the entry.
pub found_in_entry :
    (env : Surroundings) (len p : ℕ) (s : StagingBuffer) (st : Statement)
    → IsCalm env
    → IsStatement env len st
    → Parts (stamped env p s).storage p st
    → (pointer_in env p s 8 ≡ st.size)
      × (info_of env p s ≡ info_at env st)
      × (sizes_of env p s ≡ st.sizes)
      × (message_of env st.format p s ≡ statement_text env st)
found_in_entry env len p s st calm is parts =
    let small : st.size < 256 ^ 8 = omega (arith, is.size_small) in
    let info : pointer_in env p s 16 ≡ st.site.static_info =
      ap le_value parts.info_part
      ∙ le_value-le_bytes 8 st.site.static_info (omega (arith, is.info_small)) in
    let param : pointer_in env p s 24 ≡ st.site.param_size =
      ap le_value parts.param_part
      ∙ le_value-le_bytes 8 st.site.param_size (omega (arith, is.param_size_small)) in
    let sizes : sizes_of env p s ≡ st.sizes = ap env.param_size param ∙ is.sizes_are in
    let m = (stamped env p s).storage in
    let stored =
      subst
        (λ ts.
          read_bytes m (p + log_entry_size) (length (payloads ts st.sizes st.args))
          ≡ payloads ts st.sizes st.args)
        is.site_types parts.payload_part in
    (
      ap le_value parts.size_part ∙ le_value-le_bytes 8 st.size small,
      ap env.static_info info,
      sizes,
      ap (λ ss. rendered env.platform m st.format ss (p + log_entry_size)) sizes
          ∙ rendered-logged_text env.platform m st.format st.sizes st.args (p + log_entry_size)
              is.is_static is.matches stored,
    )
