-- ===== src/Prefix/CallInfo.antt =====
-- The text of `generateCallInfoPrefix` of src/static_log_backend.cc.
use static_logger.Prelude.{
  subst, ℕ, zero, suc, ◌+◌, ◌-◌, ◌^◌, ◌≤◌, ◌<◌, some, List, [], ◌∷◌, ◌++◌, ◌≡◌, refl, ap, ap₂, ◌∙◌,
  length, length-append, get_elem?, arith,
}
use static_logger.Prelude.Memory.{Memory, write_bytes}
use static_logger.Prelude.Decimal.{to_string, length-to_string_from}
use mathlib.Core.List.{append_assoc}
use static_logger.Args.{Cursor, put}
use static_logger.Prefix.{
  StaticInfo, log_level_str, put_bracketed, call_info, generate_call_info_prefix,
}
use static_logger.Prefix.Puts.{put-put, memory-put, put_nothing}

-- `[LEVEL][FUNCTION][LINE]`
abbrev pub call_info_text : List ℕ → StaticInfo → List ℕ
call_info_text level info =
    b'[' ∷ level
    ++ b']' ∷ b'[' ∷ info.function_name
    ++ b']' ∷ b'[' ∷ to_string info.line
    ++ b']' ∷ []

put_bracketed-put :
    (text xs : List ℕ) (n : ℕ) (c : Cursor)
    → n ≡ length xs
    → let ys = xs ++ b'[' ∷ text ++ b']' ∷ [] in
      put_bracketed text (n, put xs c) ≡ (length ys, put ys c)
unfolding put_bracketed
put_bracketed-put text xs n c h =
    let count : n + 1 + length text + 1 ≡ length (xs ++ b'[' ∷ text ++ b']' ∷ []) =
      omega
        (arith, h, length-append (xs ++ b'[' ∷ text) (b']' ∷ []), length-append xs (b'[' ∷ text)) in
    rw
      (
        put-put xs (b'[' ∷ []) c,
        put-put (xs ++ b'[' ∷ []) text c,
        put-put ((xs ++ b'[' ∷ []) ++ text) (b']' ∷ []) c,
      )
      (ap₂ (λ n' ys. (n', put ys c)) count (simp append_assoc))

put_bracketed-start :
    (text : List ℕ) (c : Cursor)
    → let ys = b'[' ∷ text ++ b']' ∷ [] in put_bracketed text (0, c) ≡ (length ys, put ys c)
put_bracketed-start text c =
    let ys = b'[' ∷ text ++ b']' ∷ [] in
    subst (λ d. put_bracketed text (0, d) ≡ (length ys, put ys c)) (put_nothing c)
      (put_bracketed-put text [] 0 c refl)

-- `max_call_info_len`
abbrev pub max_call_info_len : ℕ
max_call_info_len = 1 + 5 + 2 + 63 + 2 + 128 + 1

call_info-text :
    (info : StaticInfo) (m : Memory) (p : ℕ) (level : List ℕ)
    → let text = call_info_text level info in
      call_info info p m (some level) ≡ some (length text, write_bytes m p text)
call_info-text info m p level =
    let c : Cursor = record { memory = m; position = p } in
    let first = b'[' ∷ level ++ b']' ∷ [] in
    let second = first ++ b'[' ∷ info.function_name ++ b']' ∷ [] in
    let same : second ++ b'[' ∷ to_string info.line ++ b']' ∷ [] ≡ call_info_text level info =
      simp append_assoc in
    rw
      (
        put_bracketed-start level c,
        put_bracketed-put info.function_name first (length first) c refl,
        put_bracketed-put (to_string info.line) second (length second) c refl,
        memory-put (second ++ b'[' ∷ to_string info.line ++ b']' ∷ []) c,
      )
      (ap (λ text. some (length text, write_bytes m p text)) same)

pub generate_call_info_prefix-named :
    (info : StaticInfo) (m : Memory) (p : ℕ) (level : List ℕ)
    → get_elem? log_level_str info.log_level ≡ some level
    → let text = call_info_text level info in
      generate_call_info_prefix info m p ≡ some (length text, write_bytes m p text)
unfolding generate_call_info_prefix
generate_call_info_prefix-named info m p level named =
    ap (call_info info p m) named ∙ call_info-text info m p level

call_info_text_fits :
    (info : StaticInfo) (level : List ℕ)
    → length level ≤ 6
    → info.line < 2 ^ 64
    → length (call_info_text level info) ≤ max_call_info_len + (length info.function_name - 63)
call_info_text_fits info level h small =
    let line = length-to_string_from 20 20 info.line (omega arith) (omega arith) in
    simp length-append (omega (arith, h, line))

level_name :
    (l : ℕ)
    → l < 5
    → (level : List ℕ) × (get_elem? log_level_str l ≡ some level) × (length level ≤ 6)
level_name zero h = (_, refl, omega arith)
level_name (suc zero) h = (_, refl, omega arith)
level_name (suc (suc zero)) h = (_, refl, omega arith)
level_name (suc (suc (suc zero))) h = (_, refl, omega arith)
level_name (suc (suc (suc (suc zero)))) h = (_, refl, omega arith)
level_name (suc (suc (suc (suc (suc l))))) h = absurd (omega arith)

-- Behind the time stands `[LEVEL][FUNCTION][LINE]`: for each of the five levels
-- `generateCallInfoPrefix` finds a name, returns the length of this text, changes the buffer by
-- exactly this text, and the text goes over `max_call_info_len` at most by what the function's name
-- has more than 63 characters, although "notice" is longer than the five characters that this
-- number counts for a level.
pub generate_call_info_prefix-text :
    (info : StaticInfo) (m : Memory) (p : ℕ)
    → info.log_level < 5
    → info.line < 2 ^ 64
    → (level : List ℕ) × (get_elem? log_level_str info.log_level ≡ some level)
      × (generate_call_info_prefix info m p
          ≡ some (length (call_info_text level info), write_bytes m p (call_info_text level info)))
      × (length (call_info_text level info) ≤ max_call_info_len + (length info.function_name - 63))
unfolding generate_call_info_prefix
generate_call_info_prefix-text info m p known small =
    let (level, named, short) = level_name info.log_level known in
    (
      level,
      named,
      generate_call_info_prefix-named info m p level named,
      call_info_text_fits info level short small,
    )
