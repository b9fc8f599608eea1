-- ===== src/Format/Fuel.antt =====
-- The fuel of `getParamInfo` and of the sequence of parameters is enough: both satisfy the
-- equations of the loop with no fuel in them.
use static_logger.Prelude.{
  ℕ, zero, suc, ◌+◌, ◌-◌, ◌*◌, ◌≤◌, Bool, true, false, not, none, [], ◌∷◌, ◌==◌, if◌then◌else◌,
  length, ◌≡◌, refl, sym, ap, ◌∙◌, arith,
}
use static_logger.Format.Chars.{is_flag, is_digit, is_length}
use static_logger.Format.Types.{Result, ok, throws}
use static_logger.Format.Scan.{
  Chars, at, advance, skip, Precision, scan_precision, Flow, returns, raises, goes, consume_width,
  static_precision, consume_precision, consume_terminal, behind_width, specifier, ◌>>=◌, resume,
  round, get_param_info,
}
use static_logger.Format.Params.{
  Params, index, terminal_params, static_precision_params, precision_params, specifier_params,
  params_from, params, resume-answer, answer-specifier, get_param_info-index,
}

pub length-skip : (test : ℕ → Bool) (s : Chars) → length (skip test s) ≤ length s
unfolding skip
length-skip test [] = omega arith
length-skip test (c ∷ s) = ground (arith, length-skip test s)

pub length-advance : (s : Chars) → length (advance s) ≤ length s
length-advance [] = omega arith
length-advance (c ∷ s) = omega arith

abbrev pub Shorter : ℕ → Result (ℕ × Chars) → Type 0
Shorter n (ok (p, s)) = length s ≤ n
Shorter n (throws e) = Unit

pub Shorter-le : {n m : ℕ} (r : Result (ℕ × Chars)) → Shorter n r → n ≤ m → Shorter m r
Shorter-le (ok (p, s)) h le = omega arith
Shorter-le (throws e) h le = h

pub scan_precision-Shorter : (p : ℕ) (s : Chars) → Shorter (length s) (scan_precision p s)
unfolding scan_precision
scan_precision-Shorter p [] = omega arith
scan_precision-Shorter p (c ∷ s) = ground (
  arith,
  Shorter-le {m = suc (length s)} (scan_precision (10 * p + (c - b'0')) s)
      (scan_precision-Shorter (10 * p + (c - b'0')) s) (omega arith),
)

-- Two readers that agree on the suffixes of at most `n` characters.
abbrev Agree : ℕ → (Chars → Params) → (Chars → Params) → Type 0
Agree n k l = (s : Chars) → length s ≤ n → k s ≡ l s

module _ (n : ℕ) (k l : Chars → Params) (agree : Agree n k l) where
  terminal_params-cong :
      (p : Precision) (s : Chars) → length s ≤ n → terminal_params p s k ≡ terminal_params p s l
  unfolding terminal_params
  terminal_params-cong p s h = rw (agree (advance s) (omega (arith, length-advance s)))

  static_precision_params-cong :
      (r : Result (ℕ × Chars))
      → Shorter n r
      → static_precision_params k r ≡ static_precision_params l r
  static_precision_params-cong (ok (p, s)) h =
      terminal_params-cong _ _ (omega (arith, length-skip is_length s))
  static_precision_params-cong (throws e) h = refl

  precision_params-cong : (s : Chars) → length s ≤ n → precision_params s k ≡ precision_params s l
  unfolding precision_params
  precision_params-cong s h = ground (
    arith,
    terminal_params-cong (record { has_dynamic = false; precision = none }) (skip is_length s)
        (omega (arith, length-skip is_length s)),
    terminal_params-cong (record { has_dynamic = true; precision = none })
        (skip is_length (advance (advance s)))
        (omega (
          arith,
          length-skip is_length (advance (advance s)),
          length-advance (advance s),
          length-advance s,
        )),
    static_precision_params-cong (scan_precision 0 (advance s))
        (Shorter-le _ (scan_precision-Shorter 0 (advance s)) (omega (arith, length-advance s))),
  )

  specifier_params-cong : (s : Chars) → length s ≤ n → specifier_params s k ≡ specifier_params s l
  unfolding specifier_params
  specifier_params-cong s h = ground (
    arith,
    precision_params-cong (advance (skip is_flag s))
        (omega (arith, length-advance (skip is_flag s), length-skip is_flag s)),
    precision_params-cong (skip is_digit (skip is_flag s))
        (omega (arith, length-skip is_digit (skip is_flag s), length-skip is_flag s)),
  )

-- More fuel than characters changes nothing.
params_from-enough :
    (f g : ℕ) (s : Chars) → length s ≤ f → length s ≤ g → params_from f s ≡ params_from g s
unfolding params_from
params_from-enough f g [] hf hg = refl
params_from-enough zero g (c ∷ s) hf hg = absurd (omega arith)
params_from-enough (suc f) zero (c ∷ s) hf hg = absurd (omega arith)
params_from-enough (suc f) (suc g) (c ∷ s) hf hg = ground (
  arith,
  params_from-enough f g s (omega arith) (omega arith),
  params_from-enough f g (advance s) (omega (arith, length-advance s))
      (omega (arith, length-advance s)),
  specifier_params-cong (length s) (params_from f) (params_from g)
      (λ t h. params_from-enough f g t (omega arith) (omega arith)) s (omega arith),
)

-- The sequence of parameters, without fuel.
pub params-cons :
    (c : ℕ) (s : Chars)
    → params (c ∷ s) ≡ (
        if not (c == b'%')
        then params s
        else if at s == b'%'
        then params (advance s)
        else specifier_params s params)
unfolding params params_from
params-cons c s = ground (
  arith,
  params_from-enough (length s) (length (advance s)) (advance s) (length-advance s) (omega arith),
  specifier_params-cong (length s) (params_from (length s)) params
      (λ t h. params_from-enough (length s) (length t) t h (omega arith)) s (omega arith),
)

-- What a part of a round leaves of the format has at most `n` characters.
abbrev pub Leaves : {A : Type 0} → (A → Chars) → ℕ → Flow A → Type 0
Leaves rest n (goes a) = length (rest a) ≤ n
Leaves rest n _ = Unit

consume_width-Leaves :
    (n : ℕ) (s : Chars) → Leaves (λ (r : ℕ × Chars). r.1) (length s) (consume_width n s)
unfolding consume_width
consume_width-Leaves n s = ground (arith, length-advance s, length-skip is_digit s)

static_precision-Leaves :
    (n k : ℕ) (r : Result (ℕ × Chars))
    → Shorter k r
    → Leaves (λ (q : ℕ × Precision × Chars). q.2) k (static_precision n r)
static_precision-Leaves n k (ok (p, s)) h = h
static_precision-Leaves n k (throws e) h = tt

consume_precision-Leaves :
    (n : ℕ) (s : Chars)
    → Leaves (λ (q : ℕ × Precision × Chars). q.2) (length s) (consume_precision n s)
unfolding consume_precision
consume_precision-Leaves n s = ground (
  arith,
  length-advance (advance s),
  length-advance s,
  static_precision-Leaves n (length s) (scan_precision 0 (advance s))
      (Shorter-le _ (scan_precision-Shorter 0 (advance s)) (omega (arith, length-advance s))),
)

consume_terminal-Leaves :
    (n : ℕ) (p : Precision) (s : Chars)
    → Leaves (λ (r : ℕ × Chars). r.1) (length s) (consume_terminal n p s)
unfolding consume_terminal
consume_terminal-Leaves n p s = ground (arith, length-advance s)

Leaves-le :
    {A : Type 0} (rest : A → Chars) (n m : ℕ) (r : Flow A)
    → Leaves rest n r
    → n ≤ m
    → Leaves rest m r
Leaves-le rest n m (returns t) h le = tt
Leaves-le rest n m (raises e) h le = tt
Leaves-le rest n m (goes a) h le = omega arith

bind-Leaves :
    {A B : Type 0} (rest : A → Chars) (rest' : B → Chars) (n : ℕ) (r : Flow A) (f : A → Flow B)
    → Leaves rest n r
    → ((a : A) → Leaves rest' (length (rest a)) (f a))
    → Leaves rest' n (r >>= f)
bind-Leaves rest rest' n (returns t) f h k = tt
bind-Leaves rest rest' n (raises e) f h k = tt
bind-Leaves rest rest' n (goes a) f h k = Leaves-le rest' (length (rest a)) n (f a) (k a) h

behind_width-Leaves :
    (n : ℕ) (s : Chars) → Leaves (λ (r : ℕ × Chars). r.1) (length s) (behind_width n s)
unfolding behind_width
behind_width-Leaves n s =
    bind-Leaves (λ (q : ℕ × Precision × Chars). q.2) (λ (r : ℕ × Chars). r.1) (length s)
      (consume_precision n s) _ (consume_precision-Leaves n s)
      (λ q.
        Leaves-le (λ (r : ℕ × Chars). r.1) (length (skip is_length q.2)) (length q.2)
          (consume_terminal q.0 q.1 (skip is_length q.2))
          (consume_terminal-Leaves q.0 q.1 (skip is_length q.2)) (length-skip is_length q.2))

specifier-Leaves : (n : ℕ) (s : Chars) → Leaves (λ (r : ℕ × Chars). r.1) (length s) (specifier n s)
unfolding specifier
specifier-Leaves n s =
    bind-Leaves (λ (r : ℕ × Chars). r.1) (λ (r : ℕ × Chars). r.1) (length s)
      (consume_width n (skip is_flag s)) _
      (Leaves-le (λ (r : ℕ × Chars). r.1) (length (skip is_flag s)) (length s)
        (consume_width n (skip is_flag s)) (consume_width-Leaves n (skip is_flag s))
        (length-skip is_flag s))
      (λ r. behind_width-Leaves r.0 r.1)

round-Leaves : (n c : ℕ) (s : Chars) → Leaves (λ (r : ℕ × Chars). r.1) (length s) (round n c s)
unfolding round
round-Leaves n c s = ground (arith, length-advance s, specifier-Leaves n s)

-- The loop of `getParamInfo` terminates: a round, wherever it starts, leaves at most the characters
-- behind its first one, so the position moves on, and `getParamInfo` makes this round and goes on as
-- from the position that the round leaves, so that the fuel never ends the loop.
pub get_param_info-loop :
    (c : ℕ) (s : Chars) (n : ℕ)
    → Leaves (λ (r : ℕ × Chars). r.1) (length s) (round n c s)
      × (get_param_info (c ∷ s) n ≡ resume (λ m t. get_param_info t m) (round n c s))
unfolding round
get_param_info-loop c s n = (
  round-Leaves n c s,
  get_param_info-index (c ∷ s) n
      ∙ ap (λ ps. index ps n) (params-cons c s)
      ∙ sym (
          resume-answer (λ m t. get_param_info t m) params (λ m t. get_param_info-index t m)
            (round n c s)
          ∙ ground (arith, answer-specifier n s params)),
)
