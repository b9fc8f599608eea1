-- ===== src/Prefix/Puts.antt =====
-- Successive `memcpy`s to one cursor are one `memcpy`.
use static_logger.Prelude.{
  ℕ, ◌+◌, List, [], ◌++◌, ◌≡◌, refl, sym, ap, ap₂, length, length-append, arith,
}
use static_logger.Prelude.Memory.{write_bytes, write_bytes-append}
use static_logger.Args.{Cursor, put}

pub put-put : (xs ys : List ℕ) (c : Cursor) → put ys (put xs c) ≡ put (xs ++ ys) c
unfolding put
put-put xs ys c =
    let count : c.position + length xs + length ys ≡ c.position + length (xs ++ ys) =
      omega (arith, length-append xs ys) in
    ap₂ (λ k q. record { memory = k; position = q })
      (sym (write_bytes-append c.memory c.position xs ys)) count

pub memory-put : (xs : List ℕ) (c : Cursor) → (put xs c).memory ≡ write_bytes c.memory c.position xs
unfolding put
memory-put xs c = refl

pub put_nothing : (c : Cursor) → put [] c ≡ c
unfolding put write_bytes
put_nothing c = ap (λ q. record { memory = c.memory; position = q }) (omega arith)
