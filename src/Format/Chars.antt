-- ===== src/Format/Chars.antt =====
-- The character classes of a printf specifier: `isFlag`, `isDigit`, `isLength` and `isTerminal` of
-- src/static_log_internal.h. A char is the number of its byte.
use static_logger.Prelude.{ℕ, Bool, ◌&&◌, ◌||◌, ◌==◌, leb}

unfoldable pub is_flag : ℕ → Bool
is_flag c = c == b'-' || c == b'+' || c == b' ' || c == b'#' || c == b'0'

unfoldable pub is_digit : ℕ → Bool
is_digit c = leb b'0' c && leb c b'9'

unfoldable pub is_length : ℕ → Bool
is_length c = c == b'h' || c == b'l' || c == b'j' || c == b'z' || c == b't' || c == b'L'

unfoldable pub is_terminal : ℕ → Bool
is_terminal c =
    c == b'd'
    || c == b'i'
    || c == b'u'
    || c == b'o'
    || c == b'x'
    || c == b'X'
    || c == b'f'
    || c == b'F'
    || c == b'e'
    || c == b'E'
    || c == b'g'
    || c == b'G'
    || c == b'a'
    || c == b'A'
    || c == b'c'
    || c == b'p'
    || c == b'%'
    || c == b's'
    || c == b'n'
