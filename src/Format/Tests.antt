-- ===== src/Format/Tests.antt =====
-- Runs of the scanner, and its theorems at a concrete format.
use static_logger.Prelude.{ℕ, some, List, [], ◌∷◌, length, ◌≡◌, refl, arith}
use static_logger.Format.Chars.{is_flag, is_digit, is_length, is_terminal}
use static_logger.Format.Types.{
  dynamic_width, non_string, string, unrecognized_specifier, unsupported_n, ok, throws,
}
use static_logger.Format.Scan.{
  Chars, skip, consume_width, consume_precision, behind_width, consume_terminal, specifier, round,
  resume, param_info_from, get_param_info,
}
use static_logger.Format.Count.{count_fmt_params, analyze_format_string}
use static_logger.Format.Params.{index, params, get_param_info-index}
use static_logger.Format.Fuel.{Leaves, get_param_info-loop}
use static_logger.Format.Counting.{map_result, to_list, count_fmt_params-to_list}
use static_logger.Format.Grammar.{
  absent, star, digits, Directive, Piece, plain, percent, directive, print, types, IsFormat,
}
use static_logger.Format.RoundTrip.{type_at, get_param_info-print, analyze_format_string-print}

-- %-5.3s
abbrev name_part : Directive
name_part = record {
  flags = b'-' ∷ [];
  width = digits (b'5' ∷ []);
  precision = digits (b'3' ∷ []);
  lengths = [];
  terminal = b's';
}

-- %*ld
abbrev count_part : Directive
count_part = record {
  flags = [];
  width = star;
  precision = absent;
  lengths = b'l' ∷ [];
  terminal = b'd';
}

-- %-5.3s: %*ld%%
abbrev tree : List Piece
tree = directive name_part ∷ plain b':' ∷ directive count_part ∷ percent ∷ []

abbrev tree_text : Chars
tree_text =
    b'%' ∷ b'-' ∷ b'5' ∷ b'.' ∷ b'3' ∷ b's' ∷ b':' ∷ b'%' ∷ b'*' ∷ b'l' ∷ b'd' ∷ b'%' ∷ b'%' ∷ []

print-tree : print tree ≡ tree_text
unfolding print
print-tree = refl

tree-IsFormat : IsFormat tree
unfolding is_flag is_digit is_length is_terminal
tree-IsFormat = (
  record {
    flags_are = (refl, tt);
    width_is = (refl, tt);
    precision_is = ((refl, tt), omega arith);
    lengths_are = tt;
    terminal_is = refl;
    not_n = refl;
    not_percent = refl;
  },
  (
    refl,
    (
      record {
        flags_are = tt;
        width_is = tt;
        precision_is = tt;
        lengths_are = (refl, tt);
        terminal_is = refl;
        not_n = refl;
        not_percent = refl;
      },
      tt,
    ),
  ),
)

-- %q and %n are refused, also behind a parameter that is asked for first.
malformed :
    (get_param_info (b'%' ∷ b'q' ∷ []) 0 ≡ throws unrecognized_specifier)
    × (get_param_info (b'%' ∷ b'*' ∷ b'n' ∷ []) 0 ≡ ok dynamic_width)
    × (get_param_info (b'%' ∷ b'*' ∷ b'n' ∷ []) 1 ≡ throws unsupported_n)
unfolding get_param_info param_info_from round specifier behind_width skip consume_width
    consume_precision consume_terminal is_flag is_digit is_length is_terminal
malformed = (refl, refl, refl)

get_param_info-index_example : get_param_info tree_text 1 ≡ index (params tree_text) 1
get_param_info-index_example = get_param_info-index tree_text 1

get_param_info-loop_example :
    Leaves (λ (r : ℕ × Chars). r.1) 1 (round 0 b'%' (b's' ∷ []))
    × (get_param_info (b'%' ∷ b's' ∷ []) 0
        ≡ resume (λ n s. get_param_info s n) (round 0 b'%' (b's' ∷ [])))
get_param_info-loop_example = get_param_info-loop b'%' (b's' ∷ []) 0

count_fmt_params-to_list_example :
    count_fmt_params tree_text ≡ some (map_result length (to_list (params tree_text)))
count_fmt_params-to_list_example = count_fmt_params-to_list tree_text

get_param_info-print_example : get_param_info (print tree) 2 ≡ ok (type_at (types tree) 2)
get_param_info-print_example = get_param_info-print tree 2 tree-IsFormat

analyze_format_string-print_example :
    (count_fmt_params (print tree) ≡ some (ok (length (types tree))))
    × (analyze_format_string (length (types tree)) (print tree) ≡ ok (types tree))
analyze_format_string-print_example = analyze_format_string-print tree tree-IsFormat

types-tree : types tree ≡ string 3 ∷ dynamic_width ∷ non_string ∷ []
unfolding types
types-tree = refl
