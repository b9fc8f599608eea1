-- ===== src/Prefix/Tests.antt =====
-- Witnesses and tests of the prefixes.
use static_logger.Prelude.{
  ℕ, ◌+◌, ◌-◌, ◌*◌, ◌%◌, some, List, [], ◌∷◌, ◌≡◌, length, ◌≤◌, get_elem?, arith,
}
use static_logger.Prelude.Memory.{Memory, write_bytes}
use static_logger.Prefix.{
  Tm, generate_time_prefix, StaticInfo, log_level_str, generate_call_info_prefix,
}
use static_logger.Prefix.Time.{IsTm, time_text, generate_time_prefix-text}
use static_logger.Prefix.CallInfo.{
  call_info_text, max_call_info_len, generate_call_info_prefix-text,
}

abbrev empty : Memory
empty = λ _. 0

abbrev noon : Tm
noon = record { year = 124; mon = 1; mday = 29; hour = 12; min = 5; sec = 59 }

noon-IsTm : IsTm noon
noon-IsTm = record {
  year_low = omega arith;
  year_high = omega arith;
  mon_small = omega arith;
  mday_small = omega arith;
  hour_small = omega arith;
  min_small = omega arith;
  sec_small = omega arith;
}

abbrev moment : ℕ
moment = 1709208359 * 1000000000 + 42

generate_time_prefix-text_example :
    let text = time_text noon (moment % 1000000000) in
    (generate_time_prefix (λ _. noon) moment empty 7 ≡ (31, write_bytes empty 7 text))
    × (length text ≡ 31)
generate_time_prefix-text_example = generate_time_prefix-text (λ _. noon) moment empty 7 noon-IsTm

abbrev info : StaticInfo
info = record {
  num_params = 0;
  param_types = [];
  format = b'h' ∷ b'i' ∷ [];
  log_level = 3;
  function_name = b'm' ∷ b'a' ∷ b'i' ∷ b'n' ∷ [];
  line = 120;
}

generate_call_info_prefix-text_example :
    (level : List ℕ) × (get_elem? log_level_str 3 ≡ some level)
    × (generate_call_info_prefix info empty 31
        ≡ some
            (length (call_info_text level info), write_bytes empty 31 (call_info_text level info)))
    × (length (call_info_text level info) ≤ max_call_info_len + (4 - 63))
generate_call_info_prefix-text_example =
    generate_call_info_prefix-text info empty 31 (omega arith) (omega arith)
