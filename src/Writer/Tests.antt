-- ===== src/Writer/Tests.antt =====
-- The witnesses for `processLogBuffer`.
use static_logger.Prelude.{ℕ, true, List, [], ◌∷◌, ◌++◌, refl, arith}
use static_logger.Prelude.Bytes.{le_bytes}
use static_logger.Staging.{StagingBuffer, new}
use static_logger.Staging.Invariant.{IsValid, new-IsValid}
use static_logger.Staging.Queue.{Holds, new-Holds, appended, finish_reservation-store}
use static_logger.Writer.Entry.{bytes_of}
use static_logger.Writer.Statement.{Written, process_log_buffer-statement}
use static_logger.Writer.{Output, process_log_buffer}
use static_logger.Args.Layout.{payloads}
use static_logger.Writer.Outcome.{entry_of, Outcome, process_log_buffer-Outcome}
use static_logger.Writer.Sample.{env, counted_seven, env-IsCalm, counted_seven-IsStatement}

abbrev output : Output
output = record {
  staging = new 1;
  log_buffer = record { address = 1024; memory = λ _. 0; len = 1000 };
  opened = true;
  file = [];
}

abbrev seven_entry : StagingBuffer
seven_entry = appended (bytes_of counted_seven 1000) (new 1)

abbrev seven_output : Output
seven_output = record output { staging = seven_entry }

seven_entry-Holds : IsValid seven_entry × Holds seven_entry (bytes_of counted_seven 1000 ∷ [])
unfolding new le_bytes
seven_entry-Holds =
    let (_, valid, holds) =
      finish_reservation-store (new 1) (bytes_of counted_seven 1000) [] (new-IsValid 1)
        (new-Holds 1) (omega arith) in
    (valid, holds)

process_log_buffer-statement_example :
    Written env seven_output counted_seven [] (process_log_buffer env seven_output)
unfolding le_bytes
process_log_buffer-statement_example =
    process_log_buffer-statement env seven_output counted_seven 1000 [] env-IsCalm
      counted_seven-IsStatement seven_entry-Holds.0 (omega arith, tt) seven_entry-Holds.1 refl
      (omega arith)

-- What stands behind the size of the entry.
abbrev seven_body : List ℕ
seven_body =
    (le_bytes 8 8192 ++ le_bytes 8 12288)
    ++ payloads counted_seven.site.param_types counted_seven.sizes counted_seven.args

process_log_buffer-Outcome_example :
    Outcome seven_output (entry_of 42 36 seven_body) [] (process_log_buffer env seven_output)
unfolding le_bytes
process_log_buffer-Outcome_example =
    process_log_buffer-Outcome env seven_output 1000 36 seven_body [] seven_entry-Holds.0
      (omega arith, tt) seven_entry-Holds.1 refl (omega arith)
