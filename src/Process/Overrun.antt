-- ===== src/Process/Overrun.antt =====
-- `process_fmt` on a format in which the text of a string is too long for the log buffer.
use static_logger.Prelude.Memory.{Memory}
