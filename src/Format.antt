-- ===== src/Format.antt =====
-- `getParamInfo`, `countFmtParams`, `getNumNibblesNeeded` and `analyzeFormatString` of
-- src/static_log_internal.h. A format is the list of its characters without the closing NUL. A
-- position in it is the suffix that starts there, and `fmt[N - 1]`, the NUL, is what `at` reads
-- at the end.
pub mod Chars
pub mod Types
pub mod Scan
pub mod Count
pub mod Params
pub mod Fuel
pub mod Counting
pub mod Bound
pub mod Grammar
pub mod Printed
pub mod RoundTrip
mod Tests
