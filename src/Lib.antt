-- ===== src/Lib.antt =====
-- static_logger: an asynchronous printf-style logger. A log statement (the macro STATIC_LOG of
-- src/static_log.h) analyses its format at compile time, stores its arguments in binary form in a
-- circular staging buffer of its thread, and a backend thread formats the entries later.
--
-- The parts, in the order in which a log statement goes through them:
--
-- Format/       the compile-time scan of formats of src/static_log_internal.h. Chars: isFlag, isDigit,
--               isLength, isTerminal. Types: ParamType. Scan: getParamInfo. Count: countFmtParams,
--               getNumNibblesNeeded, analyzeFormatString. Params and Grammar describe a format without
--               the scanner, by one reading and by a syntax tree; Fuel, Bound, Counting, Printed and
--               RoundTrip prove the scanner against them. A position in a format is the suffix that
--               starts there; the NUL at its end is what `at` reads behind the last character.
-- Args          getArgSize, getArgSizes, storeArgument, storeArguments and as_uint64_t of
--               src/static_log_internal.h. An argument is a case of Arg, since the C++ functions are
--               overloaded on its type.
-- Staging       class StagingBuffer of src/static_log_backend.h and src/static_log_backend.cc.
--               Invariant, Queue, Consumer, Blocking, Progress and Deletion prove it to be a queue of
--               whole records.
-- Log           the macro STATIC_LOG, LogEntry, downCast and setLogLevel: the client of Args and
--               Staging.
-- Decode        resize_log_buffer, decodeNonStringFmt and decodeStringFmt of
--               src/static_log_backend.cc: the formatting of one parameter into the log buffer.
--               Shown says by the conversions of printf what of a number is printed; Snprintf, NonString,
--               Character, String and StringGrows prove what they leave there.
-- Process       process_fmt of src/static_log_backend.cc, the client of Decode: Split finds the
--               specifiers, Render says what text an entry stands for, Print proves it printed, Stored
--               and RoundTrip go from the arguments of a log statement to its text. Leads goes up to
--               some piece of a format; Grown and Overrun are about a string for which the log buffer is
--               made larger, Assertion about a build with assertions.
-- Prefix        convertInt2Str, generateTimePrefix and generateCallInfoPrefix of
--               src/static_log_backend.cc: the text in front of a formatted entry. Puts, Time and
--               CallInfo prove what they write.
-- Writer        processLogBuffer of src/static_log_backend.cc, the client of Prefix, Process and Staging:
--               Line proves what it writes to the file, Stamp what the new time does to the queue,
--               Entry what is found in the entry of a log statement, Statement what becomes of it, and
--               Outcome what holds however the formatting ends.
-- Clock         get_nanotime of src/static_log_cycles.c; Span proves its range.
-- Backend       the loop over the staging buffers in ioPoll of src/static_log_backend.cc, the client of
--               Staging: Sweep proves it to be one pass, Queues and Choice what it does to the queues.
-- Poll          ioPoll of src/static_log_backend.cc, the client of Backend and Writer: a round, and the loop
--               with its flags. Merge is its specification, queues of statements that are merged by
--               their timestamps; Pending, Remaining and Spot connect them with the staging buffers,
--               Rounds proves one round, Drain the loop and Finish its end.
-- Logger        class StaticLogBackend of src/static_log_backend.h: the constructor, the destructor
--               (Close), setLogFile (Switch) and the log level.
-- Threads       ensureStagingBufferAllocated, reserveAlloc, finishAlloc and StagingBufferDestroyer of
--               src/static_log_backend.h, with the threads and the backend as a step relation. Find,
--               Kept and Keeps say what each operation leaves as it is, Safety is the invariant,
--               Reachable proves it, and Ensure composes the steps of one thread.
-- Program       a whole run of a thread that logs: Calls are log statements by what the backend needs to
--               find of them, Run takes them from STATIC_LOG to the closed log file.
-- Events        threads that log beside the backend, in any order of their steps: Account says what a
--               run has done to the statements of each thread; Middle, Last and Exchange are about one
--               buffer among the others, Joins, Logs and Polls about one event, Runs about all.
-- Prelude       what the others share: tests, lists, memory as a function from offsets, little-endian
--               numbers, integers.
--
-- Pointers into a buffer are offsets, pointers to static objects are numbers. Machine arithmetic is
-- written out where it can wrap: pointer differences as uint64_t, sums of sizes in size_t, the 32
-- bits of a stored string size; the precision of a format overflows like the int that it is, which
-- stops the compiler. The fuel of getParamInfo is the length of the format, since each round reads
-- a character; that of countFmtParams is one more, since a parameter takes a character. The
-- producer's blocking loop has no fuel: it runs beside a schedule that says what the consumer does
-- before each read of consumer_pos_, and it is `waiting` when the schedule ends. Operations of the
-- producer and of the consumer are single steps otherwise.
--
-- The loop over the staging buffers in a round of ioPoll is one step. Its fuel is the number of
-- buffers, since each of its steps goes on by one buffer or takes one away. std::to_string has fuel
-- for the 20 digits of a uint64_t. What localtime returns is a parameter, and so are malloc, the
-- text that snprintf makes of one conversion, and whether NDEBUG is defined; what snprintf writes
-- for a text and a size is written out. The fuel of decodeNonStringFmt is the number of its rounds:
-- two are enough for a text that is not empty, since a buffer that has been made larger for it has
-- twice its length reserved. The fuel of process_fmt is the length of the format.
--
-- ioPoll has no fuel: it runs through the turns that it is given, and it is `polling` when they
-- end. A turn says which flags the backend thread reads, what its clock and the static objects are,
-- and what the other threads have done to the staging buffers at the test of the loop and when the
-- mutex has been taken again. One turn for each waiting statement is enough to write them all, and
-- three more are enough for the thread to come to its end: two in which a buffer is seen to be
-- empty and is deleted, and the last test. Who waits in `join` for the backend thread gives it
-- turns likewise. The contents of a file are what has been written to it since it was opened: open
-- does not truncate, and write is taken to write all bytes. In Threads what stands between two
-- points where the mutex is free is one step, and so is each call of a staging buffer; the address
-- of a new buffer is free at its step. In Events a whole log statement and a whole round of ioPoll
-- are one event each, and a statement finds room at once; a statement that waits for room is that
-- of Staging and Log, beside a schedule of the consumer.
--
-- Not modelled: the wrappers of static_log.cc, which call the backend; sync, which ends a wait and
-- does nothing else; threadBindCore; log statements that a thread makes behind its destroyer; the
-- memory model of the machine, since the positions of the staging buffer are plain variables that
-- two threads use; analyzeFmtParamSize and checkFormat, which compute nothing that is used;
-- arguments of type wchar_t*; main of example/demo.cc, which is one log statement, and of
-- unitest/test_mt.cc, four threads with a loop of one. The static array of sizes that all executions
-- of a statement share is what the surroundings of a round say it is, and its race between threads is
-- not modelled.
pub mod Prelude
pub mod Format
pub mod Staging
pub mod Args
pub mod Log
pub mod Decode
pub mod Prefix
pub mod Clock
pub mod Backend
pub mod Process
pub mod Writer
pub mod Poll
pub mod Logger
pub mod Threads
pub mod Program
pub mod Events
