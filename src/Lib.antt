-- ===== src/Lib.antt =====
-- The cron expression engine of smart_device_svr (ccronexpr.c and ccronexpr.h), and the two programs
-- around it.
--
-- The program parses an expression of six fields into bit arrays, and searches for the next or the
-- previous date that matches them. The parser is made of text routines (splitting, replacing names by
-- numbers, reading numbers), of operations on bit arrays, and of one routine for each kind of field.
-- The searches use the bit arrays and the calendar operations, which stand on the time functions of
-- the C library.
--
-- The files, and the code of ccronexpr.c that each is about:
--   Base       shared: Boolean tests, texts as lists of bytes, integers, computations that may fault.
--   Bitset     cron_set_bit, cron_del_bit, cron_get_bit, next_set_bit, prev_set_bit. Laws, Search and
--              Exact compare them with the set of numbers that an array stands for.
--   Text       to_upper, has_char, split_str; Text/Decimal has to_string, Text/Number parse_uint,
--              Text/Replace str_replace and replace_ordinals.
--   Expr       the structure cron_expr of ccronexpr.h and the error messages; Expr/Range has
--              get_range, Expr/Hits set_number_hits, Expr/Fields the routines for months and days,
--              Expr/Parse cron_parse_expr. Expr/Hits/Syntax says what numbers, ranges and steps mean,
--              apart from the code that reads them.
--   Calendar   cron_mktime, add_to_field, set_field, reset_min, reset_all_min, last_day_of_month,
--              reset_max, reset_all_max; Calendar/Fields has push_to_fields_arr, Calendar/Keeps a rule
--              for what a chain of operations keeps.
--   Dates      Dates/Next has find_next, find_next_day, do_next and cron_next; Dates/Prev the four for
--              previous dates; Dates/Steps what they share.
--              Dates/Match says when a calendar matches an expression, Dates/Rank orders calendars, and
--              Dates/Steady says what is asked of the clock. Forward, Days, Real, Round, Sound and Answer
--              in Dates/Next are about the search for the next date, from find_next to cron_next.
--              Dates/Exact says what the very next date asks of the clock more; Digits, First, Nearest,
--              NearestDay, Pushes, LeastSteps, LeastRound, Weekdays, Least and Finds in
--              Dates/Next are about that date.
--   Calendar/Platform  cron_mktime_gm, cron_time_gm, cron_mktime_local, cron_time_local, cron_mktime and
--              cron_time for every platform that ccronexpr.c is compiled for.
--   Programs   the two programs that read a line of a crontab, search for its next or its last date
--              and print it: cron_next_epoch_time_this_line_should_execute.c and
--              cron_last_epoch_time_this_line_was_supposedly_executed.c. Programs has the word boundary
--              routines and the cut of the argument into schedule and command, Programs/Datetime
--              try_to_parse_string_by_iso8601, Programs/Run the steps of main, which the two share,
--              Programs/Next and Programs/Last the two main; Programs/Composed, Programs/Seconds,
--              Programs/Answer and Programs/Finds are about them with the parser and the search.
--              Programs/Printing has ccronexpr_misc_utils.c.
--   Tests      runs at concrete inputs, with a clock for UTC, and one of months of 31 days that carries.
--
-- How the state corresponds: a `char*` is the list of the bytes before its byte 0, an array of bytes
-- the list of its values. What writes through a pointer returns the new value. A read or a write
-- outside an array is the fault `none`, as is a loop whose fuel ran out. `*error` is an optional
-- message. The calendar is a state that each operation takes and returns, together with the flag for
-- failure. `char` texts are ASCII for `isspace` and `toupper`, which are those of the "C" locale.
--
-- Bounds: `unsigned int` sums in the loops of set_number_hits and the `size_t` sum of str_replace
-- wrap as written; `++count` of the `int` of str_replace is a fault at 2 ^ 31. Casts to `uint8_t`
-- in the bit operations are kept. The loop that marks a span has `last + 2` rounds of fuel, enough
-- for its last test too with a positive step; the one that counts occurrences has one more than the
-- text has bytes. The recursion of do_next and do_prev is on fuel that the caller gives. The rank
-- of a calendar within the ranges is below `rank_bound`, and each round of do_next begins at a
-- greater rank: that much fuel is enough on a clock that only moves forward.
--
-- The clock: mktime, localtime_r and gmtime depend on the time zone. They are a parameter, the record
-- `Clock` of Calendar. The build is that of the Makefile, with CRON_USE_LOCAL_TIME. The other
-- branches of the preprocessor stand in Calendar/Platform, on the functions of each platform, which
-- are the record `Library`. What the programs find outside is the record `World`: the present at each
-- call of time, the clock, atof as a time, and strftime.
--
-- Not modelled: allocation failure and the release of memory; NULL arguments of static functions,
-- which no caller passes; the fields of `struct tm` for the day of the year and the time zone, which
-- mktime does not read; floating-point numbers; the Lua server; and the vendored LuaJIT and luasocket.
pub mod Base
pub mod Bitset
pub mod Calendar
pub mod Dates
pub mod Expr
pub mod Programs
pub mod Tests
pub mod Text
