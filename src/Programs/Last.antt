-- ===== src/Programs/Last.antt =====
-- The program of cron_last_epoch_time_this_line_was_supposedly_executed.c, where the macro
-- CRON_USE_LOCAL_TIME is a flag. The fuel is that of `do_prev`, which stands in ccronexpr.c as compiled
-- with the macro.
use smart_device_svr.Base.{ℕ, Bool, true, false, Option, List, [], ◌∷◌, Bytes, codes}
use smart_device_svr.Base.Int.{ℤ}
use smart_device_svr.Calendar.{Tm, Clock}
use smart_device_svr.Dates.Prev.{cron_prev}
use smart_device_svr.Programs
use smart_device_svr.Programs.Datetime.{Iso8601, parse_datetime}
use smart_device_svr.Programs.Run.{World, Finished, print_lines, run}

abbrev pub help_lines : List Bytes
help_lines =
    codes ""
    ∷ codes "     This program outputs to stdio the epoch time at which a given user"
    ∷ codes "     crontab expression was supposedly last executed, in addition to"
    ∷ codes "     the disposition element of the cron expression, if present.  The"
    ∷ codes "     expression should be comprised of one line from a user crontab"
    ∷ codes "     delimited by double quotes, passed as an argument.  Optionally, a"
    ∷ codes "     second argument may be supplied specifying the epoch time from"
    ∷ codes "     which to start.  BTW user crontab expressions dont have seconds fields."
    ∷ codes "     Also, if the starting time is a malformed iso8601 datetime, such as"
    ∷ codes "     9999-99-99T99:99, then current time is assumed, but the prev time"
    ∷ codes "     outputted to stdio will be in iso8601 format."
    ∷ codes "     All times are local, not GMT"
    ∷ codes ""
    ∷ codes "     Example:"
    ∷ codes
        "        ./cron_last_epoch_time_this_line_was_supposedly_executed \"0 22 * * mon,tue,wed,thu,fri disable_wifi.sh\" 1569016800"
    ∷ codes "        This outputs: 1568948400 disable_wifi.sh"
    ∷ codes ""
    ∷ codes
        "        ./cron_last_epoch_time_this_line_was_supposedly_executed \"0 22 * * mon,tue,wed,thu,fri disable_wifi.sh\" 2019-02-08T12:11"
    ∷ codes "        This outputs: 2019-02-07T21:00:00 disable_wifi.sh"
    ∷ []

-- The routines of the next-date program, of which this file has a copy.
abbrev pub position_of_beginning_of_next_word_boundary : Bytes → ℕ → Option ℕ
position_of_beginning_of_next_word_boundary = Programs.position_of_beginning_of_next_word_boundary

abbrev pub position_of_end_of_next_word_boundary : Bytes → ℕ → ℕ
position_of_end_of_next_word_boundary = Programs.position_of_end_of_next_word_boundary

abbrev pub calendar_of : Bool → Clock → ℤ → Option Tm
calendar_of true clock = clock.localtime
calendar_of false clock = clock.gmtime

unfoldable pub try_to_parse_string_by_iso8601 : Bool → World → Bytes → Tm → Option Iso8601
unfolding parse_datetime
try_to_parse_string_by_iso8601 cron_use_local_time world =
    parse_datetime (calendar_of cron_use_local_time world.clock (world.time 1))

unfoldable pub main : Bool → ℕ → World → List Bytes → Option Finished
unfolding run cron_prev print_lines
main cron_use_local_time fuel world =
    run world (calendar_of cron_use_local_time world.clock) (cron_prev world.clock fuel)
      (print_lines help_lines)
