-- ===== src/Programs/Next.antt =====
-- The program of cron_next_epoch_time_this_line_should_execute.c, compiled with CRON_USE_LOCAL_TIME as
-- in the Makefile. The fuel is that of `do_next`.
use smart_device_svr.Base.{ℕ, Option, List, [], ◌∷◌, Bytes, codes}
use smart_device_svr.Calendar.{Tm}
use smart_device_svr.Dates.Next.{cron_next}
use smart_device_svr.Programs.Datetime.{Iso8601, parse_datetime}
use smart_device_svr.Programs.Run.{World, Finished, print_lines, run}

abbrev pub help_lines : List Bytes
help_lines =
    codes ""
    ∷ codes "     This program outputs to stdio the epoch time at which a given user"
    ∷ codes "     crontab expression was supposedly last executed, in addition to"
    ∷ codes "     the disposition element of the cron expression, if present.  The"
    ∷ codes "     expression should be comprised of one line from a user crontab"
    ∷ codes "     delimited by double quotes, passed as an argument.  Optionally, a"
    ∷ codes "     second argument may be supplied specifying the epoch time from"
    ∷ codes "     which to start.  BTW user crontab expressions dont have seconds fields."
    ∷ codes "     Also, if the starting time is a malformed iso8601 datetime, such as"
    ∷ codes "     9999-99-99T99:99, then current time is assumed, but the prev time"
    ∷ codes "     outputted to stdio will be in iso8601 format."
    ∷ codes "     All times are local, not GMT"
    ∷ codes ""
    ∷ codes "     Example:"
    ∷ codes
        "        ./cron_last_epoch_time_this_line_was_supposedly_executed \"0 22 * * mon,tue,wed,thu,fri disable_wifi.sh\" 1569016800"
    ∷ codes "        This outputs: 1569034800 disable_wifi.sh"
    ∷ codes ""
    ∷ codes
        "        ./cron_last_epoch_time_this_line_was_supposedly_executed \"0 22 * * mon,tue,wed,thu,fri disable_wifi.sh\" 2019-02-08T12:11"
    ∷ codes "        This outputs: 2019-02-08T22:00:00 disable_wifi.sh"
    ∷ []

unfoldable pub try_to_parse_string_by_iso8601 : World → Bytes → Tm → Option Iso8601
unfolding parse_datetime
try_to_parse_string_by_iso8601 world = parse_datetime (world.clock.localtime (world.time 1))

unfoldable pub main : ℕ → World → List Bytes → Option Finished
unfolding run cron_next print_lines
main fuel world =
    run world world.clock.localtime (cron_next world.clock fuel) (print_lines help_lines)
