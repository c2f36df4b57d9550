-- ===== src/Programs/Composed.antt =====
-- The two programs around ccronexpr.c as a whole.
use smart_device_svr.Base.{
  ℕ, ◌+◌, ◌≤◌, ◌≡◌, refl, true, Option, some, List, [], ◌∷◌, ◌++◌, Bytes, codes, if◌then◌else◌,
  length, All, ◌>>=◌,
}
use smart_device_svr.Base.Int.{ℤ}
use smart_device_svr.Calendar.{Tm}
use smart_device_svr.Dates.Next.{cron_next}
use smart_device_svr.Expr.{CronExpr, zeroed}
use smart_device_svr.Expr.Parse.{Parsed, cron_parse_expr}
use smart_device_svr.Expr.Parse.Total.{cron_parse_expr-Sound}
use smart_device_svr.Programs.{buffer_size}
use smart_device_svr.Programs.Words.{IsWord, Starts, joined, split_line-joined}
use smart_device_svr.Programs.Datetime.Delimiter.{Separates}
use smart_device_svr.Programs.Datetime.Laws.{parse_datetime-extended}
use smart_device_svr.Programs.Datetime.Written.{Moment, IsMoment, extended, calendar_at}
use smart_device_svr.Programs.Run.{
  World, Finished, Start, print_lld, present, start_at, start_of, answer, with_line, dispatch, run,
}
use smart_device_svr.Programs.Next.{help_lines}
use smart_device_svr.Programs.Next
use smart_device_svr.Programs.Last

-- Five words and a command that fit the buffers.
pub record IsCronLine (ws : List Bytes) (cmd : Bytes) : Type 0 where
  pub five : length ws ≡ 5
  pub words : All (λ w. Starts w × IsWord w) ws
  pub command : Starts cmd
  pub fits : length (joined ws cmd) + 3 ≤ buffer_size

-- The end of a run from a line and a starting time: the schedule, with a field 0 for the seconds, is
-- parsed, `search` is called on the structure and the starting time, and its answer is printed in front
-- of the command.
pub record Ends (world : World) (calendar_of : ℤ → Option Tm)
    (search : Option CronExpr → ℤ → Option ℤ) (ws : List Bytes) (cmd : Bytes) (start : Start)
    (end : Option Finished) : Type 0 where
  pub schedule : Bytes
  pub parsed : Parsed
  pub cut : schedule ++ b' ' ∷ cmd ≡ codes "0 " ++ joined ws cmd
  pub parse : cron_parse_expr (some schedule) (some zeroed) ≡ some parsed
  pub result : end ≡ (
      search parsed.target start.cur >>= λ prev. calendar_of prev >>= λ ts. some (record {
        status = 0;
        output =
            (if start.use_iso8601_datetime_format then world.strftime ts else print_lld prev)
            ++ (b' ' ∷ cmd ++ b'\n' ∷ []);
      }))

module _ (world : World) (calendar_of : ℤ → Option Tm) (search : Option CronExpr → ℤ → Option ℤ)
    (ws : List Bytes) (cmd : Bytes) (line : IsCronLine ws cmd) where
  with_line-Ends :
      (daylight : ℤ) (starting : Option Bytes) (start : Start)
      → start_of world calendar_of daylight starting ≡ some start
      → Ends world calendar_of search ws cmd start
          (with_line world calendar_of search daylight (joined ws cmd) starting)
  unfolding with_line answer
  with_line-Ends daylight starting start started =
      let (l, split, disposition, schedule) =
        split_line-joined ws cmd line.five line.words line.command line.fits in
      let (r, parse, _) = cron_parse_expr-Sound l.schedule zeroed in
      record {
        schedule = l.schedule;
        parsed = r;
        cut = schedule;
        parse = parse;
        result = rw (split, started, parse, disposition) refl;
      }

-- The starting time of a second argument that is a moment.
start_of-extended :
    (world : World) (calendar_of : ℤ → Option Tm) (daylight : ℤ) (now : Tm) (m : Moment) (s : Bytes)
    (delimiter : ℕ)
    → calendar_of (world.time 1) ≡ some now
    → IsMoment m
    → Separates delimiter s
    → start_of world calendar_of daylight (some (extended delimiter m s))
      ≡ some (record {
        use_iso8601_datetime_format = true;
        cur = (world.clock.mktime (calendar_at m now world.uninitialised)).1;
      })
unfolding start_of start_at
start_of-extended world calendar_of daylight now m s delimiter present h sep =
    rw (present, parse_datetime-extended m h s delimiter sep now world.uninitialised) refl

-- For five words and a command that fit the buffers, and a starting time written as an ISO 8601 date
-- and time from 1900 to 2038, on a day when the time can be read: the next-date program parses the
-- words behind a field 0, searches from the time that `mktime` makes of the starting time, and prints
-- the date found as `strftime` formats it, in front of the command, with status 0. It ends otherwise
-- only where the search does, or where the date found has no calendar.
pub main-Next-Ends :
    (fuel : ℕ) (world : World) (ws : List Bytes) (cmd : Bytes) (current now : Tm) (m : Moment)
    (s : Bytes) (delimiter : ℕ)
    → IsCronLine ws cmd
    → world.clock.localtime (world.time 0) ≡ some current
    → world.clock.localtime (world.time 1) ≡ some now
    → IsMoment m
    → Separates delimiter s
    → Ends world world.clock.localtime
        (cron_next world.clock fuel)
        ws
        cmd
        (record {
          use_iso8601_datetime_format = true;
          cur = (world.clock.mktime (calendar_at m now world.uninitialised)).1;
        })
        (Next.main fuel world (joined ws cmd ∷ extended delimiter m s ∷ []))
unfolding Next.main run dispatch
main-Next-Ends fuel world ws cmd current now m s delimiter line present_0 present_1 h sep =
    rw present_0 (
      with_line-Ends world world.clock.localtime (cron_next world.clock fuel) ws cmd line
        current.tm_isdst (some (extended delimiter m s)) _
        (start_of-extended world world.clock.localtime current.tm_isdst now m s delimiter present_1
          h sep))
