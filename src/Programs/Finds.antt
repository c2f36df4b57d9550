-- ===== src/Programs/Finds.antt =====
-- The next-date program on a clock without gaps: it prints the very next date.
use smart_device_svr.Base.{ℕ, ◌+◌, ◌≤◌, ◌<◌, ◌≡◌, none, some, List, [], ◌∷◌, ◌++◌, Bytes, codes}
use smart_device_svr.Base.Int.{ℤ}
use smart_device_svr.Calendar.{Tm}
use smart_device_svr.Dates.Rank.{rank, rank_bound}
use smart_device_svr.Dates.Steady.{IsSteady}
use smart_device_svr.Dates.Next.Progress.{TellsDays}
use smart_device_svr.Expr.{CronExpr, zeroed}
use smart_device_svr.Expr.Parse.{cron_parse_expr}
use smart_device_svr.Programs.Words.{joined}
use smart_device_svr.Programs.Datetime.Delimiter.{Separates}
use smart_device_svr.Programs.Datetime.Written.{Moment, IsMoment, extended, calendar_at}
use smart_device_svr.Programs.Run.{World}
use smart_device_svr.Programs.Next
use smart_device_svr.Programs.Composed.{IsCronLine, main-Next-Ends}
use smart_device_svr.Dates.Exact.{IsReal, IsExact, IsAfterEpoch}
use smart_device_svr.Dates.Match.{Matches}
use smart_device_svr.Dates.Next.Finds.{Raisable, cron_next-Finds}
use smart_device_svr.Dates.Next.Least.{IsEveryMonth, IsNext}
use smart_device_svr.Programs.Seconds.{cut_schedule-IsLone}
use smart_device_svr.Programs.Answer.{Prints, Ends-Prints, parsed-IsWellFormed}

-- For a line of five words and a command that fit the buffers, of which the words parse without a
-- message behind a field 0 to an expression of every month, and a starting time written as an ISO
-- 8601 date and time from 1900 to 2038; for a clock that only moves forward, as `IsSteady` says,
-- has no gaps, as `IsExact` says, and has a calendar for the time of the answer, an expression for
-- which the search of a day ends on the day number where it began only if it did not move, a
-- starting time with a calendar that exists and lies after the epoch, a later date of the
-- expression that exists, up to which `mktime` gives a time for each field that is raised, and fuel
-- for every later calendar: the next-date program ends with status 0 and prints, in front of the
-- command, the date of the time of the very first date of the expression later than the start.
pub main-Next-Finds :
    (fuel : ℕ) (world : World) (ws : List Bytes) (cmd : Bytes) (current now : Tm) (m : Moment)
    (s : Bytes) (delimiter : ℕ) (schedule : Bytes) (e : CronExpr) (t d : Tm)
    → IsCronLine ws cmd
    → schedule ++ b' ' ∷ cmd ≡ codes "0 " ++ joined ws cmd
    → cron_parse_expr (some schedule) (some zeroed)
      ≡ some (record { target = some e; error = none })
    → world.clock.localtime (world.time 0) ≡ some current
    → world.clock.localtime (world.time 1) ≡ some now
    → IsMoment m
    → Separates delimiter s
    → ((time : ℤ)
        → IsNext world.clock e t time
        → (date : Tm) × (world.clock.localtime time ≡ some date))
    → IsSteady world.clock
    → IsExact world.clock
    → IsEveryMonth e
    → TellsDays world.clock e
    → world.clock.localtime (world.clock.mktime (calendar_at m now world.uninitialised)).1 ≡ some t
    → IsReal world.clock t
    → IsAfterEpoch world.clock t
    → IsReal world.clock d
    → Matches e d
    → rank t < rank d
    → Raisable world.clock t d
    → rank_bound ≤ fuel + rank t
    → Prints world cmd
        (IsNext world.clock e t)
        (Next.main fuel world (joined ws cmd ∷ extended delimiter m s ∷ []))
main-Next-Finds fuel world ws cmd current now m s delimiter schedule e t d line cut parse present_0
      present_1 h sep dates steady exact months tells start real after real_d match_d later raisable
      enough =
    let cur = (world.clock.mktime (calendar_at m now world.uninitialised)).1 in
    Ends-Prints fuel world ws cmd cur schedule e _
      (main-Next-Ends fuel world ws cmd current now m s delimiter line present_0 present_1 h sep)
      cut parse dates
      (cron_next-Finds world.clock 0 e fuel cur t d steady exact
        (parsed-IsWellFormed schedule e parse)
        (cut_schedule-IsLone schedule cmd (joined ws cmd) e cut parse) months tells start real after
        real_d match_d later raisable enough)
