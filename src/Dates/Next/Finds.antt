-- ===== src/Dates/Next/Finds.antt =====
-- `cron_next` of ccronexpr.c finds a date where there is one.
use smart_device_svr.Base.{ℕ, ◌+◌, ◌≤◌, ◌<◌, ◌≡◌, inl, inr, false, some, Returns}
use smart_device_svr.Base.Int.{ℤ, pos}
use smart_device_svr.Calendar.{Tm, Clock, Field, added, cron_mktime, is_invalid}
use smart_device_svr.Calendar.Fields.{code_of}
use smart_device_svr.Dates.Exact.{IsReal, IsExact, IsAfterEpoch, IsLone}
use smart_device_svr.Dates.Match.{Matches}
use smart_device_svr.Dates.Rank.{rank, rank_bound}
use smart_device_svr.Dates.Steady.{IsSteady}
use smart_device_svr.Dates.Next.{cron_next}
use smart_device_svr.Dates.Next.Least.{IsEveryMonth, IsNext, cron_next-Least}
use smart_device_svr.Dates.Next.Progress.{TellsDays}
use smart_device_svr.Expr.{CronExpr}
use smart_device_svr.Expr.Parse.Total.{IsWellFormed}

-- `mktime` gives a time where a second, a minute, an hour or a day is raised, from the one date up to
-- the other.
abbrev pub Raisable : Clock → Tm → Tm → Type 0
Raisable c t d =
    (u : Tm) (f : Field)
    → IsReal c u
    → rank t ≤ rank u
    → rank u ≤ rank d
    → code_of f < 5
    → is_invalid (cron_mktime c (added f (pos 1) u)).1 ≡ false

-- For a clock that only moves forward, as `IsSteady` says, and has no gaps, as `IsExact` says, an
-- expression as the parser leaves it, of one second and every month, for which the search of a day
-- ends on the day number where it began only if it did not move, a date for which `localtime_r`
-- gives a calendar that exists and lies after the epoch, a later date of the expression that exists,
-- up to which `mktime` gives a time for each field that is raised, and fuel for every later calendar:
-- `cron_next` ends, with no access outside an array and without an error, with the time of the very
-- first date of the expression that exists and is later than the calendar of the start.
pub cron_next-Finds :
    (c : Clock) (s : ℕ) (e : CronExpr) (fuel : ℕ) (date : ℤ) (t d : Tm)
    → IsSteady c
    → IsExact c
    → IsWellFormed e
    → IsLone s e
    → IsEveryMonth e
    → TellsDays c e
    → c.localtime date ≡ some t
    → IsReal c t
    → IsAfterEpoch c t
    → IsReal c d
    → Matches e d
    → rank t < rank d
    → Raisable c t d
    → rank_bound ≤ fuel + rank t
    → Returns (cron_next c fuel (some e) date) (IsNext c e t)
cron_next-Finds c s e fuel date t d steady exact w lone months tells start real after real_d match_d
      later raisable enough =
    let (time, run, answers) =
      cron_next-Least c s e fuel date t steady exact w lone months tells start real after enough in
    elim answers [
      | inl (_, (u, within, refused)) ↦
          let valid =
            raisable u refused.field within.real within.no_earlier
              (within.first d real_d match_d later) refused.low in
          let not_valid = refused.refused in absurd (cc)
      | inr next ↦ (time, run, next)
    ]
