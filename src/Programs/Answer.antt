-- ===== src/Programs/Answer.antt =====
-- The next-date program with the parser and the search.
use mathlib.Core.List.{append_cancel_right}
use mathlib.Core.Option.{some-injective}
use smart_device_svr.Base.{
  ℕ, ◌+◌, ◌≤◌, ◌≡◌, ◌∙◌, refl, sym, subst, ap, ◌⊎◌, true, Option, none, some, List, [], ◌∷◌, ◌++◌,
  Bytes, codes, Returns,
}
use smart_device_svr.Base.Int.{ℤ, negsuc}
use smart_device_svr.Calendar.{Tm}
use smart_device_svr.Dates.Rank.{IsNormal, rank, rank_bound}
use smart_device_svr.Dates.Steady.{IsSteady}
use smart_device_svr.Dates.Next.{cron_next}
use smart_device_svr.Dates.Next.Progress.{DayTells}
use smart_device_svr.Dates.Next.Answer.{IsAnswer, cron_next-Sound}
use smart_device_svr.Expr.{CronExpr, zeroed}
use smart_device_svr.Expr.Parse.{cron_parse_expr}
use smart_device_svr.Expr.Parse.Total.{IsWellFormed, cron_parse_expr-IsWellFormed}
use smart_device_svr.Programs.Words.{joined}
use smart_device_svr.Programs.Datetime.Delimiter.{Separates}
use smart_device_svr.Programs.Datetime.Written.{Moment, IsMoment, extended, calendar_at}
use smart_device_svr.Programs.Run.{World, Finished}
use smart_device_svr.Programs.Next
use smart_device_svr.Programs.Composed.{IsCronLine, Ends, main-Next-Ends}

-- The program prints, in front of the command, the date of a time for which `Answers` holds.
pub record Prints (world : World) (cmd : Bytes) (Answers : ℤ → Type 0) (end : Option Finished)
    : Type 0 where
  pub time : ℤ
  pub date : Tm
  pub is_date : world.clock.localtime time ≡ some date
  pub answers : Answers time
  pub printed :
      end ≡ some (record { status = 0; output = world.strftime date ++ (b' ' ∷ cmd ++ b'\n' ∷ []) })

pub parsed-IsWellFormed :
    (schedule : Bytes) (e : CronExpr)
    → cron_parse_expr (some schedule) (some zeroed)
      ≡ some (record { target = some e; error = none })
    → IsWellFormed e
parsed-IsWellFormed schedule e parse =
    let (e', same, w) =
      cron_parse_expr-IsWellFormed schedule zeroed (record { target = some e; error = none }) parse
        refl in
    subst (λ x. IsWellFormed x) (sym (some-injective e e' same)) w

-- The run of the program, where it is known how the search answers.
pub Ends-Prints :
    {Answers : ℤ → Type 0} (fuel : ℕ) (world : World) (ws : List Bytes) (cmd : Bytes) (cur : ℤ)
    (schedule : Bytes) (e : CronExpr) (end : Option Finished)
    → Ends world world.clock.localtime
        (cron_next world.clock fuel)
        ws
        cmd
        (record { use_iso8601_datetime_format = true; cur = cur })
        end
    → schedule ++ b' ' ∷ cmd ≡ codes "0 " ++ joined ws cmd
    → cron_parse_expr (some schedule) (some zeroed)
      ≡ some (record { target = some e; error = none })
    → ((time : ℤ) → Answers time → (date : Tm) × (world.clock.localtime time ≡ some date))
    → Returns (cron_next world.clock fuel (some e) cur) Answers
    → Prints world cmd Answers end
Ends-Prints fuel world ws cmd cur schedule e end ends cut parse dates (time, answered, answers) =
    let (date, is_date) = dates time answers in
    let same_schedule : ends.schedule ≡ schedule =
      append_cancel_right ends.schedule schedule (b' ' ∷ cmd) (ends.cut ∙ sym cut) in
    let same : ends.parsed ≡ record { target = some e; error = none } =
      some-injective ends.parsed _
        (sym ends.parse ∙ ap (λ s. cron_parse_expr (some s) (some zeroed)) same_schedule ∙ parse) in
    record {
      time = time;
      date = date;
      is_date = is_date;
      answers = answers;
      printed = ends.result ∙ rw (same, answered, is_date) refl;
    }

-- For a line of five words and a command that fit the buffers, of which the words parse without a
-- message behind a field 0, and a starting time written as an ISO 8601 date and time from 1900 to
-- 2038; for a clock that only moves forward, as `IsSteady` says, an expression for which the search of
-- a day from a date that exists ends on the day number where it began only if it did not move, a
-- starting time with a calendar within the ranges, fuel for every later calendar, and where
-- `localtime_r` gives a calendar for the time -1 and for every time that can be the answer: the
-- next-date program ends with status 0 and prints, in front of the command, the date of a time that
-- `mktime` makes of a date that exists, matches the expression and is no earlier than the one of the
-- start, or the date of the time -1.
pub main-Next-Prints :
    (fuel : ℕ) (world : World) (ws : List Bytes) (cmd : Bytes) (current now : Tm) (m : Moment)
    (s : Bytes) (delimiter : ℕ) (schedule : Bytes) (e : CronExpr) (t : Tm)
    → IsCronLine ws cmd
    → schedule ++ b' ' ∷ cmd ≡ codes "0 " ++ joined ws cmd
    → cron_parse_expr (some schedule) (some zeroed)
      ≡ some (record { target = some e; error = none })
    → world.clock.localtime (world.time 0) ≡ some current
    → world.clock.localtime (world.time 1) ≡ some now
    → IsMoment m
    → Separates delimiter s
    → ((time : ℤ)
        → (time ≡ negsuc 0) ⊎ IsAnswer world.clock e t time
        → (date : Tm) × (world.clock.localtime time ≡ some date))
    → IsSteady world.clock
    → DayTells world.clock e
    → world.clock.localtime (world.clock.mktime (calendar_at m now world.uninitialised)).1 ≡ some t
    → IsNormal t
    → rank_bound ≤ fuel + rank t
    → Prints world cmd
        (λ time. (time ≡ negsuc 0) ⊎ IsAnswer world.clock e t time)
        (Next.main fuel world (joined ws cmd ∷ extended delimiter m s ∷ []))
main-Next-Prints fuel world ws cmd current now m s delimiter schedule e t line cut parse present_0
      present_1 h sep dates steady tells start n enough =
    let cur = (world.clock.mktime (calendar_at m now world.uninitialised)).1 in
    Ends-Prints fuel world ws cmd cur schedule e _
      (main-Next-Ends fuel world ws cmd current now m s delimiter line present_0 present_1 h sep)
      cut parse dates
      (cron_next-Sound world.clock e fuel cur t steady (parsed-IsWellFormed schedule e parse) tells
        start n enough)
