-- ===== src/Tests/Ends.antt =====
-- The two programs around ccronexpr.c as a whole, and the routines around them, at concrete inputs.
use smart_device_svr.Base.{◌≡◌, ◌⊎◌, refl, inr, true, some, List, [], ◌∷◌, Bytes, codes, arith}
use smart_device_svr.Base.Int.{pos, negsuc}
use smart_device_svr.Calendar.{Tm}
use smart_device_svr.Calendar.Platform.{Library}
use smart_device_svr.Dates.Next.{cron_next}
use smart_device_svr.Programs.Words.{joined}
use smart_device_svr.Programs.Run.{World}
use smart_device_svr.Programs.Next
use smart_device_svr.Programs.Last
use smart_device_svr.Programs.Datetime.{strchr}
use smart_device_svr.Programs.Datetime.Written.{extended, calendar_at}
use smart_device_svr.Programs.Composed.{IsCronLine, Ends, main-Next-Ends}
use smart_device_svr.Programs.Printing.{
  print_time, double_long_to_string, double_long_to_string-print_time,
}
use smart_device_svr.Dates.Rank.{rank_bound}
use smart_device_svr.Expr.Parse.{cron_parse_expr}
use smart_device_svr.Expr.Range.{get_range}
use smart_device_svr.Programs.Answer.{Prints, main-Next-Prints}
use smart_device_svr.Text.{split_str, has_char}
use smart_device_svr.Text.Decimal.{to_string}
use smart_device_svr.Text.Number.{parse_uint}
use smart_device_svr.Tests.Forward.{thursday-IsNormal}
use smart_device_svr.Dates.Next.Answer.{IsAnswer}
use smart_device_svr.Dates.Next.Least.{IsNext}
use smart_device_svr.Programs.Finds.{main-Next-Finds}
use smart_device_svr.Tests.Exact.{thursday-IsReal, after_epoch}
use smart_device_svr.Tests.Workdays.{
  workdays, workdays-IsEveryMonth, workdays-TellsDays, workdays-DayTells, workdays-Matches, ten,
  ten-IsReal, ten-Raisable,
}
use smart_device_svr.Tests.Ideal.{ideal, ideal-IsSteady}
use smart_device_svr.Tests.IdealExact.{ideal-IsExact}
use smart_device_svr.Tests.Samples.{thursday, noon, noon-IsMoment}
use smart_device_svr.Tests.Utc.{utc}

-- A present on 20 September 2019 at 22:00, at both calls of `time`.
abbrev world : World
world = record {
  time = λ call. pos 1569016800;
  clock = utc;
  atof = λ string. pos 0;
  strftime = λ ts. codes "2019-02-08T22:00:00";
  uninitialised = thursday;
}

abbrev ws : List Bytes
ws = codes "0" ∷ codes "22" ∷ codes "*" ∷ codes "*" ∷ codes "mon" ∷ []

abbrev cmd : Bytes
cmd = codes "disable_wifi.sh"

abbrev current : Tm
current = record {
  tm_sec = pos 0;
  tm_min = pos 0;
  tm_hour = pos 22;
  tm_mday = pos 20;
  tm_mon = pos 8;
  tm_year = pos 119;
  tm_wday = pos 5;
  tm_isdst = pos 0;
}

ws-IsCronLine : IsCronLine ws cmd
unfolding joined
ws-IsCronLine = record {
  five = refl;
  words = (
    (refl, (refl, tt)),
    (
      (refl, (refl, (refl, tt))),
      ((refl, (refl, tt)), ((refl, (refl, tt)), ((refl, (refl, (refl, (refl, tt)))), tt))),
    ),
  );
  command = refl;
  fits = omega arith;
}

main-Next-Ends_example :
    Ends world world.clock.localtime
      (cron_next world.clock 50)
      ws
      cmd
      (record {
        use_iso8601_datetime_format = true;
        cur = (world.clock.mktime (calendar_at noon current thursday)).1;
      })
      (Next.main 50 world (joined ws cmd ∷ extended b'T' noon [] ∷ []))
main-Next-Ends_example =
    main-Next-Ends 50 world ws cmd current current noon [] b'T' ws-IsCronLine refl refl
      noon-IsMoment (inr (refl, unfold strchr in refl))

double_long_to_string-print_time_example :
    double_long_to_string 40 (pos 1569034800) ≡ some (print_time (pos 1569034800))
double_long_to_string-print_time_example =
    double_long_to_string-print_time 40 (pos 1569034800) (omega arith) (omega arith, omega arith)

-- A library whose functions know UTC alone.
abbrev library : Library
library = record {
  mktime = λ tz tm. utc.mktime tm;
  mkgmtime_windows = utc.mktime;
  mk_gmtime = utc.mktime;
  timegm64 = utc.mktime;
  timegm = utc.mktime;
  gmtime = utc.gmtime;
  gmtime_s = λ date. (thursday, 1);
  gmtime_r = utc.gmtime;
  gmtime_r_avr = λ date. thursday;
  localtime_s = λ date. (thursday, 1);
  localtime_r = utc.localtime;
  localtime_r_avr = λ date. thursday;
  width = 32;
}

-- The same present on a clock that only moves forward.
abbrev forward : World
forward = record world { clock = ideal }

-- A line for the working days.
abbrev working_days : List Bytes
working_days = codes "0" ∷ codes "22" ∷ codes "*" ∷ codes "*" ∷ codes "1-5" ∷ []

working_days-IsCronLine : IsCronLine working_days cmd
unfolding joined
working_days-IsCronLine = record {
  five = refl;
  words = (
    (refl, (refl, tt)),
    (
      (refl, (refl, (refl, tt))),
      ((refl, (refl, tt)), ((refl, (refl, tt)), ((refl, (refl, (refl, (refl, tt)))), tt))),
    ),
  );
  command = refl;
  fits = omega arith;
}

main-Next-Finds_example :
    Prints forward cmd
      (IsNext ideal workdays thursday)
      (Next.main rank_bound forward (joined working_days cmd ∷ extended b'T' noon [] ∷ []))
unfolding joined cron_parse_expr split_str has_char get_range parse_uint to_string
main-Next-Finds_example =
    main-Next-Finds rank_bound forward working_days cmd thursday thursday noon [] b'T'
      (codes "0 0 22 * * 1-5") workdays thursday ten working_days-IsCronLine refl refl refl refl
      noon-IsMoment (inr (refl, unfold strchr in refl)) (λ time answers. (thursday, refl))
      ideal-IsSteady ideal-IsExact workdays-IsEveryMonth workdays-TellsDays refl thursday-IsReal
      (after_epoch thursday) ten-IsReal workdays-Matches (omega arith) ten-Raisable (omega arith)

main-Next-Prints_example :
    Prints forward cmd
      (λ time. (time ≡ negsuc 0) ⊎ IsAnswer ideal workdays thursday time)
      (Next.main rank_bound forward (joined working_days cmd ∷ extended b'T' noon [] ∷ []))
unfolding joined cron_parse_expr split_str has_char get_range parse_uint to_string
main-Next-Prints_example =
    main-Next-Prints rank_bound forward working_days cmd thursday thursday noon [] b'T'
      (codes "0 0 22 * * 1-5") workdays thursday working_days-IsCronLine refl refl refl refl
      noon-IsMoment (inr (refl, unfold strchr in refl)) (λ time answers. (thursday, refl))
      ideal-IsSteady workdays-DayTells refl thursday-IsNormal (omega arith)
