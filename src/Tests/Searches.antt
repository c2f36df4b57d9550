-- ===== src/Tests/Searches.antt =====
-- The searches of ccronexpr.c at concrete inputs.
use smart_device_svr.Base.{◌≡◌, refl, some, [], ◌∷◌, arith}
use smart_device_svr.Base.Int.{pos, ◌+ℤ◌}
use smart_device_svr.Bitset.{member, next_set_bit, prev_set_bit, cron_get_bit, next_set_from}
use smart_device_svr.Calendar.{
  add_to_field, reset_min, reset_max, set_field, reset_all_min, reset_all_max, cron_mktime, settle,
}
use smart_device_svr.Calendar.Fields.{push_to_fields_arr, fill_first, has_field, same_field}
use smart_device_svr.Dates.Steps.{time_of, day_mismatch}
use smart_device_svr.Dates.Next.{
  find_next, cron_next, next_of, find_next_day, find_next_day_from, roll_over,
}
use smart_device_svr.Dates.Prev.{
  find_prev, cron_prev, prev_of, find_prev_day, find_prev_day_from, roll_under,
}
use smart_device_svr.Dates.Next
use smart_device_svr.Dates.Match.{Matches}
use smart_device_svr.Dates.Next.Fixed.{do_next-Matches}
use smart_device_svr.Dates.Prev.Fixed.{do_prev-Matches}
use smart_device_svr.Calendar.{Tm}
use smart_device_svr.Expr.Parse.Laws.{IsSized}
use smart_device_svr.Dates.Prev
use smart_device_svr.Expr.{CronExpr, zeroed}
use smart_device_svr.Tests.Samples.{line_expr, thursday}
use smart_device_svr.Tests.Utc.{utc}
use smart_device_svr.Tests.Ideal.{ideal, number}
use smart_device_svr.Tests.Workdays.{workdays, ten}

-- A Thursday in March, at half past two.
abbrev matching : Tm
matching = record thursday { tm_mon = pos 2 }

line_expr-IsSized : IsSized line_expr
line_expr-IsSized = record {
  seconds_size = record { size = refl; bytes = omega arith };
  minutes_size = record { size = refl; bytes = omega arith };
  hours_size = record { size = refl; bytes = omega arith };
  days_of_week_size = record { size = refl; bytes = omega arith };
  days_of_month_size = record { size = refl; bytes = omega arith };
  months_size = record { size = refl; bytes = omega arith };
}

matching-Matches : Matches line_expr matching
unfolding member
matching-Matches = record {
  second_within = omega arith;
  second_in = refl;
  minute_within = omega arith;
  minute_in = refl;
  hour_within = omega arith;
  hour_in = refl;
  mday_within = omega arith;
  mday_in = refl;
  wday_within = omega arith;
  wday_in = refl;
  month_within = omega arith;
  month_in = refl;
}

do_next-Matches_example : Next.do_next utc 1 line_expr 125 matching ≡ some (matching, some tt)
do_next-Matches_example =
    do_next-Matches utc line_expr matching line_expr-IsSized matching-Matches 0 125

do_prev-Matches_example : Prev.do_prev utc 1 line_expr 125 matching ≡ some (matching, some tt)
do_prev-Matches_example =
    do_prev-Matches utc line_expr matching line_expr-IsSized matching-Matches 0 125

-- At ten at night on weekdays.
abbrev weekday_evening : CronExpr
weekday_evening = record zeroed {
  seconds = 1 ∷ 0 ∷ 0 ∷ 0 ∷ 0 ∷ 0 ∷ 0 ∷ 0 ∷ [];
  minutes = 1 ∷ 0 ∷ 0 ∷ 0 ∷ 0 ∷ 0 ∷ 0 ∷ 0 ∷ [];
  hours = 0 ∷ 0 ∷ 64 ∷ [];
  days_of_week = 62 ∷ [];
  days_of_month = 254 ∷ 255 ∷ 255 ∷ 255 ∷ [];
  months = 255 ∷ 15 ∷ [];
}

cron_next_run : cron_next utc 50 (some weekday_evening) (pos 1569016800) ≡ some (pos 1569276000)
unfolding cron_next next_of time_of Next.do_next Next.search_round Next.search_minute
    Next.search_hour Next.search_day Next.search_month find_next next_set_bit find_next_day
    find_next_day_from day_mismatch Next.search_again add_to_field ◌+ℤ◌ roll_over reset_min
    Next.write_value set_field reset_all_min push_to_fields_arr cron_get_bit next_set_from
    fill_first has_field same_field cron_mktime settle
cron_next_run = refl

-- The first evening of a working day on the clock that carries.
ideal_run : cron_next ideal 50 (some workdays) (pos 1763044200) ≡ some (pos (number ten))
unfolding cron_next next_of time_of Next.do_next Next.search_round Next.search_minute
    Next.search_hour Next.search_day Next.search_month find_next next_set_bit find_next_day
    find_next_day_from day_mismatch Next.search_again add_to_field ◌+ℤ◌ roll_over reset_min
    Next.write_value set_field reset_all_min push_to_fields_arr cron_get_bit next_set_from
    fill_first has_field same_field cron_mktime settle
ideal_run = refl

cron_prev_run : cron_prev utc 50 (some weekday_evening) (pos 1569016800) ≡ some (pos 1568930400)
unfolding cron_prev prev_of time_of Prev.do_prev Prev.search_round Prev.search_minute
    Prev.search_hour Prev.search_day Prev.search_month find_prev prev_set_bit find_prev_day
    find_prev_day_from day_mismatch Prev.search_again add_to_field ◌+ℤ◌ roll_under reset_max
    Prev.write_value set_field reset_all_max push_to_fields_arr
cron_prev_run = refl

-- At three in the afternoon of Fridays the 13th: from Thursday, 13 November 2025, at that hour, the
-- search goes to midnight of the right day, as it compares the numbers of two days alone.
abbrev friday_13 : CronExpr
friday_13 = record zeroed {
  seconds = 1 ∷ 0 ∷ 0 ∷ 0 ∷ 0 ∷ 0 ∷ 0 ∷ 0 ∷ [];
  minutes = 1 ∷ 0 ∷ 0 ∷ 0 ∷ 0 ∷ 0 ∷ 0 ∷ 0 ∷ [];
  hours = 0 ∷ 128 ∷ 0 ∷ [];
  days_of_week = 32 ∷ [];
  days_of_month = 0 ∷ 32 ∷ 0 ∷ 0 ∷ [];
  months = 255 ∷ 15 ∷ [];
}

cron_next_midnight : cron_next utc 50 (some friday_13) (pos 1763046000) ≡ some (pos 1770940800)
unfolding cron_next next_of time_of Next.do_next Next.search_round Next.search_minute
    Next.search_hour Next.search_day Next.search_month find_next next_set_bit find_next_day
    find_next_day_from day_mismatch Next.search_again add_to_field ◌+ℤ◌ roll_over reset_min
    Next.write_value set_field reset_all_min push_to_fields_arr cron_get_bit next_set_from
    fill_first has_field same_field cron_mktime settle
cron_next_midnight = refl

-- At midnight of every day of February: from 31 January 2025 the search goes to February 2026, as the
-- month is written before the day, and the 31st of February is a day of March.
abbrev pub february : CronExpr
february = record zeroed {
  seconds = 1 ∷ 0 ∷ 0 ∷ 0 ∷ 0 ∷ 0 ∷ 0 ∷ 0 ∷ [];
  minutes = 1 ∷ 0 ∷ 0 ∷ 0 ∷ 0 ∷ 0 ∷ 0 ∷ 0 ∷ [];
  hours = 1 ∷ 0 ∷ 0 ∷ [];
  days_of_week = 127 ∷ [];
  days_of_month = 254 ∷ 255 ∷ 255 ∷ 255 ∷ [];
  months = 2 ∷ 0 ∷ [];
}

cron_next_skips_year : cron_next utc 50 (some february) (pos 1738281600) ≡ some (pos 1769904000)
unfolding cron_next next_of time_of Next.do_next Next.search_round Next.search_minute
    Next.search_hour Next.search_day Next.search_month find_next next_set_bit find_next_day
    find_next_day_from day_mismatch Next.search_again add_to_field ◌+ℤ◌ roll_over reset_min
    Next.write_value set_field reset_all_min push_to_fields_arr cron_get_bit next_set_from
    fill_first has_field same_field cron_mktime settle
cron_next_skips_year = refl

-- At midnight of Fridays the 13th: from Saturday, 14 August 1999, the day loop ends after 366 days, on
-- the same day number, and the answer is Monday, 14 August 2000.
abbrev friday_13_midnight : CronExpr
friday_13_midnight = record friday_13 { hours = 1 ∷ 0 ∷ 0 ∷ [] }

cron_next_monday : cron_next utc 50 (some friday_13_midnight) (pos 934588800) ≡ some (pos 966211200)
unfolding cron_next next_of time_of Next.do_next Next.search_round Next.search_minute
    Next.search_hour Next.search_day Next.search_month find_next next_set_bit find_next_day
    find_next_day_from day_mismatch Next.search_again add_to_field ◌+ℤ◌ roll_over reset_min
    Next.write_value set_field reset_all_min push_to_fields_arr cron_get_bit next_set_from
    fill_first has_field same_field cron_mktime settle
cron_next_monday = refl
